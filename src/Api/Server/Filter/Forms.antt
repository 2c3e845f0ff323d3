-- ===== src/Api/Server/Filter/Forms.antt =====
-- The names of a form in lower case, in requestFilter of app/api/server.go.
use idena_indexer_api.Prelude.{
  ◌≡◌, refl, sym, ap, ◌∙◌, inl, inr, none, some, List, [], ◌∷◌, All, Any, if◌then◌else◌, arith,
  Bool-cases, Option-cases,
}
use idena_indexer_api.Prelude.Text.{Text, text_eq, text_eq_iff, to_lower, to_lower_idem}
use idena_indexer_api.Prelude.Assoc.{find, find-insert}
use idena_indexer_api.Api.Server.Filter.{Form, add_lower_name, add_lower_names}

-- The name differs from the others in more than the case of letters.
abbrev pub IsApart : Text → Text → Type 0
IsApart name n = to_lower n ≡ to_lower name → n ≡ name

find-add_lower_name :
    (form : Form) (n k : Text)
    → find (add_lower_name form n) k ≡ elim (find form n) [
      | none ↦ find form k
      | some w ↦ if text_eq (to_lower n) k then some w else find form k
    ]
unfolding add_lower_name
find-add_lower_name form n k = elim (Option-cases (find form n)) [
  | inl e ↦ rw (e, add_lower_name) refl
  | inr (w, e) ↦ rw (e, add_lower_name) (find-insert form (to_lower n) w k)
]

-- A name that another one is in lower case is that name in lower case.
lower_of_eq : (n name : Text) → to_lower n ≡ name → to_lower n ≡ to_lower name
lower_of_eq n name e = sym (ap to_lower (sym e) ∙ to_lower_idem n)

find_name-add_lower_name :
    (form : Form) (name n : Text) (values : List Text)
    → IsApart name n
    → find form name ≡ some values
    → find (add_lower_name form n) name ≡ some values
find_name-add_lower_name form name n values apart e =
    elim (Bool-cases (text_eq (to_lower n) name)) [
      | inl same ↦
          let lower = (text_eq_iff (to_lower n) name).0 same in
          let equal = apart (lower_of_eq n name lower) in
          ground (arith, find-add_lower_name form n name, ap (find form) equal)
      | inr other ↦ ground (arith, find-add_lower_name form n name)
    ]

find_lower-add_lower_name :
    (form : Form) (name n : Text) (values : List Text)
    → IsApart name n
    → find form name ≡ some values
    → find (add_lower_name form n) (to_lower name)
      ≡ (if text_eq n name then some values else find form (to_lower name))
find_lower-add_lower_name form name n values apart e = elim (Bool-cases (text_eq n name)) [
  | inl same ↦
      let equal = (text_eq_iff n name).0 same in
      ground (
        arith,
        find-add_lower_name form n (to_lower name),
        ap (find form) equal,
        ap to_lower equal,
        text_eq_iff (to_lower n) (to_lower name),
      )
  | inr other ↦ elim (Bool-cases (text_eq (to_lower n) (to_lower name))) [
    | inl q ↦
        absurd (
          ground
            (arith, apart ((text_eq_iff (to_lower n) (to_lower name)).0 q), text_eq_iff n name))
    | inr q ↦ ground (arith, find-add_lower_name form n (to_lower name))
  ]
]

lower_name_stays :
    (names : List Text) (form : Form) (name : Text) (values : List Text)
    → All (IsApart name) names
    → find form name ≡ some values
    → find form (to_lower name) ≡ some values
    → find (add_lower_names names form) (to_lower name) ≡ some values
unfolding add_lower_names
lower_name_stays [] form name values h e f = f
lower_name_stays (n ∷ names) form name values (apart, h) e f =
    lower_name_stays names (add_lower_name form n) name values h
      (find_name-add_lower_name form name n values apart e)
      (ground (arith, find_lower-add_lower_name form name n values apart e))

-- In whatever order the names of a form are visited, a name among them, which no other name equals up
-- to the case of letters, is found in lower case afterwards, with its values.
pub find-add_lower_names :
    (names : List Text) (form : Form) (name : Text) (values : List Text)
    → All (IsApart name) names
    → Any (λ n. n ≡ name) names
    → find form name ≡ some values
    → find (add_lower_names names form) (to_lower name) ≡ some values
unfolding add_lower_names
find-add_lower_names [] form name values h m e = absurd m
find-add_lower_names (n ∷ names) form name values (apart, h) (inl same) e =
    lower_name_stays names (add_lower_name form n) name values h
      (find_name-add_lower_name form name n values apart e)
      (ground (arith, find_lower-add_lower_name form name n values apart e, text_eq_iff n name))
find-add_lower_names (n ∷ names) form name values (apart, h) (inr m) e =
    find-add_lower_names names (add_lower_name form n) name values h m
      (find_name-add_lower_name form name n values apart e)
