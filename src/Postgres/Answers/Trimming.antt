-- ===== src/Postgres/Answers/Trimming.antt =====
-- What epochIdentityAnswers of app/db/postgres/epoch_identity.go returns.
use idena_indexer_api.Prelude.{
  ℕ, zero, suc, ◌≤◌, ◌≡◌, refl, sym, ap, ◌∙◌, inl, inr, true, false, some, List, [], ◌∷◌, ◌++◌, map,
  append-nil, append_assoc, arith, ltb, length, All, All-append, Bool-cases, length-append,
  get_last, take_but_last, List-snoc,
}
use mathlib.Core.List.{Perm}
use mathlib.Core.List.Perm
use idena_indexer_api.Prelude.Text.{codes, text_eq_iff}
use idena_indexer_api.Prelude.Result.{ok}
use idena_indexer_api.Monitoring.Sorting.{insert_by, sort_by}
use idena_indexer_api.Postgres.Answers.{
  Answer, less, is_dropped, drops_last, trim, read_answers, epoch_identity_answers,
}

module _ {Rest : Type 0} where
  -- The identity gave no answer, and none was asked of it.
  abbrev pub Unanswered : Answer Rest → Type 0
  Unanswered a = (a.considered ≡ false) × (a.resp_answer ≡ codes "None")

  abbrev pub IsOrdered : List (Answer Rest) → Type 0
  IsOrdered [] = Unit
  IsOrdered (a ∷ rest) = All (λ b. a.index ≤ b.index) rest × IsOrdered rest

  is_dropped-Unanswered : (a : Answer Rest) → is_dropped a ≡ true → Unanswered a
  unfolding is_dropped
  is_dropped-Unanswered a h = ground (arith, text_eq_iff a.resp_answer (codes "None"))

  Unanswered-is_dropped : (a : Answer Rest) → is_dropped a ≡ false → ¬ Unanswered a
  unfolding is_dropped
  Unanswered-is_dropped a h u = ground (arith, text_eq_iff a.resp_answer (codes "None"))

  -- The last answer, if there is one, is not so.
  abbrev pub LastAnswered : List (Answer Rest) → Type 0
  LastAnswered [] = Unit
  LastAnswered (a ∷ []) = ¬ Unanswered a
  LastAnswered (a ∷ b ∷ rest) = LastAnswered (b ∷ rest)

  -- What `sorted` has and `res` has not was unanswered and stood at the end, and the last one left is
  -- not so.
  pub record Trims (sorted res : List (Answer Rest)) : Type 0 where
    pub dropped : List (Answer Rest)
    pub splits : sorted ≡ res ++ dropped
    pub unanswered : All Unanswered dropped
    pub ends : LastAnswered res

  LastAnswered-append :
      (before : List (Answer Rest)) (a : Answer Rest)
      → ¬ Unanswered a
      → LastAnswered (before ++ a ∷ [])
  LastAnswered-append [] a h = h
  LastAnswered-append (b ∷ []) a h = h
  LastAnswered-append (b ∷ c ∷ before) a h = LastAnswered-append (c ∷ before) a h

  drops_last_snoc :
      (before : List (Answer Rest)) (a : Answer Rest) → drops_last (before ++ a ∷ []) ≡ is_dropped a
  unfolding drops_last
  drops_last_snoc before a = rw (get_last before a, drops_last) refl

  trim_empty : (n : ℕ) → trim {Rest = Rest} n [] ≡ []
  unfolding trim
  trim_empty zero = refl
  trim_empty (suc n) = refl

  Trims-empty : Trims [] []
  Trims-empty = record { dropped = []; splits = refl; unanswered = tt; ends = tt }

  Trims-kept :
      (before : List (Answer Rest)) (a : Answer Rest)
      → is_dropped a ≡ false
      → Trims (before ++ a ∷ []) (before ++ a ∷ [])
  Trims-kept before a h = record {
    dropped = [];
    splits = sym (append-nil (before ++ a ∷ []));
    unanswered = tt;
    ends = LastAnswered-append before a (Unanswered-is_dropped a h);
  }

  Trims-dropped :
      (before : List (Answer Rest)) (a : Answer Rest) {res : List (Answer Rest)}
      → is_dropped a ≡ true
      → Trims before res
      → Trims (before ++ a ∷ []) res
  Trims-dropped before a {res} h t = record {
    dropped = t.dropped ++ a ∷ [];
    splits = ap (λ l. l ++ a ∷ []) t.splits ∙ append_assoc res t.dropped (a ∷ []);
    unanswered =
        All-append Unanswered t.dropped (a ∷ []) t.unanswered (is_dropped-Unanswered a h, tt);
    ends = t.ends;
  }

  trim_drops :
      (n : ℕ) (before : List (Answer Rest)) (a : Answer Rest)
      → is_dropped a ≡ true
      → trim (suc n) (before ++ a ∷ []) ≡ trim n before
  unfolding trim
  trim_drops n before a h = rw (drops_last_snoc before a ∙ h, take_but_last before a, trim) refl

  trim_keeps :
      (n : ℕ) (before : List (Answer Rest)) (a : Answer Rest)
      → is_dropped a ≡ false
      → trim (suc n) (before ++ a ∷ []) ≡ before ++ a ∷ []
  unfolding trim
  trim_keeps n before a h = rw (drops_last_snoc before a ∙ h, trim) refl

  -- As many rounds as answers are enough.
  trim-Trims : (n : ℕ) (xs : List (Answer Rest)) → length xs ≤ n → Trims xs (trim n xs)
  unfolding trim
  trim-Trims n [] h = rw (trim_empty n) Trims-empty
  trim-Trims zero (x ∷ xs) h = absurd (omega arith)
  trim-Trims (suc n) (x ∷ xs) h = elim (List-snoc (x ∷ xs)) [
    | inl e ↦ absurd (omega (arith, ap length e))
    | inr (before, a, e) ↦ rw e (elim (Bool-cases (is_dropped a)) [
      | inl drop ↦ rw (trim_drops n before a drop) (
          Trims-dropped before a drop
            (trim-Trims n before (omega (arith, ap length e, length-append before (a ∷ [])))))
      | inr keep ↦ rw (trim_keeps n before a keep) (Trims-kept before a keep)
    ])
  ]

  insert_by-All :
      (k : ℕ) (a : Answer Rest) (xs : List (Answer Rest))
      → k ≤ a.index
      → All (λ b. k ≤ b.index) xs
      → All (λ b. k ≤ b.index) (insert_by less a xs)
  unfolding insert_by less
  insert_by-All k a [] h hs = (h, tt)
  insert_by-All k a (x ∷ xs) h (g, hs) = ground (arith, insert_by-All k a xs h hs)

  All-weaker :
      (k m : ℕ) (xs : List (Answer Rest))
      → k ≤ m
      → All (λ b. m ≤ b.index) xs
      → All (λ b. k ≤ b.index) xs
  All-weaker k m [] h hs = tt
  All-weaker k m (x ∷ xs) h (g, hs) = (omega arith, All-weaker k m xs h hs)

  insert_by-IsOrdered :
      (a : Answer Rest) (xs : List (Answer Rest)) → IsOrdered xs → IsOrdered (insert_by less a xs)
  unfolding insert_by less
  insert_by-IsOrdered a [] s = (tt, tt)
  insert_by-IsOrdered a (x ∷ xs) (h, s) = elim (Bool-cases (ltb a.index x.index)) [
    | inl p ↦ ground (arith, All-weaker a.index x.index xs)
    | inr p ↦ ground (arith, insert_by-All x.index a xs, insert_by-IsOrdered a xs s)
  ]

  sort_by-IsOrdered : (xs : List (Answer Rest)) → IsOrdered (sort_by less xs)
  unfolding sort_by
  sort_by-IsOrdered [] = tt
  sort_by-IsOrdered (a ∷ xs) = insert_by-IsOrdered a (sort_by less xs) (sort_by-IsOrdered xs)

  insert_by-perm : (a : Answer Rest) (xs : List (Answer Rest)) → Perm (insert_by less a xs) (a ∷ xs)
  unfolding insert_by
  insert_by-perm a [] = Perm.rfl
  insert_by-perm a (x ∷ xs) = elim (Bool-cases (less a x)) [
    | inl before ↦ rw before Perm.rfl
    | inr behind ↦ rw behind (Perm.trans (Perm.cons x (insert_by-perm a xs)) (Perm.swap a x xs))
  ]

  sort_by-perm : (xs : List (Answer Rest)) → Perm (sort_by less xs) xs
  unfolding sort_by
  sort_by-perm [] = Perm.rfl
  sort_by-perm (a ∷ xs) =
      Perm.trans (insert_by-perm a (sort_by less xs)) (Perm.cons a (sort_by-perm xs))

  read_answers-map : (xs : List (Answer Rest)) → read_answers (map (λ a. some a) xs) ≡ ok xs
  unfolding read_answers
  read_answers-map [] = refl
  read_answers-map (a ∷ xs) = rw (read_answers-map xs) refl

  -- The short answers of an identity, whose rows Scan reads, are returned by index, less those
  -- behind the last one that was considered or is not "None".
  pub epoch_identity_answers-short :
      (answers : List (Answer Rest))
      → (sorted : List (Answer Rest)) × (res : List (Answer Rest)) × (epoch_identity_answers
            (ok (map (λ a. some a) answers))
            true
          ≡ ok res)
        × Perm sorted answers
        × IsOrdered sorted
        × Trims sorted res
  unfolding epoch_identity_answers
  epoch_identity_answers-short answers = (
    sort_by less answers,
    trim (length (sort_by less answers)) (sort_by less answers),
    rw (read_answers-map answers) refl,
    sort_by-perm answers,
    sort_by-IsOrdered answers,
    trim-Trims (length (sort_by less answers)) (sort_by less answers) (omega arith),
  )
