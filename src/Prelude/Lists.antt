-- ===== src/Prelude/Lists.antt =====
-- Lists measured and cut by native numbers, under the library's names.
use Prim.Native.Nat.{ℕ, zero, suc, ◌+◌, ◌-◌, ◌≤◌, min}
use mathlib.Core.Path.{◌≡◌, refl, sym, ap, ◌∙◌, subst}
use mathlib.Core.Logic.{◌⊎◌, inl, inr}
use mathlib.Core.Option.{Option, none, some}
use mathlib.Core.List.{List, [], ◌∷◌, ◌++◌, map}
use native.Mathlib.Omega.{arith}

module _ {ℓ} {A : Type ℓ} where
  abbrev pub length : List A → ℕ
  length [] = 0
  length (x ∷ xs) = suc (length xs)

  abbrev pub take : ℕ → List A → List A
  take zero xs = []
  take (suc n) [] = []
  take (suc n) (x ∷ xs) = x ∷ take n xs

  abbrev pub drop : ℕ → List A → List A
  drop zero xs = xs
  drop (suc n) [] = []
  drop (suc n) (x ∷ xs) = drop n xs

  abbrev pub get_elem? : List A → ℕ → Option A
  get_elem? [] i = none
  get_elem? (x ∷ xs) zero = some x
  get_elem? (x ∷ xs) (suc i) = get_elem? xs i

  abbrev pub All : (A → Type 0) → List A → Type 0
  All P [] = Unit
  All P (x ∷ xs) = P x × All P xs

  abbrev pub Any : (A → Type 0) → List A → Type 0
  Any P [] = ⊥
  Any P (x ∷ xs) = P x ⊎ Any P xs

  pub All-append : (P : A → Type 0) (xs ys : List A) → All P xs → All P ys → All P (xs ++ ys)
  All-append P [] ys hx hy = hy
  All-append P (x ∷ xs) ys (h, hx) hy = (h, All-append P xs ys hx hy)

  pub All_middle :
      (P : A → Type 0) (before : List A) (x : A) (xs : List A) → All P (before ++ x ∷ xs) → P x
  All_middle P [] x xs h = h.0
  All_middle P (y ∷ before) x xs h = All_middle P before x xs h.1

  pub All-get_elem? :
      (P : A → Type 0) (xs : List A) (i : ℕ) (x : A) → All P xs → get_elem? xs i ≡ some x → P x
  All-get_elem? P [] i x h e = absurd (ground arith)
  All-get_elem? P (y ∷ xs) zero x (h, hs) e = subst P (ground arith) h
  All-get_elem? P (y ∷ xs) (suc i) x (h, hs) e = All-get_elem? P xs i x hs e

  pub length-append : (xs ys : List A) → length (xs ++ ys) ≡ length xs + length ys
  length-append [] ys = omega arith
  length-append (x ∷ xs) ys = omega (arith, length-append xs ys)

  pub take-append-drop : (n : ℕ) (xs : List A) → take n xs ++ drop n xs ≡ xs
  take-append-drop zero xs = refl
  take-append-drop (suc n) [] = refl
  take-append-drop (suc n) (x ∷ xs) = rw (take-append-drop n xs)

  pub take-suc :
      (n : ℕ) (t : List A) {e : A} {rest : List A}
      → drop n t ≡ e ∷ rest
      → take (suc n) t ≡ take n t ++ e ∷ []
  take-suc zero [] h = ground arith
  take-suc zero (f ∷ t) h = ground arith
  take-suc (suc n) [] h = ground arith
  take-suc (suc n) (f ∷ t) h = ap (◌∷◌ f) (take-suc n t h)

  pub take_init : (xs : List A) (x : A) → take (length xs) (xs ++ x ∷ []) ≡ xs
  take_init [] x = refl
  take_init (y ∷ xs) x = ap (◌∷◌ y) (take_init xs x)

  get_behind : (xs : List A) (x : A) → get_elem? (xs ++ x ∷ []) (length xs) ≡ some x
  get_behind [] x = refl
  get_behind (y ∷ xs) x = get_behind xs x

  pub length_less_one : (xs : List A) (x : A) → length (xs ++ x ∷ []) - 1 ≡ length xs
  length_less_one xs x = omega (arith, length-append xs (x ∷ []))

  pub get_last :
      (xs : List A) (x : A) → get_elem? (xs ++ x ∷ []) (length (xs ++ x ∷ []) - 1) ≡ some x
  get_last xs x = ap (get_elem? (xs ++ x ∷ [])) (length_less_one xs x) ∙ get_behind xs x

  pub take_but_last : (xs : List A) (x : A) → take (length (xs ++ x ∷ []) - 1) (xs ++ x ∷ []) ≡ xs
  take_but_last xs x = ap (λ k. take k (xs ++ x ∷ [])) (length_less_one xs x) ∙ take_init xs x

  -- A list is empty or ends with an element.
  pub List-snoc :
      (xs : List A) → (xs ≡ []) ⊎ ((before : List A) × (x : A) × (xs ≡ before ++ x ∷ []))
  List-snoc [] = inl refl
  List-snoc (x ∷ xs) = elim (List-snoc xs) [
    | inl none_more ↦ inr ([], x, ap (◌∷◌ x) none_more)
    | inr (before, y, e) ↦ inr (x ∷ before, y, ap (◌∷◌ x) e)
  ]

  drop_nil : (n : ℕ) → drop n [] ≡ []
  drop_nil zero = refl
  drop_nil (suc n) = refl

  pub drop-drop : (k n : ℕ) (xs : List A) → drop n (drop k xs) ≡ drop (k + n) xs
  drop-drop zero n xs = let same : n ≡ 0 + n = omega arith in ap (λ m. drop m xs) same
  drop-drop (suc k) n [] = drop_nil n ∙ sym (drop_nil (suc k + n))
  drop-drop (suc k) n (x ∷ xs) =
      let same : suc (k + n) ≡ suc k + n = omega arith in
      drop-drop k n xs ∙ ap (λ m. drop m (x ∷ xs)) same

  pub length-take : (n : ℕ) (xs : List A) → length (take n xs) ≡ min n (length xs)
  length-take zero xs = omega arith
  length-take (suc n) [] = omega arith
  length-take (suc n) (x ∷ xs) = omega (arith, length-take n xs)

  pub length-drop : (n : ℕ) (xs : List A) → length (drop n xs) ≡ length xs - n
  length-drop zero xs = omega arith
  length-drop (suc n) [] = omega arith
  length-drop (suc n) (x ∷ xs) = omega (arith, length-drop n xs)

  pub take_whole : (xs : List A) (k : ℕ) → length xs ≤ k → take k xs ≡ xs
  take_whole [] zero small = refl
  take_whole [] (suc k) small = refl
  take_whole (x ∷ xs) zero small = absurd (omega arith)
  take_whole (x ∷ xs) (suc k) small = rw (take_whole xs k (omega arith))

module _ {ℓ κ} {A : Type ℓ} {B : Type κ} where
  pub length-map : (xs : List A) (f : A → B) → length (map f xs) ≡ length xs
  length-map [] f = refl
  length-map (x ∷ xs) f = ap suc (length-map xs f)
