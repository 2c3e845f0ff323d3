-- ===== src/Prelude/Decimal.antt =====
-- strconv.FormatUint, strconv.Itoa and strconv.ParseUint in base 10, and a round trip.
use Prim.Native.Nat.{ℕ, zero, suc, ◌+◌, ◌-◌, ◌*◌, ◌/◌, ◌%◌, ◌^◌, ◌<◌}
use mathlib.Core.Path.{◌≡◌, refl, ap, ◌∙◌}
use mathlib.Core.Bool.{false, ◌&&◌}
use mathlib.Core.Option.{Option, none, some}
use mathlib.Core.List.{[], ◌∷◌, ◌++◌}
use native.Mathlib.Omega.{arith}
use native.Mathlib.Nat.{pow-suc}
use idena_indexer_api.Prelude.Tests.{ltb, leb, ltb→lt, if◌then◌else◌, Bool-cases}
use idena_indexer_api.Prelude.Text.{Text}
use idena_indexer_api.Prelude.Int.{ℤ, pos, negsuc}
use mathlib.Core.Logic.{inl, inr}

abbrev pub u64_mod : ℕ
u64_mod = 2 ^ 64

-- One digit a round; 20 rounds print every number below 10 ^ 20.
unfoldable pub format_digits : ℕ → ℕ → Text
format_digits zero n = []
format_digits (suc f) n =
    let rest = format_digits f (n / 10) in
    if ltb n 10 then (n + b'0') ∷ [] else rest ++ (n % 10 + b'0') ∷ []

unfoldable pub format_uint : ℕ → Text
format_uint = format_digits 20

-- strconv.Itoa.
unfoldable pub itoa : ℤ → Text
unfolding format_uint
itoa (pos n) = format_uint n
itoa (negsuc n) = b'-' ∷ format_uint (suc n)

-- The value read so far and one more byte; `none` is a syntax error.
unfoldable pub digit_step : Option ℕ → ℕ → Option ℕ
digit_step none c = none
digit_step (some n) c = if leb b'0' c && leb c b'9' then some (n * 10 + (c - b'0')) else none

unfoldable pub digits_value : Option ℕ → Text → Option ℕ
unfolding digit_step
digits_value acc [] = acc
digits_value acc (c ∷ s) = digits_value (digit_step acc c) s

-- The range error.
unfoldable pub in_u64 : Option ℕ → Option ℕ
in_u64 none = none
in_u64 (some n) = if ltb n u64_mod then some n else none

unfoldable pub parse_uint : Text → Option ℕ
unfolding digits_value in_u64
parse_uint [] = none
parse_uint (c ∷ s) = in_u64 (digits_value (some 0) (c ∷ s))

digits_value-append :
    (acc : Option ℕ) (s t : Text) → digits_value acc (s ++ t) ≡ digits_value (digits_value acc s) t
unfolding digits_value
digits_value-append acc [] t = refl
digits_value-append acc (c ∷ s) t = digits_value-append (digit_step acc c) s t

digits_value-snoc :
    (s : Text) (n c : ℕ)
    → digits_value (some 0) s ≡ some n
    → digits_value (some 0) (s ++ c ∷ []) ≡ digit_step (some n) c
digits_value-snoc s n c e = rw (digits_value-append, e) (unfold digits_value in refl)

digit_step-digit : (n d : ℕ) → d < 10 → digit_step (some n) (d + b'0') ≡ some (n * 10 + d)
unfolding digit_step
digit_step-digit n d h = ground arith

format_small : (f n : ℕ) → n < 10 → format_digits (suc f) n ≡ (n + b'0') ∷ []
unfolding format_digits
format_small f n h = ground arith

format_large :
    (f n : ℕ)
    → ltb n 10 ≡ false
    → format_digits (suc f) n ≡ format_digits f (n / 10) ++ (n % 10 + b'0') ∷ []
unfolding format_digits
format_large f n h = rw h

digits_value-digit : (d : ℕ) → d < 10 → digits_value (some 0) ((d + b'0') ∷ []) ≡ some d
unfolding digits_value
digits_value-digit d h = digit_step-digit 0 d h ∙ ap some (omega arith)

digits_value-format :
    (f n : ℕ) → n < 10 ^ suc f → digits_value (some 0) (format_digits (suc f) n) ≡ some n
digits_value-format zero n h =
    rw (format_small zero n (omega arith)) (digits_value-digit n (omega arith))
digits_value-format (suc f) n h = elim (Bool-cases (ltb n 10)) [
  | inl small ↦
      rw (format_small (suc f) n (ltb→lt n 10 small)) (digits_value-digit n (ltb→lt n 10 small))
  | inr large ↦ rw (format_large (suc f) n large) (
      digits_value-snoc (format_digits (suc f) (n / 10)) (n / 10) (n % 10 + b'0')
        (digits_value-format f (n / 10) (omega (arith, pow-suc 10 (suc f))))
      ∙ digit_step-digit (n / 10) (n % 10) (omega arith)
      ∙ ap some (omega arith))
]

format_snoc : (f n : ℕ) → (s : Text) × (c : ℕ) × (format_digits (suc f) n ≡ s ++ c ∷ [])
format_snoc f n = elim (Bool-cases (ltb n 10)) [
  | inl small ↦ ([], n + b'0', format_small f n (ltb→lt n 10 small))
  | inr large ↦ (format_digits f (n / 10), n % 10 + b'0', format_large f n large)
]

parse_uint-snoc :
    (s : Text) (c n : ℕ)
    → digits_value (some 0) (s ++ c ∷ []) ≡ some n
    → n < u64_mod
    → parse_uint (s ++ c ∷ []) ≡ some n
parse_uint-snoc [] c n e h = unfold parse_uint in rw e (ground arith)
parse_uint-snoc (d ∷ s) c n e h = unfold parse_uint in rw e (ground arith)

-- What FormatUint prints, ParseUint reads back, for every uint64.
pub parse_uint-format_uint : (n : ℕ) → n < u64_mod → parse_uint (format_uint n) ≡ some n
unfolding format_uint
parse_uint-format_uint n h =
    let (s, c, e) = format_snoc 19 n in
    rw e (parse_uint-snoc s c n (rw e at (digits_value-format 19 n (omega arith))) h)
