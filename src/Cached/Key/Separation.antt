-- ===== src/Cached/Key/Separation.antt =====
-- When the keys of app/db/cached/accessor.go tell two lists of arguments apart.
use idena_indexer_api.Prelude.{
  ℕ, zero, suc, ◌+◌, ◌/◌, ◌%◌, ◌<◌, map, ltb, ◌≡◌, refl, sym, ap, ◌∙◌, Bool, true, false, Option,
  some, not, ◌&&◌, List, [], ◌∷◌, ◌++◌, arith, if◌then◌else◌, ◌==◌, drop,
}
use idena_indexer_api.Prelude.Text.{Text}
use idena_indexer_api.Prelude.Decimal.{
  format_digits, format_uint, parse_uint, u64_mod, parse_uint-format_uint,
}
use idena_indexer_api.Cached.Key.{
  Arg, number, render, join_spaces, render_all, render_slice, key, append_args, cache_key,
}

-- A text that is not empty and has no space.
spaceless : Text → Bool
spaceless [] = true
spaceless (c ∷ s) = not (c == b' ') && spaceless s

unfoldable pub is_word : Text → Bool
unfolding spaceless
is_word [] = false
is_word (c ∷ s) = spaceless (c ∷ s)

unfoldable pub all_words : List Text → Bool
unfolding is_word
all_words [] = true
all_words (t ∷ ts) = is_word t && all_words ts

-- The parts of a text between its spaces.
abbrev into_first : ℕ → List Text → List Text
into_first c [] = (c ∷ []) ∷ []
into_first c (w ∷ ws) = (c ∷ w) ∷ ws

split : Text → List Text
split [] = [] ∷ []
split (c ∷ s) = let rest = split s in if c == b' ' then [] ∷ rest else into_first c rest

split-spaceless : (w : Text) → spaceless w ≡ true → split w ≡ w ∷ []
unfolding split spaceless
split-spaceless [] h = refl
split-spaceless (c ∷ w) h = ground (arith, split-spaceless w)

split-append : (w s : Text) → spaceless w ≡ true → split (w ++ b' ' ∷ s) ≡ w ∷ split s
unfolding split spaceless
split-append [] s h = refl
split-append (c ∷ w) s h = ground (arith, split-append w s)

is_word-spaceless : (w : Text) → is_word w ≡ true → spaceless w ≡ true
unfolding is_word
is_word-spaceless [] h = absurd (ground (arith, h))
is_word-spaceless (c ∷ w) h = h

split-join_spaces :
    (t : Text) (ts : List Text) → all_words (t ∷ ts) ≡ true → split (join_spaces (t ∷ ts)) ≡ t ∷ ts
unfolding join_spaces all_words
split-join_spaces t [] h = split-spaceless t (is_word-spaceless t (ground (arith, h)))
split-join_spaces t (u ∷ ts) h =
    split-append t (join_spaces (u ∷ ts)) (is_word-spaceless t (ground (arith, h)))
    ∙ ap (◌∷◌ t) (split-join_spaces u ts (ground (arith, h)))

words : Text → List Text
unfolding split
words [] = []
words (c ∷ s) = split (c ∷ s)

words-join_spaces : (ts : List Text) → all_words ts ≡ true → words (join_spaces ts) ≡ ts
unfolding words join_spaces
words-join_spaces [] h = refl
words-join_spaces ([] ∷ ts) h = absurd (unfold all_words is_word in ground (arith, h))
words-join_spaces ((c ∷ w) ∷ []) h = split-join_spaces (c ∷ w) [] h
words-join_spaces ((c ∷ w) ∷ u ∷ ts) h = split-join_spaces (c ∷ w) (u ∷ ts) h

without_last : Text → Text
without_last [] = []
without_last (c ∷ []) = []
without_last (c ∷ d ∷ s) = c ∷ without_last (d ∷ s)

without_last-append : (s : Text) (c : ℕ) → without_last (s ++ c ∷ []) ≡ s
unfolding without_last
without_last-append [] c = refl
without_last-append (d ∷ []) c = refl
without_last-append (d ∷ e ∷ s) c = ap (◌∷◌ d) (without_last-append (e ∷ s) c)

joined-cache_key :
    (args : List Arg) → without_last (drop 5 (cache_key args)) ≡ join_spaces (render_all args)
unfolding cache_key key append_args render_slice
joined-cache_key args = without_last-append (join_spaces (render_all args)) b']'

-- If each argument prints as a text that is not empty and has no space, equal keys come from
-- arguments that print the same, one by one.
pub cache_key-render_all :
    (args others : List Arg)
    → all_words (render_all args) ≡ true
    → all_words (render_all others) ≡ true
    → cache_key args ≡ cache_key others
    → render_all args ≡ render_all others
cache_key-render_all args others h k e =
    let joined : join_spaces (render_all args) ≡ join_spaces (render_all others) =
      sym (joined-cache_key args) ∙ ap (λ t. without_last (drop 5 t)) e ∙ joined-cache_key others in
    sym (words-join_spaces (render_all args) h)
    ∙ ap words joined
    ∙ words-join_spaces (render_all others) k

spaceless-append : (s t : Text) → spaceless (s ++ t) ≡ (spaceless s && spaceless t)
unfolding spaceless
spaceless-append [] t = refl
spaceless-append (c ∷ s) t = ground (arith, spaceless-append s t)

spaceless-format_digits : (f n : ℕ) → spaceless (format_digits f n) ≡ true
unfolding spaceless format_digits
spaceless-format_digits zero n = refl
spaceless-format_digits (suc f) n = ground (
  arith,
  spaceless-format_digits f (n / 10),
  spaceless-append (format_digits f (n / 10)) ((n % 10 + b'0') ∷ []),
)

is_word-append : (s : Text) (c : ℕ) → spaceless (s ++ c ∷ []) ≡ true → is_word (s ++ c ∷ []) ≡ true
unfolding is_word
is_word-append [] c h = h
is_word-append (d ∷ s) c h = h

is_word-choice :
    (b : Bool) (c d : ℕ) (s : Text)
    → spaceless (if b then c ∷ [] else s ++ d ∷ []) ≡ true
    → is_word (if b then c ∷ [] else s ++ d ∷ []) ≡ true
unfolding is_word
is_word-choice true c d s h = h
is_word-choice false c d s h = is_word-append s d h

is_word-format_uint : (n : ℕ) → is_word (format_uint n) ≡ true
unfolding format_uint format_digits
is_word-format_uint n =
    is_word-choice (ltb n 10) (n + b'0') (n % 10 + b'0') (format_digits 19 (n / 10))
      (spaceless-format_digits 20 n)

all_words-number : (ns : List ℕ) → all_words (render_all (map number ns)) ≡ true
unfolding all_words render_all render
all_words-number [] = refl
all_words-number (n ∷ ns) = ground (arith, is_word-format_uint n, all_words-number ns)

-- The numbers fit 64 bits.
abbrev pub AllFit : List ℕ → Type 0
AllFit [] = Unit
AllFit (n ∷ ns) = (n < u64_mod) × AllFit ns

values : List Text → List (Option ℕ)
values = map parse_uint

values-number : (ns : List ℕ) → AllFit ns → values (render_all (map number ns)) ≡ map some ns
unfolding values render_all render
values-number [] h = refl
values-number (n ∷ ns) (h, k) =
    rw (parse_uint-format_uint n h) (ap (◌∷◌ (some n)) (values-number ns k))

map-some-injective : (ms ns : List ℕ) → map some ms ≡ map some ns → ms ≡ ns
map-some-injective [] [] h = refl
map-some-injective [] (n ∷ ns) h = absurd (ground (arith, h))
map-some-injective (m ∷ ms) [] h = absurd (ground (arith, h))
map-some-injective (m ∷ ms) (n ∷ ns) h = ground (arith, h, map-some-injective ms ns)

-- Lists of 64-bit numbers that give the same key are the same.
pub cache_key-number :
    (ms ns : List ℕ)
    → AllFit ms
    → AllFit ns
    → cache_key (map number ms) ≡ cache_key (map number ns)
    → ms ≡ ns
cache_key-number ms ns h k e =
    let same =
      cache_key-render_all (map number ms) (map number ns) (all_words-number ms)
        (all_words-number ns) e in
    map-some-injective ms ns (sym (values-number ms h) ∙ ap values same ∙ values-number ns k)
