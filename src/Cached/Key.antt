-- ===== src/Cached/Key.antt =====
-- The keys of app/db/cached/accessor.go: how fmt prints the arguments of a call.
pub mod Separation
use idena_indexer_api.Prelude.{
  Bool, true, false, ℕ, zero, suc, ◌+◌, ◌-◌, ◌/◌, ◌%◌, ◌≡◌, refl, ap, List, [], ◌∷◌, ◌++◌,
  if◌then◌else◌, ltb,
}
use idena_indexer_api.Prelude.Text.{Text, codes}
use idena_indexer_api.Prelude.Decimal.{format_uint}

-- An argument: a number, a Boolean, a text (or a time, as it prints), several texts, or a pointer to a
-- text, by the address and what stands there.
pub data Arg : Type 0 where
  number : ℕ → Arg
  boolean : Bool → Arg
  text : Text → Arg
  texts : List Text → Arg
  nil_pointer : Arg
  pointer : ℕ → Text → Arg

hex_digit : ℕ → ℕ
hex_digit d = if ltb d 10 then d + b'0' else d - 10 + b'a'

-- The hexadecimal digits of an address below 2 ^ 64.
format_hex : ℕ → ℕ → Text
unfolding hex_digit
format_hex zero n = []
format_hex (suc f) n =
    let rest = format_hex f (n / 16) in
    if ltb n 16 then hex_digit n ∷ [] else rest ++ hex_digit (n % 16) ∷ []

join_spaces : List Text → Text
join_spaces [] = []
join_spaces (s ∷ []) = s
join_spaces (s ∷ t ∷ ts) = s ++ b' ' ∷ join_spaces (t ∷ ts)

-- fmt.Sprintf("%v", …) of an element of a []interface{}: below the top, a pointer to a string
-- prints as its address.
unfoldable pub render : Arg → Text
unfolding format_hex join_spaces
render (number n) = format_uint n
render (boolean b) = if b then codes "true" else codes "false"
render (text s) = s
render (texts ts) = b'[' ∷ (join_spaces ts ++ b']' ∷ [])
render nil_pointer = codes "<nil>"
render (pointer address s) = b'0' ∷ b'x' ∷ format_hex 16 address

unfoldable pub render_all : List Arg → List Text
unfolding render
render_all [] = []
render_all (a ∷ rest) = render a ∷ render_all rest

-- fmt.Sprintf("%v", …) of a []interface{}
unfoldable pub render_slice : List Arg → Text
unfolding render_all join_spaces
render_slice args = b'[' ∷ (join_spaces (render_all args) ++ b']' ∷ [])

-- The loop of key, over the printed arguments.
unfoldable pub append_args : Text → List Text → Text
append_args res [] = res
append_args res (a ∷ rest) = append_args (res ++ b'-' ∷ a) rest

unfoldable pub key : List Text → Text
unfolding append_args
key args = append_args (codes "key") args

-- getOrLoad calls key(args), not key(args...): the slice is the one argument.
unfoldable pub cache_key : List Arg → Text
unfolding key render_slice
cache_key args = key (render_slice args ∷ [])

render_all-address :
    (before after : List Arg) (address : ℕ) (s t : Text)
    → render_all (before ++ pointer address s ∷ after)
      ≡ render_all (before ++ pointer address t ∷ after)
unfolding render_all
render_all-address [] after address s t = refl
render_all-address (b ∷ before) after address s t =
    ap (◌∷◌ (render b)) (render_all-address before after address s t)

-- The key sees where a token stands and not what it says.
pub cache_key-address :
    (before after : List Arg) (address : ℕ) (s t : Text)
    → cache_key (before ++ pointer address s ∷ after)
      ≡ cache_key (before ++ pointer address t ∷ after)
unfolding cache_key
cache_key-address before after address s t = rw (render_all-address before after address s t)
