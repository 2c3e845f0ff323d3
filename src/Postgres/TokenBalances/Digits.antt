-- ===== src/Postgres/TokenBalances/Digits.antt =====
-- The digits that the balances of tokens in app/db/postgres/address.go and tokens.go keep.
use idena_indexer_api.Prelude.{
  ℕ, zero, suc, ◌+◌, ◌-◌, ◌*◌, ◌^◌, ◌≤◌, ◌<◌, ◌≡◌, refl, sym, ap, ◌∙◌, arith, ltb, Bool-cases, inl,
  inr,
}
use native.Mathlib.Nat.{pow-suc, mul_assoc, mul_comm}
use idena_indexer_api.Prelude.Text.{Text}
use idena_indexer_api.Prelude.Result.{ok}
use idena_indexer_api.Postgres.TokenBalances.{Division, TokenBalance, shown, address_token}

times_above : (a b d : ℕ) → a < b → a * d + d ≤ b * d
times_above a b d h = grind arith

-- The nearest multiple of `d` to a multiple of it.
nearest_exact :
    (q m d : ℕ) → 0 < d → 2 * (q * d) ≤ 2 * (m * d) + d → 2 * (m * d) ≤ 2 * (q * d) + d → q ≡ m
nearest_exact q m d p above below = elim (Bool-cases (ltb q m)) [
  | inl less ↦ absurd (omega (arith, times_above q m d (ground arith)))
  | inr not_less ↦ elim (Bool-cases (ltb m q)) [
    | inl more ↦ absurd (omega (arith, times_above m q d (ground arith)))
    | inr not_more ↦ ground arith
  ]
]

times_swap : (a b c : ℕ) → a * b * c ≡ a * c * b
times_swap a b c = mul_assoc a b c ∙ ap (λ n. a * n) (mul_comm b c) ∙ sym (mul_assoc a c b)

pow_split : (j k : ℕ) → 10 ^ (j + k) ≡ 10 ^ j * 10 ^ k
pow_split zero k = grind arith
pow_split (suc j) k =
    let next : suc j + k ≡ suc (j + k) = omega arith in
    ap (λ n. 10 ^ n) next
    ∙ rw (pow-suc 10 (j + k), pow-suc 10 j, pow_split j k) (times_swap (10 ^ j) (10 ^ k) 10)

pow_pos : (k : ℕ) → 0 < 10 ^ k
pow_pos zero = omega arith
pow_pos (suc k) = omega (arith, pow-suc 10 k, pow_pos k)

module _ (d : Division) where
  shown-exact : (v k : ℕ) → k ≤ 16 → shown d v k * 10 ^ k ≡ v * 10 ^ 16
  unfolding shown
  shown-exact v k h =
      let parts : 16 ≡ 16 - k + k = omega arith in
      let whole : v * 10 ^ 16 ≡ v * 10 ^ (16 - k) * 10 ^ k =
        ap (λ n. v * n) (ap (λ n. 10 ^ n) parts ∙ pow_split (16 - k) k)
        ∙ sym (mul_assoc v (10 ^ (16 - k)) (10 ^ k)) in
      let units : d.div v (10 ^ k) ≡ v * 10 ^ (16 - k) =
        nearest_exact (d.div v (10 ^ k)) (v * 10 ^ (16 - k)) (10 ^ k) (pow_pos k)
          (omega (arith, whole, d.div_not_above v (10 ^ k) (pow_pos k)))
          (omega (arith, whole, d.div_not_below v (10 ^ k) (pow_pos k))) in
      ap (λ n. n * 10 ^ k) units ∙ sym whole

  shown-zero : (v k : ℕ) → 2 * (v * 10 ^ 16) < 10 ^ k → shown d v k ≡ 0
  unfolding shown
  shown-zero v k h = elim (Bool-cases (ltb 0 (d.div v (10 ^ k)))) [
    | inl more ↦ absurd (
        omega (
          arith,
          d.div_not_above v (10 ^ k) (pow_pos k),
          times_above 0 (d.div v (10 ^ k)) (10 ^ k) (ground arith),
        ))
    | inr no_more ↦ ground arith
  ]

  -- With at most 16 decimals AddressToken shows the balance that the database has, exactly.
  pub address_token-exact :
      (v k : ℕ) (name symbol address token_address : Text)
      → k ≤ 16
      → (b : TokenBalance) × (address_token d (ok (v, name, symbol, k)) address token_address
          ≡ ok b)
        × (b.balance * 10 ^ k ≡ v * 10 ^ 16)
  unfolding address_token
  address_token-exact v k name symbol address token_address h = (
    record {
      token = record {
        contract_address = token_address;
        name = name;
        symbol = symbol;
        decimals = k;
      };
      address = address;
      balance = shown d v k;
    },
    refl,
    shown-exact v k h,
  )

  -- A balance of less than half of 10 ^ -16 coins of a token, which is more than nothing only if
  -- the token has more than 16 decimals, is shown by AddressToken as 0.
  pub address_token-zero :
      (v k : ℕ) (name symbol address token_address : Text)
      → 2 * (v * 10 ^ 16) < 10 ^ k
      → (b : TokenBalance) × (address_token d (ok (v, name, symbol, k)) address token_address
          ≡ ok b)
        × (b.balance ≡ 0)
  unfolding address_token
  address_token-zero v k name symbol address token_address h = (
    record {
      token = record {
        contract_address = token_address;
        name = name;
        symbol = symbol;
        decimals = k;
      };
      address = address;
      balance = shown d v k;
    },
    refl,
    shown-zero v k h,
  )
