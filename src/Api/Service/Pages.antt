-- ===== src/Api/Service/Pages.antt =====
-- The pages of IdentityTxs of app/api/service.go.
use Prim.Native.Nat.{min}
use idena_indexer_api.Prelude.{
  ℕ, zero, suc, ◌+◌, ◌-◌, ◌%◌, ◌^◌, ◌≤◌, ◌<◌, ◌≡◌, refl, sym, ap, ◌∙◌, Option, none, some, List, [],
  ◌∷◌, ◌++◌, append_assoc, append-nil, arith, if◌then◌else◌, length, ltb, take, length-append,
  length-take,
}
use idena_indexer_api.Prelude.Int.{ℤ, pos, to_i64}
use idena_indexer_api.Prelude.Text.{Text}
use idena_indexer_api.Prelude.Decimal.{u64_mod}
use idena_indexer_api.Prelude.Page.{Page}
use idena_indexer_api.Service.Contracts.{is_nil, fill_page}
use idena_indexer_api.Service.Contracts.Bounds.{fill_page-fits, fill_page_wraps}
use idena_indexer_api.Api.Service.{take_txs, identity_txs}

to_i64_small : (n : ℕ) → n < 2 ^ 63 → to_i64 n ≡ pos n
unfolding to_i64
to_i64_small n h = ground arith

sub_zero : (n : ℕ) → n - 0 ≡ n
sub_zero n = omega arith

module _ {E A : Type 0} where
  -- A page that has room asks the database for what is left.
  fill_page-items :
      (res : List A) (count : ℕ) (token : Option Text) (from_db : ℕ → Option Text → Page E A)
      → count < u64_mod
      → length res ≤ count
      → (fill_page res count token from_db).items
        ≡ res ++ (if ltb (length res) count then (from_db (count - length res) token).items else [])
  unfolding fill_page
  fill_page-items res count token from_db small h =
      let left : (count + (u64_mod - length res % u64_mod)) % u64_mod ≡ count - length res =
        omega arith in
      rw left (ground (arith, append-nil res))

module _ {A : Type 0} where
  take_txs-take :
      (res txs : List A) (count left : ℕ)
      → count < 2 ^ 63
      → length res + suc left ≡ count
      → take_txs res txs count ≡ res ++ take (suc left) txs
  unfolding take_txs to_i64
  take_txs-take res [] count left small e = sym (append-nil res)
  take_txs-take res (tx ∷ txs) count zero small e =
      rw (to_i64_small count small) (ground (arith, length-append res (tx ∷ [])))
  take_txs-take res (tx ∷ txs) count (suc left) small e = rw (to_i64_small count small) (
      ground (
        arith,
        length-append res (tx ∷ []),
        take_txs-take (res ++ tx ∷ []) txs count left small
            (omega (arith, length-append res (tx ∷ []))),
        append_assoc res (tx ∷ []) (take (suc left) txs),
      ))

  -- With count 0 the loop never stops early.
  take_txs_zero : (res txs : List A) → take_txs res txs 0 ≡ res ++ txs
  unfolding take_txs to_i64
  take_txs_zero res [] = sym (append-nil res)
  take_txs_zero res (tx ∷ txs) = ground (
    arith,
    length-append res (tx ∷ []),
    take_txs_zero (res ++ tx ∷ []) txs,
    append_assoc res (tx ∷ []) txs,
  )

  take_txs_nil :
      (txs : List A) (count : ℕ)
      → count < 2 ^ 63
      → 0 < count
      → take_txs [] txs count ≡ take count txs
  take_txs_nil txs zero small p = absurd (omega arith)
  take_txs_nil txs (suc left) small p = take_txs-take [] txs (suc left) left small (omega arith)

module _ {E A : Type 0} (mem_pool : ℤ → List A) (from_db : ℕ → Option Text → Page E A) where
  -- A first page of IdentityTxs that asks for at least one and fewer than 2 ^ 63 transactions
  -- starts with those of the mem pool, at most as many as asked for; the database is asked for the
  -- rest if there is one.
  pub identity_txs-items :
      (count : ℕ)
      → count < 2 ^ 63
      → 0 < count
      → (identity_txs mem_pool from_db count none).items
        ≡ take count (mem_pool (pos count))
          ++ (if ltb (length (mem_pool (pos count))) count
              then (from_db (count - length (mem_pool (pos count))) none).items
              else [])
  unfolding identity_txs
  identity_txs-items count small p =
      let txs = mem_pool (pos count) in
      rw (to_i64_small count small, take_txs_nil txs count small p)
        (fill_page-items (take count txs) count none from_db (omega arith)
            (omega (arith, length-take count txs))
          ∙ ap (λ l. take count txs ++ l)
              (rest_of (length (take count txs)) (length txs) count (length-take count txs)))
    where
      rest_of :
          (k n c : ℕ)
          → k ≡ min c n
          → (if ltb k c then (from_db (c - k) none).items else [])
            ≡ (if ltb n c then (from_db (c - n) none).items else [])
      rest_of k n c e =
          let same : (n < c) → k ≡ n = λ l. omega arith in
          let full : (c ≤ n) → k ≡ c = λ l. omega arith in ground (arith, same, full)

  first_txs : ℕ → Option Text → List A
  first_txs count token = if is_nil token then take_txs [] (mem_pool (to_i64 count)) count else []

  length-first_txs :
      (count : ℕ) (token : Option Text)
      → count < 2 ^ 63
      → 0 < count
      → length (first_txs count token) ≤ count
  unfolding first_txs
  length-first_txs count none small p =
      rw (take_txs_nil (mem_pool (to_i64 count)) count small p)
        (omega (arith, length-take count (mem_pool (to_i64 count))))
  length-first_txs count (some t) small p = omega arith

  -- A page of IdentityTxs is no longer than asked for, if at least one and fewer than 2 ^ 63
  -- transactions are asked for and the database keeps to the number that it is asked for, whatever
  -- the mem pool returns.
  pub identity_txs-le-count :
      (count : ℕ) (token : Option Text)
      → count < 2 ^ 63
      → 0 < count
      → ((left : ℕ) → length (from_db left token).items ≤ left)
      → length (identity_txs mem_pool from_db count token).items ≤ count
  unfolding identity_txs first_txs
  identity_txs-le-count count token small p db =
      fill_page-fits (first_txs count token) count token from_db (omega arith)
        (length-first_txs count token small p) db

  -- A first page of 0 transactions, when the mem pool returns some and fewer than 2 ^ 64, has all
  -- that the mem pool returns, and what the database returns when it is asked for 2 ^ 64 less their
  -- number.
  pub identity_txs_zero :
      0 < length (mem_pool (pos 0))
      → length (mem_pool (pos 0)) < u64_mod
      → (identity_txs mem_pool from_db 0 none).items
        ≡ mem_pool (pos 0) ++ (from_db (u64_mod - length (mem_pool (pos 0))) none).items
  unfolding identity_txs
  identity_txs_zero some_txs small = rw (take_txs_zero [] (mem_pool (to_i64 0))) (
      ap (λ p. p.items) (fill_page_wraps (mem_pool (to_i64 0)) 0 none from_db some_txs small)
      ∙ rw (sub_zero (length (mem_pool (pos 0)))) refl)
