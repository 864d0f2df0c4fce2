-- ===== src/Queries/Balances.antt =====
-- `fetchMultipleUserBalance` and `getAllPoolState` of ts-client/src/amm/index.ts against a look-up of each
-- key on its own.
use mathlib.Core.Option.{none}
use mercurial_dynamic_amm_sd.Prelude.{
  ℕ, suc, ◌≤◌, ℤ, Bool, true, false, List, [], ◌∷◌, Option, some, map, Result, ok, err, pos, ◌>>=◌,
  ◌≡◌, refl, ap, sym, ◌∙◌, if◌then◌else◌, ◌==◌, length, arith, account_not_found,
  lp_account_unreadable, pool_state_not_found, Option-cases, Bool-cases, inl, inr,
}
use mercurial_dynamic_amm_sd.Types.{PublicKey, PoolState, AccountData}
use mercurial_dynamic_amm_sd.Chunks.{
  present, chunked_get_multiple_account_infos, chunked_fetch_multiple_pool_account,
}
use mercurial_dynamic_amm_sd.Chunks.Requests.{Answers, chunked_get_multiple_account_infos_lem}
use mercurial_dynamic_amm_sd.Transactions.{Chain, get_associated_token_account}
use mercurial_dynamic_amm_sd.Queries.{
  balance_of, balances_of, fetch_multiple_user_balance, with_supplies, get_all_pool_state,
}

clash : true ≡ false → ⊥
clash h = cc

-- The results for each element, in order, unless one of them is an error.
abbrev pub each {ℓ κ} : {A : Type ℓ} {B : Type κ} → (A → Result B) → List A → Result (List B)
each f [] = ok []
each f (x ∷ xs) = let rest = each f xs in f x >>= λ y. rest >>= λ ys. ok (y ∷ ys)

length-present-map-le :
    {A K : Type 0} (f : K → Option A) (keys : List K) → length (present (map f keys)) ≤ length keys
length-present-map-le f [] = omega arith
length-present-map-le f (key ∷ keys) = elim (Option-cases (f key)) [
  | inl e ↦ rw e (omega (arith, length-present-map-le f keys))
  | inr (x, e) ↦ rw e (omega (arith, length-present-map-le f keys))
]

shorter : (m n : ℕ) → m ≤ n → (m == suc n) ≡ false
shorter m n h = ground arith

same_suc : (m n : ℕ) → (suc m == suc n) ≡ (m == n)
same_suc m n = ground arith

pair_first :
    {A B : Type 0} (a : A) (r : Result B) (rest : Result (List (A × B)))
    → (r >>= λ b. rest >>= λ others. ok ((a, b) ∷ others))
      ≡ ((r >>= λ b. ok (a, b)) >>= λ y. rest >>= λ ys. ok (y ∷ ys))
pair_first a (err thrown) rest = refl
pair_first a (ok b) rest = refl

module _ (acc : AccountData) (has_data : acc.Buffer → Bool) (chain : Chain) where
  open acc use {Buffer, token_amount}

  -- The balance of one account: 0 where there is none.
  abbrev pub user_balance : Option Buffer → Result ℤ
  user_balance account = elim account [
    | none ↦ ok (pos 0)
    | some buffer ↦ if has_data buffer then token_amount buffer else err lp_account_unreadable
  ]

  balance_of_lem :
      (account : Option Buffer) → balance_of acc has_data chain account ≡ user_balance account
  unfolding balance_of
  balance_of_lem none = refl
  balance_of_lem (some buffer) = refl

  balances_of_lem :
      (f : PublicKey → Option Buffer) (at : PublicKey → PublicKey) (mints : List PublicKey)
      → balances_of acc has_data chain (map f (map at mints))
        ≡ each (λ (mint : PublicKey). user_balance (f (at mint))) mints
  unfolding balances_of
  balances_of_lem f at [] = refl
  balances_of_lem f at (mint ∷ mints) =
      rw (balance_of_lem (f (at mint)), balances_of_lem f at mints) refl

  -- If a request for at most 100 accounts answers each key in order, then `fetch_multiple_user_balance`
  -- gives, for any number of mints, in order, the balance in the owner's associated account of each, 0 where there is no
  -- account, or the error of the first account that cannot be read.
  pub fetch_multiple_user_balance_lem :
      (get_multiple_accounts_info : List PublicKey → List (Option Buffer))
      (f : PublicKey → Option Buffer) (mints : List PublicKey) (owner : PublicKey)
      → Answers get_multiple_accounts_info 100 f
      → fetch_multiple_user_balance acc has_data chain get_multiple_accounts_info mints owner
        ≡ each
            (λ (mint : PublicKey). user_balance (f (get_associated_token_account chain mint owner)))
            mints
  unfolding fetch_multiple_user_balance
  fetch_multiple_user_balance_lem request f mints owner answers =
      let at = λ (mint : PublicKey). get_associated_token_account chain mint owner in
      ap (balances_of acc has_data chain)
        (chunked_get_multiple_account_infos_lem request f (map at mints) 100 (omega arith) answers)
      ∙ balances_of_lem f at mints

module _ (acc : AccountData) where
  open acc use {Buffer, mint_supply}

  -- The state of one pool, with the supply of its LP token.
  abbrev pub pool_with_supply :
      (fetch_pool : PublicKey → Option PoolState) (fetch_account : PublicKey → Option Buffer)
      → (pool_mint : PublicKey) → Result (PoolState × ℤ)
  pool_with_supply fetch_pool fetch_account pool_mint = elim (fetch_pool pool_mint) [
    | none ↦ err pool_state_not_found
    | some pool_state ↦ elim (fetch_account pool_state.lp_mint) [
      | none ↦ err account_not_found
      | some buffer ↦ mint_supply buffer >>= λ (supply : ℤ). ok (pool_state, supply)
    ]
  ]

  abbrev pub all_found : (fetch_pool : PublicKey → Option PoolState) → List PublicKey → Bool
  all_found fetch_pool [] = true
  all_found fetch_pool (mint ∷ mints) =
      let rest = all_found fetch_pool mints in
      elim (fetch_pool mint) [ none ↦ false | some state ↦ rest ]

  all_found_lem :
      (fetch_pool : PublicKey → Option PoolState) (mints : List PublicKey)
      → (length (present (map fetch_pool mints)) == length mints) ≡ all_found fetch_pool mints
  all_found_lem fetch_pool [] = refl
  all_found_lem fetch_pool (mint ∷ mints) = elim (Option-cases (fetch_pool mint)) [
    | inl e ↦
        rw (all_found, e)
          (shorter (length (present (map fetch_pool mints))) (length mints)
            (length-present-map-le fetch_pool mints))
    | inr (state, e) ↦
        rw (all_found, e)
          (same_suc (length (present (map fetch_pool mints))) (length mints)
            ∙ all_found_lem fetch_pool mints)
  ]

  supplies_lem :
      (fetch_pool : PublicKey → Option PoolState) (fetch_account : PublicKey → Option Buffer)
      (mints : List PublicKey)
      → all_found fetch_pool mints ≡ true
      → with_supplies acc (present (map fetch_pool mints)) (
          map fetch_account
            (map (λ (pool_state : PoolState). pool_state.lp_mint) (present (map fetch_pool mints))))
        ≡ each (pool_with_supply fetch_pool fetch_account) mints
  unfolding with_supplies
  supplies_lem fetch_pool fetch_account [] h = refl
  supplies_lem fetch_pool fetch_account (mint ∷ mints) h = elim (Option-cases (fetch_pool mint)) [
    | inl e ↦ absurd (clash (sym h ∙ rw (all_found, e) refl))
    | inr (state, e) ↦ elim (Option-cases (fetch_account state.lp_mint)) [
      | inl f ↦ rw (e, f, pool_with_supply) refl
      | inr (buffer, f) ↦
          rw (e, f, pool_with_supply)
            (ap
                (λ rest.
                  mint_supply buffer >>= λ supply. rest >>= λ others. ok ((state, supply) ∷ others))
                (supplies_lem fetch_pool fetch_account mints (rw (all_found, e) at h))
              ∙ pair_first state (mint_supply buffer)
                  (each (pool_with_supply fetch_pool fetch_account) mints))
    ]
  ]

  -- If requests for at most 100 pools or accounts answer each key in order, then `get_all_pool_state` gives for any
  -- number of pools, in order, the state of each with the supply of its own LP token, or the error of the
  -- first for which the supply cannot be had; if any pool is missing, it is an error.
  pub get_all_pool_state_lem :
      (fetch_multiple : List PublicKey → List (Option PoolState))
      (get_multiple_accounts_info : List PublicKey → List (Option Buffer))
      (fetch_pool : PublicKey → Option PoolState) (fetch_account : PublicKey → Option Buffer)
      (pool_mints : List PublicKey)
      → Answers fetch_multiple 100 fetch_pool
      → Answers get_multiple_accounts_info 100 fetch_account
      → get_all_pool_state acc fetch_multiple get_multiple_accounts_info pool_mints ≡ (
          if all_found fetch_pool pool_mints
          then each (pool_with_supply fetch_pool fetch_account) pool_mints
          else err pool_state_not_found)
  unfolding get_all_pool_state chunked_fetch_multiple_pool_account
      chunked_get_multiple_account_infos
  get_all_pool_state_lem fetch_multiple request fetch_pool fetch_account mints pools accounts =
      let states = present (map fetch_pool mints) in
      let keys = map (λ (pool_state : PoolState). pool_state.lp_mint) states in
      let found =
        chunked_get_multiple_account_infos_lem fetch_multiple fetch_pool mints 100 (omega arith)
          pools in
      let infos =
        chunked_get_multiple_account_infos_lem request fetch_account keys 100 (omega arith)
          accounts in
      elim (Bool-cases (all_found fetch_pool mints)) [
        | inl e ↦
            rw (found, infos, all_found_lem fetch_pool mints, e)
              (supplies_lem fetch_pool fetch_account mints e)
        | inr e ↦ rw (found, all_found_lem fetch_pool mints, e) refl
      ]
