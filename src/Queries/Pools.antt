-- ===== src/Queries/Pools.antt =====
-- `checkPoolWithConfigsExists` and `getLockedLpAmountByUser` of ts-client/src/amm/, against what they look
-- for.
use mathlib.Core.Option.{none}
use mercurial_dynamic_amm_sd.Prelude.{
  ℕ, List, [], ◌∷◌, Option, some, map, ◌≡◌, refl, ap, ◌∙◌, if◌then◌else◌, ◌==◌, Option-cases, inl,
  inr,
}
use mercurial_dynamic_amm_sd.Types.{PublicKey, PoolState, LockEscrowAccount, get, set}
use mercurial_dynamic_amm_sd.Types.Maps.{get-set, IsMap, set-IsMap}
use mercurial_dynamic_amm_sd.Keys.{Bytes, derive_pool_address_with_config}
use mercurial_dynamic_amm_sd.Queries.{
  all_null, find_index, key_at, check_pool_with_configs_exists, by_pool,
  get_locked_lp_amount_by_user,
}

-- The first of some addresses at which there is a pool.
abbrev pub first_existing :
    (fetch_nullable : PublicKey → Option PoolState) → List PublicKey → Option PublicKey
first_existing fetch_nullable [] = none
first_existing fetch_nullable (key ∷ keys) =
    let rest = first_existing fetch_nullable keys in
    elim (fetch_nullable key) [ none ↦ rest | some pool_account ↦ some key ]

found_first :
    (fetch_nullable : PublicKey → Option PoolState) (keys : List PublicKey)
    → (if all_null (map fetch_nullable keys)
        then none
        else key_at keys (find_index (map fetch_nullable keys)))
      ≡ first_existing fetch_nullable keys
unfolding all_null find_index key_at
found_first fetch_nullable [] = refl
found_first fetch_nullable (key ∷ keys) = elim (Option-cases (fetch_nullable key)) [
  | inr (account, e) ↦ rw (first_existing, e) refl
  | inl e ↦ rw (first_existing, e) (found_first fetch_nullable keys)
]

module _ (find_program_address : List Bytes → PublicKey → PublicKey × ℕ)
    (program_id : PublicKey) where
  -- If one request for many pools answers each address in order, then `check_pool_with_configs_exists`
  -- returns the address of the first configuration for which there is a pool, and none if there is none.
  pub check_pool_with_configs_exists_lem :
      (fetch_nullable : PublicKey → Option PoolState)
      (fetch_multiple : List PublicKey → List (Option PoolState)) (token_a token_b : PublicKey)
      (configs : List PublicKey)
      → ((keys : List PublicKey) → fetch_multiple keys ≡ map fetch_nullable keys)
      → check_pool_with_configs_exists find_program_address program_id fetch_multiple token_a
          token_b configs
        ≡ first_existing fetch_nullable (
            map
              (λ (config : PublicKey).
                derive_pool_address_with_config find_program_address token_a token_b config
                  program_id)
              configs)
  unfolding check_pool_with_configs_exists
  check_pool_with_configs_exists_lem fetch_nullable fetch_multiple token_a token_b configs h =
      let keys =
        map
          (λ (config : PublicKey).
            derive_pool_address_with_config find_program_address token_a token_b config program_id)
          configs in
      rw (check_pool_with_configs_exists, h keys) (found_first fetch_nullable keys)

-- The last of some escrows that is of a pool, or what was there before.
abbrev pub last_of :
    (pool : PublicKey)
    → List LockEscrowAccount
    → Option LockEscrowAccount
    → Option LockEscrowAccount
last_of pool [] before = before
last_of pool (account ∷ rest) before =
    last_of pool rest (if account.pool == pool then some account else before)

by_pool_lem :
    (accounts : List LockEscrowAccount) (m : List (PublicKey × LockEscrowAccount))
    (pool : PublicKey)
    → get (by_pool accounts m) pool ≡ last_of pool accounts (get m pool)
unfolding by_pool
by_pool_lem [] m pool = refl
by_pool_lem (account ∷ rest) m pool =
    by_pool_lem rest (set m account.pool account) pool
    ∙ ap (last_of pool rest) (get-set m account.pool account pool)

by_pool-IsMap :
    (accounts : List LockEscrowAccount) (m : List (PublicKey × LockEscrowAccount))
    → IsMap m
    → IsMap (by_pool accounts m)
unfolding by_pool
by_pool-IsMap [] m h = h
by_pool-IsMap (account ∷ rest) m h =
    by_pool-IsMap rest (set m account.pool account) (set-IsMap m account.pool account h)

pub get_locked_lp_amount_by_user_lem :
    (all : (offset : ℕ) (bytes : PublicKey) → List LockEscrowAccount) (user pool : PublicKey)
    → (get (get_locked_lp_amount_by_user all user) pool ≡ last_of pool (all 40 user) none)
      × IsMap (get_locked_lp_amount_by_user all user)
unfolding get_locked_lp_amount_by_user get
get_locked_lp_amount_by_user_lem all user pool =
    (by_pool_lem (all 40 user) [] pool, by_pool-IsMap (all 40 user) [] tt)
