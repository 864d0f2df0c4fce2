-- ===== src/Examples/Queries.antt =====
-- Examples for what the client looks up: pools and balances.
use mathlib.Core.Option.{none}
use mercurial_dynamic_amm_sd.Prelude.{
  ℤ, ◌≡◌, refl, pos, true, [], ◌∷◌, map, ◌==◌, leb, Option, some, ok, err, account_not_found,
  if◌then◌else◌,
}
use mercurial_dynamic_amm_sd.Types.{PublicKey, PoolState, CurveType}
use mercurial_dynamic_amm_sd.Keys.{derive_pool_address_with_config}
use mercurial_dynamic_amm_sd.Transactions.{get_associated_token_account}
use mercurial_dynamic_amm_sd.Queries.{
  balance_of, check_pool_with_configs_exists, fetch_multiple_user_balance, get_all_pool_state,
}
use mercurial_dynamic_amm_sd.Queries.Pools.{first_existing, check_pool_with_configs_exists_lem}
use mercurial_dynamic_amm_sd.Queries.Balances.{
  fetch_multiple_user_balance_lem, get_all_pool_state_lem,
}
use mercurial_dynamic_amm_sd.Examples.{numbers_as_accounts}
use mercurial_dynamic_amm_sd.Examples.Pool.{pool}
use mercurial_dynamic_amm_sd.Examples.Transactions.{chain, find}

-- There are pools from 1091 on.
abbrev pool_at : PublicKey → Option PoolState
pool_at key = if leb 1091 key then some (pool CurveType.constant_product) else none

abbrev amount_at : PublicKey → Option ℤ
amount_at key = if key == 702 then some (pos 9) else none

-- The pool of the second of three configurations.
check_pool_with_configs_exists_lem_example :
    check_pool_with_configs_exists find 51 (map pool_at) 2 3 (90 ∷ 91 ∷ 92 ∷ [])
    ≡ first_existing pool_at (
        map
          (λ (config : PublicKey). derive_pool_address_with_config find 2 3 config 51)
          (90 ∷ 91 ∷ 92 ∷ []))
check_pool_with_configs_exists_lem_example =
    check_pool_with_configs_exists_lem find 51 pool_at (map pool_at) 2 3 (90 ∷ 91 ∷ 92 ∷ [])
      (λ keys. refl)

fetch_multiple_user_balance_lem_example :
    fetch_multiple_user_balance numbers_as_accounts
      (λ b. true)
      chain
      (map amount_at)
      (1 ∷ 2 ∷ [])
      700
    ≡ ok (pos 0 ∷ pos 9 ∷ [])
unfolding balance_of get_associated_token_account
fetch_multiple_user_balance_lem_example =
    fetch_multiple_user_balance_lem numbers_as_accounts (λ b. true) chain (map amount_at) amount_at
      (1 ∷ 2 ∷ []) 700 (λ ks le. refl)

-- The mint of the LP token is missing.
get_all_pool_state_lem_example :
    get_all_pool_state numbers_as_accounts (map pool_at) (map amount_at) (1091 ∷ 1092 ∷ [])
    ≡ err account_not_found
get_all_pool_state_lem_example =
    get_all_pool_state_lem numbers_as_accounts (map pool_at) (map amount_at) pool_at amount_at
      (1091 ∷ 1092 ∷ []) (λ ks le. refl) (λ ks le. refl)
