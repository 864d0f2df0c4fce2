-- ===== src/Queries.antt =====
-- ts-client/src/amm/utils.ts and index.ts: what the client looks up of pools and of the balances of users.
-- The remote procedure calls are parameters.
pub mod Pools
pub mod Balances
use mathlib.Core.Option.{none}
use mercurial_dynamic_amm_sd.Prelude.{
  ℕ, zero, suc, ◌+◌, ℤ, pos, Bool, true, false, ◌&&◌, List, [], ◌∷◌, ◌++◌, Option, some, map,
  Result, ok, err, ◌>>=◌, ◌>>◌, invariant, if◌then◌else◌, ◌==◌, length, account_not_found,
  pool_state_not_found, lp_account_unreadable,
}
use mercurial_dynamic_amm_sd.Types.{PublicKey, PoolState, LockEscrowAccount, AccountData, set}
use mercurial_dynamic_amm_sd.Keys.{
  Bytes, TokenInfo, derive_pool_address, derive_pool_address_with_config,
}
use mercurial_dynamic_amm_sd.Chunks.{
  chunked_get_multiple_account_infos, chunked_fetch_multiple_pool_account,
}
use mercurial_dynamic_amm_sd.Transactions.{Chain, get_associated_token_account}

-- `fetch_nullable` is `program.account.pool.fetchNullable`.
unfoldable pub get_tokens_mint_from_pool_address :
    (fetch_nullable : PublicKey → Option PoolState) (pool_address : PublicKey)
    → Option (PublicKey × PublicKey)
get_tokens_mint_from_pool_address fetch_nullable pool_address = elim (fetch_nullable pool_address) [
  | none ↦ none
  | some pool_account ↦ some (pool_account.token_a_mint, pool_account.token_b_mint)
]

-- `accounts.every((account) => account === null)`.
unfoldable pub all_null {ℓ} : {A : Type ℓ} → List (Option A) → Bool
all_null [] = true
all_null (none ∷ rest) = all_null rest
all_null (some account ∷ rest) = false

-- `accounts.findIndex((account) => account !== null)`; where it finds none, the length stands for -1.
unfoldable pub find_index {ℓ} : {A : Type ℓ} → List (Option A) → ℕ
find_index [] = 0
find_index (some account ∷ rest) = 0
find_index (none ∷ rest) = suc (find_index rest)

-- `keys[index]`.
unfoldable pub key_at : List PublicKey → ℕ → Option PublicKey
key_at [] index = none
key_at (key ∷ keys) zero = some key
key_at (key ∷ keys) (suc index) = key_at keys index

module _ (find_program_address : List Bytes → PublicKey → PublicKey × ℕ)
    (program_id : PublicKey) where
  unfoldable pub check_pool_exists :
      (fetch_nullable : PublicKey → Option PoolState)
      → (token_info_a token_info_b : TokenInfo) (is_stable : Bool) (trade_fee_bps : ℕ)
      → Result (Option PublicKey)
  check_pool_exists fetch_nullable token_info_a token_info_b is_stable trade_fee_bps = do
    pool_pubkey ←
        derive_pool_address find_program_address token_info_a token_info_b is_stable trade_fee_bps
          program_id
    elim (fetch_nullable pool_pubkey) [ none ↦ ok none | some pool_account ↦ ok (some pool_pubkey) ]

  -- `fetch_multiple` is `program.account.pool.fetchMultiple`.
  unfoldable pub check_pool_with_configs_exists :
      (fetch_multiple : List PublicKey → List (Option PoolState))
      → (token_a token_b : PublicKey) (configs : List PublicKey) → Option PublicKey
  check_pool_with_configs_exists fetch_multiple token_a token_b configs =
      let pools_pubkey =
        map
          (λ (config : PublicKey).
            derive_pool_address_with_config find_program_address token_a token_b config program_id)
          configs in
      let pools_account = fetch_multiple pools_pubkey in
      if all_null pools_account then none else key_at pools_pubkey (find_index pools_account)

-- A `pool.all` request with one `memcmp` filter: what the program's accounts are that have these bytes at
-- this offset.
unfoldable pub search_pools_by_token :
    (all : (offset : ℕ) (bytes : PublicKey) → List (PublicKey × PoolState)) (token_mint : PublicKey)
    → List (PublicKey × PoolState)
search_pools_by_token all token_mint = all (8 + 32) token_mint ++ all (8 + 32 + 32) token_mint

-- The escrows of a user by their pools: the `reduce` over the accounts that are found.
unfoldable pub by_pool :
    List LockEscrowAccount
    → (acc_map : List (PublicKey × LockEscrowAccount)) → List (PublicKey × LockEscrowAccount)
by_pool [] acc_map = acc_map
by_pool (account ∷ rest) acc_map = by_pool rest (set acc_map account.pool account)

unfoldable pub get_locked_lp_amount_by_user :
    (all : (offset : ℕ) (bytes : PublicKey) → List LockEscrowAccount) (user_pub_key : PublicKey)
    → List (PublicKey × LockEscrowAccount)
get_locked_lp_amount_by_user all user_pub_key = by_pool (all (8 + 32) user_pub_key) []

module _ (acc : AccountData) (has_data : acc.Buffer → Bool) (chain : Chain) where
  open acc use {Buffer, token_amount}

  -- The balance in an account that may be missing; data that is empty cannot be read.
  unfoldable pub balance_of : Option Buffer → Result ℤ
  balance_of none = ok (pos 0)
  balance_of (some buffer) =
      if has_data buffer then token_amount buffer else err lp_account_unreadable

  unfoldable pub balances_of : List (Option Buffer) → Result (List ℤ)
  unfolding balance_of
  balances_of [] = ok []
  balances_of (account ∷ rest) = do
    balance ← balance_of account
    balances ← balances_of rest
    ok (balance ∷ balances)

  unfoldable pub fetch_multiple_user_balance :
      (get_multiple_accounts_info : List PublicKey → List (Option Buffer))
      → (lp_mint_list : List PublicKey) (owner : PublicKey) → Result (List ℤ)
  fetch_multiple_user_balance get_multiple_accounts_info lp_mint_list owner = balances_of (
      chunked_get_multiple_account_infos get_multiple_accounts_info
        (map (λ (lp_mint : PublicKey). get_associated_token_account chain lp_mint owner)
          lp_mint_list)
        100)

module _ (acc : AccountData) where
  open acc use {Buffer, mint_supply}

  -- The supply of each pool's LP token, beside the pool's state.
  unfoldable pub with_supplies :
      List PoolState → (lp_mint_accounts : List (Option Buffer)) → Result (List (PoolState × ℤ))
  with_supplies [] accounts = ok []
  with_supplies (pool_state ∷ rest) [] = err account_not_found
  with_supplies (pool_state ∷ rest) (none ∷ accounts) = err account_not_found
  with_supplies (pool_state ∷ rest) (some buffer ∷ accounts) = do
    lp_supply ← mint_supply buffer
    others ← with_supplies rest accounts
    ok ((pool_state, lp_supply) ∷ others)

  unfoldable pub get_all_pool_state :
      (fetch_multiple : List PublicKey → List (Option PoolState))
      (get_multiple_accounts_info : List PublicKey → List (Option Buffer))
      → (pool_mints : List PublicKey) → Result (List (PoolState × ℤ))
  get_all_pool_state fetch_multiple get_multiple_accounts_info pool_mints = do
    let pool_states = chunked_fetch_multiple_pool_account fetch_multiple pool_mints 100
    invariant (length pool_states == length pool_mints) pool_state_not_found
    with_supplies pool_states (
        chunked_get_multiple_account_infos get_multiple_accounts_info
          (map (λ (pool_state : PoolState). pool_state.lp_mint) pool_states) 100)
