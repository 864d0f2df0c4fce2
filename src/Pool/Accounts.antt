-- ===== src/Pool/Accounts.antt =====
-- ts-client/src/amm/index.ts: the accounts of a pool and of its vaults, as `getAccountsBuffer`,
-- `deserializeAccountsBuffer` and their callers fetch and decode them. The remote procedure calls are
-- a parameter.
pub mod Maps
pub mod Loads
use mathlib.Core.Option.{none}
use mercurial_dynamic_amm_sd.Prelude.{
  ℕ, ℤ, List, [], ◌∷◌, ◌++◌, map, Option, some, Result, ok, err, ◌>>=◌, null_account,
  unknown_account_type, account_info_not_found, clock_account_not_found, account_not_found,
  pool_not_found,
}
use mercurial_dynamic_amm_sd.Types.{
  PublicKey, PoolState, Clock, AccountType, apy, vault_a_reserve, vault_b_reserve, vault_a_lp,
  vault_b_lp, pool_vault_a_lp, pool_vault_b_lp, pool_lp_mint, sysvar_clock, get, set,
}
use mercurial_dynamic_amm_sd.Chunks.{chunked_get_multiple_account_infos}
use mercurial_dynamic_amm_sd.SwapCurve.{Packages}
use mercurial_dynamic_amm_sd.Utils.{Numbers}
use mercurial_dynamic_amm_sd.Vault.{VaultSdk}
use mercurial_dynamic_amm_sd.Pool.{AccountsInfo}

module _ (pk : Packages) (vault : VaultSdk) (num : Numbers) where
  open pk use {acc}
  open acc use {Buffer, token_amount, mint_supply, decode_clock, read_big_int_64_le}
  open vault use {VaultState, token_vault, lp_mint}

  -- An object of the class `VaultImpl` of the vault SDK.
  pub record VaultImpl : Type 0 where
    pub vault_pda : PublicKey
    pub vault_state : VaultState
    pub token_mint_address : PublicKey
    pub token_mint_decimals : ℕ

  -- What the requests of one refresh answer, and the address of the clock.
  pub record Rpc : Type 0 where
    pub sysvar_clock_pubkey : PublicKey
    -- `program.account.pool.fetchNullable`
    pub fetch_pool : PublicKey → Option PoolState
    -- `getTokenSupply(mint).value.amount`, which may be missing
    pub token_supply : PublicKey → Result (Option ℤ)
    pub get_multiple_accounts_info : List PublicKey → List (Option Buffer)
    -- `refreshVaultState` of the vault at an address
    pub fetch_vault : PublicKey → Result VaultState
    -- `VaultImpl.createMultipleWithPda`
    pub create_vaults : List PublicKey → Result (List VaultImpl)

  -- The account itself, with the supply of its pool tokens.
  unfoldable pub get_pool_state : Rpc → PublicKey → Result (PoolState × ℤ)
  get_pool_state rpc pool_mint = elim (rpc.fetch_pool pool_mint) [
    | none ↦ err pool_not_found
    | some pool_state ↦ (do
      account ← rpc.token_supply pool_state.lp_mint
      elim account [ none ↦ err account_not_found | some supply ↦ ok (pool_state, supply) ])
  ]

  -- `undefined` for a type that no decoder is for, which throws when it is called.
  unfoldable pub decode_account_type : AccountType → Buffer → Result ℤ
  decode_account_type vault_a_reserve account_data = token_amount account_data
  decode_account_type vault_b_reserve account_data = token_amount account_data
  decode_account_type vault_a_lp account_data = mint_supply account_data
  decode_account_type vault_b_lp account_data = mint_supply account_data
  decode_account_type pool_vault_a_lp account_data = token_amount account_data
  decode_account_type pool_vault_b_lp account_data = token_amount account_data
  decode_account_type pool_lp_mint account_data = mint_supply account_data
  decode_account_type sysvar_clock account_data = ok (read_big_int_64_le account_data 32)
  decode_account_type apy account_data = err unknown_account_type

  -- The `reduce` of `getAccountsBuffer`, over the accounts to fetch and what was fetched.
  unfoldable pub set_accounts :
      List (PublicKey × AccountType)
      → (accounts : List (Option Buffer)) → List (PublicKey × (AccountType × Option Buffer))
      → List (PublicKey × (AccountType × Option Buffer))
  set_accounts [] accounts acc_map = acc_map
  set_accounts ((pubkey, type) ∷ rest) [] acc_map =
      set_accounts rest [] (set acc_map pubkey (type, none))
  set_accounts ((pubkey, type) ∷ rest) (account_info ∷ accounts) acc_map =
      set_accounts rest accounts (set acc_map pubkey (type, account_info))

  unfoldable pub get_accounts_buffer :
      Rpc
      → (accounts_to_fetch : List (PublicKey × AccountType))
      → List (PublicKey × (AccountType × Option Buffer))
  unfolding set_accounts
  get_accounts_buffer rpc accounts_to_fetch =
      set_accounts accounts_to_fetch
        (chunked_get_multiple_account_infos rpc.get_multiple_accounts_info
          (map (λ (account : PublicKey × AccountType). account.0) accounts_to_fetch) 100)
        []

  -- `account!.data`, and its decoder.
  unfoldable pub decode_entry : AccountType → Option Buffer → Result ℤ
  decode_entry type none = err null_account
  decode_entry type (some buffer) = decode_account_type type buffer

  unfoldable pub decode_all :
      List (PublicKey × (AccountType × Option Buffer))
      → (acc_value : List (PublicKey × ℤ)) → Result (List (PublicKey × ℤ))
  unfolding decode_entry
  decode_all [] acc_value = ok acc_value
  decode_all ((public_key, (type, account)) ∷ rest) acc_value =
      decode_entry type account >>= λ value. decode_all rest (set acc_value public_key value)

  unfoldable pub deserialize_accounts_buffer :
      List (PublicKey × (AccountType × Option Buffer)) → Result (List (PublicKey × ℤ))
  unfolding decode_all
  deserialize_accounts_buffer account_info_map = decode_all account_info_map []

  -- The accounts of a pool and of its two vaults.
  unfoldable pub pool_accounts :
      (vault_a vault_b : VaultState) → PoolState → List (PublicKey × AccountType)
  pool_accounts vault_a vault_b pool_state =
      (token_vault vault_a, vault_a_reserve)
      ∷ (token_vault vault_b, vault_b_reserve)
      ∷ (lp_mint vault_a, vault_a_lp)
      ∷ (lp_mint vault_b, vault_b_lp)
      ∷ (pool_state.a_vault_lp, pool_vault_a_lp)
      ∷ (pool_state.b_vault_lp, pool_vault_b_lp)
      ∷ (pool_state.lp_mint, pool_lp_mint)
      ∷ []

  -- An account that was not found fails the invariant.
  unfoldable pub found : List (PublicKey × ℤ) → PublicKey → Result ℤ
  found accounts_info_map key = elim (get accounts_info_map key) [
    | none ↦ err account_info_not_found
    | some value ↦ ok value
  ]

  unfoldable pub read_accounts_info :
      List (PublicKey × ℤ)
      → (vault_a vault_b : VaultState) → PoolState
      → Clock
      → Result (AccountsInfo pk vault num)
  unfolding found
  read_accounts_info accounts_info_map vault_a vault_b pool_state clock = do
    pool_a ← found accounts_info_map pool_state.a_vault_lp
    pool_b ← found accounts_info_map pool_state.b_vault_lp
    supply_a ← found accounts_info_map (lp_mint vault_a)
    supply_b ← found accounts_info_map (lp_mint vault_b)
    reserve_a ← found accounts_info_map (token_vault vault_a)
    reserve_b ← found accounts_info_map (token_vault vault_b)
    supply ← found accounts_info_map pool_state.lp_mint
    ok (record {
      vault_a_reserve = reserve_a;
      vault_b_reserve = reserve_b;
      vault_a_lp_supply = supply_a;
      vault_b_lp_supply = supply_b;
      pool_vault_a_lp = pool_a;
      pool_vault_b_lp = pool_b;
      pool_lp_supply = supply;
      current_time = clock.unix_timestamp;
      current_slot = clock.slot;
    })

  unfoldable pub decode_clock_entry : Option (AccountType × Option Buffer) → Result Clock
  decode_clock_entry none = err clock_account_not_found
  decode_clock_entry (some (type, none)) = err null_account
  decode_clock_entry (some (type, some buffer)) = decode_clock buffer

  -- The clock that is among the accounts.
  unfoldable pub read_clock : Rpc → List (PublicKey × (AccountType × Option Buffer)) → Result Clock
  read_clock rpc accounts_buffer_map =
      decode_clock_entry (get accounts_buffer_map rpc.sysvar_clock_pubkey)

  -- What `create` and `updateState` fetch and decode, in the same steps.
  unfoldable pub load_accounts_info :
      Rpc → (vault_a vault_b : VaultState) → PoolState → Result (AccountsInfo pk vault num)
  load_accounts_info rpc vault_a vault_b pool_state = do
    let accounts_buffer_map =
        get_accounts_buffer rpc (
          pool_accounts vault_a vault_b pool_state
          ++ ((rpc.sysvar_clock_pubkey, sysvar_clock) ∷ []))
    accounts_info_map ← deserialize_accounts_buffer accounts_buffer_map
    clock ← read_clock rpc accounts_buffer_map
    read_accounts_info accounts_info_map vault_a vault_b pool_state clock
