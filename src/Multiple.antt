-- ===== src/Multiple.antt =====
-- ts-client/src/amm/index.ts: `createMultiple` of the class `AmmImpl`, which makes the objects of several pools from
-- requests that they share.
pub mod Entries
pub mod Objects
use mathlib.Core.Option.{none}
use mercurial_dynamic_amm_sd.Prelude.{
  ℕ, ℤ, true, List, [], ◌∷◌, ◌++◌, map, Option, some, Result, ok, err, ◌>>=◌, ◌==◌, if◌then◌else◌,
  vault_not_found, pool_info_not_found,
}
use mercurial_dynamic_amm_sd.Types.{
  PublicKey, PoolState, Clock, AccountType, sysvar_clock, get, set,
}
use mercurial_dynamic_amm_sd.DepegAccounts.{get_depeg_accounts}
use mercurial_dynamic_amm_sd.SwapCurve.{Packages, SwapCurve}
use mercurial_dynamic_amm_sd.Utils.{Numbers}
use mercurial_dynamic_amm_sd.Vault.{VaultSdk}
use mercurial_dynamic_amm_sd.Pool.{AmmImpl, AccountsInfo, with_curve}
use mercurial_dynamic_amm_sd.Quote.{PoolInformation}
use mercurial_dynamic_amm_sd.Pool.Accounts.{
  VaultImpl, Rpc, get_accounts_buffer, deserialize_accounts_buffer, pool_accounts,
  read_accounts_info, read_clock,
}
use mercurial_dynamic_amm_sd.Pool.State.{new_curve, pool_info_of}
use mercurial_dynamic_amm_sd.Queries.{get_all_pool_state}

module _ (pk : Packages) (vault : VaultSdk) (num : Numbers) where
  open pk use {acc}
  open acc use {Buffer}
  open vault use {VaultState}

  -- What `poolInfoMap` keeps of a pool.
  pub record PoolInfo : Type 0 where
    pub pool : PublicKey
    pub pool_state : PoolState
    pub lp_supply : ℤ
    pub vault_a : VaultImpl pk vault num
    pub vault_b : VaultImpl pk vault num

  -- `vaultsImpl.find(({ vaultPda }) => vaultPda.equals(key))`, and the invariant.
  unfoldable pub find_vault :
      List (VaultImpl pk vault num) → PublicKey → Result (VaultImpl pk vault num)
  find_vault [] key = err vault_not_found
  find_vault (v ∷ vs) key = if v.vault_pda == key then ok v else find_vault vs key

  unfoldable pub pool_info_entry :
      List (VaultImpl pk vault num) → PublicKey → (PoolState × ℤ) → Result PoolInfo
  pool_info_entry vaults pool (pool_state, lp_supply) = do
    vault_a ← find_vault vaults pool_state.a_vault
    vault_b ← find_vault vaults pool_state.b_vault
    ok (record {
      pool = pool;
      pool_state = pool_state;
      lp_supply = lp_supply;
      vault_a = vault_a;
      vault_b = vault_b;
    })

  -- There is a state for each pool.
  unfoldable pub pool_infos :
      List (VaultImpl pk vault num)
      → (pool_list : List PublicKey) (pools_state : List (PoolState × ℤ)) → Result (List PoolInfo)
  unfolding pool_info_entry
  pool_infos vaults [] states = ok []
  pool_infos vaults (pool ∷ pools) [] = ok []
  pool_infos vaults (pool ∷ pools) (state ∷ states) = do
    entry ← pool_info_entry vaults pool state
    entries ← pool_infos vaults pools states
    ok (entry ∷ entries)

  -- The map, by the mints of the LP tokens.
  unfoldable pub pool_info_map :
      List PoolInfo → (m : List (PublicKey × PoolInfo)) → List (PublicKey × PoolInfo)
  pool_info_map [] m = m
  pool_info_map (entry ∷ entries) m = pool_info_map entries (set m entry.pool_state.lp_mint entry)

  unfoldable pub flat_accounts : List PoolInfo → List (PublicKey × AccountType)
  flat_accounts [] = []
  flat_accounts (entry ∷ entries) =
      pool_accounts pk vault num entry.vault_a.vault_state entry.vault_b.vault_state
        entry.pool_state
      ++ flat_accounts entries

  -- `poolInfoMap.get(key)`, and the invariant.
  unfoldable pub pool_info_at : List (PublicKey × PoolInfo) → PublicKey → Result PoolInfo
  pool_info_at m key = elim (get m key) [ none ↦ err pool_info_not_found | some entry ↦ ok entry ]

  -- What the constructor is given.
  unfoldable pub object_of :
      (amm_program vault_program : PublicKey)
      → PoolInfo
      → AccountsInfo pk vault num
      → SwapCurve pk
      → (depeg_accounts : List (PublicKey × Buffer)) → PoolInformation pk vault
      → AmmImpl pk vault num
  object_of amm_program vault_program data_of_pool accounts_info swap_curve depeg_accounts
        pool_info =
      let vault_a = data_of_pool.vault_a in
      let vault_b = data_of_pool.vault_b in
      record {
        address = data_of_pool.pool;
        program_id = amm_program;
        vault_program_id = vault_program;
        token_a_mint_address = vault_a.token_mint_address;
        token_b_mint_address = vault_b.token_mint_address;
        token_a_mint_decimals = vault_a.token_mint_decimals;
        token_b_mint_decimals = vault_b.token_mint_decimals;
        pool_state = data_of_pool.pool_state;
        lp_supply = data_of_pool.lp_supply;
        pool_info = pool_info;
        vault_a_pda = vault_a.vault_pda;
        vault_b_pda = vault_b.vault_pda;
        vault_a = vault_a.vault_state;
        vault_b = vault_b.vault_state;
        accounts_info = accounts_info;
        swap_curve = swap_curve;
        shares_depeg = true;
        depeg_accounts = depeg_accounts;
      }

  -- The object for the accounts of one pool.
  unfoldable pub create_one :
      (amm_program vault_program : PublicKey) (m : List (PublicKey × PoolInfo))
      (accounts_info_map : List (PublicKey × ℤ)) (clock : Clock)
      (depeg_accounts : List (PublicKey × Buffer))
      → PoolInfo
      → Result (AmmImpl pk vault num)
  unfolding pool_info_at
  create_one amm_program vault_program m accounts_info_map clock depeg_accounts accounts = do
    accounts_info ←
        read_accounts_info pk vault num accounts_info_map accounts.vault_a.vault_state
          accounts.vault_b.vault_state accounts.pool_state clock
    data_of_pool ← pool_info_at m accounts.pool_state.lp_mint
    let vault_a = data_of_pool.vault_a
    let vault_b = data_of_pool.vault_b
    swap_curve ←
        new_curve pk vault num data_of_pool.pool_state depeg_accounts accounts_info.current_time
    (swap_curve', pool_info) ←
        pool_info_of pk vault num accounts_info swap_curve vault_a.vault_state vault_b.vault_state
    let amm =
        object_of amm_program vault_program data_of_pool accounts_info swap_curve depeg_accounts
          pool_info
    ok (with_curve pk vault num amm swap_curve')

  unfoldable pub create_each :
      (PoolInfo → Result (AmmImpl pk vault num))
      → List PoolInfo
      → Result (List (AmmImpl pk vault num))
  create_each make [] = ok []
  create_each make (entry ∷ entries) = do
    amm ← make entry
    amms ← create_each make entries
    ok (amm ∷ amms)

  -- `fetch_multiple` is `program.account.pool.fetchMultiple`.
  unfoldable pub create_multiple :
      Rpc pk vault num
      → (fetch_multiple : List PublicKey → List (Option PoolState))
        (amm_program vault_program : PublicKey) (pool_list : List PublicKey)
      → Result (List (AmmImpl pk vault num))
  create_multiple rpc fetch_multiple amm_program vault_program pool_list = do
    pools_state ← get_all_pool_state acc fetch_multiple rpc.get_multiple_accounts_info pool_list
    vaults ← rpc.create_vaults (vault_keys pools_state)
    entries ← pool_infos vaults pool_list pools_state
    let accounts_buffer_map =
        get_accounts_buffer pk vault num rpc
          (flat_accounts entries ++ ((rpc.sysvar_clock_pubkey, sysvar_clock) ∷ []))
    clock ← read_clock pk vault num rpc accounts_buffer_map
    accounts_info_map ← deserialize_accounts_buffer pk vault num accounts_buffer_map
    let depeg_accounts =
        get_depeg_accounts rpc.get_multiple_accounts_info
          (map (λ (p : PoolState × ℤ). p.0) pools_state)
    create_each
        (create_one amm_program vault_program (pool_info_map entries []) accounts_info_map clock
          depeg_accounts)
        entries
    where
      vault_keys : List (PoolState × ℤ) → List PublicKey
      vault_keys [] = []
      vault_keys ((pool_state, lp_supply) ∷ rest) =
          pool_state.a_vault ∷ pool_state.b_vault ∷ vault_keys rest
