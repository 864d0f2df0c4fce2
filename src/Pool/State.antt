-- ===== src/Pool/State.antt =====
-- ts-client/src/amm/index.ts: `create` and `updateState` of the class `AmmImpl`, and its getters that ask
-- the cluster.
pub mod Curves
pub mod Coherent
pub mod Fresh
pub mod Whole
pub mod Run
pub mod Again
use mathlib.Core.Option.{none}
use mercurial_dynamic_amm_sd.Prelude.{
  ℕ, ℤ, pos, ◌+ℤ◌, to_number, Bool, true, false, List, [], ◌∷◌, Option, some, Result, ok, err,
  ◌>>=◌, undefined_vault, account_not_found, max,
}
use mercurial_dynamic_amm_sd.Types.{PublicKey, PoolState, CurveType}
use mercurial_dynamic_amm_sd.DepegAccounts.{get_depeg_accounts}
use mercurial_dynamic_amm_sd.SwapCurve.{Packages, SwapCurve}
use mercurial_dynamic_amm_sd.Utils.{Numbers}
use mercurial_dynamic_amm_sd.Vault.{VaultSdk}
use mercurial_dynamic_amm_sd.Quote.{PoolInformation, calculate_pool_info}
use mercurial_dynamic_amm_sd.Pool.{AccountsInfo, AmmImpl, with_curve}
use mercurial_dynamic_amm_sd.Pool.Accounts.{Rpc, VaultImpl, get_pool_state, load_accounts_info}

module _ (pk : Packages) (vault : VaultSdk) (num : Numbers) where
  open pk use {acc}
  open acc use {Buffer}
  open vault use {VaultState}

  -- The curve of a pool that was fetched, which shares the cached price of the pool's state.
  unfoldable pub new_curve_of :
      CurveType
      → (stake : PublicKey) (depeg_accounts : List (PublicKey × Buffer)) (current_time : ℤ)
      → Result (SwapCurve pk)
  new_curve_of (CurveType.stable amp token_multiplier depeg updated) stake depeg_accounts
        current_time =
      do
        amp' ← to_number amp
        ok (
            SwapCurve.stable (record {
              amp = amp';
              token_multiplier = token_multiplier;
              depeg = depeg;
              extra_accounts = depeg_accounts;
              on_chain_time = current_time;
              stake_pool_pubkey = stake;
            }))
  new_curve_of CurveType.constant_product stake depeg_accounts current_time =
      ok SwapCurve.constant_product

  unfoldable pub new_curve :
      PoolState
      → (depeg_accounts : List (PublicKey × Buffer)) (current_time : ℤ) → Result (SwapCurve pk)
  unfolding new_curve_of
  new_curve pool_state depeg_accounts current_time =
      new_curve_of pool_state.curve_type pool_state.stake depeg_accounts current_time

  -- `calculatePoolInfo` on the accounts, as `create` and `updateState` call it.
  unfoldable pub pool_info_of :
      AccountsInfo pk vault num
      → SwapCurve pk
      → (vault_a vault_b : VaultState) → Result (SwapCurve pk × PoolInformation pk vault)
  pool_info_of info curve vault_a vault_b =
      calculate_pool_info pk vault info.current_time info.pool_vault_a_lp info.pool_vault_b_lp
        info.vault_a_lp_supply info.vault_b_lp_supply info.pool_lp_supply curve vault_a vault_b

  -- `const [vaultA, vaultB] = …`, and the reads of their states.
  unfoldable pub first_two :
      List (VaultImpl pk vault num) → Result (VaultImpl pk vault num × VaultImpl pk vault num)
  first_two (vault_a ∷ vault_b ∷ rest) = ok (vault_a, vault_b)
  first_two (vault_a ∷ []) = err undefined_vault
  first_two [] = err undefined_vault

  unfoldable pub create :
      Rpc pk vault num
      → (amm_program vault_program pool : PublicKey) → Result (AmmImpl pk vault num)
  unfolding first_two
  create rpc amm_program vault_program pool = do
    (pool_state, lp_supply) ← get_pool_state pk vault num rpc pool
    vaults ← rpc.create_vaults (pool_state.a_vault ∷ pool_state.b_vault ∷ [])
    (vault_a, vault_b) ← first_two vaults
    accounts_info ←
        load_accounts_info pk vault num rpc vault_a.vault_state vault_b.vault_state pool_state
    let depeg_accounts = get_depeg_accounts rpc.get_multiple_accounts_info (pool_state ∷ [])
    swap_curve ← new_curve pool_state depeg_accounts accounts_info.current_time
    (swap_curve', pool_info) ←
        pool_info_of accounts_info swap_curve vault_a.vault_state vault_b.vault_state
    let amm : AmmImpl pk vault num = record {
      address = pool;
      program_id = amm_program;
      vault_program_id = vault_program;
      token_a_mint_address = vault_a.token_mint_address;
      token_b_mint_address = vault_b.token_mint_address;
      token_a_mint_decimals = vault_a.token_mint_decimals;
      token_b_mint_decimals = vault_b.token_mint_decimals;
      pool_state = pool_state;
      lp_supply = lp_supply;
      pool_info = pool_info;
      vault_a_pda = vault_a.vault_pda;
      vault_b_pda = vault_b.vault_pda;
      vault_a = vault_a.vault_state;
      vault_b = vault_b.vault_state;
      accounts_info = accounts_info;
      swap_curve = swap_curve;
      shares_depeg = true;
      depeg_accounts = depeg_accounts;
    }
    ok (with_curve pk vault num amm swap_curve')

  -- A step of a method that changes its object: where it throws, the object stays as it is.
  abbrev attempt :
      {A : Type 0} (amm : AmmImpl pk vault num)
      → Result A
      → (A → AmmImpl pk vault num × Result (Unit {0}))
      → AmmImpl pk vault num × Result (Unit {0})
  attempt amm (err e) next = (amm, err e)
  attempt amm (ok a) next = next a

  -- A vault whose refresh throws keeps its state.
  unfoldable pub refreshed : Result VaultState → VaultState → VaultState
  refreshed (ok state) old = state
  refreshed (err e) old = old

  -- `Promise.all` of the three requests, of which the first error is reported.
  unfoldable pub fetch_state :
      Rpc pk vault num → AmmImpl pk vault num → Result (PoolState × ℤ × VaultState × VaultState)
  fetch_state rpc amm = do
    (pool_state, lp_supply) ← get_pool_state pk vault num rpc amm.address
    vault_a ← rpc.fetch_vault amm.vault_a_pda
    vault_b ← rpc.fetch_vault amm.vault_b_pda
    ok (pool_state, lp_supply, vault_a, vault_b)

  -- The steps after the requests: each changes a part of the object, and a later one that throws leaves
  -- what the earlier ones have changed.
  unfoldable pub update_info :
      AmmImpl pk vault num
      → (accounts_info : AccountsInfo pk vault num) → AmmImpl pk vault num × Result (Unit {0})
  update_info amm accounts_info =
      attempt amm (pool_info_of accounts_info amm.swap_curve amm.vault_a amm.vault_b) (λ r.
        let amm' = with_curve pk vault num amm r.0 in (record amm' { pool_info = r.1 }, ok tt))

  unfoldable pub update_curve :
      Rpc pk vault num
      → AmmImpl pk vault num
      → (accounts_info : AccountsInfo pk vault num) → AmmImpl pk vault num × Result (Unit {0})
  unfolding update_info
  update_curve rpc amm accounts_info =
      let depeg_accounts =
        get_depeg_accounts rpc.get_multiple_accounts_info (amm.pool_state ∷ []) in
      let amm' = record amm { accounts_info = accounts_info; depeg_accounts = depeg_accounts } in
      attempt amm' (new_curve amm.pool_state depeg_accounts accounts_info.current_time) (λ curve.
        update_info (record amm' { swap_curve = curve; shares_depeg = true }) accounts_info)

  -- The object with the vaults whose requests were answered.
  unfoldable pub refresh_vaults : Rpc pk vault num → AmmImpl pk vault num → AmmImpl pk vault num
  unfolding refreshed
  refresh_vaults rpc amm = record amm {
    vault_a = refreshed (rpc.fetch_vault amm.vault_a_pda) amm.vault_a;
    vault_b = refreshed (rpc.fetch_vault amm.vault_b_pda) amm.vault_b;
  }

  -- The pool's state is new, and so its cached price is no longer that of the curve.
  unfoldable pub replace_pool_state :
      AmmImpl pk vault num → (pool_state : PoolState) (lp_supply : ℤ) → AmmImpl pk vault num
  replace_pool_state amm pool_state lp_supply = record amm {
    pool_state = pool_state;
    lp_supply = lp_supply;
    shares_depeg = false;
  }

  unfoldable pub update_accounts :
      Rpc pk vault num → AmmImpl pk vault num → AmmImpl pk vault num × Result (Unit {0})
  unfolding update_curve
  update_accounts rpc amm =
      attempt amm (load_accounts_info pk vault num rpc amm.vault_a amm.vault_b amm.pool_state)
        (λ accounts_info. update_curve rpc amm accounts_info)

  unfoldable pub update_state :
      Rpc pk vault num → AmmImpl pk vault num → AmmImpl pk vault num × Result (Unit {0})
  unfolding refresh_vaults fetch_state replace_pool_state update_accounts
  update_state rpc amm =
      let vaults = refresh_vaults rpc amm in
      attempt vaults (fetch_state rpc amm)
        (λ fetched. update_accounts rpc (replace_pool_state vaults fetched.0 fetched.1))

  unfoldable pub decimals : AmmImpl pk vault num → ℕ
  decimals amm = max amm.token_a_mint_decimals amm.token_b_mint_decimals

  unfoldable pub get_pool_token_mint : AmmImpl pk vault num → PublicKey
  get_pool_token_mint amm = amm.pool_state.lp_mint

  unfoldable pub get_lp_supply : Rpc pk vault num → AmmImpl pk vault num → Result ℤ
  get_lp_supply rpc amm = do
    account ← rpc.token_supply amm.pool_state.lp_mint
    elim account [ none ↦ err account_not_found | some amount ↦ ok amount ]

  -- `token_balance` is `getTokenAccountBalance(account).value.amount`; where it throws, nothing is
  -- locked in the pool's own account.
  module _ (associated_token_account : (mint owner : PublicKey) → PublicKey)
      (token_balance : PublicKey → Result ℤ) where
    get_locked_ata_amount : AmmImpl pk vault num → ℤ
    get_locked_ata_amount amm =
        elim (token_balance (associated_token_account amm.pool_state.lp_mint amm.address)) [
          | ok amount ↦ amount
          | err e ↦ pos 0
        ]

    unfoldable pub get_locked_lp_amount : AmmImpl pk vault num → ℤ
    unfolding get_locked_ata_amount
    get_locked_lp_amount amm = get_locked_ata_amount amm +ℤ amm.pool_state.total_locked_lp
