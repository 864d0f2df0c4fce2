-- ===== src/Pool/State/Again.antt =====
-- `create` and `updateState` of ts-client/src/amm/index.ts, two ways to one object.
use mathlib.Core.Path.{subst}
use mercurial_dynamic_amm_sd.Prelude.{◌≡◌, List, [], ◌∷◌, ok, >>=-elim, ok_injective}
use mercurial_dynamic_amm_sd.Types.{PublicKey}
use mercurial_dynamic_amm_sd.Chunks.Requests.{All}
use mercurial_dynamic_amm_sd.DepegAccounts.{get_depeg_accounts}
use mercurial_dynamic_amm_sd.SwapCurve.{Packages}
use mercurial_dynamic_amm_sd.Utils.{Numbers}
use mercurial_dynamic_amm_sd.Vault.{VaultSdk}
use mercurial_dynamic_amm_sd.Pool.{AmmImpl, with_curve}
use mercurial_dynamic_amm_sd.Pool.Accounts.{Rpc, VaultImpl, get_pool_state, load_accounts_info}
use mercurial_dynamic_amm_sd.Pool.State.{
  new_curve, pool_info_of, first_two, create, update_state, fetch_state, update_curve, update_info,
  refresh_vaults, refreshed, replace_pool_state, update_accounts,
}

module _ (pk : Packages) (vault : VaultSdk) (num : Numbers) where
  -- The object `old`, if it has the address, the programs, the mints and the vaults of `amm`.
  abbrev pub aged : (amm old : AmmImpl pk vault num) → AmmImpl pk vault num
  aged amm old = record amm {
    pool_state = old.pool_state;
    lp_supply = old.lp_supply;
    pool_info = old.pool_info;
    vault_a = old.vault_a;
    vault_b = old.vault_b;
    accounts_info = old.accounts_info;
    swap_curve = old.swap_curve;
    shares_depeg = old.shares_depeg;
    depeg_accounts = old.depeg_accounts;
  }

  -- The vault SDK reads the same account when it makes the object of a vault and when it refreshes it.
  abbrev pub VaultsAgree : Rpc pk vault num → Type 0
  VaultsAgree rpc =
      (pdas : List PublicKey) (vaults : List (VaultImpl pk vault num))
      → rpc.create_vaults pdas ≡ ok vaults
      → All (λ v. rpc.fetch_vault v.vault_pda ≡ ok v.vault_state) vaults

  abbrev Answered : Rpc pk vault num → VaultImpl pk vault num → Type 0
  Answered rpc v = rpc.fetch_vault v.vault_pda ≡ ok v.vault_state

  first_two_agree :
      (rpc : Rpc pk vault num) (vaults : List (VaultImpl pk vault num))
      {two : VaultImpl pk vault num × VaultImpl pk vault num}
      → All (λ v. rpc.fetch_vault v.vault_pda ≡ ok v.vault_state) vaults
      → first_two pk vault num vaults ≡ ok two
      → Answered rpc two.0 × Answered rpc two.1
  unfolding first_two
  first_two_agree rpc [] h e = cc
  first_two_agree rpc (a ∷ []) h e = cc
  first_two_agree rpc (a ∷ b ∷ rest) h e = (
    subst (λ two. Answered rpc two.0) (ok_injective e) h.0,
    subst (λ two. Answered rpc two.1) (ok_injective e) h.1.0,
  )

  -- If the vault SDK reads the same account both ways, then whenever `create` makes an object, updating an
  -- object of the same pool, whatever its state, succeeds and gives that very object.
  pub update_state-create :
      (rpc : Rpc pk vault num) (program vaults pool : PublicKey) (old : AmmImpl pk vault num)
      {amm : AmmImpl pk vault num}
      → VaultsAgree rpc
      → create pk vault num rpc program vaults pool ≡ ok amm
      → update_state pk vault num rpc (aged amm old) ≡ (amm, ok tt)
  unfolding create update_state fetch_state update_curve update_info refresh_vaults refreshed
      replace_pool_state update_accounts with_curve
  update_state-create rpc program vaults pool old agree h =
      >>=-elim (get_pool_state pk vault num rpc pool) h (λ p e1 h1.
        >>=-elim (rpc.create_vaults (p.0.a_vault ∷ p.0.b_vault ∷ [])) h1 (λ vs e2 h2.
          >>=-elim (first_two pk vault num vs) h2 (λ v e3 h3.
            >>=-elim (load_accounts_info pk vault num rpc v.0.vault_state v.1.vault_state p.0) h3
              (λ info e4 h4.
                let accounts = get_depeg_accounts rpc.get_multiple_accounts_info (p.0 ∷ []) in
                >>=-elim (new_curve pk vault num p.0 accounts info.current_time) h4 (λ c e5 h5.
                  >>=-elim (pool_info_of pk vault num info c v.0.vault_state v.1.vault_state) h5
                    (λ r e6 h6.
                      let (a, b) = first_two_agree rpc vs (agree _ vs e2) e3 in
                      subst (λ o. update_state pk vault num rpc (aged o old) ≡ (o, ok tt))
                        (ok_injective h6) (rw (e1, a, b, e4, e5, e6))))))))
