-- ===== src/Pool/State/Whole.antt =====
-- How far an update by `updateState` of ts-client/src/amm/index.ts gets: whether the curve and the pool's state of the object
-- come to share their cached price.
use mercurial_dynamic_amm_sd.Prelude.{
  ℤ, ◌≡◌, refl, true, [], ◌∷◌, Error, ok, err, >>=-elim, ok_injective,
}
use mathlib.Core.Path.{subst}
use mercurial_dynamic_amm_sd.Types.{PublicKey, PoolState}
use mercurial_dynamic_amm_sd.DepegAccounts.{get_depeg_accounts}
use mercurial_dynamic_amm_sd.SwapCurve.{Packages, SwapCurve}
use mercurial_dynamic_amm_sd.Utils.{Numbers}
use mercurial_dynamic_amm_sd.Vault.{VaultSdk}
use mercurial_dynamic_amm_sd.Pool.{AccountsInfo, AmmImpl, with_curve}
use mercurial_dynamic_amm_sd.Pool.Accounts.{Rpc, get_pool_state, load_accounts_info}
use mercurial_dynamic_amm_sd.Pool.State.{
  new_curve, pool_info_of, first_two, create, update_state, fetch_state, update_curve, update_info,
  refresh_vaults, replace_pool_state, update_accounts,
}
use mercurial_dynamic_amm_sd.Pool.State.Coherent.{
  IsCoherent, attempt_holds, with_curve-IsCoherent, new_curve-Agrees, pool_info_of-IsRefresh,
}

module _ (pk : Packages) (vault : VaultSdk) (num : Numbers) where
  open vault use {VaultState}

  -- The requests, the accounts and the new curve of an update go through, whatever comes of the pool's amounts.
  pub record Rebuilds (rpc : Rpc pk vault num) (amm : AmmImpl pk vault num) : Type 0 where
    pub fetched : PoolState × ℤ × VaultState × VaultState
    pub info : AccountsInfo pk vault num
    pub curve : SwapCurve pk
    pub fetched_eq : fetch_state pk vault num rpc amm ≡ ok fetched
    pub info_eq :
        load_accounts_info pk vault num rpc
          (refresh_vaults pk vault num rpc amm).vault_a
          (refresh_vaults pk vault num rpc amm).vault_b
          fetched.0
        ≡ ok info
    pub curve_eq :
        new_curve pk vault num fetched.0
          (get_depeg_accounts rpc.get_multiple_accounts_info (fetched.0 ∷ []))
          info.current_time
        ≡ ok curve

  pub update_state_rebuilt :
      (rpc : Rpc pk vault num) (amm : AmmImpl pk vault num)
      → Rebuilds rpc amm
      → (update_state pk vault num rpc amm).0.shares_depeg ≡ true
  unfolding update_state replace_pool_state update_accounts update_curve update_info with_curve
  update_state_rebuilt rpc amm h =
      let accounts = get_depeg_accounts rpc.get_multiple_accounts_info (h.fetched.0 ∷ []) in
      let fresh =
        replace_pool_state pk vault num (refresh_vaults pk vault num rpc amm) h.fetched.0
          h.fetched.1 in
      let amm' : AmmImpl pk vault num = record fresh {
        accounts_info = h.info;
        depeg_accounts = accounts;
        swap_curve = h.curve;
        shares_depeg = true;
      } in
      rw (h.fetched_eq, h.info_eq, h.curve_eq)
        (attempt_holds pk vault num (λ o. o.shares_depeg ≡ true) amm'
          (pool_info_of pk vault num h.info h.curve fresh.vault_a fresh.vault_b) _ refl
          (λ r e. refl))

  -- An update whose requests fail replaces neither the pool's state nor the curve.
  pub update_state_refused :
      (rpc : Rpc pk vault num) (amm : AmmImpl pk vault num) {e : Error}
      → fetch_state pk vault num rpc amm ≡ err e
      → (update_state pk vault num rpc amm).0.shares_depeg ≡ amm.shares_depeg
  unfolding update_state refresh_vaults
  update_state_refused rpc amm h = rw h

  with_curve_shares :
      (amm : AmmImpl pk vault num) (curve : SwapCurve pk)
      → (with_curve pk vault num amm curve).shares_depeg ≡ amm.shares_depeg
  unfolding with_curve
  with_curve_shares amm curve = refl

  -- `create` returns an object whose curve and state share their price and agree.
  pub create-IsCoherent :
      (rpc : Rpc pk vault num) (program vaults pool : PublicKey) {amm : AmmImpl pk vault num}
      → create pk vault num rpc program vaults pool ≡ ok amm
      → IsCoherent pk vault num amm × (amm.shares_depeg ≡ true)
  unfolding create
  create-IsCoherent rpc program vaults pool h =
      >>=-elim (get_pool_state pk vault num rpc pool) h (λ p e1 h1.
        >>=-elim (rpc.create_vaults (p.0.a_vault ∷ p.0.b_vault ∷ [])) h1 (λ vs e2 h2.
          >>=-elim (first_two pk vault num vs) h2 (λ v e3 h3.
            >>=-elim (load_accounts_info pk vault num rpc v.0.vault_state v.1.vault_state p.0) h3
              (λ info e4 h4.
                let accounts = get_depeg_accounts rpc.get_multiple_accounts_info (p.0 ∷ []) in
                >>=-elim (new_curve pk vault num p.0 accounts info.current_time) h4 (λ c e5 h5.
                  >>=-elim (pool_info_of pk vault num info c v.0.vault_state v.1.vault_state) h5
                    (λ r e6 h6.
                      subst (λ o. IsCoherent pk vault num o × (o.shares_depeg ≡ true))
                        (ok_injective h6)
                        (
                          with_curve-IsCoherent pk vault num _ r.0
                              (λ _. new_curve-Agrees pk vault num p.0 accounts info.current_time e5)
                              (pool_info_of-IsRefresh pk vault num info c v.0.vault_state
                                v.1.vault_state e6),
                          with_curve_shares _ r.0,
                        )))))))
