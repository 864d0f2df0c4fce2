-- ===== src/Pool/State/Fresh.antt =====
-- `updateState` of ts-client/src/amm/index.ts: what a successful update leaves.
use mathlib.Core.Path.{subst}
use mercurial_dynamic_amm_sd.Prelude.{
  ℤ, ◌≡◌, refl, ap, ◌∙◌, true, [], ◌∷◌, Result, ok, err, >>=-elim, ok_injective, to_number,
}
use mercurial_dynamic_amm_sd.Types.{PoolState}
use mercurial_dynamic_amm_sd.DepegAccounts.{get_depeg_accounts}
use mercurial_dynamic_amm_sd.SwapCurve.{Packages}
use mercurial_dynamic_amm_sd.Utils.{Numbers}
use mercurial_dynamic_amm_sd.Vault.{VaultSdk}
use mercurial_dynamic_amm_sd.Quote.{pool_amounts}
use mercurial_dynamic_amm_sd.Quote.Info.{calculate_pool_info-IsInformed}
use mercurial_dynamic_amm_sd.Pool.{AmmImpl, with_curve}
use mercurial_dynamic_amm_sd.Pool.Accounts.{Rpc, get_pool_state, load_accounts_info}
use mercurial_dynamic_amm_sd.Pool.State.Curves.{Holds, new_curve-Holds}
use mercurial_dynamic_amm_sd.Pool.State.Coherent.{pool_info_of-IsRefresh}
use mercurial_dynamic_amm_sd.Pool.State.{
  new_curve, pool_info_of, update_state, attempt, fetch_state, update_curve, update_info,
  refresh_vaults, refreshed, replace_pool_state, update_accounts,
}

module _ (pk : Packages) (vault : VaultSdk) (num : Numbers) where
  open vault use {VaultState}

  -- The pool's amounts that the object holds are those that its accounts and its vaults give.
  pub record IsFresh (amm : AmmImpl pk vault num) : Type 0 where
    pub time : ℤ
    pub time_eq : to_number amm.accounts_info.current_time ≡ ok time
    pub amounts_eq :
        pool_amounts pk vault time amm.vault_a amm.vault_b amm.accounts_info.pool_vault_a_lp
          amm.accounts_info.pool_vault_b_lp amm.accounts_info.vault_a_lp_supply
          amm.accounts_info.vault_b_lp_supply
        ≡ ok (amm.pool_info.token_a_amount, amm.pool_info.token_b_amount)

  -- A step that went through.
  attempt_ok :
      {A P : Type 0} {amm' : AmmImpl pk vault num} (amm : AmmImpl pk vault num) (m : Result A)
      (next : A → AmmImpl pk vault num × Result (Unit {0}))
      → attempt pk vault num amm m next ≡ (amm', ok tt)
      → ((a : A) → m ≡ ok a → next a ≡ (amm', ok tt) → P)
      → P
  attempt_ok amm (err e) next h goal = cc (ap (λ p. p.1) h)
  attempt_ok amm (ok a) next h goal = goal a refl h

  -- What the pieces of the object come from, once an update has succeeded.
  pub record IsUpdated (rpc : Rpc pk vault num) (amm amm' : AmmImpl pk vault num) : Type 0 where
    pub pool : PoolState
    pub pool_eq : get_pool_state pk vault num rpc amm.address ≡ ok (pool, amm'.lp_supply)
    pub holds : Holds pk vault num pool amm'
    pub vault_a_eq : rpc.fetch_vault amm.vault_a_pda ≡ ok amm'.vault_a
    pub vault_b_eq : rpc.fetch_vault amm.vault_b_pda ≡ ok amm'.vault_b
    pub info_eq :
        load_accounts_info pk vault num rpc amm'.vault_a amm'.vault_b pool ≡ ok amm'.accounts_info
    pub accounts_eq :
        amm'.depeg_accounts ≡ get_depeg_accounts rpc.get_multiple_accounts_info (pool ∷ [])
    pub shares_eq : amm'.shares_depeg ≡ true
    pub address_eq : amm'.address ≡ amm.address
    pub fresh : IsFresh amm'

  refreshed_eq :
      (m : Result VaultState) {v : VaultState} (old : VaultState)
      → m ≡ ok v
      → m ≡ ok (refreshed pk vault num m old)
  unfolding refreshed
  refreshed_eq (ok state) old e = refl
  refreshed_eq (err thrown) old e = cc

  -- The three requests of an update that went through.
  fetch_state_parts :
      {P : Type 0} (rpc : Rpc pk vault num) (amm : AmmImpl pk vault num)
      {fetched : PoolState × ℤ × VaultState × VaultState}
      → fetch_state pk vault num rpc amm ≡ ok fetched
      → (get_pool_state pk vault num rpc amm.address ≡ ok (fetched.0, fetched.1)
          → rpc.fetch_vault amm.vault_a_pda
            ≡ ok (refreshed pk vault num (rpc.fetch_vault amm.vault_a_pda) amm.vault_a)
          → rpc.fetch_vault amm.vault_b_pda
            ≡ ok (refreshed pk vault num (rpc.fetch_vault amm.vault_b_pda) amm.vault_b)
          → P)
      → P
  unfolding fetch_state
  fetch_state_parts rpc amm h goal =
      >>=-elim (get_pool_state pk vault num rpc amm.address) h (λ p e1 h1.
        >>=-elim (rpc.fetch_vault amm.vault_a_pda) h1 (λ a e2 h2.
          >>=-elim (rpc.fetch_vault amm.vault_b_pda) h2 (λ b e3 h3.
            goal (e1 ∙ ap (λ f. ok (f.0, f.1)) (ok_injective h3))
              (refreshed_eq (rpc.fetch_vault amm.vault_a_pda) amm.vault_a e2)
              (refreshed_eq (rpc.fetch_vault amm.vault_b_pda) amm.vault_b e3))))

  -- If an update succeeds, the object has the pool's state, but for the cached price, the supply of its tokens, the states of
  -- both vaults and the accounts as they are fetched now, and its amounts are computed from these alone. Its curve is of the type
  -- that is fetched now, with that amplification, multipliers and stake, the accounts and the time that are fetched now; the
  -- cached price, of the curve and of the pool's state, is the one that is fetched now or one that those accounts give, found at
  -- that time.
  pub update_state-IsUpdated :
      (rpc : Rpc pk vault num) (amm : AmmImpl pk vault num) {amm' : AmmImpl pk vault num}
      → update_state pk vault num rpc amm ≡ (amm', ok tt)
      → IsUpdated rpc amm amm'
  unfolding update_state refresh_vaults replace_pool_state update_accounts update_curve update_info
      pool_info_of with_curve
  update_state-IsUpdated rpc amm h =
      attempt_ok (refresh_vaults pk vault num rpc amm) (fetch_state pk vault num rpc amm) _ h
        (λ fetched e1 h1.
          let fresh =
            replace_pool_state pk vault num (refresh_vaults pk vault num rpc amm) fetched.0
              fetched.1 in
          let accounts = get_depeg_accounts rpc.get_multiple_accounts_info (fetched.0 ∷ []) in
          attempt_ok fresh
            (load_accounts_info pk vault num rpc fresh.vault_a fresh.vault_b fetched.0) _ h1
            (λ info e2 h2.
              let amm2 : AmmImpl pk vault num = record fresh {
                accounts_info = info;
                depeg_accounts = accounts;
              } in
              attempt_ok amm2 (new_curve pk vault num fetched.0 accounts info.current_time) _ h2
                (λ curve e3 h3.
                  let amm3 : AmmImpl pk vault num = record amm2 {
                    swap_curve = curve;
                    shares_depeg = true;
                  } in
                  attempt_ok amm3 (pool_info_of pk vault num info curve fresh.vault_a fresh.vault_b)
                    _ h3
                    (λ r e4 h4. fetch_state_parts rpc amm e1 (λ pool_eq a_eq b_eq.
                      let parts =
                        calculate_pool_info-IsInformed pk vault info.current_time
                          info.pool_vault_a_lp info.pool_vault_b_lp info.vault_a_lp_supply
                          info.vault_b_lp_supply info.pool_lp_supply curve fresh.vault_a
                          fresh.vault_b e4 in
                      let refreshed_curve =
                        pool_info_of-IsRefresh pk vault num info curve fresh.vault_a fresh.vault_b
                          e4 in
                      subst (IsUpdated rpc amm) (ap (λ p. p.0) h4) (record {
                        pool = fetched.0;
                        pool_eq = pool_eq;
                        holds =
                            new_curve-Holds pk vault num (record amm3 { pool_info = r.1 }) r.0 e3
                              refl refreshed_curve;
                        vault_a_eq = a_eq;
                        vault_b_eq = b_eq;
                        info_eq = e2;
                        accounts_eq = refl;
                        shares_eq = refl;
                        address_eq = refl;
                        fresh = record {
                          time = parts.time;
                          time_eq = parts.time_eq;
                          amounts_eq = parts.amounts_eq;
                        };
                      }))))))
