-- ===== src/Pool/State/Coherent.antt =====
-- The curve object of `AmmImpl` of ts-client/src/amm/index.ts agrees with the pool's state, whatever is
-- called on the object, and in whatever order.
use mathlib.Core.Path.{subst}
use mercurial_dynamic_amm_sd.Prelude.{
  ℤ, ◌≡◌, refl, sym, ap, ◌∙◌, true, false, List, [], ◌∷◌, Result, ok, err, >>=-elim, ok_injective,
  to_number,
}
use mercurial_dynamic_amm_sd.Types.{PublicKey, PoolState, CurveType}
use mercurial_dynamic_amm_sd.DepegAccounts.{get_depeg_accounts}
use mercurial_dynamic_amm_sd.StableSwap.Cache.{update_keeps}
use mercurial_dynamic_amm_sd.SwapCurve.{Packages, SwapCurve}
use mercurial_dynamic_amm_sd.SwapCurve.Refresh.{IsRefresh, compute_d-IsRefresh}
use mercurial_dynamic_amm_sd.Utils.{Numbers}
use mercurial_dynamic_amm_sd.Vault.{VaultSdk}
use mercurial_dynamic_amm_sd.Quote.{PoolInformation}
use mercurial_dynamic_amm_sd.Pool.{
  AccountsInfo, AmmImpl, with_curve, with_shared, store_depeg, share_depeg,
}
use mercurial_dynamic_amm_sd.Pool.Quotes.{Leaves, same, refreshed, shared}
use mercurial_dynamic_amm_sd.Pool.Accounts.{Rpc, load_accounts_info}
use mercurial_dynamic_amm_sd.Pool.State.{
  new_curve, new_curve_of, pool_info_of, update_state, attempt, fetch_state, update_curve,
  update_info, refresh_vaults, replace_pool_state, update_accounts,
}
use mercurial_dynamic_amm_sd.Quote.Info.{calculate_pool_info-IsInformed}

module _ (pk : Packages) (vault : VaultSdk) (num : Numbers) where
  open pk use {acc}

  -- A curve is of the pool's type, with its parameters and its cached price.
  abbrev pub Agrees : SwapCurve pk → CurveType → (stake : PublicKey) → Type 0
  Agrees SwapCurve.constant_product CurveType.constant_product stake = Unit
  Agrees (SwapCurve.stable s) (CurveType.stable amp token_multiplier depeg updated) stake =
      (to_number amp ≡ ok s.amp)
      × (s.token_multiplier ≡ token_multiplier)
      × (s.depeg ≡ depeg)
      × (s.stake_pool_pubkey ≡ stake)
  Agrees SwapCurve.constant_product (CurveType.stable amp token_multiplier depeg updated) stake = ⊥
  Agrees (SwapCurve.stable s) CurveType.constant_product stake = ⊥

  -- The curve agrees with the pool's state, if the two share their cached price.
  abbrev pub IsCoherent : AmmImpl pk vault num → Type 0
  IsCoherent amm =
      amm.shares_depeg ≡ true → Agrees amm.swap_curve amm.pool_state.curve_type amm.pool_state.stake

  refresh-Agrees :
      (old new : SwapCurve pk) (curve_type : CurveType) (stake : PublicKey)
      → Agrees old curve_type stake
      → IsRefresh pk old new
      → Agrees new (store_depeg pk vault num new curve_type) stake
  unfolding store_depeg
  refresh-Agrees SwapCurve.constant_product SwapCurve.constant_product CurveType.constant_product
        stake a r =
      tt
  refresh-Agrees (SwapCurve.stable s) (SwapCurve.stable t) (CurveType.stable amp tm depeg updated)
        stake (a, m, d, k) r =
      let (kept, _) = update_keeps acc s r in
      (
        a ∙ ap (λ o. ok o.amp) (sym kept),
        ap (λ o. o.token_multiplier) kept ∙ m,
        refl,
        ap (λ o. o.stake_pool_pubkey) kept ∙ k,
      )
  refresh-Agrees SwapCurve.constant_product SwapCurve.constant_product
        (CurveType.stable amp tm depeg updated) stake a r =
      elim a [ ]
  refresh-Agrees SwapCurve.constant_product (SwapCurve.stable t) curve_type stake a r = elim r [ ]
  refresh-Agrees (SwapCurve.stable s) SwapCurve.constant_product curve_type stake a r = elim r [ ]
  refresh-Agrees (SwapCurve.stable s) (SwapCurve.stable t) CurveType.constant_product stake a r =
      elim a [ ]

  share-Agrees :
      (other own : SwapCurve pk) (curve_type : CurveType) (stake : PublicKey)
      → Agrees own curve_type stake
      → Agrees
          (share_depeg pk vault num other own)
          (store_depeg pk vault num other curve_type)
          stake
  unfolding store_depeg share_depeg
  share-Agrees SwapCurve.constant_product own curve_type stake a = a
  share-Agrees (SwapCurve.stable o) SwapCurve.constant_product CurveType.constant_product stake a =
      tt
  share-Agrees (SwapCurve.stable o) (SwapCurve.stable s) (CurveType.stable amp tm depeg updated)
        stake (a, m, d, k) =
      (a, m, refl, k)
  share-Agrees (SwapCurve.stable o) SwapCurve.constant_product
        (CurveType.stable amp tm depeg updated) stake a =
      elim a [ ]
  share-Agrees (SwapCurve.stable o) (SwapCurve.stable s) CurveType.constant_product stake a =
      elim a [ ]

  pub with_curve-IsCoherent :
      (amm : AmmImpl pk vault num) (curve : SwapCurve pk)
      → IsCoherent amm
      → IsRefresh pk amm.swap_curve curve
      → IsCoherent (with_curve pk vault num amm curve)
  unfolding with_curve
  with_curve-IsCoherent amm curve h r together = rw together (
      refresh-Agrees amm.swap_curve curve amm.pool_state.curve_type amm.pool_state.stake
        (h together) r)

  with_shared-IsCoherent :
      (amm : AmmImpl pk vault num) (other : SwapCurve pk)
      → IsCoherent amm
      → IsCoherent (with_shared pk vault num amm other)
  unfolding with_shared
  with_shared-IsCoherent amm other h together = rw together (
      share-Agrees other amm.swap_curve amm.pool_state.curve_type amm.pool_state.stake (h together))

  pub Leaves-IsCoherent :
      {amm amm' : AmmImpl pk vault num}
      → IsCoherent amm
      → Leaves pk vault num amm amm'
      → IsCoherent amm'
  Leaves-IsCoherent h (same e) = subst IsCoherent e h
  Leaves-IsCoherent {amm} h (refreshed curve r e) =
      subst IsCoherent e (with_curve-IsCoherent amm curve h r)
  Leaves-IsCoherent {amm} h (shared other e) =
      subst IsCoherent e (with_shared-IsCoherent amm other h)

  pub new_curve-Agrees :
      (pool : PoolState) (accounts : List (PublicKey × acc.Buffer)) (time : ℤ)
      {curve : SwapCurve pk}
      → new_curve pk vault num pool accounts time ≡ ok curve
      → Agrees curve pool.curve_type pool.stake
  unfolding new_curve
  new_curve-Agrees pool accounts time h = of_type pool.curve_type pool.stake accounts time h
    where
      of_type :
          (curve_type : CurveType) (stake : PublicKey) (accounts : List (PublicKey × acc.Buffer))
          (time : ℤ) {curve : SwapCurve pk}
          → new_curve_of pk vault num curve_type stake accounts time ≡ ok curve
          → Agrees curve curve_type stake
      of_type CurveType.constant_product stake accounts time h =
          subst (λ c. Agrees c CurveType.constant_product stake) (ok_injective h) tt
      of_type (CurveType.stable amp tm depeg updated) stake accounts time h =
          >>=-elim (to_number amp) h (λ a e h1.
            subst (λ c. Agrees c (CurveType.stable amp tm depeg updated) stake) (ok_injective h1)
              (e, refl, refl, refl))

  pub attempt_holds :
      {A : Type 0} (P : AmmImpl pk vault num → Type 0) (amm : AmmImpl pk vault num) (m : Result A)
      (next : A → AmmImpl pk vault num × Result (Unit {0}))
      → P amm
      → ((a : A) → m ≡ ok a → P (next a).0)
      → P (attempt pk vault num amm m next).0
  attempt_holds P amm (err e) next h goes = h
  attempt_holds P amm (ok a) next h goes = goes a refl

  pub pool_info_of-IsRefresh :
      (info : AccountsInfo pk vault num) (curve : SwapCurve pk) (a b : vault.VaultState)
      {r : SwapCurve pk × PoolInformation pk vault}
      → pool_info_of pk vault num info curve a b ≡ ok r
      → IsRefresh pk curve r.0
  unfolding pool_info_of
  pool_info_of-IsRefresh info curve a b {r} h =
      let parts =
        calculate_pool_info-IsInformed pk vault info.current_time info.pool_vault_a_lp
          info.pool_vault_b_lp info.vault_a_lp_supply info.vault_b_lp_supply info.pool_lp_supply
          curve a b h in
      compute_d-IsRefresh pk curve r.1.token_a_amount r.1.token_b_amount parts.invariant_eq

  update_info-IsCoherent :
      (amm : AmmImpl pk vault num) (info : AccountsInfo pk vault num)
      → IsCoherent amm
      → IsCoherent (update_info pk vault num amm info).0
  unfolding update_info
  update_info-IsCoherent amm info h =
      attempt_holds IsCoherent amm
        (pool_info_of pk vault num info amm.swap_curve amm.vault_a amm.vault_b) _ h
        (λ r e.
          with_curve-IsCoherent amm r.0 h
            (pool_info_of-IsRefresh info amm.swap_curve amm.vault_a amm.vault_b e))

  update_curve-IsCoherent :
      (rpc : Rpc pk vault num) (amm : AmmImpl pk vault num) (info : AccountsInfo pk vault num)
      → amm.shares_depeg ≡ false
      → IsCoherent (update_curve pk vault num rpc amm info).0
  unfolding update_curve
  update_curve-IsCoherent rpc amm info split =
      let accounts = get_depeg_accounts rpc.get_multiple_accounts_info (amm.pool_state ∷ []) in
      let amm' = record amm { accounts_info = info; depeg_accounts = accounts } in
      attempt_holds IsCoherent amm'
        (new_curve pk vault num amm.pool_state accounts info.current_time) _ (λ together. cc)
        (λ curve made.
          update_info-IsCoherent (record amm' { swap_curve = curve; shares_depeg = true }) info
            (λ _. new_curve-Agrees amm.pool_state accounts info.current_time made))

  -- Whether an update succeeds or fails half way, it leaves a coherent object coherent.
  pub update_state-IsCoherent :
      (rpc : Rpc pk vault num) (amm : AmmImpl pk vault num)
      → IsCoherent amm
      → IsCoherent (update_state pk vault num rpc amm).0
  unfolding update_state update_accounts replace_pool_state
  update_state-IsCoherent rpc amm h =
      let vaults = refresh_vaults pk vault num rpc amm in
      attempt_holds IsCoherent vaults (fetch_state pk vault num rpc amm) _
        (unfold refresh_vaults in h)
        (λ fetched _.
          let fresh = replace_pool_state pk vault num vaults fetched.0 fetched.1 in
          attempt_holds IsCoherent fresh
            (load_accounts_info pk vault num rpc fresh.vault_a fresh.vault_b fetched.0) _
            (λ together. cc) (λ info _. update_curve-IsCoherent rpc fresh info refl))
