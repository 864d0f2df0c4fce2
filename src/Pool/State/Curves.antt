-- ===== src/Pool/State/Curves.antt =====
-- The curve that `create`, `updateState` and `createMultiple` of ts-client/src/amm/index.ts make of a pool that was fetched,
-- once its cached price has been brought up to date.
use mathlib.Core.Path.{subst}
use mercurial_dynamic_amm_sd.Prelude.{
  ℤ, ◌≡◌, ◌⊎◌, refl, sym, true, List, ok, >>=-elim, ok_injective, to_number,
}
use mercurial_dynamic_amm_sd.Types.{PublicKey, PoolState, CurveType, TokenMultiplier, Depeg}
use mercurial_dynamic_amm_sd.StableSwap.{StableSwap}
use mercurial_dynamic_amm_sd.StableSwap.Cache.{IsPrice, update_keeps, update_reads}
use mercurial_dynamic_amm_sd.SwapCurve.{Packages, SwapCurve}
use mercurial_dynamic_amm_sd.SwapCurve.Refresh.{IsRefresh}
use mercurial_dynamic_amm_sd.Utils.{Numbers}
use mercurial_dynamic_amm_sd.Vault.{VaultSdk}
use mercurial_dynamic_amm_sd.Pool.{AmmImpl, with_curve, store_depeg}
use mercurial_dynamic_amm_sd.Pool.State.{new_curve, new_curve_of}

module _ (pk : Packages) (vault : VaultSdk) (num : Numbers) where
  open pk use {acc}
  open acc use {Buffer}

  -- A stable curve has the parameters that were fetched, the accounts, the time and the stake; its price is the
  -- one that was fetched or one that its accounts give, found at its time; and `now` is the
  -- type that was fetched with the curve's price.
  pub record IsStableOf (amp : ℤ) (token_multiplier : TokenMultiplier) (depeg : Depeg) (updated : ℤ)
      (now : CurveType) (stake : PublicKey) (accounts : List (PublicKey × Buffer)) (time : ℤ)
      (s : StableSwap acc) : Type 0 where
    pub amp_eq : to_number amp ≡ ok s.amp
    pub multiplier_eq : s.token_multiplier ≡ token_multiplier
    pub accounts_eq : s.extra_accounts ≡ accounts
    pub time_eq : s.on_chain_time ≡ time
    pub stake_eq : s.stake_pool_pubkey ≡ stake
    pub kind_eq : s.depeg.depeg_type ≡ depeg.depeg_type
    pub price :
        (s.depeg ≡ depeg)
        ⊎ (IsPrice acc s depeg.depeg_type s.depeg.base_virtual_price
            × (s.depeg.base_cache_updated ≡ time))
    pub type_eq : now ≡ CurveType.stable amp token_multiplier s.depeg updated

  -- A curve is one for a pool's type as it was fetched, and `now` is that type with the price of the curve.
  abbrev pub IsCurveOf :
      (fetched now : CurveType) (stake : PublicKey)
      → (accounts : List (PublicKey × Buffer)) (time : ℤ) → SwapCurve pk
      → Type 0
  IsCurveOf CurveType.constant_product now stake accounts time SwapCurve.constant_product =
      now ≡ CurveType.constant_product
  IsCurveOf (CurveType.stable amp tm depeg updated) now stake accounts time (SwapCurve.stable s) =
      IsStableOf amp tm depeg updated now stake accounts time s
  IsCurveOf CurveType.constant_product now stake accounts time (SwapCurve.stable s) = ⊥
  IsCurveOf (CurveType.stable amp tm depeg updated) now stake accounts time
        SwapCurve.constant_product =
      ⊥

  -- An object has a pool's state as it was fetched, but for the cached price, and a curve for it.
  pub record Holds (pool : PoolState) (amm : AmmImpl pk vault num) : Type 0 where
    pub state_eq : amm.pool_state ≡ record pool { curve_type = amm.pool_state.curve_type }
    pub curve :
        IsCurveOf pool.curve_type amm.pool_state.curve_type pool.stake amm.depeg_accounts
          amm.accounts_info.current_time amm.swap_curve

  constant_product-refresh :
      (curve : SwapCurve pk) (stake : PublicKey) (accounts : List (PublicKey × Buffer)) (time : ℤ)
      → IsRefresh pk SwapCurve.constant_product curve
      → IsCurveOf CurveType.constant_product
          (store_depeg pk vault num curve CurveType.constant_product)
          stake
          accounts
          time
          curve
  unfolding store_depeg
  constant_product-refresh SwapCurve.constant_product stake accounts time r = refl
  constant_product-refresh (SwapCurve.stable s) stake accounts time r = elim r [ ]

  stable-refresh :
      (amp : ℤ) (tm : TokenMultiplier) (depeg : Depeg) (updated : ℤ) (amp' : ℤ) (stake : PublicKey)
      (accounts : List (PublicKey × Buffer)) (time : ℤ) (curve : SwapCurve pk)
      → to_number amp ≡ ok amp'
      → IsRefresh pk
          (SwapCurve.stable (record {
            amp = amp';
            token_multiplier = tm;
            depeg = depeg;
            extra_accounts = accounts;
            on_chain_time = time;
            stake_pool_pubkey = stake;
          }))
          curve
      → IsCurveOf
          (CurveType.stable amp tm depeg updated)
          (store_depeg pk vault num curve (CurveType.stable amp tm depeg updated))
          stake
          accounts
          time
          curve
  unfolding store_depeg
  stable-refresh amp tm depeg updated amp' stake accounts time SwapCurve.constant_product e r =
      elim r [ ]
  stable-refresh amp tm depeg updated amp' stake accounts time (SwapCurve.stable s) e r =
      let s0 : StableSwap acc = record {
        amp = amp';
        token_multiplier = tm;
        depeg = depeg;
        extra_accounts = accounts;
        on_chain_time = time;
        stake_pool_pubkey = stake;
      } in
      let (kept, kind) = update_keeps acc s0 r in
      subst
        (λ o.
          IsStableOf amp tm depeg updated (CurveType.stable amp tm o.depeg updated) stake accounts
            time o)
        (sym kept)
        (record {
          amp_eq = e;
          multiplier_eq = refl;
          accounts_eq = refl;
          time_eq = refl;
          stake_eq = refl;
          kind_eq = kind;
          price = update_reads acc s0 r;
          type_eq = refl;
        })

  new_curve_of-IsCurveOf :
      (t : CurveType) (stake : PublicKey) (accounts : List (PublicKey × Buffer)) (time : ℤ)
      {old : SwapCurve pk} (curve : SwapCurve pk)
      → new_curve_of pk vault num t stake accounts time ≡ ok old
      → IsRefresh pk old curve
      → IsCurveOf t (store_depeg pk vault num curve t) stake accounts time curve
  unfolding new_curve_of
  new_curve_of-IsCurveOf CurveType.constant_product stake accounts time curve made r =
      constant_product-refresh curve stake accounts time
        (subst (λ o. IsRefresh pk o curve) (sym (ok_injective made)) r)
  new_curve_of-IsCurveOf (CurveType.stable amp tm depeg updated) stake accounts time curve made r =
      >>=-elim (to_number amp) made (λ amp' e same.
        stable-refresh amp tm depeg updated amp' stake accounts time curve e
          (subst (λ o. IsRefresh pk o curve) (sym (ok_injective same)) r))

  -- An object with a curve that was made of its pool's state and its accounts, once the curve's price is up to date.
  pub new_curve-Holds :
      (amm : AmmImpl pk vault num) {old : SwapCurve pk} (curve : SwapCurve pk)
      → new_curve pk vault num amm.pool_state amm.depeg_accounts amm.accounts_info.current_time
        ≡ ok old
      → amm.shares_depeg ≡ true
      → IsRefresh pk old curve
      → Holds amm.pool_state (with_curve pk vault num amm curve)
  unfolding new_curve with_curve
  new_curve-Holds amm curve made together r = rw together (record {
    state_eq = refl;
    curve =
        new_curve_of-IsCurveOf amm.pool_state.curve_type amm.pool_state.stake amm.depeg_accounts
          amm.accounts_info.current_time curve made r;
  })
