-- ===== src/Pool/Deposit.antt =====
-- `getDepositQuote` of ts-client/src/amm/index.ts on a constant product pool.
use mercurial_dynamic_amm_sd.Prelude.{
  ℤ, is_zero, to_number, Bool, true, false, not, ◌||◌, ◌&&◌, ok, err, >>=-elim, invariant,
  only_balanced_deposit, unsupported_operation, balanced_deposit_two_sided, ◌≡◌, refl, Bool-cases,
  inl, inr,
}
use mercurial_dynamic_amm_sd.Types.{CurveType, PoolFees}
use mercurial_dynamic_amm_sd.SwapCurve.{Packages, SwapCurve, compute_imbalance_deposit}
use mercurial_dynamic_amm_sd.Utils.{Numbers, compute_actual_deposit_amount}
use mercurial_dynamic_amm_sd.Vault.{VaultSdk}
use mercurial_dynamic_amm_sd.Quote.Parts.{invariant-ok}
use mercurial_dynamic_amm_sd.Pool.{AmmImpl, DepositQuote, is_stable_pool}
use mercurial_dynamic_amm_sd.Pool.Liquidity.{get_deposit_quote, imbalanced_deposit}

one_sided :
    (za zb : Bool) → not (not false && not za && not zb && not false) ≡ true → (za || zb) ≡ true
one_sided true zb h = refl
one_sided false true h = refl
one_sided false false h = cc

and_false : (b : Bool) → (b && false) ≡ false
and_false true = refl
and_false false = refl

module _ (pk : Packages) (vault : VaultSdk) (num : Numbers) where
  open num use {Number}
  open vault use {calculate_withdrawable_amount}

  no_imbalance :
      (curve : SwapCurve pk) (x y a b supply : ℤ) (fees : PoolFees) {r : SwapCurve pk × ℤ}
      → curve ≡ SwapCurve.constant_product
      → compute_imbalance_deposit pk curve x y a b supply fees ≡ ok r
      → ⊥
  unfolding compute_imbalance_deposit
  no_imbalance curve x y a b supply fees e h =
      let refused : err unsupported_operation ≡ ok _ = rw e at h in cc

  imbalanced_deposit-refused :
      (amm : AmmImpl pk vault num) (a_in b_in withdrawable_a withdrawable_b : ℤ) (slippage : Number)
      {r : AmmImpl pk vault num × DepositQuote pk vault num}
      → amm.swap_curve ≡ SwapCurve.constant_product
      → imbalanced_deposit pk vault num amm a_in b_in withdrawable_a withdrawable_b slippage ≡ ok r
      → ⊥
  unfolding imbalanced_deposit
  imbalanced_deposit-refused amm a_in b_in withdrawable_a withdrawable_b slippage curve h =
      let info = amm.accounts_info in
      let a = amm.pool_info.token_a_amount in
      let b = amm.pool_info.token_b_amount in
      >>=-elim
        (compute_actual_deposit_amount a_in a info.pool_vault_a_lp info.vault_a_lp_supply
          withdrawable_a)
        h
        (λ x _ h1.
          >>=-elim
            (compute_actual_deposit_amount b_in b info.pool_vault_b_lp info.vault_b_lp_supply
              withdrawable_b)
            h1
            (λ y _ h2.
              >>=-elim
                (compute_imbalance_deposit pk amm.swap_curve x y a b info.pool_lp_supply
                  amm.pool_state.fees)
                h2
                (λ z e _.
                  no_imbalance amm.swap_curve x y a b info.pool_lp_supply amm.pool_state.fees curve
                    e)))

  constant_product-stable :
      (amm : AmmImpl pk vault num)
      → amm.pool_state.curve_type ≡ CurveType.constant_product
      → is_stable_pool pk vault num amm ≡ false
  unfolding is_stable_pool
  constant_product-stable amm kind = rw kind

  -- A constant product pool with liquidity quotes no deposit but a balanced one, in which at most one of the
  -- two amounts is given.
  pub get_deposit_quote-balanced :
      (amm : AmmImpl pk vault num) (a_in b_in : ℤ) (balance : Bool) (slippage : Number)
      {r : AmmImpl pk vault num × DepositQuote pk vault num}
      → amm.pool_state.curve_type ≡ CurveType.constant_product
      → amm.swap_curve ≡ SwapCurve.constant_product
      → is_zero amm.accounts_info.pool_lp_supply ≡ false
      → get_deposit_quote pk vault num amm a_in b_in balance slippage ≡ ok r
      → (balance ≡ true) × ((is_zero a_in || is_zero b_in) ≡ true)
  unfolding get_deposit_quote
  get_deposit_quote-balanced amm a_in b_in balance slippage kind curve liquid h =
      let info = amm.accounts_info in
      >>=-elim
        (invariant
          (not (
            not (is_stable_pool pk vault num amm)
            && not (is_zero a_in)
            && not (is_zero b_in)
            && not (is_zero info.pool_lp_supply)))
          only_balanced_deposit)
        h
        (λ _ guard h1.
          >>=-elim
            (invariant (not (not (is_zero a_in) && not (is_zero b_in) && balance))
              balanced_deposit_two_sided)
            h1
            (λ _ _ h2. (
              elim (Bool-cases balance) [
                | inl e ↦ e
                | inr e ↦ >>=-elim (to_number info.current_time) (rw liquid at h2) (λ time _ h3.
                    absurd (
                      imbalanced_deposit-refused amm a_in b_in
                        (calculate_withdrawable_amount time amm.vault_a)
                        (calculate_withdrawable_amount time amm.vault_b) slippage curve
                        (rw (e, and_false (is_zero a_in), and_false (is_zero b_in)) at h3)))
              ],
              one_sided (is_zero a_in) (is_zero b_in)
                  (rw (constant_product-stable amm kind, liquid) at (invariant-ok _ _ guard)),
            )))
