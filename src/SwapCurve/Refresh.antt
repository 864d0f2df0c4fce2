-- ===== src/SwapCurve/Refresh.antt =====
-- What the methods of ts-client/src/amm/curve/index.ts do to the object that they are called on.
use mathlib.Core.Path.{subst}
use mercurial_dynamic_amm_sd.Prelude.{
  ℤ, ◌≡◌, ap, ◌∙◌, Result, ok, ◌>>=◌, >>=-elim, ok_injective, Bool-cases, inl, inr, tdiv, ◌-ℤ◌,
  ◌+ℤ◌, pos, not,
}
use mercurial_dynamic_amm_sd.Types.{PoolFees}
use mercurial_dynamic_amm_sd.Curve.{TradeDirection, OutResult}
use mercurial_dynamic_amm_sd.Calculator
use mercurial_dynamic_amm_sd.Calculator.{compute_y}
use mercurial_dynamic_amm_sd.StableSwap.{
  StableSwap, update_depeg_info_if_expired, upscale_token_a, upscale_token_b, is_none, precision,
}
use mercurial_dynamic_amm_sd.StableSwap.Amounts
use mercurial_dynamic_amm_sd.StableSwap.Amounts.{
  upscale_source, upscale_destination, downscale_source, downscale_destination,
  compute_out_amount_without_slippage,
}
use mercurial_dynamic_amm_sd.StableSwap.Liquidity
use mercurial_dynamic_amm_sd.StableSwap.Liquidity.{
  to_fees, calculate_estimated_mint_amount, calculate_estimated_withdraw_one_amount,
}
use mercurial_dynamic_amm_sd.ConstantProduct
use mercurial_dynamic_amm_sd.SwapCurve.{
  Packages, SwapCurve, compute_out_amount, compute_d, compute_in_amount, compute_imbalance_deposit,
  compute_withdraw_one,
}

module _ (pk : Packages) where
  open pk use {js, tm, acc, sqrt}

  -- The object, once its cached price is up to date.
  abbrev pub IsRefresh : SwapCurve pk → SwapCurve pk → Type 0
  IsRefresh SwapCurve.constant_product SwapCurve.constant_product = Unit
  IsRefresh (SwapCurve.stable s) (SwapCurve.stable t) = update_depeg_info_if_expired acc s ≡ ok t
  IsRefresh SwapCurve.constant_product (SwapCurve.stable t) = ⊥
  IsRefresh (SwapCurve.stable s) SwapCurve.constant_product = ⊥

  -- The method of a stable curve leaves the object that its own method leaves.
  stays-IsRefresh :
      {A : Type 0} (s : StableSwap acc) (m : Result (StableSwap acc × A)) {r : SwapCurve pk × A}
      → ((p : StableSwap acc × A) → m ≡ ok p → update_depeg_info_if_expired acc s ≡ ok p.0)
      → (m >>= λ p. ok (SwapCurve.stable p.0, p.1)) ≡ ok r
      → IsRefresh (SwapCurve.stable s) r.0
  stays-IsRefresh s m updates h = >>=-elim m h (λ p h1 h2.
      subst (IsRefresh (SwapCurve.stable s)) (ap (λ q. q.0) (ok_injective h2)) (updates p h1))

  -- What is returned beside a result is the object that was brought up to date.
  left :
      {A : Type 0} (s t : StableSwap acc) (p : StableSwap acc × A) (a : A)
      → update_depeg_info_if_expired acc s ≡ ok t
      → ok (t, a) ≡ ok p
      → update_depeg_info_if_expired acc s ≡ ok p.0
  left s t p a updated e = updated ∙ ap (λ (q : Result (StableSwap acc × _)). q >>= λ x. ok x.0) e

  pub compute_d-IsRefresh :
      (curve : SwapCurve pk) (a b : ℤ) {r : SwapCurve pk × ℤ}
      → compute_d pk curve a b ≡ ok r
      → IsRefresh curve r.0
  unfolding compute_d
  compute_d-IsRefresh SwapCurve.constant_product a b h =
      subst (IsRefresh SwapCurve.constant_product) (ap (λ q. q.0) (ok_injective h)) tt
  compute_d-IsRefresh (SwapCurve.stable s) a b h =
      stays-IsRefresh s (Amounts.compute_d acc s a b) (λ p. stable_d s a b) h
    where
      stable_d :
          (s : StableSwap acc) (a b : ℤ) {p : StableSwap acc × ℤ}
          → Amounts.compute_d acc s a b ≡ ok p
          → update_depeg_info_if_expired acc s ≡ ok p.0
      stable_d s a b {p} h =
          unfold Amounts.compute_d in
          >>=-elim (update_depeg_info_if_expired acc s) h (λ t updated h1.
            >>=-elim
              (Calculator.compute_d t.amp (upscale_token_a acc t a) (upscale_token_b acc t b)) h1
              (λ d _ h2. elim (Bool-cases (not (is_none t.depeg.depeg_type))) [
                | inl based ↦
                    >>=-elim (tdiv d precision) (rw based at h2) (λ _ _ h3. left s t p _ updated h3)
                | inr none ↦ left s t p _ updated (rw none at h2)
              ]))

  pub compute_out_amount-IsRefresh :
      (curve : SwapCurve pk) (x a b : ℤ) (dir : TradeDirection) {r : SwapCurve pk × OutResult js}
      → compute_out_amount pk curve x a b dir ≡ ok r
      → IsRefresh curve r.0
  unfolding compute_out_amount
  compute_out_amount-IsRefresh SwapCurve.constant_product x a b dir h =
      >>=-elim (ConstantProduct.compute_out_amount js x a b dir) h (λ _ _ h1.
        subst (IsRefresh SwapCurve.constant_product) (ap (λ q. q.0) (ok_injective h1)) tt)
  compute_out_amount-IsRefresh (SwapCurve.stable s) x a b dir h =
      stays-IsRefresh s (Amounts.compute_out_amount acc js s x a b dir)
        (λ p. stable_out s x a b dir) h
    where
      stable_out :
          (s : StableSwap acc) (x a b : ℤ) (dir : TradeDirection)
          {p : StableSwap acc × OutResult js}
          → Amounts.compute_out_amount acc js s x a b dir ≡ ok p
          → update_depeg_info_if_expired acc s ≡ ok p.0
      stable_out s x a b dir {p} h =
          unfold Amounts.compute_out_amount in
          >>=-elim (update_depeg_info_if_expired acc s) h (λ t updated h1.
            let x' = upscale_source acc t dir x in
            let a' = upscale_source acc t dir a in
            let b' = upscale_destination acc t dir b in
            >>=-elim (Calculator.compute_d t.amp a' b') h1 (λ d _ h2.
              >>=-elim (compute_y t.amp (a' +ℤ x') d) h2 (λ y _ h3.
                >>=-elim (compute_out_amount_without_slippage t.amp x' a' b' d) h3 (λ w _ h4.
                  >>=-elim (downscale_destination acc t dir (b' -ℤ y -ℤ pos 1)) h4 (λ o _ h5.
                    >>=-elim (downscale_destination acc t dir w) h5
                      (λ _ _ h6. left s t p _ updated h6))))))

  pub compute_in_amount-IsRefresh :
      (curve : SwapCurve pk) (o a b : ℤ) (dir : TradeDirection) {r : SwapCurve pk × ℤ}
      → compute_in_amount pk curve o a b dir ≡ ok r
      → IsRefresh curve r.0
  unfolding compute_in_amount
  compute_in_amount-IsRefresh SwapCurve.constant_product o a b dir h =
      >>=-elim (ConstantProduct.compute_in_amount o a b dir) h (λ _ _ h1.
        subst (IsRefresh SwapCurve.constant_product) (ap (λ q. q.0) (ok_injective h1)) tt)
  compute_in_amount-IsRefresh (SwapCurve.stable s) o a b dir h =
      stays-IsRefresh s (Amounts.compute_in_amount acc s o a b dir) (λ p. stable_in s o a b dir) h
    where
      stable_in :
          (s : StableSwap acc) (o a b : ℤ) (dir : TradeDirection) {p : StableSwap acc × ℤ}
          → Amounts.compute_in_amount acc s o a b dir ≡ ok p
          → update_depeg_info_if_expired acc s ≡ ok p.0
      stable_in s o a b dir {p} h =
          unfold Amounts.compute_in_amount in
          >>=-elim (update_depeg_info_if_expired acc s) h (λ t updated h1.
            let o' = upscale_destination acc t dir o in
            let b' = upscale_destination acc t dir b in
            >>=-elim (Calculator.compute_d t.amp (upscale_source acc t dir a) b') h1 (λ d _ h2.
              >>=-elim (compute_y t.amp (b' -ℤ o') d) h2 (λ y _ h3.
                >>=-elim (downscale_source acc t dir (y -ℤ a)) h3
                  (λ _ _ h4. left s t p _ updated h4))))

  pub compute_imbalance_deposit-IsRefresh :
      (curve : SwapCurve pk) (x y a b lp : ℤ) (fees : PoolFees) {r : SwapCurve pk × ℤ}
      → compute_imbalance_deposit pk curve x y a b lp fees ≡ ok r
      → IsRefresh curve r.0
  unfolding compute_imbalance_deposit
  compute_imbalance_deposit-IsRefresh SwapCurve.constant_product x y a b lp fees h = cc
  compute_imbalance_deposit-IsRefresh (SwapCurve.stable s) x y a b lp fees h =
      stays-IsRefresh s (Liquidity.compute_imbalance_deposit tm acc s x y a b lp fees)
        (λ p. stable_deposit s x y a b lp fees) h
    where
      stable_deposit :
          (s : StableSwap acc) (x y a b lp : ℤ) (fees : PoolFees) {p : StableSwap acc × ℤ}
          → Liquidity.compute_imbalance_deposit tm acc s x y a b lp fees ≡ ok p
          → update_depeg_info_if_expired acc s ≡ ok p.0
      stable_deposit s x y a b lp fees {p} h =
          unfold Liquidity.compute_imbalance_deposit in
          >>=-elim (update_depeg_info_if_expired acc s) h (λ t updated h1.
            >>=-elim
              (calculate_estimated_mint_amount tm t.amp (to_fees tm fees) lp
                (upscale_token_a acc t a) (upscale_token_b acc t b) (upscale_token_a acc t x)
                (upscale_token_b acc t y))
              h1 (λ _ _ h2. left s t p _ updated h2))

  pub compute_withdraw_one-IsRefresh :
      (curve : SwapCurve pk) (lp supply a b : ℤ) (fees : PoolFees) (dir : TradeDirection)
      {r : SwapCurve pk × ℤ}
      → compute_withdraw_one pk curve lp supply a b fees dir ≡ ok r
      → IsRefresh curve r.0
  unfolding compute_withdraw_one
  compute_withdraw_one-IsRefresh SwapCurve.constant_product lp supply a b fees dir h = cc
  compute_withdraw_one-IsRefresh (SwapCurve.stable s) lp supply a b fees dir h =
      stays-IsRefresh s (Liquidity.compute_withdraw_one tm acc s lp supply a b fees dir)
        (λ p. stable_withdraw s lp supply a b fees dir) h
    where
      stable_withdraw :
          (s : StableSwap acc) (lp supply a b : ℤ) (fees : PoolFees) (dir : TradeDirection)
          {p : StableSwap acc × ℤ}
          → Liquidity.compute_withdraw_one tm acc s lp supply a b fees dir ≡ ok p
          → update_depeg_info_if_expired acc s ≡ ok p.0
      stable_withdraw s lp supply a b fees dir {p} h =
          unfold Liquidity.compute_withdraw_one in
          >>=-elim (update_depeg_info_if_expired acc s) h (λ t updated h1.
            >>=-elim
              (calculate_estimated_withdraw_one_amount tm t.amp (to_fees tm fees) supply
                (upscale_token_a acc t a) (upscale_token_b acc t b) lp dir)
              h1
              (λ w _ h2.
                >>=-elim (downscale_destination acc t dir w.withdraw_amount_before_fees) h2
                  (λ _ _ h3. left s t p _ updated h3)))
