-- ===== src/StableSwap/Swaps.antt =====
-- `computeOutAmount`, `computeD` and `computeInAmount` of the class `StableSwap` of
-- ts-client/src/amm/curve/stable-swap.ts.
use native.Mathlib.Nat.{mul-pos, lt-div-mul-add, mul-lt-mul_of_pos_right, div-lt_iff_lt-mul}
use mathlib.Core.Path.{subst}
use native.Mathlib.Decide.{dec_lt}
use mercurial_dynamic_amm_sd.Prelude.{
  ℕ, ◌+◌, ◌-◌, ◌*◌, ◌/◌, ◌≤◌, ◌<◌, ◌≡◌, sym, ◌>>=◌, err, sub_ℕ-of_le, lt→ltb, ap, arith, ℤ, pos,
  Result, ok, neg_ℤ, neg_ℤ-lt, ◌-ℤ◌, ltb_ℤ, true,
}
use mercurial_dynamic_amm_sd.Types.{AccountData}
use mercurial_dynamic_amm_sd.Curve.{TradeDirection, a_to_b, DecimalJs, get_price_impact, OutResult}
use mercurial_dynamic_amm_sd.Calculator
use mercurial_dynamic_amm_sd.Calculator.Invariant.{compute_d_bounds}
use mercurial_dynamic_amm_sd.Calculator.Root.{compute_y_total}
use mercurial_dynamic_amm_sd.StableSwap.{StableSwap, is_none, update_depeg_info_if_expired}
use mercurial_dynamic_amm_sd.StableSwap.Scale
use mercurial_dynamic_amm_sd.StableSwap.Cache
use mercurial_dynamic_amm_sd.StableSwap.Scale.{IsScaled, scale_source, scale_destination}
use mercurial_dynamic_amm_sd.StableSwap.Amounts.{
  compute_out_amount, compute_out_amount_without_slippage, compute_d, compute_in_amount,
  downscale_destination, downscale_source,
}

gap : (o d m : ℕ) → o < d → 0 < m → 0 < d * m - o * m
gap o d m lt h = let more : o * m < d * m = mul-lt-mul_of_pos_right lt h in omega arith

le_lt_pos : {o d : ℕ} → o < d → 0 < d
le_lt_pos h = omega arith

pred_suc : (m : ℕ) → 0 < m → m ≡ m - 1 + 1
pred_suc m h = omega arith

quotient_of : (a b : ℕ) → ◌≡◌ {A = Result ℤ} (ok (pos a)) (ok (pos b)) → a ≡ b
quotient_of a b h = ground arith

minus_one : (a y : ℕ) → a ≤ y → pos a -ℤ pos y -ℤ pos 1 ≡ neg_ℤ (pos (y + 1 - a))
minus_one a y h = ground arith

module _ (acc : AccountData) (s : StableSwap acc) {ma mb price : ℕ}
    (sc : IsScaled s ma mb price) where
  -- What is left of d units after y + 1 units of the curve scales down to less than d.
  rest-lt :
      (dir : TradeDirection) (d y : ℕ)
      → 0 < d
      → (v : ℤ) × (downscale_destination acc s dir
            (pos (d * scale_destination dir s.depeg.depeg_type ma mb price) -ℤ pos y -ℤ pos 1)
          ≡ ok v)
        × (ltb_ℤ v (pos d) ≡ true)
  rest-lt dir d y h = elim (dec_lt y (d * scale_destination dir s.depeg.depeg_type ma mb price)) [
    | yes lt ↦
        let k = scale_destination dir s.depeg.depeg_type ma mb price in
        let rest = d * k - y - 1 in
        (
          pos (rest / k),
          rw (sub_ℕ-of_le (d * k) y (omega arith), sub_ℕ-of_le (d * k - y) 1 (omega arith))
              (Scale.downscale_destination-pos acc s sc dir rest),
          lt→ltb (rest / k) d
              ((div-lt_iff_lt-mul (Scale.scale_destination_pos acc s sc dir)).1 (omega arith)),
        )
    | no late ↦
        let over = y + 1 - d * scale_destination dir s.depeg.depeg_type ma mb price in
        let (n, down) = Scale.downscale_destination-neg acc s sc dir over in
        (
          neg_ℤ (pos n),
          rw (minus_one (d * scale_destination dir s.depeg.depeg_type ma mb price) y (omega arith))
              down,
          neg_ℤ-lt n d h,
        )
  ]

module _ (acc : AccountData) (js : DecimalJs) where
  -- The end of `computeOutAmount`, once the amount out is scaled.
  abbrev returned : StableSwap acc → ℤ → ℤ → Result (StableSwap acc × OutResult js)
  returned s v without =
      ok (s, record { out_amount = v; price_impact = get_price_impact js v without })

  paid_last :
      (s t : StableSwap acc) (v : ℤ) (m : Result ℤ) {r : OutResult js}
      → (m >>= returned s v) ≡ ok (t, r)
      → (t ≡ s) × (r.out_amount ≡ v)
  paid_last s t v (ok w) h = ground arith
  paid_last s t v (err e) h = cc

  paid :
      (s t : StableSwap acc) (v : ℤ) (m : Result ℤ) (g : ℤ → Result ℤ) {r : OutResult js}
      → (m >>= λ without. g without >>= returned s v) ≡ ok (t, r)
      → (t ≡ s) × (r.out_amount ≡ v)
  paid s t v (ok w) g h = paid_last s t v (g w) h
  paid s t v (err e) g h = cc

  -- If the curve, once up to date, has positive multipliers, a positive price and an amplification of
  -- at least 1, and both reserves are positive, then a swap that `computeOutAmount` accepts pays less
  -- than the reserve of the token that is paid out, and leaves the curve up to date.
  pub compute_out_amount-lt :
      (this s t : StableSwap acc) (ma mb price amp x sw d : ℕ) (dir : TradeDirection)
      {r : OutResult js}
      → update_depeg_info_if_expired acc this ≡ ok s
      → IsScaled s ma mb price
      → s.amp ≡ pos amp
      → 0 < amp
      → 0 < sw
      → 0 < d
      → compute_out_amount acc js this (pos x) (pos sw) (pos d) dir ≡ ok (t, r)
      → (t ≡ s) × (ltb_ℤ r.out_amount (pos d) ≡ true)
  unfolding compute_out_amount
  compute_out_amount-lt this s t ma mb price amp x sw d dir upd sc amp-eq ha hs hd h =
      let ks = scale_source dir s.depeg.depeg_type ma mb price in
      let kd = scale_destination dir s.depeg.depeg_type ma mb price in
      let ks_pos = Scale.scale_source_pos acc s sc dir in
      let kd_pos = Scale.scale_destination_pos acc s sc dir in
      let (dd, found_d, _, _) =
        compute_d_bounds amp (sw * ks) (d * kd) ha (mul-pos hs ks_pos) (mul-pos hd kd_pos) in
      let (y, found_y) =
        compute_y_total amp (sw * ks + x * ks) dd ha (omega (arith, mul-pos hs ks_pos)) in
      let (v, down, lt) = rest-lt acc s sc dir d y hd in
      let at_d =
        subst (λ n. Calculator.compute_d n (pos (sw * ks)) (pos (d * kd)) ≡ ok (pos dd))
          (sym amp-eq) found_d in
      let at_y =
        subst (λ n. Calculator.compute_y n (pos (sw * ks + x * ks)) (pos dd) ≡ ok (pos y))
          (sym amp-eq) found_y in
      let h' =
        rw
          (
            upd,
            Scale.upscale_source-pos acc s sc dir x,
            Scale.upscale_source-pos acc s sc dir sw,
            Scale.upscale_destination-pos acc s sc dir d,
            at_d,
            at_y,
            down,
          )
          at h in
      let (same, out) =
        paid s t v
          (compute_out_amount_without_slippage s.amp (pos (x * ks)) (pos (sw * ks)) (pos (d * kd))
            (pos dd))
          (downscale_destination acc s dir) h' in
      (same, rw out lt)

module _ (acc : AccountData) where
  -- If a pool without a base pool, with an amplification of at least 1 and positive multipliers, holds
  -- positive reserves, `computeD` returns an invariant that is
  -- positive and at most twice the sum of the scaled reserves, and leaves the curve as it is.
  pub compute_d_none :
      (s : StableSwap acc) (ma mb price amp a b : ℕ)
      → is_none s.depeg.depeg_type ≡ true
      → IsScaled s ma mb price
      → s.amp ≡ pos amp
      → 0 < amp
      → 0 < a
      → 0 < b
      → (d : ℕ) × (compute_d acc s (pos a) (pos b) ≡ ok (s, pos d))
        × (0 < d)
        × (d ≤ 2 * (a * ma + b * mb))
  unfolding compute_d
  compute_d_none s ma mb price amp a b plain sc amp-eq ha pa pb =
      let (dd, found_d, some_d, le_d) =
        compute_d_bounds amp (a * ma) (b * mb) ha (mul-pos pa sc.multiplier_a_pos)
          (mul-pos pb sc.multiplier_b_pos) in
      let at_d =
        subst (λ n. Calculator.compute_d n (pos (a * ma)) (pos (b * mb)) ≡ ok (pos dd)) (sym amp-eq)
          found_d in
      (
        dd,
        rw
            (
              Cache.update_none acc s plain,
              Scale.upscale_token_a-pos acc s sc a,
              Scale.upscale_token_b-pos acc s sc b,
            )
            (rw (plain, at_d)),
        some_d,
        le_d,
      )

  asked :
      (s t : StableSwap acc) (m : Result ℤ) (v : ℤ)
      → (m >>= λ (w : ℤ). let r : Result (StableSwap acc × ℤ) = ok (s, w) in r) ≡ ok (t, v)
      → m ≡ ok v
  asked s t (ok w) v h = ground arith
  asked s t (err e) v h = cc

  overshoot :
      (s : StableSwap acc) (ma mb price y sw v : ℕ)
      → is_none s.depeg.depeg_type ≡ true
      → IsScaled s ma mb price
      → (downscale_source acc s a_to_b (pos y -ℤ pos sw) >>= λ (w : ℤ).
          let r : Result (StableSwap acc × ℤ) = ok (s, w) in r)
        ≡ ok (s, pos v)
      → y + sw * (ma - 1) < (sw + v) * ma + ma
  unfolding downscale_source
  overshoot s ma mb price y sw v plain sc h = elim (dec_lt y sw) [
    | yes short ↦ omega (arith, ap (λ (t : ℕ). sw * t) (pred_suc ma sc.multiplier_a_pos))
    | no enough ↦
        let down =
          rw (sub_ℕ-of_le y sw (omega arith), Scale.downscale_token_a-pos acc s sc (y - sw), plain)
            at (asked s s (downscale_source acc s a_to_b (pos y -ℤ pos sw)) (pos v) h) in
        let v-eq : (y - sw) / ma ≡ v = quotient_of ((y - sw) / ma) v down in
        let up : y - sw < (y - sw) / ma * ma + ma = lt-div-mul-add sc.multiplier_a_pos in
        let up' : y - sw < v * ma + ma = rw v-eq at up in
        omega (arith, ap (λ (t : ℕ). sw * t) (pred_suc ma sc.multiplier_a_pos))
  ]

  -- What `computeInAmount` asks for, for an amount of token B below its reserve, in a pool without a base pool,
  -- with an amplification of at least 1, positive multipliers and a positive reserve of token A, where one unit
  -- of token A is m units of the curve: the scaled reserve that it leads to passes the reserve y that the curve wants by more than
  -- (m - 1) times the reserve of token A, less m.
  pub compute_in_amount_overshoot :
      (s : StableSwap acc) (ma mb price amp o sw d v : ℕ)
      → is_none s.depeg.depeg_type ≡ true
      → IsScaled s ma mb price
      → s.amp ≡ pos amp
      → 0 < amp
      → 0 < sw
      → o < d
      → compute_in_amount acc s (pos o) (pos sw) (pos d) a_to_b ≡ ok (s, pos v)
      → (dd : ℕ) × (y : ℕ) × (Calculator.compute_d s.amp (pos (sw * ma)) (pos (d * mb))
          ≡ ok (pos dd))
        × (Calculator.compute_y s.amp (pos (d * mb - o * mb)) (pos dd) ≡ ok (pos y))
        × (y + sw * (ma - 1) < (sw + v) * ma + ma)
  unfolding compute_in_amount
  compute_in_amount_overshoot s ma mb price amp o sw d v plain sc amp-eq ha hs lt h =
      let room : 0 < d * mb - o * mb = gap o d mb lt sc.multiplier_b_pos in
      let (dd, found_d, _, _) =
        compute_d_bounds amp (sw * ma) (d * mb) ha (mul-pos hs sc.multiplier_a_pos)
          (mul-pos (le_lt_pos lt) sc.multiplier_b_pos) in
      let (y, found_y) = compute_y_total amp (d * mb - o * mb) dd ha room in
      let at_d =
        subst (λ n. Calculator.compute_d n (pos (sw * ma)) (pos (d * mb)) ≡ ok (pos dd))
          (sym amp-eq) found_d in
      let at_y =
        subst (λ n. Calculator.compute_y n (pos (d * mb - o * mb)) (pos dd) ≡ ok (pos y))
          (sym amp-eq) found_y in
      let h' =
        rw
          (
            Cache.update_none acc s plain,
            Scale.upscale_source-pos acc s sc a_to_b sw,
            Scale.upscale_destination-pos acc s sc a_to_b o,
            Scale.upscale_destination-pos acc s sc a_to_b d,
            plain,
            at_d,
            sub_ℕ-of_le (d * mb) (o * mb) (omega arith),
            at_y,
          )
          at h in
      (dd, y, at_d, at_y, overshoot s ma mb price y sw v plain sc h')
