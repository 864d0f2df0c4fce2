-- ===== src/StableSwap/Amounts.antt =====
-- ts-client/src/amm/curve/stable-swap.ts: the swap amounts and the invariant of the class `StableSwap`.
use mercurial_dynamic_amm_sd.Prelude.{
  ℤ, pos, ◌+ℤ◌, ◌-ℤ◌, ◌*ℤ◌, tdiv, not, Result, ok, ◌>>=◌, if◌then◌else◌,
}
use mercurial_dynamic_amm_sd.Types.{AccountData}
use mercurial_dynamic_amm_sd.Curve.{
  DecimalJs, TradeDirection, a_to_b, b_to_a, OutResult, get_price_impact,
}
use mercurial_dynamic_amm_sd.Calculator
use mercurial_dynamic_amm_sd.Calculator.{compute_y}
use mercurial_dynamic_amm_sd.StableSwap.{
  StableSwap, precision, is_none, update_depeg_info_if_expired, upscale_token_a, downscale_token_a,
  upscale_token_b, downscale_token_b,
}

-- `computeOutAmountWithoutSlippage`, on scaled amounts.
unfoldable pub compute_out_amount_without_slippage :
    (amp source swap_source swap_destination invariant_d : ℤ) → Result ℤ
compute_out_amount_without_slippage amp source swap_source swap_destination invariant_d =
    let a = amp *ℤ pos 16 in
    let b = a in
    let c = invariant_d *ℤ pos 4 -ℤ invariant_d *ℤ amp *ℤ pos 16 in
    let numerator = (pos 2 *ℤ a *ℤ swap_source +ℤ b *ℤ swap_destination +ℤ c) *ℤ swap_destination in
    let denominator = (a *ℤ swap_source +ℤ (pos 2 *ℤ b *ℤ swap_destination +ℤ c)) *ℤ swap_source in
    tdiv (source *ℤ numerator) denominator

module _ (acc : AccountData) where
  -- The scaling of the token that is paid in, and of the one that is paid out.
  unfoldable pub upscale_source : StableSwap acc → TradeDirection → ℤ → ℤ
  upscale_source s a_to_b = upscale_token_a acc s
  upscale_source s b_to_a = upscale_token_b acc s

  unfoldable pub upscale_destination : StableSwap acc → TradeDirection → ℤ → ℤ
  upscale_destination s a_to_b = upscale_token_b acc s
  upscale_destination s b_to_a = upscale_token_a acc s

  unfoldable pub downscale_source : StableSwap acc → TradeDirection → ℤ → Result ℤ
  downscale_source s a_to_b = downscale_token_a acc s
  downscale_source s b_to_a = downscale_token_b acc s

  unfoldable pub downscale_destination : StableSwap acc → TradeDirection → ℤ → Result ℤ
  downscale_destination s a_to_b = downscale_token_b acc s
  downscale_destination s b_to_a = downscale_token_a acc s

  unfoldable pub compute_out_amount :
      (js : DecimalJs)
      → StableSwap acc
      → (source swap_source swap_destination : ℤ) → TradeDirection
      → Result (StableSwap acc × OutResult js)
  compute_out_amount js this source swap_source swap_destination direction = do
    s ← update_depeg_info_if_expired acc this
    let source' = upscale_source s direction source
    let swap_source' = upscale_source s direction swap_source
    let swap_destination' = upscale_destination s direction swap_destination
    invariant_d ← Calculator.compute_d s.amp swap_source' swap_destination'
    new_destination ← compute_y s.amp (swap_source' +ℤ source') invariant_d
    let out = swap_destination' -ℤ new_destination -ℤ pos 1
    without_slippage ←
        compute_out_amount_without_slippage s.amp source' swap_source' swap_destination' invariant_d
    out_amount ← downscale_destination s direction out
    out_amount_without_slippage ← downscale_destination s direction without_slippage
    ok (
      s,
      record {
        out_amount = out_amount;
        price_impact = get_price_impact js out_amount out_amount_without_slippage;
      },
    )

  unfoldable pub compute_d :
      StableSwap acc → (token_a_amount token_b_amount : ℤ) → Result (StableSwap acc × ℤ)
  compute_d this token_a_amount token_b_amount = do
    s ← update_depeg_info_if_expired acc this
    invariant_d ←
        Calculator.compute_d s.amp (upscale_token_a acc s token_a_amount)
          (upscale_token_b acc s token_b_amount)
    if not (is_none s.depeg.depeg_type)
        then (do d ← tdiv invariant_d precision; ok (s, d))
        else ok (s, invariant_d)

  -- The reserve of the source token is subtracted as it was passed in, not scaled.
  unfoldable pub compute_in_amount :
      StableSwap acc
      → (dest swap_source swap_destination : ℤ) → TradeDirection
      → Result (StableSwap acc × ℤ)
  compute_in_amount this dest swap_source swap_destination direction = do
    s ← update_depeg_info_if_expired acc this
    let dest' = upscale_destination s direction dest
    let swap_source' = upscale_source s direction swap_source
    let swap_destination' = upscale_destination s direction swap_destination
    invariant_d ← Calculator.compute_d s.amp swap_source' swap_destination'
    new_source ← compute_y s.amp (swap_destination' -ℤ dest') invariant_d
    in_amount ← downscale_source s direction (new_source -ℤ swap_source)
    ok (s, in_amount)
