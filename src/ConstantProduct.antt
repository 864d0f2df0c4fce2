-- ===== src/ConstantProduct.antt =====
-- ts-client/src/amm/curve/constant-product.ts: `ceilDiv` and the class `ConstantProductSwap`. The
-- square root of the package bn-sqrt and the decimals of decimal.js are parameters.
pub mod CeilDiv
pub mod Swap
pub mod Trades
pub mod Inverse
use mercurial_dynamic_amm_sd.Prelude.{
  ℕ, ◌≡◌, ℤ, pos, ◌+ℤ◌, ◌-ℤ◌, ◌*ℤ◌, ◌==ℤ◌, ltb_ℤ, tdiv, tmod, Bool, not, List, [], Result, ok, err,
  ◌>>=◌, ◌>>◌, invariant, ceil_div_zero, swap_result_zero, unsupported_operation, if◌then◌else◌,
}
use mercurial_dynamic_amm_sd.Curve.{DecimalJs, TradeDirection, OutResult, get_price_impact}

unfoldable pub ceil_div : ℤ → ℤ → Result (ℤ × ℤ)
ceil_div lhs rhs = do
  quotient ← tdiv lhs rhs
  invariant (not (quotient ==ℤ pos 0)) ceil_div_zero
  remainder ← tmod lhs rhs
  let quotient' = quotient +ℤ pos 1
  if ltb_ℤ (pos 0) remainder
      then (do
        rhs' ← tdiv lhs quotient'
        remainder' ← tmod lhs quotient'
        ok (quotient', if ltb_ℤ (pos 0) remainder' then rhs' +ℤ pos 1 else rhs'))
      else ok (quotient, rhs)

unfoldable pub compute_out_amount_without_slippage : ℤ → ℤ → ℤ → Result ℤ
compute_out_amount_without_slippage source_amount swap_source swap_destination =
    tdiv (source_amount *ℤ swap_destination) swap_source

module _ (js : DecimalJs) where
  unfoldable pub compute_out_amount : ℤ → ℤ → ℤ → TradeDirection → Result (OutResult js)
  unfolding ceil_div compute_out_amount_without_slippage
  compute_out_amount source_amount swap_source swap_destination trade_direction = do
    let k = swap_source *ℤ swap_destination
    (new_destination, new_source) ← ceil_div k (swap_source +ℤ source_amount)
    let swapped = swap_destination -ℤ new_destination
    invariant (not (swapped ==ℤ pos 0)) swap_result_zero
    without_slippage ←
        compute_out_amount_without_slippage source_amount swap_source swap_destination
    ok (record {
      out_amount = swapped;
      price_impact = get_price_impact js swapped without_slippage;
    })

-- `sqrt` is the default export of bn-sqrt.
unfoldable pub compute_d : (ℤ → ℤ) → ℤ → ℤ → ℤ
compute_d sqrt token_a_amount token_b_amount = sqrt (token_a_amount *ℤ token_b_amount)

unfoldable pub compute_in_amount : ℤ → ℤ → ℤ → TradeDirection → Result ℤ
unfolding ceil_div
compute_in_amount dest_amount swap_source swap_destination trade_direction = do
  let k = swap_source *ℤ swap_destination
  (new_source, new_destination) ← ceil_div k (swap_destination -ℤ dest_amount)
  let source_amount = new_source -ℤ swap_source
  invariant (not (source_amount ==ℤ pos 0)) swap_result_zero
  ok source_amount
