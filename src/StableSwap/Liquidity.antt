-- ===== src/StableSwap/Liquidity.antt =====
-- ts-client/src/amm/curve/stable-swap.ts: deposits and withdrawals that are not balanced,
-- `calculateEstimatedMintAmount`, `calculateEstimatedWithdrawOneAmount` and the methods that call them.
use mercurial_dynamic_amm_sd.Prelude.{
  ℤ, pos, neg_ℤ, ◌+ℤ◌, ◌-ℤ◌, ◌*ℤ◌, ltb_ℤ, is_zero, tdiv, not, ◌&&◌, Result, ok, ◌>>=◌, ◌>>◌,
  invariant, if◌then◌else◌, new_d_less,
}
use mercurial_dynamic_amm_sd.Types.{AccountData, PoolFees}
use mercurial_dynamic_amm_sd.Curve.{TradeDirection, a_to_b, b_to_a}
use mercurial_dynamic_amm_sd.Calculator.{
  TokenMath, Fees, normalized_trade_fee, compute_d, compute_y, n_coins,
}
use mercurial_dynamic_amm_sd.StableSwap.Amounts.{downscale_destination}
use mercurial_dynamic_amm_sd.StableSwap.{
  StableSwap, update_depeg_info_if_expired, upscale_token_a, upscale_token_b,
}

pub record WithdrawOneAmounts : Type 0 where
  pub withdraw_amount : ℤ
  pub withdraw_amount_before_fees : ℤ
  pub swap_fee : ℤ
  pub withdraw_fee : ℤ
  pub lp_swap_fee : ℤ
  pub lp_withdraw_fee : ℤ
  pub admin_swap_fee : ℤ
  pub admin_withdraw_fee : ℤ

pub record MintAmounts : Type 0 where
  pub mint_amount_before_fees : ℤ
  pub mint_amount : ℤ
  pub fees : ℤ

abbrev nothing_withdrawn : WithdrawOneAmounts
nothing_withdrawn = record {
  withdraw_amount = pos 0;
  withdraw_amount_before_fees = pos 0;
  swap_fee = pos 0;
  withdraw_fee = pos 0;
  lp_swap_fee = pos 0;
  lp_withdraw_fee = pos 0;
  admin_swap_fee = pos 0;
  admin_withdraw_fee = pos 0;
}

-- The base and the quote reserve of a withdrawal in one token.
abbrev base_and_quote : TradeDirection → ℤ → ℤ → ℤ × ℤ
base_and_quote b_to_a reserve_a reserve_b = (reserve_a, reserve_b)
base_and_quote a_to_b reserve_a reserve_b = (reserve_b, reserve_a)

module _ (tm : TokenMath) where
  open tm use {
    Fraction, fraction, percent, multiply, subtract, is_positive, to_fixed_0, as_fraction,
  }

  -- `Helper.toFees`.
  unfoldable pub to_fees : PoolFees → Fees tm
  to_fees fees = record {
    admin_trade = percent fees.protocol_trade_fee_numerator fees.protocol_trade_fee_denominator;
    trade = percent fees.trade_fee_numerator fees.trade_fee_denominator;
    admin_withdraw = percent (pos 0) (pos 100);
    withdraw = percent (pos 0) (pos 100);
  }

  abbrev whole : ℤ → Fraction
  whole n = fraction n (pos 1)

  -- A new reserve less its share of the fee, for `adjustedBalances`.
  adjusted_balance : Fees tm → (d0 d1 old_balance new_balance : ℤ) → Result ℤ
  adjusted_balance fees d0 d1 old_balance new_balance = do
    let ideal = multiply (fraction d1 d0) (whole old_balance)
    let difference = subtract ideal (whole new_balance)
    let diff_abs =
        if is_positive difference then difference else multiply difference (whole (neg_ℤ (pos 1)))
    rounded ← to_fixed_0 diff_abs
    fee ← to_fixed_0 (normalized_trade_fee tm fees n_coins rounded)
    ok (new_balance -ℤ fee)

  unfoldable pub calculate_estimated_mint_amount :
      (amp : ℤ)
      → Fees tm
      → (lp_total_supply reserve_a reserve_b deposit_a deposit_b : ℤ) → Result MintAmounts
  unfolding adjusted_balance
  calculate_estimated_mint_amount amp fees lp_total_supply reserve_a reserve_b deposit_a deposit_b =
      if is_zero deposit_a && is_zero deposit_b
      then ok (record { mint_amount_before_fees = pos 0; mint_amount = pos 0; fees = pos 0 })
      else (do
        d0 ← compute_d amp reserve_a reserve_b
        d1 ← compute_d amp (reserve_a +ℤ deposit_a) (reserve_b +ℤ deposit_b)
        invariant (not (ltb_ℤ d1 d0)) new_d_less
        adjusted_a ← adjusted_balance fees d0 d1 reserve_a (reserve_a +ℤ deposit_a)
        adjusted_b ← adjusted_balance fees d0 d1 reserve_b (reserve_b +ℤ deposit_b)
        d2 ← compute_d amp adjusted_a adjusted_b
        raw ← tdiv (lp_total_supply *ℤ (d2 -ℤ d0)) d0
        raw_before_fees ← tdiv (lp_total_supply *ℤ (d1 -ℤ d0)) d0
        ok (record {
          mint_amount = raw;
          mint_amount_before_fees = raw_before_fees;
          fees = raw_before_fees -ℤ raw;
        }))

  unfoldable pub calculate_estimated_withdraw_one_amount :
      (amp : ℤ)
      → Fees tm
      → (lp_total_supply reserve_a reserve_b pool_token_amount : ℤ) → TradeDirection
      → Result WithdrawOneAmounts
  calculate_estimated_withdraw_one_amount amp fees lp_total_supply reserve_a reserve_b
        pool_token_amount direction =
      if is_zero pool_token_amount then ok nothing_withdrawn else (do
        let (base, quote) = base_and_quote direction reserve_a reserve_b
        d_0 ← compute_d amp base quote
        burnt ← tdiv (pool_token_amount *ℤ d_0) lp_total_supply
        let d_1 = d_0 -ℤ burnt
        new_y ← compute_y amp quote d_1
        base_share ← tdiv (base *ℤ d_1) d_0
        let expected_base = base_share -ℤ new_y
        quote_share ← tdiv (quote *ℤ d_1) d_0
        let expected_quote = quote -ℤ quote_share
        let new_base = subtract (whole base) (normalized_trade_fee tm fees n_coins expected_base)
        let new_quote = subtract (whole quote) (normalized_trade_fee tm fees n_coins expected_quote)
        new_quote_rounded ← to_fixed_0 new_quote
        rest ← compute_y amp new_quote_rounded d_1
        let dy = subtract new_base (whole rest)
        let dy_0 = base -ℤ new_y
        let swap_fee = subtract (whole dy_0) dy
        let withdraw_fee = multiply dy (as_fraction fees.withdraw)
        let admin_swap_fee = multiply swap_fee (as_fraction fees.admin_trade)
        let admin_withdraw_fee = multiply withdraw_fee (as_fraction fees.admin_withdraw)
        let lp_swap_fee = subtract swap_fee admin_swap_fee
        let lp_withdraw_fee = subtract withdraw_fee admin_withdraw_fee
        let withdraw_amount = subtract (subtract dy withdraw_fee) swap_fee
        withdraw_amount' ← to_fixed_0 withdraw_amount
        dy' ← to_fixed_0 dy
        swap_fee' ← to_fixed_0 swap_fee
        withdraw_fee' ← to_fixed_0 withdraw_fee
        lp_swap_fee' ← to_fixed_0 lp_swap_fee
        lp_withdraw_fee' ← to_fixed_0 lp_withdraw_fee
        admin_swap_fee' ← to_fixed_0 admin_swap_fee
        admin_withdraw_fee' ← to_fixed_0 admin_withdraw_fee
        ok (record {
          withdraw_amount = withdraw_amount';
          withdraw_amount_before_fees = dy';
          swap_fee = swap_fee';
          withdraw_fee = withdraw_fee';
          lp_swap_fee = lp_swap_fee';
          lp_withdraw_fee = lp_withdraw_fee';
          admin_swap_fee = admin_swap_fee';
          admin_withdraw_fee = admin_withdraw_fee';
        }))

  module _ (acc : AccountData) where
    unfoldable pub compute_imbalance_deposit :
        StableSwap acc
        → (deposit_a deposit_b swap_token_a swap_token_b lp_supply : ℤ) → PoolFees
        → Result (StableSwap acc × ℤ)
    compute_imbalance_deposit this deposit_a deposit_b swap_token_a swap_token_b lp_supply fees = do
      s ← update_depeg_info_if_expired acc this
      amounts ←
          calculate_estimated_mint_amount s.amp (to_fees fees) lp_supply
            (upscale_token_a acc s swap_token_a) (upscale_token_b acc s swap_token_b)
            (upscale_token_a acc s deposit_a) (upscale_token_b acc s deposit_b)
      ok (s, amounts.mint_amount)

    unfoldable pub compute_withdraw_one :
        StableSwap acc
        → (lp_amount lp_supply swap_token_a swap_token_b : ℤ) → PoolFees
        → TradeDirection
        → Result (StableSwap acc × ℤ)
    compute_withdraw_one this lp_amount lp_supply swap_token_a swap_token_b fees direction = do
      s ← update_depeg_info_if_expired acc this
      amounts ←
          calculate_estimated_withdraw_one_amount s.amp (to_fees fees) lp_supply
            (upscale_token_a acc s swap_token_a) (upscale_token_b acc s swap_token_b) lp_amount
            direction
      out ← downscale_destination acc s direction amounts.withdraw_amount_before_fees
      ok (s, out)
