-- ===== src/Examples/Pool.antt =====
-- Examples for the quotes of index.ts: a pool whose shares of the vaults are worth 1000 of token A and 2000 of
-- token B, for 1000 pool tokens.
use mathlib.Core.Option.{none}
use mercurial_dynamic_amm_sd.Prelude.{
  ltb_ℤ, ℕ, ◌+◌, ◌*◌, ◌/◌, ◌≤◌, ◌<◌, ◌≡◌, ◌||◌, leb, refl, arith, pos, is_zero, true, [], some, ok,
  if◌then◌else◌,
}
use mercurial_dynamic_amm_sd.Types.{
  PoolState, CurveType, TokenMultiplier, Depeg, no_depeg, permissionless,
}
use mercurial_dynamic_amm_sd.SwapCurve.{SwapCurve}
use mercurial_dynamic_amm_sd.Utils.{
  get_min_amount_with_slippage, get_max_amount_with_slippage, min_slippage, max_slippage,
  calculate_unclaimed_lock_escrow_fee,
}
use mercurial_dynamic_amm_sd.Pool.{
  with_shared, get_swap_quote, SwapQuote, AmmImpl, WithdrawQuote, DepositQuote, get_share_by_amount,
  get_amount_by_share, depeg_token, is_stable_pool,
}
use mercurial_dynamic_amm_sd.Pool.Liquidity.{
  get_withdraw_quote, get_deposit_quote, balanced_deposit, compute_actual_in_amount, UnclaimedFee,
  get_unclaimed_fee,
}
use mercurial_dynamic_amm_sd.Pool.Withdraw.{
  IsPooled, get_withdraw_quote-share, get_unclaimed_fee_bounds,
}
use mercurial_dynamic_amm_sd.Pool.Deposit.{get_deposit_quote-balanced}
use mercurial_dynamic_amm_sd.Pool.Swap.{get_swap_quote-limits}
use mercurial_dynamic_amm_sd.Curve.{get_price_impact}
use mercurial_dynamic_amm_sd.ConstantProduct
use mercurial_dynamic_amm_sd.SwapCurve.{compute_out_amount}
use mercurial_dynamic_amm_sd.Quote.{
  calculate_swap_quote, quote_swap, quote_curve, current_point, can_quote_earlier, pool_amounts,
  source_received, destination_paid,
}
use mercurial_dynamic_amm_sd.Utils.{
  calculate_trading_fee, calculate_protocol_trading_fee, calculate_max_swap_out_amount,
}
use mercurial_dynamic_amm_sd.Pool.Depeg.{depeg_token_lem}
use mercurial_dynamic_amm_sd.Examples.{packages, fractions, quarter_percent, plain_vault}

abbrev pub pool : CurveType → PoolState
pool curve_type = record {
  lp_mint = 1;
  token_a_mint = 2;
  token_b_mint = 3;
  a_vault = 4;
  b_vault = 5;
  a_vault_lp = 6;
  b_vault_lp = 7;
  a_vault_lp_bump = 255;
  enabled = true;
  protocol_token_a_fee = 8;
  protocol_token_b_fee = 9;
  fee_last_updated_at = pos 0;
  fees = quarter_percent;
  pool_type = permissionless;
  stake = 0;
  total_locked_lp = pos 0;
  bootstrapping = record {
    activation_point = pos 0;
    whitelisted_vault = 77;
    pool_creator = 0;
    activation_type = 0;
  };
  curve_type = curve_type;
}

abbrev pub amm : CurveType → AmmImpl packages plain_vault fractions
amm curve_type = record {
  address = 50;
  program_id = 51;
  vault_program_id = 52;
  token_a_mint_address = 2;
  token_b_mint_address = 3;
  token_a_mint_decimals = 6;
  token_b_mint_decimals = 9;
  pool_state = pool curve_type;
  lp_supply = pos 1000;
  pool_info = record {
    token_a_amount = pos 1000;
    token_b_amount = pos 2000;
    virtual_price = (pos 1, pos 1);
    virtual_price_raw = pos 100;
  };
  vault_a_pda = 4;
  vault_b_pda = 5;
  vault_a = pos 5000;
  vault_b = pos 3000;
  accounts_info = record {
    vault_a_reserve = pos 5000;
    vault_b_reserve = pos 3000;
    vault_a_lp_supply = pos 4000;
    vault_b_lp_supply = pos 3000;
    pool_vault_a_lp = pos 800;
    pool_vault_b_lp = pos 2000;
    pool_lp_supply = pos 1000;
    current_time = pos 1000;
    current_slot = pos 5;
  };
  swap_curve = SwapCurve.constant_product;
  shares_depeg = true;
  depeg_accounts = [];
}

abbrev pub plain : AmmImpl packages plain_vault fractions
plain = amm CurveType.constant_product

plain-IsPooled : IsPooled packages plain_vault fractions plain 1000 800 2000 5000 3000 4000 3000
plain-IsPooled = record {
  time_eq = refl;
  supply_eq = refl;
  lp_a_eq = refl;
  lp_b_eq = refl;
  supply_a_eq = refl;
  supply_b_eq = refl;
  withdrawable_a_eq = refl;
  withdrawable_b_eq = refl;
  supply_pos = omega arith;
  supply_a_pos = omega arith;
  supply_b_pos = omega arith;
}

abbrev pub half_percent : fractions.Number
half_percent = (pos 5, pos 10)

abbrev withdrawn : WithdrawQuote packages plain_vault fractions
withdrawn = record {
  pool_token_amount_in = pos 107;
  min_token_a_out_amount = pos 105;
  min_token_b_out_amount = pos 212;
  token_a_out_amount = pos 106;
  token_b_out_amount = pos 214;
}

withdraw :
    get_withdraw_quote packages plain_vault fractions plain (pos 107) half_percent none
    ≡ ok (plain, withdrawn)
unfolding get_withdraw_quote get_share_by_amount get_amount_by_share get_min_amount_with_slippage
    min_slippage
withdraw = refl

get_withdraw_quote-share_example :
    (a : ℕ) × (b : ℕ) × (pos 106 ≡ pos a)
    × (pos 214 ≡ pos b)
    × (a * (1000 * 4000) ≤ 107 * 800 * 5000)
    × (b * (1000 * 3000) ≤ 107 * 2000 * 3000)
    × (◌≡◌ {A = ℕ} 107 1000 → (a ≡ 800 * 5000 / 4000) × (b ≡ 2000 * 3000 / 3000))
get_withdraw_quote-share_example =
    get_withdraw_quote-share packages plain_vault fractions plain 1000 800 2000 5000 3000 4000 3000
      107 half_percent plain-IsPooled withdraw

abbrev unclaimed : UnclaimedFee packages plain_vault fractions
unclaimed = record { lp = pos 107; token_a = pos 106; token_b = pos 214 }

unclaimed_fee :
    get_unclaimed_fee packages plain_vault fractions plain (pos 1000) (pos 90) (pos 7) (pos 500)
    ≡ ok unclaimed
unfolding get_unclaimed_fee calculate_unclaimed_lock_escrow_fee get_withdraw_quote
    get_share_by_amount get_amount_by_share get_min_amount_with_slippage min_slippage
unclaimed_fee = refl

get_unclaimed_fee_bounds_example :
    (n : ℕ) × (a : ℕ) × (b : ℕ) × (pos 107 ≡ pos n)
    × (pos 106 ≡ pos a)
    × (pos 214 ≡ pos b)
    × (n ≤ 500)
    × (n ≤ 7 + 1000)
    × (a * (1000 * 4000) ≤ n * 800 * 5000)
    × (b * (1000 * 3000) ≤ n * 2000 * 3000)
get_unclaimed_fee_bounds_example =
    get_unclaimed_fee_bounds packages plain_vault fractions plain 1000 800 2000 5000 3000 4000 3000
      1000 90 7 100 500 plain-IsPooled refl (omega arith) unclaimed_fee

abbrev deposited : DepositQuote packages plain_vault fractions
deposited = record {
  pool_token_amount_out = pos 99;
  min_pool_token_amount_out = pos 98;
  token_a_in_amount = pos 100;
  token_b_in_amount = pos 201;
}

deposit :
    get_deposit_quote packages plain_vault fractions plain (pos 100) (pos 0) true half_percent
    ≡ ok (plain, deposited)
unfolding get_deposit_quote is_stable_pool balanced_deposit compute_actual_in_amount
    get_share_by_amount get_amount_by_share get_min_amount_with_slippage min_slippage
    get_max_amount_with_slippage max_slippage
deposit = refl

get_deposit_quote-balanced_example : (true ≡ true) × ((is_zero (pos 100) || is_zero (pos 0)) ≡ true)
get_deposit_quote-balanced_example =
    get_deposit_quote-balanced packages plain_vault fractions plain (pos 100) (pos 0) true
      half_percent refl refl refl deposit

abbrev pub multipliers : TokenMultiplier
multipliers = record {
  token_a_multiplier = pos 1;
  token_b_multiplier = pos 1;
  precision_factor = 9;
}

abbrev pub no_base : Depeg
no_base = record { base_virtual_price = pos 0; base_cache_updated = pos 0; depeg_type = no_depeg }

depeg_token_lem_example :
    depeg_token packages plain_vault fractions
      (amm (CurveType.stable (pos 100) multipliers no_base (pos 0)))
    ≡ ok (
        if leb (1000 * 1 + 2000 * 1) (1000 * 2)
        then some 2
        else if leb (1000 * 1 + 2000 * 1) (2000 * 2)
        then some 3
        else none)
depeg_token_lem_example =
    depeg_token_lem packages plain_vault fractions
      (amm (CurveType.stable (pos 100) multipliers no_base (pos 0))) (pos 100) (pos 0) multipliers
      no_base 1 1 1000 2000 refl refl refl refl refl (omega arith)

abbrev pub quoted : SwapQuote packages plain_vault fractions
quoted = record {
  swap_in_amount = pos 100;
  swap_out_amount = pos 181;
  min_swap_out_amount = pos 180;
  fee = pos 0;
  price_impact = (pos 19, pos 200);
}

pub swap :
    get_swap_quote packages plain_vault fractions plain 2 (pos 100) half_percent none
    ≡ ok (plain, quoted)
unfolding get_swap_quote with_shared calculate_swap_quote quote_swap quote_curve current_point
    can_quote_earlier pool_amounts source_received destination_paid compute_out_amount
    ConstantProduct.compute_out_amount get_price_impact calculate_trading_fee
    calculate_protocol_trading_fee calculate_max_swap_out_amount get_min_amount_with_slippage
    min_slippage
swap = refl

min_rate : min_slippage fractions half_percent ≡ pos 9950
unfolding min_slippage
min_rate = refl

get_swap_quote-limits_example :
    (lo : ℕ) × (true ≡ true)
    × (pos 100 ≡ pos 100)
    × (ltb_ℤ (pos 181) (pos 3000) ≡ true)
    × (pos 180 ≡ pos lo)
    × (lo * 10000 ≤ 181 * 9950)
    × (181 * 9950 < (lo + 1) * 10000)
    × (lo ≤ 181)
get_swap_quote-limits_example =
    get_swap_quote-limits packages plain_vault fractions plain 2 (pos 100) half_percent none 9950
      181 refl min_rate (omega arith) refl swap
