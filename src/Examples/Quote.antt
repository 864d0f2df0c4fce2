-- ===== src/Examples/Quote.antt =====
-- Examples for the quotes of utils.ts: a pool with a million of token A and two of token B.
use mathlib.Core.Option.{none}
use mercurial_dynamic_amm_sd.Prelude.{
  ℕ, ◌-◌, ◌*◌, ◌≤◌, ◌<◌, ◌≡◌, ◌||◌, ◌==◌, refl, arith, ℤ, pos, ◌*ℤ◌, ◌-ℤ◌, tdiv, ltb_ℤ, true, not,
  [], Option, some, ok, err, swap_disabled,
}
use mercurial_dynamic_amm_sd.Types.{PoolState, CurveType, permissionless}
use mercurial_dynamic_amm_sd.Curve.{get_price_impact}
use mercurial_dynamic_amm_sd.ConstantProduct
use mercurial_dynamic_amm_sd.SwapCurve.{SwapCurve, compute_out_amount}
use mercurial_dynamic_amm_sd.Utils.{
  calculate_trading_fee, calculate_protocol_trading_fee, calculate_max_swap_out_amount,
}
use mercurial_dynamic_amm_sd.Quote.{
  quote_swap, SwapQuoteParam, SwapResult, pool_amounts, quote_curve, current_point,
  can_quote_earlier, source_received, destination_paid, calculate_swap_quote,
}
use mercurial_dynamic_amm_sd.Quote.Limits.{
  paid_total, paid_reserve, activated, calculate_swap_quote-limits, calculate_swap_quote-activation,
}
use mercurial_dynamic_amm_sd.Quote.Product.{worth, calculate_swap_quote-product}
use mercurial_dynamic_amm_sd.Memecoin.{
  SwapQuoteParams2, LocalStates, is_present, get_token_amount_after_deposit_vault,
  get_token_amount_after_withdraw_vault, calculate_swap_quote_for_going_to_create_memecoin_pool,
}
use mercurial_dynamic_amm_sd.Memecoin.Fee.{memecoin_quote-fee}
use mercurial_dynamic_amm_sd.Examples.{
  exact, packages, quarter_percent, plain_vault, plain_vault-IsProportional,
}

abbrev pool : (activation : ℕ) → PoolState
pool activation = record {
  lp_mint = 1;
  token_a_mint = 2;
  token_b_mint = 3;
  a_vault = 4;
  b_vault = 5;
  a_vault_lp = 6;
  b_vault_lp = 7;
  a_vault_lp_bump = 255;
  enabled = true;
  protocol_token_a_fee = 8;
  protocol_token_b_fee = 9;
  fee_last_updated_at = pos 0;
  fees = quarter_percent;
  pool_type = permissionless;
  stake = 0;
  total_locked_lp = pos 0;
  bootstrapping = record {
    activation_point = pos activation;
    whitelisted_vault = 77;
    pool_creator = 0;
    activation_type = 1;
  };
  curve_type = CurveType.constant_product;
}

abbrev params : (activation : ℕ) → SwapQuoteParam packages plain_vault
params activation = record {
  pool_state = pool activation;
  vault_a = pos 5_000_000;
  vault_b = pos 3_000_000;
  pool_vault_a_lp = pos 800_000;
  pool_vault_b_lp = pos 2_000_000;
  vault_a_lp_supply = pos 4_000_000;
  vault_b_lp_supply = pos 3_000_000;
  vault_a_reserve = pos 100_000;
  vault_b_reserve = pos 150_000;
  current_time = pos 1000;
  current_slot = pos 5;
  depeg_accounts = [];
}

abbrev quoted : SwapResult packages plain_vault
quoted = record { amount_out = pos 19_752; fee = pos 20; price_impact = (pos 198, pos 19_950) }

quote :
    calculate_swap_quote packages plain_vault 2 (pos 10_000) (params 900) none
    ≡ ok (SwapCurve.constant_product, quoted)
unfolding calculate_swap_quote quote_swap quote_curve current_point can_quote_earlier pool_amounts
    source_received destination_paid compute_out_amount ConstantProduct.compute_out_amount
    get_price_impact calculate_trading_fee calculate_protocol_trading_fee
    calculate_max_swap_out_amount
quote = refl

amounts :
    pool_amounts packages plain_vault
      (pos 1000)
      (pos 5_000_000)
      (pos 3_000_000)
      (pos 800_000)
      (pos 2_000_000)
      (pos 4_000_000)
      (pos 3_000_000)
    ≡ ok (pos 1_000_000, pos 2_000_000)
unfolding pool_amounts
amounts = refl

trade : calculate_trading_fee (pos 10_000) quarter_percent ≡ ok (pos 25)
unfolding calculate_trading_fee
trade = refl

protocol : calculate_protocol_trading_fee (pos 25) quarter_percent ≡ ok (pos 5)
unfolding calculate_protocol_trading_fee
protocol = refl

calculate_swap_quote-product_example :
    (o : ℕ) × (pos 19_752 ≡ pos o)
    × (pos 20 ≡ pos (25 - 5))
    × (o < 2_000_000)
    × (1_000_000 * 2_000_000 ≤ worth (10_000 - 5) 5_000_000 4_000_000 800_000 * (2_000_000 - o))
calculate_swap_quote-product_example =
    calculate_swap_quote-product packages plain_vault plain_vault-IsProportional 2 10_000
      (params 900) none 1_000_000 2_000_000 25 5 800_000 5_000_000 4_000_000 3_000_000 3_000_000
      refl amounts trade protocol (omega arith) (omega arith) refl refl refl refl refl (omega arith)
      (omega arith) (omega arith) (omega arith) (omega arith) quote

calculate_swap_quote-limits_example :
    (found : ℤ × ℤ) × (pool_amounts packages plain_vault
        (pos 1000)
        (pos 5_000_000)
        (pos 3_000_000)
        (pos 800_000)
        (pos 2_000_000)
        (pos 4_000_000)
        (pos 3_000_000)
      ≡ ok found)
    × ((2 == 2 || 2 == 3) ≡ true)
    × (true ≡ true)
    × (ltb_ℤ (pos 19_752) (paid_total packages plain_vault 2 (params 900) found) ≡ true)
    × (ltb_ℤ (pos 19_752) (paid_reserve packages plain_vault 2 (params 900)) ≡ true)
calculate_swap_quote-limits_example =
    calculate_swap_quote-limits packages plain_vault 2 (pos 10_000) (params 900) none refl quote

early : ltb_ℤ (current_point packages plain_vault (params 2000)) (pos 2000) ≡ true
unfolding current_point
early = refl

calculate_swap_quote-activation_example :
    (calculate_swap_quote packages plain_vault 2 (pos 10_000) (params 2000) none
      ≡ err swap_disabled)
    × (calculate_swap_quote packages plain_vault 2 (pos 10_000) (params 2000) (some 78)
        ≡ err swap_disabled)
    × (calculate_swap_quote packages plain_vault 2 (pos 10_000) (params 2000) (some 77)
        ≡ calculate_swap_quote packages plain_vault 2
            (pos 10_000)
            (activated packages plain_vault (params 2000))
            none)
calculate_swap_quote-activation_example =
    calculate_swap_quote-activation packages plain_vault 2 (pos 10_000) (params 2000) 78 refl refl
      refl early refl

-- Token A of the new pool has a vault, token B has none.
abbrev new_params : SwapQuoteParams2 exact plain_vault
new_params = record {
  vault_a = some (record { vault_state = pos 4000; reserve = pos 4000; lp_supply = pos 2000 });
  vault_b = none;
  current_time = pos 1000;
}

abbrev new_states : Option (LocalStates exact plain_vault) × Option (LocalStates exact plain_vault)
new_states = (
  some (record {
    vault_states = record { vault_state = pos 113_995; reserve = pos 4000; lp_supply = pos 56_997 };
    pool_vault_lp = pos 54_997;
  }),
  none,
)

memecoin_quote :
    calculate_swap_quote_for_going_to_create_memecoin_pool exact plain_vault
      (pos 10_000)
      (pos 100_000)
      (pos 200_000)
      true
      quarter_percent
      new_params
    ≡ ok (new_states, record { amount_out = pos 18_138; fee = pos 9995 })
unfolding calculate_swap_quote_for_going_to_create_memecoin_pool
    get_token_amount_after_deposit_vault get_token_amount_after_withdraw_vault
    ConstantProduct.compute_out_amount get_price_impact
memecoin_quote = refl

memecoin_quote-fee_example :
    (t : ℤ) × (p : ℤ) × (is_present exact plain_vault new_params.vault_b
      ≡ not (is_present exact plain_vault new_params.vault_a))
    × (tdiv (pos 10_000 *ℤ pos 250) (pos 100_000) ≡ ok t)
    × (tdiv (t *ℤ pos 20_000) (pos 100_000) ≡ ok p)
    × (pos 9995 ≡ pos 10_000 -ℤ p)
memecoin_quote-fee_example =
    memecoin_quote-fee exact plain_vault (pos 10_000) (pos 100_000) (pos 200_000) true
      quarter_percent new_params memecoin_quote
