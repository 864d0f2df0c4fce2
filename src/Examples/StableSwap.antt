-- ===== src/Examples/StableSwap.antt =====
-- Examples for curve/stable-swap.ts: a pool on the Marinade base pool, and two without a base pool.
use mercurial_dynamic_amm_sd.Prelude.{
  ℕ, ◌⊎◌, ◌+◌, ◌-◌, ◌*◌, ◌≤◌, ◌<◌, ◌≡◌, refl, arith, pos, ltb_ℤ, true, [], ◌∷◌, ok,
}
use mercurial_dynamic_amm_sd.Types.{DepegType, marinade, no_depeg, get}
use mercurial_dynamic_amm_sd.Constants.{marinade_account}
use mercurial_dynamic_amm_sd.Curve.{a_to_b, OutResult, get_price_impact}
use mercurial_dynamic_amm_sd.Calculator
use mercurial_dynamic_amm_sd.Calculator.{d_loop, d_step, y_run, y_loop, y_step}
use mercurial_dynamic_amm_sd.StableSwap.{
  StableSwap, update_depeg_info_if_expired, get_base_pool_virtual_price, upscale_token_a,
  upscale_token_b, downscale_token_a, downscale_token_b,
}
use mercurial_dynamic_amm_sd.StableSwap.Amounts.{
  compute_out_amount, compute_out_amount_without_slippage, compute_in_amount, upscale_source,
  upscale_destination, downscale_source, downscale_destination,
}
use mercurial_dynamic_amm_sd.StableSwap.Scale.{IsScaled}
use mercurial_dynamic_amm_sd.StableSwap.Cache.{update_fresh, IsReadNow}
use mercurial_dynamic_amm_sd.StableSwap.Swaps.{compute_out_amount-lt, compute_in_amount_overshoot}
use mercurial_dynamic_amm_sd.Examples.{exact, numbers_as_accounts}

abbrev curve : DepegType → (multiplier_a price time : ℕ) → StableSwap numbers_as_accounts
curve depeg_type multiplier_a price time = record {
  amp = pos 100;
  token_multiplier = record {
    token_a_multiplier = pos multiplier_a;
    token_b_multiplier = pos 1;
    precision_factor = 6;
  };
  depeg = record {
    base_virtual_price = pos price;
    base_cache_updated = pos 1000;
    depeg_type = depeg_type;
  };
  extra_accounts = (marinade_account, pos 4_724_464_026) ∷ [];
  on_chain_time = pos time;
  stake_pool_pubkey = 0;
}

curve-IsScaled :
    (depeg_type : DepegType) (multiplier_a price time : ℕ)
    → 0 < multiplier_a
    → 0 < price
    → IsScaled (curve depeg_type multiplier_a price time) multiplier_a 1 price
curve-IsScaled depeg_type multiplier_a price time h k = record {
  multiplier_a = refl;
  multiplier_b = refl;
  virtual_price = refl;
  multiplier_a_pos = h;
  multiplier_b_pos = omega arith;
  price_pos = k;
}

abbrev on_marinade : StableSwap numbers_as_accounts
on_marinade = curve marinade 1 1_100_000 1500

-- The price of this one is too old.
abbrev expired : StableSwap numbers_as_accounts
expired = curve marinade 1 1_090_000 2000

abbrev plain : (multiplier_a : ℕ) → StableSwap numbers_as_accounts
plain multiplier_a = curve no_depeg multiplier_a 1 2000

on_marinade-IsScaled : IsScaled on_marinade 1 1 1_100_000
on_marinade-IsScaled = curve-IsScaled marinade 1 1_100_000 1500 (omega arith) (omega arith)

fresh : update_depeg_info_if_expired numbers_as_accounts on_marinade ≡ ok on_marinade
unfolding update_depeg_info_if_expired
fresh = refl

refresh :
    update_depeg_info_if_expired numbers_as_accounts expired
    ≡ ok (record expired {
      depeg = record expired.depeg {
        base_virtual_price = pos 1_100_000;
        base_cache_updated = pos 2000;
      };
    })
unfolding update_depeg_info_if_expired get_base_pool_virtual_price get
refresh = refl

abbrev paid : OutResult exact
paid = record { out_amount = pos 9; price_impact = (pos 0, pos 9) }

swap :
    compute_out_amount numbers_as_accounts exact on_marinade (pos 10) (pos 1000) (pos 1000) a_to_b
    ≡ ok (on_marinade, paid)
unfolding compute_out_amount update_depeg_info_if_expired compute_out_amount_without_slippage
    get_price_impact upscale_source upscale_destination downscale_destination upscale_token_a
    upscale_token_b downscale_token_b Calculator.compute_d Calculator.compute_y d_loop d_step y_run
    y_loop y_step
swap = refl

compute_out_amount-lt_example : (on_marinade ≡ on_marinade) × (ltb_ℤ (pos 9) (pos 1000) ≡ true)
compute_out_amount-lt_example =
    compute_out_amount-lt numbers_as_accounts exact on_marinade on_marinade on_marinade 1 1
      1_100_000 100 10 1000 1000 a_to_b fresh on_marinade-IsScaled refl (omega arith) (omega arith)
      (omega arith) swap

-- The price of `expired` as it is read again.
abbrev repriced : StableSwap numbers_as_accounts
repriced = record expired {
  depeg = record expired.depeg {
    base_virtual_price = pos 1_100_000;
    base_cache_updated = pos 2000;
  };
}

update_fresh_example :
    (w : ℕ) × (pos 2000 ≡ pos w)
    × (2000 ≤ w + 600)
    × (((2000 ≤ 1000 + 600) × (repriced ≡ expired))
        ⊎ ((1000 + 600 < 2000) × IsReadNow numbers_as_accounts expired repriced))
    × (update_depeg_info_if_expired numbers_as_accounts repriced ≡ ok repriced)
update_fresh_example =
    update_fresh numbers_as_accounts expired repriced 2000 1000 refl refl (omega arith)
      (omega arith) refl refresh

ask :
    compute_in_amount numbers_as_accounts (plain 1000) (pos 10) (pos 1000) (pos 1_000_000) a_to_b
    ≡ ok (plain 1000, pos 999)
unfolding compute_in_amount update_depeg_info_if_expired upscale_source upscale_destination
    downscale_source upscale_token_a upscale_token_b downscale_token_a Calculator.compute_d
    Calculator.compute_y d_loop d_step y_run y_loop y_step
ask = refl

-- One unit of token A is worth 1000 of token B, and 999 of token A are asked for 10 of token B.
compute_in_amount_overshoot_example :
    (dd : ℕ) × (y : ℕ) × (Calculator.compute_d (pos 100) (pos (1000 * 1000)) (pos (1_000_000 * 1))
      ≡ ok (pos dd))
    × (Calculator.compute_y (pos 100) (pos (1_000_000 * 1 - 10 * 1)) (pos dd) ≡ ok (pos y))
    × (y + 1000 * (1000 - 1) < (1000 + 999) * 1000 + 1000)
compute_in_amount_overshoot_example =
    compute_in_amount_overshoot numbers_as_accounts (plain 1000) 1000 1 1 100 10 1000 1_000_000 999
      refl (curve-IsScaled no_depeg 1000 1 2000 (omega arith) (omega arith)) refl (omega arith)
      (omega arith) (omega arith) ask
