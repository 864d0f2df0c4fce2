-- ===== src/Examples/Utils.antt =====
-- Examples for seeds (utils.ts) and for the errors of the program (error.ts).
use mercurial_dynamic_amm_sd.Prelude.{◌≡◌, refl, [], ◌∷◌, ok}
use mercurial_dynamic_amm_sd.Types.{CurveType}
use mercurial_dynamic_amm_sd.Keys.{get_trade_fee_bps_buffer, to_buffer_le_8, le_bytes}
use mercurial_dynamic_amm_sd.Errors.{code, dynamic_amm_error}
use mercurial_dynamic_amm_sd.Errors.Codes.{dynamic_amm_error-code}

seed_100 :
    get_trade_fee_bps_buffer CurveType.constant_product 100
    ≡ ok (100 ∷ 0 ∷ 0 ∷ 0 ∷ 0 ∷ 0 ∷ 0 ∷ 0 ∷ [])
unfolding get_trade_fee_bps_buffer to_buffer_le_8 le_bytes
seed_100 = refl

dynamic_amm_error-code_example : dynamic_amm_error (code 6049) ≡ record {
  error_code = 6049;
  error_name = "InvalidActivationPoint";
  error_message = "Invalid activation point";
}
dynamic_amm_error-code_example = dynamic_amm_error-code 6049
