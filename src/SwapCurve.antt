-- ===== src/SwapCurve.antt =====
-- The interface `SwapCurve` of ts-client/src/amm/curve/index.ts, with its two classes as the two
-- constructors, and the choice of the class by the pool's curve type.
pub mod Refresh
use mercurial_dynamic_amm_sd.Prelude.{ℤ, List, [], Result, ok, err, ◌>>=◌, unsupported_operation}
use mercurial_dynamic_amm_sd.Types.{AccountData, PoolFees, PublicKey}
use mercurial_dynamic_amm_sd.Curve.{DecimalJs, TradeDirection, OutResult}
use mercurial_dynamic_amm_sd.Calculator.{TokenMath}
use mercurial_dynamic_amm_sd.ConstantProduct
use mercurial_dynamic_amm_sd.StableSwap
use mercurial_dynamic_amm_sd.StableSwap.{StableSwap}
use mercurial_dynamic_amm_sd.StableSwap.Amounts
use mercurial_dynamic_amm_sd.StableSwap.Liquidity

-- The packages that the curves call.
pub record Packages : Type 1 where
  pub js : DecimalJs
  pub tm : TokenMath
  pub acc : AccountData
  -- bn-sqrt
  pub sqrt : ℤ → ℤ
  -- `divRound` of bn.js: the quotient rounded to a nearest integer
  pub div_round : ℤ → ℤ → Result ℤ

module _ (pk : Packages) where
  open pk use {js, tm, acc, sqrt}

  pub data SwapCurve : Type 0 where
    constant_product : SwapCurve
    stable : StableSwap acc → SwapCurve

  -- What a method leaves of the object beside its result.
  abbrev stays : {A : Type 0} → Result (StableSwap acc × A) → Result (SwapCurve × A)
  stays r = r >>= λ p. ok (SwapCurve.stable p.0, p.1)

  unfoldable pub compute_out_amount :
      SwapCurve
      → (source swap_source swap_destination : ℤ) → TradeDirection
      → Result (SwapCurve × OutResult js)
  compute_out_amount SwapCurve.constant_product x s d dir =
      ConstantProduct.compute_out_amount js x s d dir >>= λ r. ok (SwapCurve.constant_product, r)
  compute_out_amount (SwapCurve.stable curve) x s d dir =
      stays (Amounts.compute_out_amount acc js curve x s d dir)

  unfoldable pub compute_d :
      SwapCurve → (token_a_amount token_b_amount : ℤ) → Result (SwapCurve × ℤ)
  compute_d SwapCurve.constant_product a b =
      ok (SwapCurve.constant_product, ConstantProduct.compute_d sqrt a b)
  compute_d (SwapCurve.stable curve) a b = stays (Amounts.compute_d acc curve a b)

  unfoldable pub compute_in_amount :
      SwapCurve → (dest swap_source swap_destination : ℤ) → TradeDirection → Result (SwapCurve × ℤ)
  compute_in_amount SwapCurve.constant_product o s d dir =
      ConstantProduct.compute_in_amount o s d dir >>= λ r. ok (SwapCurve.constant_product, r)
  compute_in_amount (SwapCurve.stable curve) o s d dir =
      stays (Amounts.compute_in_amount acc curve o s d dir)

  unfoldable pub compute_imbalance_deposit :
      SwapCurve
      → (deposit_a deposit_b swap_token_a swap_token_b lp_supply : ℤ) → PoolFees
      → Result (SwapCurve × ℤ)
  compute_imbalance_deposit SwapCurve.constant_product x y a b lp fees = err unsupported_operation
  compute_imbalance_deposit (SwapCurve.stable curve) x y a b lp fees =
      stays (Liquidity.compute_imbalance_deposit tm acc curve x y a b lp fees)

  unfoldable pub compute_withdraw_one :
      SwapCurve
      → (lp_amount lp_supply swap_token_a swap_token_b : ℤ) → PoolFees
      → TradeDirection
      → Result (SwapCurve × ℤ)
  compute_withdraw_one SwapCurve.constant_product lp supply a b fees dir = err unsupported_operation
  compute_withdraw_one (SwapCurve.stable curve) lp supply a b fees dir =
      stays (Liquidity.compute_withdraw_one tm acc curve lp supply a b fees dir)

  unfoldable pub get_remaining_accounts : SwapCurve → List PublicKey
  get_remaining_accounts SwapCurve.constant_product = []
  get_remaining_accounts (SwapCurve.stable curve) = StableSwap.get_remaining_accounts acc curve
