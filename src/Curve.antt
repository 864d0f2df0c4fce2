-- ===== src/Curve.antt =====
-- ts-client/src/amm/curve/index.ts: what the two swap curves share. Decimals are decimal.js values,
-- of which the client only forms the quotient of two integers.
use mercurial_dynamic_amm_sd.Prelude.{ℤ, ◌-ℤ◌}

-- The part of decimal.js that the client calls: `new Decimal(n.toString())` and `div`.
pub record DecimalJs : Type 1 where
  pub Decimal : Type 0
  pub of_bn : ℤ → Decimal
  pub div : Decimal → Decimal → Decimal

pub data TradeDirection : Type 0 where
  a_to_b b_to_a : TradeDirection

module _ (js : DecimalJs) where
  open js use {Decimal, of_bn, div}

  pub record OutResult : Type 0 where
    pub out_amount : ℤ
    pub price_impact : Decimal

  unfoldable pub get_price_impact : ℤ → ℤ → Decimal
  get_price_impact amount amount_without_slippage =
      let diff = amount_without_slippage -ℤ amount in
      div (of_bn diff) (of_bn amount_without_slippage)
