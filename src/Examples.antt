-- ===== src/Examples.antt =====
-- The examples that the theorems of the other modules are applied to. This file has concrete versions of
-- the packages that the client calls; its children have one example for each theorem.
pub mod ConstantProduct
pub mod Calculator
pub mod StableSwap
pub mod Utils
pub mod Requests
pub mod Quote
pub mod Pool
pub mod State
pub mod Stable
pub mod Transactions
pub mod Queries
use mercurial_dynamic_amm_sd.Prelude.{
  ℕ, zero, suc, ◌+◌, ◌*◌, ◌^◌, ℤ, pos, negsuc, ◌+ℤ◌, ◌-ℤ◌, ◌*ℤ◌, ltb_ℤ, leb, is_zero, tdiv, Result,
  ok, err, if◌then◌else◌, is_zero-pos, tdiv-pos,
}
use mercurial_dynamic_amm_sd.Types.{AccountData, PoolFees}
use mercurial_dynamic_amm_sd.Curve.{DecimalJs}
use mercurial_dynamic_amm_sd.Calculator.{TokenMath}
use mercurial_dynamic_amm_sd.SwapCurve.{Packages}
use mercurial_dynamic_amm_sd.Utils.{Numbers}
use mercurial_dynamic_amm_sd.Vault.{VaultSdk, IsProportional}

-- Fractions, which are not reduced.
abbrev pub exact : DecimalJs
exact = record { Decimal = ℤ × ℤ; of_bn = λ n. (n, pos 1); div = λ x y. (x.0 *ℤ y.1, x.1 *ℤ y.0) }

-- The quotient, and 0 where there is none.
abbrev quotient : ℤ → ℤ → ℤ
quotient a b = elim (tdiv a b) [ ok q ↦ q | err e ↦ pos 0 ]

abbrev pub fractions : Numbers
fractions = record {
  Number = ℤ × ℤ;
  literal = λ n k. (pos n, pos (10 ^ k));
  add = λ x y. (x.0 *ℤ y.1 +ℤ y.0 *ℤ x.1, x.1 *ℤ y.1);
  sub = λ x y. (x.0 *ℤ y.1 -ℤ y.0 *ℤ x.1, x.1 *ℤ y.1);
  mul = λ x y. (x.0 *ℤ y.0, x.1 *ℤ y.1);
  div = λ x y. (x.0 *ℤ y.1, x.1 *ℤ y.0);
  to_bn = λ x. quotient x.0 x.1;
}

-- An account that is one number.
abbrev pub numbers_as_accounts : AccountData
numbers_as_accounts = record {
  Buffer = ℤ;
  token_amount = λ b. ok b;
  mint_supply = λ b. ok b;
  decode_clock = λ b. ok (record {
    slot = pos 5;
    epoch_start_timestamp = pos 0;
    epoch = pos 0;
    leader_schedule_epoch = pos 0;
    unix_timestamp = b;
  });
  msol_price = λ b. b;
  read_big_int_64_le = λ b offset. b;
  decode_stake_pool = λ b. record { total_lamports = b; pool_token_supply = pos 1_000 };
}

abbrev root : ℕ → ℕ
root zero = 0
root (suc n) = let r = root n in if leb ((r + 1) * (r + 1)) (suc n) then r + 1 else r

abbrev root_ℤ : ℤ → ℤ
root_ℤ (pos n) = pos (root n)
root_ℤ (negsuc n) = pos 0

-- To a nearest integer, on numbers that are not negative.
abbrev round : ℤ → ℤ → Result ℤ
round a b = tdiv (a *ℤ pos 2 +ℤ b) (b *ℤ pos 2)

abbrev pub ratios : TokenMath
ratios = record {
  Fraction = ℤ × ℤ;
  fraction = λ n d. (n, d);
  Percent = ℤ × ℤ;
  percent = λ n d. (n, d);
  as_fraction = λ p. p;
  multiply = λ x y. (x.0 *ℤ y.0, x.1 *ℤ y.1);
  subtract = λ x y. (x.0 *ℤ y.1 -ℤ y.0 *ℤ x.1, x.1 *ℤ y.1);
  is_positive = λ x. ltb_ℤ (pos 0) x.0;
  to_fixed_0 = λ x. tdiv x.0 x.1;
}

abbrev pub packages : Packages
packages = record {
  js = exact;
  tm = ratios;
  acc = numbers_as_accounts;
  sqrt = root_ℤ;
  div_round = round;
}

-- A fee of 1/4 percent, of which a fifth is the protocol's.
abbrev pub quarter_percent : PoolFees
quarter_percent = record {
  trade_fee_numerator = pos 250;
  trade_fee_denominator = pos 100_000;
  protocol_trade_fee_numerator = pos 20_000;
  protocol_trade_fee_denominator = pos 100_000;
}

-- A vault whose state is what can be withdrawn from it.
abbrev pub plain_vault : VaultSdk
plain_vault = record {
  VaultState = ℤ;
  token_vault = λ v. elim v [ pos n ↦ n + 10 | negsuc n ↦ 0 ];
  lp_mint = λ v. elim v [ pos n ↦ n + 11 | negsuc n ↦ 0 ];
  total_amount = λ v. v;
  set_total_amount = λ v total. total;
  calculate_withdrawable_amount = λ time v. v;
  get_amount_by_share =
      λ share total supply. if is_zero supply then ok (pos 0) else tdiv (share *ℤ total) supply;
  get_unmint_amount = λ amount total supply. tdiv (amount *ℤ supply) total;
}

pub plain_vault-IsProportional : IsProportional plain_vault
plain_vault-IsProportional = record {
  amount_by_share =
      λ share total supply h. rw (is_zero-pos supply h) (tdiv-pos (share * total) supply h);
  unmint_amount = λ amount total supply h. tdiv-pos (amount * supply) total h;
}
