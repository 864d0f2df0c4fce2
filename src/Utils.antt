-- ===== src/Utils.antt =====
-- ts-client/src/amm/utils.ts: the amounts that are computed without an account. Slippage rates are
-- JavaScript numbers, whose arithmetic is a parameter.
pub mod Slippage
pub mod Deposit
pub mod Fees
use mercurial_dynamic_amm_sd.Prelude.{
  ℕ, ℤ, pos, ◌+ℤ◌, ◌-ℤ◌, ◌*ℤ◌, ltb_ℤ, is_zero, tdiv, Bool, ◌||◌, Result, ok, ◌>>=◌, ◌>>◌, invariant,
  invalid_mint, if◌then◌else◌, ◌==◌,
}
use mercurial_dynamic_amm_sd.Types.{PublicKey, PoolFees}

-- JavaScript numbers: a decimal literal `n / 10 ^ k`, the operations, and `new BN(x)`.
pub record Numbers : Type 1 where
  pub Number : Type 0
  pub literal : ℕ → ℕ → Number
  pub add : Number → Number → Number
  pub sub : Number → Number → Number
  pub mul : Number → Number → Number
  pub div : Number → Number → Number
  pub to_bn : Number → ℤ

module _ (num : Numbers) where
  open num use {Number, literal, add, sub, mul, div, to_bn}

  -- The rates of `getMaxAmountWithSlippage` and `getMinAmountWithSlippage`, in units of 1/10000.
  unfoldable pub max_slippage : Number → ℤ
  max_slippage rate = to_bn (mul (div (add (literal 100 0) rate) (literal 100 0)) (literal 10000 0))

  unfoldable pub min_slippage : Number → ℤ
  min_slippage rate = to_bn (mul (div (sub (literal 100 0) rate) (literal 100 0)) (literal 10000 0))

  unfoldable pub get_max_amount_with_slippage : ℤ → Number → Result ℤ
  get_max_amount_with_slippage amount rate = tdiv (amount *ℤ max_slippage rate) (pos 10000)

  unfoldable pub get_min_amount_with_slippage : ℤ → Number → Result ℤ
  get_min_amount_with_slippage amount rate = tdiv (amount *ℤ min_slippage rate) (pos 10000)

unfoldable pub compute_actual_deposit_amount :
    (deposit_amount before_amount vault_lp_balance vault_lp_supply vault_total_amount : ℤ)
    → Result ℤ
compute_actual_deposit_amount deposit_amount before_amount vault_lp_balance vault_lp_supply
      vault_total_amount =
    if is_zero deposit_amount then ok deposit_amount else (do
      vault_lp_minted ← tdiv (deposit_amount *ℤ vault_lp_supply) vault_total_amount
      let vault_lp_supply' = vault_lp_supply +ℤ vault_lp_minted
      let vault_total_amount' = vault_total_amount +ℤ deposit_amount
      let vault_lp_balance' = vault_lp_balance +ℤ vault_lp_minted
      after_amount ← tdiv (vault_lp_balance' *ℤ vault_total_amount') vault_lp_supply'
      ok (after_amount -ℤ before_amount))

unfoldable pub calculate_protocol_trading_fee : ℤ → PoolFees → Result ℤ
calculate_protocol_trading_fee amount fees =
    tdiv (amount *ℤ fees.protocol_trade_fee_numerator) fees.protocol_trade_fee_denominator

unfoldable pub calculate_trading_fee : ℤ → PoolFees → Result ℤ
calculate_trading_fee amount fees =
    tdiv (amount *ℤ fees.trade_fee_numerator) fees.trade_fee_denominator

unfoldable pub calculate_unclaimed_lock_escrow_fee :
    (total_locked_amount lp_per_token unclaimed_fee_pending current_virtual_price : ℤ) → Result ℤ
calculate_unclaimed_lock_escrow_fee total_locked_amount lp_per_token unclaimed_fee_pending
      current_virtual_price =
    if is_zero current_virtual_price then ok (pos 0) else (do
      new_fee ←
          tdiv (total_locked_amount *ℤ (current_virtual_price -ℤ lp_per_token))
            current_virtual_price
      ok (new_fee +ℤ unclaimed_fee_pending))

unfoldable pub calculate_max_swap_out_amount :
    (token_mint token_a_mint token_b_mint : PublicKey)
    → (token_a_amount token_b_amount vault_a_reserve vault_b_reserve : ℤ) → Result ℤ
calculate_max_swap_out_amount token_mint token_a_mint token_b_mint token_a_amount token_b_amount
      vault_a_reserve vault_b_reserve =
    do
      invariant (token_mint == token_a_mint || token_mint == token_b_mint) invalid_mint
      let is_a = token_mint == token_a_mint
      let out_total_amount = if is_a then token_a_amount else token_b_amount
      let out_reserve_balance = if is_a then vault_a_reserve else vault_b_reserve
      ok (
          if ltb_ℤ out_reserve_balance out_total_amount
          then out_reserve_balance
          else out_total_amount)
