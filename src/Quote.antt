-- ===== src/Quote.antt =====
-- ts-client/src/amm/utils.ts: `calculatePoolInfo` and `calculateSwapQuote`. Times and slots are
-- whole numbers.
pub mod Parts
pub mod Info
pub mod Limits
pub mod Growth
pub mod Product
use mathlib.Core.Option.{none}
use mercurial_dynamic_amm_sd.Prelude.{
  ℕ, ℤ, pos, ◌+ℤ◌, ◌-ℤ◌, ◌*ℤ◌, ltb_ℤ, is_zero, tdiv, to_number, Bool, true, false, not, ◌||◌, List,
  Option, some, Result, ok, ◌>>=◌, ◌>>◌, invariant, invalid_mint, pool_disabled, swap_disabled,
  out_amount_exceeds_reserve, if◌then◌else◌, ◌==◌, ◌^◌,
}
use mercurial_dynamic_amm_sd.Types.{
  AccountData, PublicKey, PoolState, CurveType, activation_number, ActivationType, Bootstrapping,
}
use mercurial_dynamic_amm_sd.Constants.{virtual_price_precision}
use mercurial_dynamic_amm_sd.Curve.{DecimalJs, TradeDirection, a_to_b, b_to_a, OutResult}
use mercurial_dynamic_amm_sd.StableSwap.{StableSwap}
use mercurial_dynamic_amm_sd.SwapCurve.{Packages, SwapCurve, compute_out_amount, compute_d}
use mercurial_dynamic_amm_sd.Utils.{
  calculate_trading_fee, calculate_protocol_trading_fee, calculate_max_swap_out_amount,
}
use mercurial_dynamic_amm_sd.Vault.{VaultSdk}

module _ (pk : Packages) (vault : VaultSdk) where
  open pk use {js, acc}
  open acc use {Buffer}
  open js use {Decimal, of_bn, div}
  open vault use {VaultState, calculate_withdrawable_amount, get_amount_by_share, get_unmint_amount}

  pub record SwapQuoteParam : Type 0 where
    pub pool_state : PoolState
    pub vault_a : VaultState
    pub vault_b : VaultState
    pub pool_vault_a_lp : ℤ
    pub pool_vault_b_lp : ℤ
    pub vault_a_lp_supply : ℤ
    pub vault_b_lp_supply : ℤ
    pub vault_a_reserve : ℤ
    pub vault_b_reserve : ℤ
    pub current_time : ℤ
    pub current_slot : ℤ
    pub depeg_accounts : List (PublicKey × Buffer)

  pub record SwapResult : Type 0 where
    pub amount_out : ℤ
    pub fee : ℤ
    pub price_impact : Decimal

  pub record PoolInformation : Type 0 where
    pub token_a_amount : ℤ
    pub token_b_amount : ℤ
    -- the decimal that `toNumber` is applied to
    pub virtual_price : Decimal
    pub virtual_price_raw : ℤ

  -- The pool's amounts of the two tokens, by its shares of the two vaults.
  unfoldable pub pool_amounts :
      (time : ℤ) (vault_a vault_b : VaultState)
      → (pool_vault_a_lp pool_vault_b_lp vault_a_lp_supply vault_b_lp_supply : ℤ) → Result (ℤ × ℤ)
  pool_amounts time vault_a vault_b lp_a lp_b supply_a supply_b = do
    a ← get_amount_by_share lp_a (calculate_withdrawable_amount time vault_a) supply_a
    b ← get_amount_by_share lp_b (calculate_withdrawable_amount time vault_b) supply_b
    ok (a, b)

  unfoldable pub calculate_pool_info :
      (current_timestamp pool_vault_a_lp pool_vault_b_lp vault_a_lp_supply vault_b_lp_supply
        pool_lp_supply : ℤ)
      → SwapCurve pk
      → (vault_a vault_b : VaultState) → Result (SwapCurve pk × PoolInformation)
  calculate_pool_info current_timestamp lp_a lp_b supply_a supply_b pool_lp_supply curve vault_a
        vault_b =
      do
        time ← to_number current_timestamp
        (token_a_amount, token_b_amount) ←
            pool_amounts time vault_a vault_b lp_a lp_b supply_a supply_b
        (curve', d) ← compute_d pk curve token_a_amount token_b_amount
        price ←
            if is_zero pool_lp_supply
            then ok (pos 0)
            else tdiv (d *ℤ virtual_price_precision) pool_lp_supply
        raw ← if is_zero pool_lp_supply then ok (pos 0) else tdiv (pos (2 ^ 64) *ℤ d) pool_lp_supply
        ok (
          curve',
          record {
            token_a_amount = token_a_amount;
            token_b_amount = token_b_amount;
            virtual_price = div (of_bn price) (of_bn virtual_price_precision);
            virtual_price_raw = raw;
          },
        )

  -- The point at which a bootstrapping pool is activated is a time or a slot.
  unfoldable pub current_point : SwapQuoteParam → ℤ
  current_point p =
      if p.pool_state.bootstrapping.activation_type == activation_number ActivationType.timestamp
      then p.current_time
      else p.current_slot

  unfoldable pub can_quote_earlier : SwapQuoteParam → (swap_initiator : Option PublicKey) → Bool
  can_quote_earlier p none = false
  can_quote_earlier p (some initiator) = initiator == p.pool_state.bootstrapping.whitelisted_vault

  -- The curve that a quote is computed on, or the refusal of a pool that is not yet active.
  quote_curve_of : CurveType → SwapQuoteParam → Option PublicKey → Result (SwapCurve pk)
  quote_curve_of (CurveType.stable amp token_multiplier depeg updated) p initiator = do
    amp' ← to_number amp
    ok (
        SwapCurve.stable (record {
          amp = amp';
          token_multiplier = token_multiplier;
          depeg = depeg;
          extra_accounts = p.depeg_accounts;
          on_chain_time = p.current_time;
          stake_pool_pubkey = p.pool_state.stake;
        }))
  quote_curve_of CurveType.constant_product p initiator = do
    invariant
        (can_quote_earlier p initiator
          || not (ltb_ℤ (current_point p) p.pool_state.bootstrapping.activation_point))
        swap_disabled
    ok SwapCurve.constant_product

  unfoldable pub quote_curve :
      SwapQuoteParam → (swap_initiator : Option PublicKey) → Result (SwapCurve pk)
  unfolding quote_curve_of
  quote_curve p initiator = quote_curve_of p.pool_state.curve_type p initiator

  -- What the pool's amount of the token paid in grows by, after the vault's rounding.
  unfoldable pub source_received : (amount before withdrawable lp_amount lp_supply : ℤ) → Result ℤ
  source_received amount before withdrawable lp_amount lp_supply = do
    lp ← get_unmint_amount amount withdrawable lp_supply
    after ← get_amount_by_share (lp +ℤ lp_amount) (withdrawable +ℤ amount) (lp_supply +ℤ lp)
    ok (after -ℤ before)

  -- What the vault pays for the shares that an amount is worth.
  unfoldable pub destination_paid : (amount withdrawable lp_supply : ℤ) → Result ℤ
  destination_paid amount withdrawable lp_supply = do
    lp ← get_unmint_amount amount withdrawable lp_supply
    get_amount_by_share lp withdrawable lp_supply

  -- What `calculateSwapQuote` computes once the curve and the pool's amounts are known.
  unfoldable pub quote_swap :
      (in_token_mint : PublicKey) (in_amount_lamport : ℤ)
      → SwapQuoteParam
      → SwapCurve pk
      → (token_a_amount token_b_amount : ℤ) → Result (SwapCurve pk × SwapResult)
  quote_swap in_token_mint in_amount_lamport p curve token_a_amount token_b_amount = do
    let pool = p.pool_state
    let is_from_a_to_b = in_token_mint == pool.token_a_mint
    let swap_source_vault_lp = if is_from_a_to_b then p.pool_vault_a_lp else p.pool_vault_b_lp
    let swap_source = if is_from_a_to_b then token_a_amount else token_b_amount
    let swap_destination = if is_from_a_to_b then token_b_amount else token_a_amount
    let source_vault = if is_from_a_to_b then p.vault_a else p.vault_b
    let destination_vault = if is_from_a_to_b then p.vault_b else p.vault_a
    let source_supply = if is_from_a_to_b then p.vault_a_lp_supply else p.vault_b_lp_supply
    let destination_supply = if is_from_a_to_b then p.vault_b_lp_supply else p.vault_a_lp_supply
    let direction = if is_from_a_to_b then a_to_b else b_to_a
    trade_fee ← calculate_trading_fee in_amount_lamport pool.fees
    protocol_fee ← calculate_protocol_trading_fee trade_fee pool.fees
    let trade_fee_after_protocol_fee = trade_fee -ℤ protocol_fee
    actual_source ←
        source_received (in_amount_lamport -ℤ protocol_fee) swap_source
          (calculate_withdrawable_amount p.current_time source_vault) swap_source_vault_lp
          source_supply
    (curve', result) ←
        compute_out_amount pk curve (actual_source -ℤ trade_fee_after_protocol_fee) swap_source
          swap_destination direction
    actual_destination ←
        destination_paid result.out_amount
          (calculate_withdrawable_amount p.current_time destination_vault) destination_supply
    max_swap_out ←
        calculate_max_swap_out_amount
          (if is_from_a_to_b then pool.token_b_mint else pool.token_a_mint) pool.token_a_mint
          pool.token_b_mint token_a_amount token_b_amount p.vault_a_reserve p.vault_b_reserve
    invariant (ltb_ℤ actual_destination max_swap_out) out_amount_exceeds_reserve
    ok (
      curve',
      record {
        amount_out = actual_destination;
        fee = trade_fee_after_protocol_fee;
        price_impact = result.price_impact;
      },
    )

  -- The curve object holds the price that is cached in the pool's state, and may have refreshed it; it is
  -- returned beside the quote.
  unfoldable pub calculate_swap_quote :
      (in_token_mint : PublicKey) (in_amount_lamport : ℤ)
      → SwapQuoteParam
      → (swap_initiator : Option PublicKey) → Result (SwapCurve pk × SwapResult)
  calculate_swap_quote in_token_mint in_amount_lamport p swap_initiator = do
    let pool = p.pool_state
    invariant (in_token_mint == pool.token_a_mint || in_token_mint == pool.token_b_mint)
        invalid_mint
    invariant pool.enabled pool_disabled
    curve ← quote_curve p swap_initiator
    (token_a_amount, token_b_amount) ←
        pool_amounts p.current_time p.vault_a p.vault_b p.pool_vault_a_lp p.pool_vault_b_lp
          p.vault_a_lp_supply p.vault_b_lp_supply
    quote_swap in_token_mint in_amount_lamport p curve token_a_amount token_b_amount
