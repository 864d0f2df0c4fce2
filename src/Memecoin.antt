-- ===== src/Memecoin.antt =====
-- ts-client/src/amm/utils.ts: `calculateSwapQuoteForGoingToCreateMemecoinPool`. The states of the vault
-- are the caller's objects, which the quote changes: they are returned beside its result.
pub mod Fee
use mathlib.Core.Option.{none}
use mercurial_dynamic_amm_sd.Prelude.{
  ℤ, pos, ◌+ℤ◌, ◌-ℤ◌, ◌*ℤ◌, tdiv, Bool, true, false, not, ◌||◌, Option, some, Result, ok, ◌>>=◌,
  ◌>>◌, invariant, must_one_side_have_vault, if◌then◌else◌, ◌≡◌, sym, ap, ◌∙◌, >>=-elim,
  ok_injective,
}
use mercurial_dynamic_amm_sd.Types.{PoolFees}
use mercurial_dynamic_amm_sd.Curve.{DecimalJs, a_to_b, b_to_a, OutResult}
use mercurial_dynamic_amm_sd.ConstantProduct.{compute_out_amount}
use mercurial_dynamic_amm_sd.Vault.{VaultSdk}

module _ (js : DecimalJs) (vault : VaultSdk) where
  open vault use {
    VaultState, total_amount, set_total_amount, calculate_withdrawable_amount, get_amount_by_share,
    get_unmint_amount,
  }

  pub record VaultAssociatedAccountStates : Type 0 where
    pub vault_state : VaultState
    pub reserve : ℤ
    pub lp_supply : ℤ

  pub record SwapQuoteParams2 : Type 0 where
    pub vault_a : Option VaultAssociatedAccountStates
    pub vault_b : Option VaultAssociatedAccountStates
    pub current_time : ℤ

  pub record LocalStates : Type 0 where
    pub vault_states : VaultAssociatedAccountStates
    pub pool_vault_lp : ℤ

  pub record MemecoinQuote : Type 0 where
    pub amount_out : ℤ
    pub fee : ℤ

  unfoldable pub local_states : Option VaultAssociatedAccountStates → Option LocalStates
  local_states none = none
  local_states (some v) = some (record { vault_states = v; pool_vault_lp = pos 0 })

  unfoldable pub is_present : {A : Type 0} → Option A → Bool
  is_present none = false
  is_present (some a) = true

  -- The states after the vault's shares, its total and the pool's shares are changed.
  changed : (lp_supply total pool_vault_lp : ℤ) → LocalStates → LocalStates
  changed lp_supply' total' pool_vault_lp' s = record s {
    vault_states = record s.vault_states {
      vault_state = set_total_amount s.vault_states.vault_state total';
      lp_supply = lp_supply';
    };
    pool_vault_lp = pool_vault_lp';
  }

  token_amount : (time : ℤ) → LocalStates → Result ℤ
  token_amount time s =
      get_amount_by_share s.pool_vault_lp
        (calculate_withdrawable_amount time s.vault_states.vault_state) s.vault_states.lp_supply

  unfoldable pub get_token_amount_after_deposit_vault :
      (time amount : ℤ) → Option LocalStates → Result (Option LocalStates × ℤ)
  unfolding changed token_amount
  get_token_amount_after_deposit_vault time amount none = ok (none, amount)
  get_token_amount_after_deposit_vault time amount (some s) = do
    let v = s.vault_states
    lp ← get_unmint_amount amount (calculate_withdrawable_amount time v.vault_state) v.lp_supply
    let s' =
        changed (v.lp_supply +ℤ lp) (total_amount v.vault_state +ℤ amount) (s.pool_vault_lp +ℤ lp) s
    result ← token_amount time s'
    ok (some s', result)

  unfoldable pub get_token_amount_after_withdraw_vault :
      (time amount : ℤ) → Option LocalStates → Result (Option LocalStates × ℤ)
  unfolding changed token_amount
  get_token_amount_after_withdraw_vault time amount none = ok (none, amount)
  get_token_amount_after_withdraw_vault time amount (some s) = do
    let v = s.vault_states
    lp ← get_unmint_amount amount (calculate_withdrawable_amount time v.vault_state) v.lp_supply
    let s' =
        changed (v.lp_supply -ℤ lp) (total_amount v.vault_state -ℤ amount) (s.pool_vault_lp -ℤ lp) s
    result ← token_amount time s'
    ok (some s', result)

  -- The local states after the quote, which the caller's vaults are changed to, and the quote.
  unfoldable pub calculate_swap_quote_for_going_to_create_memecoin_pool :
      (in_amount_lamport token_a_deposit_amount token_b_deposit_amount : ℤ) (is_a_to_b : Bool)
      → PoolFees
      → SwapQuoteParams2
      → Result ((Option LocalStates × Option LocalStates) × MemecoinQuote)
  unfolding local_states is_present
  calculate_swap_quote_for_going_to_create_memecoin_pool in_amount deposit_a deposit_b is_a_to_b
        fees params =
      do
        let time = params.current_time
        let vault_a = local_states params.vault_a
        let vault_b = local_states params.vault_b
        invariant (is_present vault_a || is_present vault_b) must_one_side_have_vault
        invariant (not (is_present vault_a) || not (is_present vault_b)) must_one_side_have_vault
        (vault_a', token_a_amount) ← get_token_amount_after_deposit_vault time deposit_a vault_a
        (vault_b', token_b_amount) ← get_token_amount_after_deposit_vault time deposit_b vault_b
        let swap_source = if is_a_to_b then token_a_amount else token_b_amount
        let swap_destination = if is_a_to_b then token_b_amount else token_a_amount
        let source_vault = if is_a_to_b then vault_a' else vault_b'
        let destination_vault = if is_a_to_b then vault_b' else vault_a'
        trade_fee ← tdiv (in_amount *ℤ fees.trade_fee_numerator) fees.trade_fee_denominator
        protocol_fee ←
            tdiv (trade_fee *ℤ fees.protocol_trade_fee_numerator)
              fees.protocol_trade_fee_denominator
        let less_protocol_fee = in_amount -ℤ protocol_fee
        (source_vault', after_source) ←
            get_token_amount_after_deposit_vault time less_protocol_fee source_vault
        let actual_source = after_source -ℤ swap_source
        let less_fee = actual_source -ℤ (trade_fee -ℤ protocol_fee)
        result ←
            compute_out_amount js less_fee swap_source swap_destination
              (if is_a_to_b then a_to_b else b_to_a)
        (destination_vault', after_destination) ←
            get_token_amount_after_withdraw_vault time result.out_amount destination_vault
        ok (
          (
            if is_a_to_b then source_vault' else destination_vault',
            if is_a_to_b then destination_vault' else source_vault',
          ),
          record { amount_out = after_destination; fee = less_protocol_fee },
        )
