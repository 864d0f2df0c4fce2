-- ===== src/Memecoin/Fee.antt =====
-- What `calculateSwapQuoteForGoingToCreateMemecoinPool` of ts-client/src/amm/utils.ts returns as its fee.
use mercurial_dynamic_amm_sd.Prelude.{
  ℤ, ◌-ℤ◌, ◌*ℤ◌, tdiv, Bool, true, not, ◌||◌, Option, some, ok, invariant, must_one_side_have_vault,
  if◌then◌else◌, ◌≡◌, refl, sym, ap, >>=-elim, ok_injective,
}
use mathlib.Core.Option.{none}
use mercurial_dynamic_amm_sd.Types.{PoolFees}
use mercurial_dynamic_amm_sd.Curve.{DecimalJs, a_to_b, b_to_a}
use mercurial_dynamic_amm_sd.ConstantProduct.{compute_out_amount}
use mercurial_dynamic_amm_sd.Vault.{VaultSdk}
use mercurial_dynamic_amm_sd.Quote.Parts.{invariant-ok}
use mercurial_dynamic_amm_sd.Memecoin.{
  VaultAssociatedAccountStates, SwapQuoteParams2, LocalStates, MemecoinQuote, local_states,
  is_present, get_token_amount_after_deposit_vault, get_token_amount_after_withdraw_vault,
  calculate_swap_quote_for_going_to_create_memecoin_pool,
}

module _ (js : DecimalJs) (vault : VaultSdk) where
  one_vault :
      (a b : Option (VaultAssociatedAccountStates js vault))
      → (is_present js vault (local_states js vault a)
          || is_present js vault (local_states js vault b))
        ≡ true
      → (not (is_present js vault (local_states js vault a))
          || not (is_present js vault (local_states js vault b)))
        ≡ true
      → is_present js vault b ≡ not (is_present js vault a)
  unfolding local_states is_present
  one_vault none none h k = cc
  one_vault none (some b) h k = refl
  one_vault (some a) none h k = refl
  one_vault (some a) (some b) h k = cc

  -- If a quote is given, exactly one of the two tokens has a vault, and the fee that is returned is the
  -- amount paid in less the protocol's part of the trading fee, which is not a fee.
  pub memecoin_quote-fee :
      (x deposit_a deposit_b : ℤ) (is_a_to_b : Bool) (fees : PoolFees)
      (params : SwapQuoteParams2 js vault)
      {r : (Option (LocalStates js vault) × Option (LocalStates js vault)) × MemecoinQuote js vault}
      → calculate_swap_quote_for_going_to_create_memecoin_pool js vault x deposit_a deposit_b
          is_a_to_b fees params
        ≡ ok r
      → (t : ℤ) × (p : ℤ) × (is_present js vault params.vault_b
          ≡ not (is_present js vault params.vault_a))
        × (tdiv (x *ℤ fees.trade_fee_numerator) fees.trade_fee_denominator ≡ ok t)
        × (tdiv (t *ℤ fees.protocol_trade_fee_numerator) fees.protocol_trade_fee_denominator ≡ ok p)
        × (r.1.fee ≡ x -ℤ p)
  unfolding calculate_swap_quote_for_going_to_create_memecoin_pool
  memecoin_quote-fee x deposit_a deposit_b is_a_to_b fees params h =
      let time = params.current_time in
      let a = local_states js vault params.vault_a in
      let b = local_states js vault params.vault_b in
      let deposit = get_token_amount_after_deposit_vault js vault time in
      >>=-elim (invariant (is_present js vault a || is_present js vault b) must_one_side_have_vault)
        h
        (λ _ g1 h1.
          >>=-elim
            (invariant (not (is_present js vault a) || not (is_present js vault b))
              must_one_side_have_vault)
            h1
            (λ _ g2 h2. >>=-elim (deposit deposit_a a) h2 (λ ra _ h3.
              >>=-elim (deposit deposit_b b) h3 (λ rb _ h4.
                >>=-elim (tdiv (x *ℤ fees.trade_fee_numerator) fees.trade_fee_denominator) h4
                  (λ t te h5.
                    >>=-elim
                      (tdiv (t *ℤ fees.protocol_trade_fee_numerator)
                        fees.protocol_trade_fee_denominator)
                      h5
                      (λ p pe h6.
                        let s = if is_a_to_b then ra.1 else rb.1 in
                        let d = if is_a_to_b then rb.1 else ra.1 in
                        >>=-elim (deposit (x -ℤ p) (if is_a_to_b then ra.0 else rb.0)) h6
                          (λ rs _ h7.
                            >>=-elim
                              (compute_out_amount js (rs.1 -ℤ s -ℤ (t -ℤ p)) s d
                                (if is_a_to_b then a_to_b else b_to_a))
                              h7
                              (λ out _ h8.
                                >>=-elim
                                  (get_token_amount_after_withdraw_vault js vault time
                                    out.out_amount (if is_a_to_b then rb.0 else ra.0))
                                  h8
                                  (λ rd _ h9. (
                                    t,
                                    p,
                                    one_vault params.vault_a params.vault_b (invariant-ok _ _ g1)
                                        (invariant-ok _ _ g2),
                                    te,
                                    pe,
                                    ap (λ z. z.1.fee) (sym (ok_injective h9)),
                                  ))))))))))
