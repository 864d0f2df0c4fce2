-- ===== src/Quote/Parts.antt =====
-- The steps of a successful `calculateSwapQuote` of ts-client/src/amm/utils.ts.
use mercurial_dynamic_amm_sd.Prelude.{
  ℤ, ◌-ℤ◌, ltb_ℤ, ◌≡◌, refl, sym, ap, ◌∙◌, Bool, true, false, ◌||◌, Option, ok, >>=-elim,
  ok_injective, invariant, invalid_mint, pool_disabled, out_amount_exceeds_reserve, if◌then◌else◌,
  ◌==◌, Error,
}
use mercurial_dynamic_amm_sd.Types.{PublicKey}
use mercurial_dynamic_amm_sd.Curve.{a_to_b, b_to_a, OutResult}
use mercurial_dynamic_amm_sd.SwapCurve.{Packages, SwapCurve, compute_out_amount}
use mercurial_dynamic_amm_sd.Utils.{
  calculate_trading_fee, calculate_protocol_trading_fee, calculate_max_swap_out_amount,
}
use mercurial_dynamic_amm_sd.Vault.{VaultSdk}
use mercurial_dynamic_amm_sd.Quote.{
  SwapQuoteParam, SwapResult, pool_amounts, quote_curve, source_received, destination_paid,
  calculate_swap_quote, quote_swap,
}

pub invariant-ok : (b : Bool) (e : Error) {u : Unit {0}} → invariant b e ≡ ok u → b ≡ true
invariant-ok true e h = refl
invariant-ok false e h = cc

module _ (pk : Packages) (vault : VaultSdk) where
  open pk use {js}
  open vault use {calculate_withdrawable_amount}

  -- The values that a quote goes through once the curve and the pool's amounts are known.
  pub record IsSwapped (in_mint : PublicKey) (x : ℤ) (p : SwapQuoteParam pk vault)
      (curve : SwapCurve pk) (amounts : ℤ × ℤ) (r : SwapCurve pk × SwapResult pk vault)
      : Type 0 where
    pub trade_fee : ℤ
    pub protocol_fee : ℤ
    pub received : ℤ
    pub swapped : SwapCurve pk × OutResult js
    pub limit : ℤ
    pub trade_fee_eq : calculate_trading_fee x p.pool_state.fees ≡ ok trade_fee
    pub protocol_fee_eq :
        calculate_protocol_trading_fee trade_fee p.pool_state.fees ≡ ok protocol_fee
    pub received_eq :
        source_received pk vault
          (x -ℤ protocol_fee)
          (if in_mint == p.pool_state.token_a_mint then amounts.0 else amounts.1)
          (calculate_withdrawable_amount p.current_time
            (if in_mint == p.pool_state.token_a_mint then p.vault_a else p.vault_b))
          (if in_mint == p.pool_state.token_a_mint then p.pool_vault_a_lp else p.pool_vault_b_lp)
          (if in_mint == p.pool_state.token_a_mint
            then p.vault_a_lp_supply
            else p.vault_b_lp_supply)
        ≡ ok received
    pub swapped_eq :
        compute_out_amount pk curve
          (received -ℤ (trade_fee -ℤ protocol_fee))
          (if in_mint == p.pool_state.token_a_mint then amounts.0 else amounts.1)
          (if in_mint == p.pool_state.token_a_mint then amounts.1 else amounts.0)
          (if in_mint == p.pool_state.token_a_mint then a_to_b else b_to_a)
        ≡ ok swapped
    pub paid_eq :
        destination_paid pk vault swapped.1.out_amount
          (calculate_withdrawable_amount p.current_time
            (if in_mint == p.pool_state.token_a_mint then p.vault_b else p.vault_a))
          (if in_mint == p.pool_state.token_a_mint
            then p.vault_b_lp_supply
            else p.vault_a_lp_supply)
        ≡ ok r.1.amount_out
    pub limit_eq :
        calculate_max_swap_out_amount
          (if in_mint == p.pool_state.token_a_mint
            then p.pool_state.token_b_mint
            else p.pool_state.token_a_mint)
          p.pool_state.token_a_mint
          p.pool_state.token_b_mint
          amounts.0
          amounts.1
          p.vault_a_reserve
          p.vault_b_reserve
        ≡ ok limit
    pub below : ltb_ℤ r.1.amount_out limit ≡ true
    pub fee_eq : r.1.fee ≡ trade_fee -ℤ protocol_fee
    pub left_eq : r.0 ≡ swapped.0

  -- The values that a quote goes through.
  pub record IsQuoted (in_mint : PublicKey) (x : ℤ) (p : SwapQuoteParam pk vault)
      (initiator : Option PublicKey) (r : SwapCurve pk × SwapResult pk vault) : Type 0 where
    pub curve : SwapCurve pk
    pub amounts : ℤ × ℤ
    pub mint_eq :
        (in_mint == p.pool_state.token_a_mint || in_mint == p.pool_state.token_b_mint) ≡ true
    pub enabled_eq : p.pool_state.enabled ≡ true
    pub curve_eq : quote_curve pk vault p initiator ≡ ok curve
    pub amounts_eq :
        pool_amounts pk vault p.current_time p.vault_a p.vault_b p.pool_vault_a_lp p.pool_vault_b_lp
          p.vault_a_lp_supply p.vault_b_lp_supply
        ≡ ok amounts
    pub swap : IsSwapped in_mint x p curve amounts r

  quote_swap-IsSwapped :
      (in_mint : PublicKey) (x : ℤ) (p : SwapQuoteParam pk vault) (curve : SwapCurve pk)
      (amounts : ℤ × ℤ) {r : SwapCurve pk × SwapResult pk vault}
      → quote_swap pk vault in_mint x p curve amounts.0 amounts.1 ≡ ok r
      → IsSwapped in_mint x p curve amounts r
  unfolding quote_swap
  quote_swap-IsSwapped in_mint x p curve amounts h =
      let pool = p.pool_state in
      let is_a = in_mint == pool.token_a_mint in
      let s = if is_a then amounts.0 else amounts.1 in
      let d = if is_a then amounts.1 else amounts.0 in
      let source =
        calculate_withdrawable_amount p.current_time (if is_a then p.vault_a else p.vault_b) in
      let destination =
        calculate_withdrawable_amount p.current_time (if is_a then p.vault_b else p.vault_a) in
      let lp = if is_a then p.pool_vault_a_lp else p.pool_vault_b_lp in
      let source_supply = if is_a then p.vault_a_lp_supply else p.vault_b_lp_supply in
      let destination_supply = if is_a then p.vault_b_lp_supply else p.vault_a_lp_supply in
      let out_mint = if is_a then pool.token_b_mint else pool.token_a_mint in
      >>=-elim (calculate_trading_fee x pool.fees) h (λ t g1 h1.
        >>=-elim (calculate_protocol_trading_fee t pool.fees) h1 (λ f g2 h2.
          >>=-elim (source_received pk vault (x -ℤ f) s source lp source_supply) h2 (λ got g3 h3.
            >>=-elim
              (compute_out_amount pk curve (got -ℤ (t -ℤ f)) s d (if is_a then a_to_b else b_to_a))
              h3
              (λ swapped g4 h4.
                >>=-elim
                  (destination_paid pk vault swapped.1.out_amount destination destination_supply) h4
                  (λ out g5 h5.
                    >>=-elim
                      (calculate_max_swap_out_amount out_mint pool.token_a_mint pool.token_b_mint
                        amounts.0 amounts.1 p.vault_a_reserve p.vault_b_reserve)
                      h5
                      (λ limit g6 h6.
                        >>=-elim (invariant (ltb_ℤ out limit) out_amount_exceeds_reserve) h6
                          (λ _ g7 h7.
                            let paid = ap (λ q. q.1.amount_out) (ok_injective h7) in
                            record {
                              trade_fee = t;
                              protocol_fee = f;
                              received = got;
                              swapped = swapped;
                              limit = limit;
                              trade_fee_eq = g1;
                              protocol_fee_eq = g2;
                              received_eq = g3;
                              swapped_eq = g4;
                              paid_eq = g5 ∙ ap (λ o. ok o) paid;
                              limit_eq = g6;
                              below = ap (λ o. ltb_ℤ o limit) (sym paid) ∙ invariant-ok _ _ g7;
                              fee_eq = sym (ap (λ q. q.1.fee) (ok_injective h7));
                              left_eq = sym (ap (λ q. q.0) (ok_injective h7));
                            })))))))

  pub calculate_swap_quote-IsQuoted :
      (in_mint : PublicKey) (x : ℤ) (p : SwapQuoteParam pk vault) (initiator : Option PublicKey)
      {r : SwapCurve pk × SwapResult pk vault}
      → calculate_swap_quote pk vault in_mint x p initiator ≡ ok r
      → IsQuoted in_mint x p initiator r
  unfolding calculate_swap_quote
  calculate_swap_quote-IsQuoted in_mint x p initiator h =
      let pool = p.pool_state in
      let known = in_mint == pool.token_a_mint || in_mint == pool.token_b_mint in
      let amounts_of =
        pool_amounts pk vault p.current_time p.vault_a p.vault_b p.pool_vault_a_lp p.pool_vault_b_lp
          p.vault_a_lp_supply p.vault_b_lp_supply in
      >>=-elim (invariant known invalid_mint) h (λ _ g1 h1.
        >>=-elim (invariant pool.enabled pool_disabled) h1 (λ _ g2 h2.
          >>=-elim (quote_curve pk vault p initiator) h2 (λ curve g3 h3.
            >>=-elim amounts_of h3 (λ amounts g4 h4. record {
              curve = curve;
              amounts = amounts;
              mint_eq = invariant-ok _ _ g1;
              enabled_eq = invariant-ok _ _ g2;
              curve_eq = g3;
              amounts_eq = g4;
              swap = quote_swap-IsSwapped in_mint x p curve amounts h4;
            }))))
