-- ===== src/Quote/Limits.antt =====
-- When `calculateSwapQuote` of ts-client/src/amm/utils.ts quotes a swap, and what it refuses.
use mathlib.Core.Option.{none}
use mercurial_dynamic_amm_sd.Prelude.{
  ℤ, pos, negsuc, ltb_ℤ, ◌≡◌, refl, ap, ◌∙◌, true, false, not, ◌||◌, Option, some, ok, err, ◌>>◌,
  >>=-elim, ok_injective, invariant, invalid_mint, swap_disabled, if◌then◌else◌, ◌==◌, arith,
  Bool-cases, inl, inr,
}
use mercurial_dynamic_amm_sd.Types.{PublicKey, CurveType}
use mercurial_dynamic_amm_sd.SwapCurve.{Packages, SwapCurve}
use mercurial_dynamic_amm_sd.Utils.{calculate_max_swap_out_amount}
use mercurial_dynamic_amm_sd.Vault.{VaultSdk}
use mercurial_dynamic_amm_sd.Quote.{
  quote_swap, SwapQuoteParam, SwapResult, pool_amounts, quote_curve, current_point,
  can_quote_earlier, calculate_swap_quote,
}
use mercurial_dynamic_amm_sd.Quote.Parts.{calculate_swap_quote-IsQuoted}

ltb_ℤ-trans : (x y z : ℤ) → ltb_ℤ x y ≡ true → ltb_ℤ y z ≡ true → ltb_ℤ x z ≡ true
ltb_ℤ-trans (pos x) (pos y) (pos z) h k = ground arith
ltb_ℤ-trans (pos x) (pos y) (negsuc z) h k = cc
ltb_ℤ-trans (pos x) (negsuc y) z h k = cc
ltb_ℤ-trans (negsuc x) y (pos z) h k = refl
ltb_ℤ-trans (negsuc x) (pos y) (negsuc z) h k = cc
ltb_ℤ-trans (negsuc x) (negsuc y) (negsuc z) h k = ground arith

ltb_ℤ-of_not : (x y z : ℤ) → ltb_ℤ x y ≡ true → ltb_ℤ z y ≡ false → ltb_ℤ x z ≡ true
ltb_ℤ-of_not (pos x) (pos y) (pos z) h k = ground arith
ltb_ℤ-of_not (pos x) (pos y) (negsuc z) h k = cc
ltb_ℤ-of_not (pos x) (negsuc y) z h k = cc
ltb_ℤ-of_not (negsuc x) y (pos z) h k = refl
ltb_ℤ-of_not (negsuc x) (pos y) (negsuc z) h k = cc
ltb_ℤ-of_not (negsuc x) (negsuc y) (negsuc z) h k = ground arith

-- An amount below the smaller of two is below both.
below_both :
    (out total reserve : ℤ)
    → ltb_ℤ out (if ltb_ℤ reserve total then reserve else total) ≡ true
    → (ltb_ℤ out total ≡ true) × (ltb_ℤ out reserve ≡ true)
below_both out total reserve h = elim (Bool-cases (ltb_ℤ reserve total)) [
  | inl e ↦
      let h' : ltb_ℤ out reserve ≡ true = rw e at h in (ltb_ℤ-trans out reserve total h' e, h')
  | inr e ↦ let h' : ltb_ℤ out total ≡ true = rw e at h in (h', ltb_ℤ-of_not out total reserve h' e)
]

-- An amount below the limit is below both the pool's amount and the reserve.
below_limit :
    (mint a_mint b_mint : PublicKey) (a b reserve_a reserve_b : ℤ) (out : ℤ) {limit : ℤ}
    → calculate_max_swap_out_amount mint a_mint b_mint a b reserve_a reserve_b ≡ ok limit
    → ltb_ℤ out limit ≡ true
    → (ltb_ℤ out (if mint == a_mint then a else b) ≡ true)
      × (ltb_ℤ out (if mint == a_mint then reserve_a else reserve_b) ≡ true)
unfolding calculate_max_swap_out_amount
below_limit mint a_mint b_mint a b reserve_a reserve_b out h below =
    >>=-elim (invariant (mint == a_mint || mint == b_mint) invalid_mint) h (λ _ _ h'.
      let total = if mint == a_mint then a else b in
      let reserve = if mint == a_mint then reserve_a else reserve_b in
      below_both out total reserve (ap (λ l. ltb_ℤ out l) (ok_injective h') ∙ below))

module _ (pk : Packages) (vault : VaultSdk) where
  -- The pool's amount of the token that is paid out, and the reserve of its vault.
  unfoldable pub paid_total : PublicKey → SwapQuoteParam pk vault → ℤ × ℤ → ℤ
  paid_total in_mint p amounts =
      if in_mint == p.pool_state.token_a_mint then amounts.1 else amounts.0

  unfoldable pub paid_reserve : PublicKey → SwapQuoteParam pk vault → ℤ
  paid_reserve in_mint p =
      if in_mint == p.pool_state.token_a_mint then p.vault_b_reserve else p.vault_a_reserve

  -- If a quote is given in a pool of two different tokens, then the token paid in is one of them, the
  -- pool is enabled, and the amount out is below both the pool's amount of the other token and the
  -- reserve of that token's vault.
  pub calculate_swap_quote-limits :
      (in_mint : PublicKey) (x : ℤ) (p : SwapQuoteParam pk vault) (initiator : Option PublicKey)
      {r : SwapCurve pk × SwapResult pk vault}
      → (p.pool_state.token_b_mint == p.pool_state.token_a_mint) ≡ false
      → calculate_swap_quote pk vault in_mint x p initiator ≡ ok r
      → (amounts : ℤ × ℤ) × (pool_amounts pk vault p.current_time p.vault_a p.vault_b
            p.pool_vault_a_lp p.pool_vault_b_lp p.vault_a_lp_supply p.vault_b_lp_supply
          ≡ ok amounts)
        × ((in_mint == p.pool_state.token_a_mint || in_mint == p.pool_state.token_b_mint) ≡ true)
        × (p.pool_state.enabled ≡ true)
        × (ltb_ℤ r.1.amount_out (paid_total in_mint p amounts) ≡ true)
        × (ltb_ℤ r.1.amount_out (paid_reserve in_mint p) ≡ true)
  unfolding paid_total paid_reserve
  calculate_swap_quote-limits in_mint x p initiator {r} differ h =
      let q = calculate_swap_quote-IsQuoted pk vault in_mint x p initiator h in
      let pool = p.pool_state in
      elim (Bool-cases (in_mint == pool.token_a_mint)) [
        | inl e ↦
            let l = rw e at q.swap.limit_eq in
            let (c, d) =
              below_limit pool.token_b_mint pool.token_a_mint pool.token_b_mint q.amounts.0
                q.amounts.1 p.vault_a_reserve p.vault_b_reserve r.1.amount_out l q.swap.below in
            (
              q.amounts,
              q.amounts_eq,
              q.mint_eq,
              q.enabled_eq,
              rw e (rw differ at c),
              rw e (rw differ at d),
            )
        | inr e ↦
            let l = rw e at q.swap.limit_eq in
            let same : (pool.token_a_mint == pool.token_a_mint) ≡ true = ground arith in
            let (c, d) =
              below_limit pool.token_a_mint pool.token_a_mint pool.token_b_mint q.amounts.0
                q.amounts.1 p.vault_a_reserve p.vault_b_reserve r.1.amount_out l q.swap.below in
            (
              q.amounts,
              q.amounts_eq,
              q.mint_eq,
              q.enabled_eq,
              rw e (rw same at c),
              rw e (rw same at d),
            )
      ]

  -- The same request, to a pool that is activated now.
  unfoldable pub activated : SwapQuoteParam pk vault → SwapQuoteParam pk vault
  activated p = record p {
    pool_state = record p.pool_state {
      bootstrapping = record p.pool_state.bootstrapping {
        activation_point = current_point pk vault p;
      };
    };
  }

  pub quote_curve-early :
      (p : SwapQuoteParam pk vault) (initiator : Option PublicKey)
      → p.pool_state.curve_type ≡ CurveType.constant_product
      → quote_curve pk vault p initiator ≡ (
          invariant
            (can_quote_earlier pk vault p initiator
              || not (ltb_ℤ (current_point pk vault p) p.pool_state.bootstrapping.activation_point))
            swap_disabled
          >> ok SwapCurve.constant_product)
  unfolding quote_curve
  quote_curve-early p initiator e = rw e

  ltb_ℤ-irrefl : (x : ℤ) → ltb_ℤ x x ≡ false
  ltb_ℤ-irrefl (pos x) = ground arith
  ltb_ℤ-irrefl (negsuc x) = ground arith

  quote_curve-activated :
      (p : SwapQuoteParam pk vault)
      → p.pool_state.curve_type ≡ CurveType.constant_product
      → quote_curve pk vault (activated p) none ≡ ok SwapCurve.constant_product
  unfolding activated can_quote_earlier
  quote_curve-activated p e =
      let now : current_point pk vault (activated p) ≡ current_point pk vault p =
        unfold current_point in refl in
      rw (quote_curve-early (activated p) none e, now, ltb_ℤ-irrefl (current_point pk vault p))

  quote_curve-whitelisted :
      (p : SwapQuoteParam pk vault)
      → p.pool_state.curve_type ≡ CurveType.constant_product
      → quote_curve pk vault p (some p.pool_state.bootstrapping.whitelisted_vault)
        ≡ ok SwapCurve.constant_product
  unfolding can_quote_earlier
  quote_curve-whitelisted p e =
      let w = p.pool_state.bootstrapping.whitelisted_vault in
      let same : (w == w) ≡ true = ground arith in rw (quote_curve-early p (some w) e, same)

  -- While an enabled constant product pool is not yet active, a request for one of its tokens is
  -- refused, with the error that swaps are disabled, to everyone but the whitelisted vault, which gets
  -- the quote, or the error, that anyone gets once the pool is active.
  pub calculate_swap_quote-activation :
      (in_mint : PublicKey) (x : ℤ) (p : SwapQuoteParam pk vault) (other : PublicKey)
      → (in_mint == p.pool_state.token_a_mint || in_mint == p.pool_state.token_b_mint) ≡ true
      → p.pool_state.enabled ≡ true
      → p.pool_state.curve_type ≡ CurveType.constant_product
      → ltb_ℤ (current_point pk vault p) p.pool_state.bootstrapping.activation_point ≡ true
      → (other == p.pool_state.bootstrapping.whitelisted_vault) ≡ false
      → (calculate_swap_quote pk vault in_mint x p none ≡ err swap_disabled)
        × (calculate_swap_quote pk vault in_mint x p (some other) ≡ err swap_disabled)
        × (calculate_swap_quote pk vault in_mint x p
              (some p.pool_state.bootstrapping.whitelisted_vault)
            ≡ calculate_swap_quote pk vault in_mint x (activated p) none)
  unfolding calculate_swap_quote can_quote_earlier quote_swap
  calculate_swap_quote-activation in_mint x p other mint enabled curve early differ =
      let no_one : quote_curve pk vault p none ≡ err swap_disabled =
        rw (quote_curve-early p none curve, early) in
      let no_other : quote_curve pk vault p (some other) ≡ err swap_disabled =
        rw (quote_curve-early p (some other) curve, differ, early) in
      (
        rw (no_one, mint, enabled),
        rw (no_other, mint, enabled),
        rw (quote_curve-whitelisted p curve, quote_curve-activated p curve)
            (unfold activated in refl),
      )
