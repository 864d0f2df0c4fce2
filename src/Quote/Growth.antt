-- ===== src/Quote/Growth.antt =====
-- `calculateSwapQuote` of ts-client/src/amm/utils.ts on a constant product pool: what a pool that has grown by an
-- amount can pay.
use native.Mathlib.Nat.{
  le_trans, mul-le-mul_right, mul-le-mul_left, div-le_of_le-mul, div-mul-le_self,
}
use mercurial_dynamic_amm_sd.Prelude.{
  ℕ, ℤ, pos, ◌+◌, ◌-◌, ◌*◌, ◌/◌, ◌<◌, ◌≤◌, ◌-ℤ◌, ◌≡◌, refl, sym, ap, ◌∙◌, Bool, true, false, Option,
  ok, >>=-elim, ok_injective, if◌then◌else◌, ◌==◌, arith, sub_ℕ-of_le, invariant, ◌||◌, not, ltb_ℤ,
  swap_disabled,
}
use mercurial_dynamic_amm_sd.Types.{PublicKey, CurveType}
use mercurial_dynamic_amm_sd.Curve.{TradeDirection, a_to_b, b_to_a, OutResult}
use mercurial_dynamic_amm_sd.ConstantProduct
use mercurial_dynamic_amm_sd.ConstantProduct.Swap.{compute_out_amount-largest}
use mercurial_dynamic_amm_sd.SwapCurve.{Packages, SwapCurve, compute_out_amount}
use mercurial_dynamic_amm_sd.Utils.{calculate_trading_fee, calculate_protocol_trading_fee}
use mercurial_dynamic_amm_sd.Vault.{VaultSdk, IsProportional}
use mercurial_dynamic_amm_sd.Quote.{
  SwapQuoteParam, SwapResult, pool_amounts, quote_curve, can_quote_earlier, current_point,
  source_received, destination_paid, calculate_swap_quote,
}
use mercurial_dynamic_amm_sd.Quote.Limits.{quote_curve-early}
use mercurial_dynamic_amm_sd.Quote.Parts.{calculate_swap_quote-IsQuoted}

-- Converting to shares and back, both rounded down, pays no more than was converted.
back-le : (o w u : ℕ) → 0 < u → o * u / w * w / u ≤ o
back-le o w u hu = div-le_of_le-mul u (omega (arith, div-mul-le_self (o * u) w))

-- The reserves' product, with more received than the curve counted and less paid.
widen :
    (s d y o got paid : ℕ)
    → y ≤ got
    → paid ≤ o
    → s * d ≤ (s + y) * (d - o)
    → s * d ≤ (s + got) * (d - paid)
widen s d y o got paid more less keeps =
    le_trans keeps
      (le_trans (mul-le-mul_right (d - o) (omega arith)) (mul-le-mul_left (s + got) (omega arith)))

either : (b : Bool) (x y : ℕ) → (if b then pos x else pos y) ≡ pos (if b then x else y)
either true x y = refl
either false x y = refl

module _ (pk : Packages) (vault : VaultSdk) (law : IsProportional vault) where
  open pk use {js}
  open vault use {calculate_withdrawable_amount}

  destination_paid-pos :
      (o w u : ℕ)
      → 0 < w
      → 0 < u
      → destination_paid pk vault (pos o) (pos w) (pos u) ≡ ok (pos (o * u / w * w / u))
  unfolding destination_paid
  destination_paid-pos o w u hw hu =
      rw (law.unmint_amount o w u hw) (law.amount_by_share (o * u / w) w u hu)

  swap_keeps :
      (s d t f got w u : ℕ) (dir : TradeDirection) {c : SwapCurve pk × OutResult js} {out : ℤ}
      → f ≤ t
      → t - f ≤ got
      → 0 < w
      → 0 < u
      → compute_out_amount pk SwapCurve.constant_product
          (pos got -ℤ (pos t -ℤ pos f))
          (pos s)
          (pos d)
          dir
        ≡ ok c
      → destination_paid pk vault c.1.out_amount (pos w) (pos u) ≡ ok out
      → (o : ℕ) × (out ≡ pos o) × (o < d) × (s * d ≤ (s + got) * (d - o))
  unfolding compute_out_amount
  swap_keeps s d t f got w u dir {c} fees enough hw hu swap paid =
      let input : pos got -ℤ (pos t -ℤ pos f) ≡ pos (got - (t - f)) =
        ap (λ z. pos got -ℤ z) (sub_ℕ-of_le t f fees) ∙ sub_ℕ-of_le got (t - f) enough in
      let swap' = rw input at swap in
      >>=-elim (ConstantProduct.compute_out_amount js (pos (got - (t - f))) (pos s) (pos d) dir)
        swap'
        (λ res e same.
          let (o, out_eq, _, below, keeps, _) =
            compute_out_amount-largest js (got - (t - f)) s d dir e in
          let out_eq' : c.1.out_amount ≡ pos o =
            ap (λ z. z.1.out_amount) (sym (ok_injective same)) ∙ out_eq in
          let paid' = rw out_eq' at paid in
          let final = sym (ok_injective (sym (destination_paid-pos o w u hw hu) ∙ paid')) in
          let le = back-le o w u hu in
          (
            o * u / w * w / u,
            final,
            omega arith,
            widen s d (got - (t - f)) o got (o * u / w * w / u) (omega arith) le keeps,
          ))

  -- The swap and the payment of a quote, with the values they are known to have.
  known_swap :
      (curve : SwapCurve pk) (amounts : ℤ × ℤ) (tz fz gz : ℤ) (is_a : Bool) (a b t f got : ℕ)
      {c : SwapCurve pk × OutResult js}
      → curve ≡ SwapCurve.constant_product
      → amounts ≡ (pos a, pos b)
      → tz ≡ pos t
      → fz ≡ pos f
      → gz ≡ pos got
      → compute_out_amount pk curve
          (gz -ℤ (tz -ℤ fz))
          (if is_a then amounts.0 else amounts.1)
          (if is_a then amounts.1 else amounts.0)
          (if is_a then a_to_b else b_to_a)
        ≡ ok c
      → compute_out_amount pk SwapCurve.constant_product
          (pos got -ℤ (pos t -ℤ pos f))
          (pos (if is_a then a else b))
          (pos (if is_a then b else a))
          (if is_a then a_to_b else b_to_a)
        ≡ ok c
  known_swap curve amounts tz fz gz is_a a b t f got e1 e2 e3 e4 e5 h =
      rw (e1, e2, e3, e4, e5, either is_a a b, either is_a b a) at h

  quote_curve-constant_product :
      (p : SwapQuoteParam pk vault) (initiator : Option PublicKey) {curve : SwapCurve pk}
      → p.pool_state.curve_type ≡ CurveType.constant_product
      → quote_curve pk vault p initiator ≡ ok curve
      → curve ≡ SwapCurve.constant_product
  quote_curve-constant_product p initiator e h =
      >>=-elim
        (invariant
          (can_quote_earlier pk vault p initiator
            || not (ltb_ℤ (current_point pk vault p) p.pool_state.bootstrapping.activation_point))
          swap_disabled)
        (sym (quote_curve-early pk vault p initiator e) ∙ h) (λ _ _ k. sym (ok_injective k))

  received_known :
      (x pf : ℤ) (amounts : ℤ × ℤ) (is_a : Bool) (a b f : ℕ) (withdrawable lp supply : ℤ) {got : ℤ}
      → amounts ≡ (pos a, pos b)
      → pf ≡ pos f
      → source_received pk vault
          (x -ℤ pf)
          (if is_a then amounts.0 else amounts.1)
          withdrawable
          lp
          supply
        ≡ ok got
      → source_received pk vault (x -ℤ pos f) (pos (if is_a then a else b)) withdrawable lp supply
        ≡ ok got
  received_known x pf amounts is_a a b f withdrawable lp supply e1 e2 h =
      rw (e1, e2, either is_a a b) at h

  -- If the vaults convert in proportion, rounding down, and a quote is given for a swap in a constant product
  -- pool whose paying vault is not empty, in which the trading fee is t and the protocol's part of it f ≤ t, and the fee that stays, t - f, is no more than what the pool's amount of
  -- the token paid in grows by, then that growth and the amount out, with which the quote is honoured,
  -- leave the product of the pool's amounts no smaller than it was; the amount out is below the
  -- pool's amount of that token, and the fee quoted is t - f.
  pub calculate_swap_quote-growth :
      (in_mint : PublicKey) (x : ℤ) (p : SwapQuoteParam pk vault) (initiator : Option PublicKey)
      {r : SwapCurve pk × SwapResult pk vault} (a b t f got w u : ℕ)
      → p.pool_state.curve_type ≡ CurveType.constant_product
      → pool_amounts pk vault p.current_time p.vault_a p.vault_b p.pool_vault_a_lp p.pool_vault_b_lp
          p.vault_a_lp_supply p.vault_b_lp_supply
        ≡ ok (pos a, pos b)
      → calculate_trading_fee x p.pool_state.fees ≡ ok (pos t)
      → calculate_protocol_trading_fee (pos t) p.pool_state.fees ≡ ok (pos f)
      → f ≤ t
      → source_received pk vault
          (x -ℤ pos f)
          (pos (if in_mint == p.pool_state.token_a_mint then a else b))
          (calculate_withdrawable_amount p.current_time
            (if in_mint == p.pool_state.token_a_mint then p.vault_a else p.vault_b))
          (if in_mint == p.pool_state.token_a_mint then p.pool_vault_a_lp else p.pool_vault_b_lp)
          (if in_mint == p.pool_state.token_a_mint
            then p.vault_a_lp_supply
            else p.vault_b_lp_supply)
        ≡ ok (pos got)
      → t - f ≤ got
      → calculate_withdrawable_amount p.current_time
          (if in_mint == p.pool_state.token_a_mint then p.vault_b else p.vault_a)
        ≡ pos w
      → (if in_mint == p.pool_state.token_a_mint then p.vault_b_lp_supply else p.vault_a_lp_supply)
        ≡ pos u
      → 0 < w
      → 0 < u
      → calculate_swap_quote pk vault in_mint x p initiator ≡ ok r
      → (o : ℕ) × (r.1.amount_out ≡ pos o)
        × (r.1.fee ≡ pos (t - f))
        × (o < (if in_mint == p.pool_state.token_a_mint then b else a))
        × ((if in_mint == p.pool_state.token_a_mint then a else b)
              * (if in_mint == p.pool_state.token_a_mint then b else a)
            ≤ ((if in_mint == p.pool_state.token_a_mint then a else b) + got)
              * ((if in_mint == p.pool_state.token_a_mint then b else a) - o))
  calculate_swap_quote-growth in_mint x p initiator a b t f got w u cp amounts trade protocol fees
        received enough we ue hw hu h =
      let is_a = in_mint == p.pool_state.token_a_mint in
      let q = calculate_swap_quote-IsQuoted pk vault in_mint x p initiator h in
      let e1 = quote_curve-constant_product p initiator cp q.curve_eq in
      let e2 = ok_injective (sym q.amounts_eq ∙ amounts) in
      let e3 = ok_injective (sym q.swap.trade_fee_eq ∙ trade) in
      let e4 = ok_injective (
        sym q.swap.protocol_fee_eq
        ∙ (ap (λ z. calculate_protocol_trading_fee z p.pool_state.fees) e3 ∙ protocol)) in
      let e5 : q.swap.received ≡ pos got = ok_injective (
        sym (
          received_known x q.swap.protocol_fee q.amounts is_a a b f
            (calculate_withdrawable_amount p.current_time (if is_a then p.vault_a else p.vault_b))
            (if is_a then p.pool_vault_a_lp else p.pool_vault_b_lp)
            (if is_a then p.vault_a_lp_supply else p.vault_b_lp_supply) e2 e4 q.swap.received_eq)
        ∙ received) in
      let swap =
        known_swap q.curve q.amounts q.swap.trade_fee q.swap.protocol_fee q.swap.received is_a a b t
          f got e1 e2 e3 e4 e5 q.swap.swapped_eq in
      let (o, out, below, keeps) =
        swap_keeps (if is_a then a else b) (if is_a then b else a) t f got w u
          (if is_a then a_to_b else b_to_a) fees enough hw hu swap
          (rw (we, ue) at q.swap.paid_eq) in
      (
        o,
        out,
        q.swap.fee_eq
            ∙ (ap (λ z. z -ℤ q.swap.protocol_fee) e3
                ∙ (ap (λ z. pos t -ℤ z) e4 ∙ sub_ℕ-of_le t f fees)),
        below,
        keeps,
      )
