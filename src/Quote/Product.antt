-- ===== src/Quote/Product.antt =====
-- `calculateSwapQuote` of ts-client/src/amm/utils.ts on a constant product pool, as seen by the pool.
use mercurial_dynamic_amm_sd.Prelude.{
  ℕ, ℤ, pos, ◌+◌, ◌-◌, ◌*◌, ◌/◌, ◌<◌, ◌≤◌, ◌-ℤ◌, ◌≡◌, ap, Option, ok, if◌then◌else◌, ◌==◌, arith,
  sub_ℕ-of_le,
}
use mercurial_dynamic_amm_sd.Types.{PublicKey, CurveType}
use mercurial_dynamic_amm_sd.SwapCurve.{Packages, SwapCurve}
use mercurial_dynamic_amm_sd.Utils.{calculate_trading_fee, calculate_protocol_trading_fee}
use mercurial_dynamic_amm_sd.Vault.{VaultSdk, IsProportional}
use mercurial_dynamic_amm_sd.Quote.{
  SwapQuoteParam, SwapResult, pool_amounts, source_received, calculate_swap_quote,
}
use mercurial_dynamic_amm_sd.Quote.Growth.{calculate_swap_quote-growth}

-- What l shares of a vault that holds v for u shares are worth, together with the shares that are minted for
-- a deposit of y, once it is made.
abbrev pub worth : (y v u l : ℕ) → ℕ
worth y v u l = (y * u / v + l) * (v + y) / (u + y * u / v)

module _ (pk : Packages) (vault : VaultSdk) (law : IsProportional vault) where
  open vault use {calculate_withdrawable_amount}

  source_received-worth :
      (x f s v u l : ℕ) {withdrawable lp supply : ℤ}
      → withdrawable ≡ pos v
      → lp ≡ pos l
      → supply ≡ pos u
      → f ≤ x
      → 0 < v
      → 0 < u
      → s ≤ worth (x - f) v u l
      → source_received pk vault (pos x -ℤ pos f) (pos s) withdrawable lp supply
        ≡ ok (pos (worth (x - f) v u l - s))
  unfolding source_received
  source_received-worth x f s v u l ve le ue fx hv hu more =
      let y = x - f in
      rw
        (
          ve,
          le,
          ue,
          sub_ℕ-of_le x f fx,
          law.unmint_amount y v u hv,
          law.amount_by_share (y * u / v + l) (v + y) (u + y * u / v) (omega arith),
        )
        (ap ok (sub_ℕ-of_le (worth y v u l) s more))

  -- If the vaults convert in proportion, rounding down, and are not empty, and a quote is given for a swap of
  -- x in a constant product pool, in which the trading fee is t and the protocol's part of it f ≤ t, f ≤ x, then the vault gets
  -- x - f and the pool has of the token paid in what its l shares and the newly minted ones are
  -- then worth; if that covers what it had and the fee that stays, t - f, then with the amount out, with which the quote
  -- is honoured, the product of the pool's amounts is no smaller than it was; the amount out is below
  -- the pool's amount of that token, and the fee quoted is t - f.
  pub calculate_swap_quote-product :
      (in_mint : PublicKey) (x : ℕ) (p : SwapQuoteParam pk vault) (initiator : Option PublicKey)
      {r : SwapCurve pk × SwapResult pk vault} (a b t f l v u w z : ℕ)
      → p.pool_state.curve_type ≡ CurveType.constant_product
      → pool_amounts pk vault p.current_time p.vault_a p.vault_b p.pool_vault_a_lp p.pool_vault_b_lp
          p.vault_a_lp_supply p.vault_b_lp_supply
        ≡ ok (pos a, pos b)
      → calculate_trading_fee (pos x) p.pool_state.fees ≡ ok (pos t)
      → calculate_protocol_trading_fee (pos t) p.pool_state.fees ≡ ok (pos f)
      → f ≤ t
      → f ≤ x
      → calculate_withdrawable_amount p.current_time
          (if in_mint == p.pool_state.token_a_mint then p.vault_a else p.vault_b)
        ≡ pos v
      → (if in_mint == p.pool_state.token_a_mint then p.pool_vault_a_lp else p.pool_vault_b_lp)
        ≡ pos l
      → (if in_mint == p.pool_state.token_a_mint then p.vault_a_lp_supply else p.vault_b_lp_supply)
        ≡ pos u
      → calculate_withdrawable_amount p.current_time
          (if in_mint == p.pool_state.token_a_mint then p.vault_b else p.vault_a)
        ≡ pos w
      → (if in_mint == p.pool_state.token_a_mint then p.vault_b_lp_supply else p.vault_a_lp_supply)
        ≡ pos z
      → 0 < v
      → 0 < u
      → 0 < w
      → 0 < z
      → (if in_mint == p.pool_state.token_a_mint then a else b) + (t - f) ≤ worth (x - f) v u l
      → calculate_swap_quote pk vault in_mint (pos x) p initiator ≡ ok r
      → (o : ℕ) × (r.1.amount_out ≡ pos o)
        × (r.1.fee ≡ pos (t - f))
        × (o < (if in_mint == p.pool_state.token_a_mint then b else a))
        × ((if in_mint == p.pool_state.token_a_mint then a else b)
              * (if in_mint == p.pool_state.token_a_mint then b else a)
            ≤ worth (x - f) v u l * ((if in_mint == p.pool_state.token_a_mint then b else a) - o))
  calculate_swap_quote-product in_mint x p initiator a b t f l v u w z cp amounts trade protocol
        fees fx ve le ue we ze hv hu hw hz enough h =
      let s = if in_mint == p.pool_state.token_a_mint then a else b in
      let d = if in_mint == p.pool_state.token_a_mint then b else a in
      let after = worth (x - f) v u l in
      let received = source_received-worth x f s v u l ve le ue fx hv hu (omega (arith, enough)) in
      let (o, out, fee, below, keeps) =
        calculate_swap_quote-growth pk vault law in_mint (pos x) p initiator a b t f (after - s) w z
          cp amounts trade protocol fees received (omega (arith, enough)) we ze hw hz h in
      (o, out, fee, below, rw (total s after (omega (arith, enough))) at keeps)
    where
      total : (s after : ℕ) → s ≤ after → s + (after - s) ≡ after
      total s after le = omega arith
