-- ===== src/Pool/Swap.antt =====
-- `getSwapQuote` of ts-client/src/amm/index.ts.
use mercurial_dynamic_amm_sd.Prelude.{
  ℕ, ℤ, pos, ◌+◌, ◌*◌, ◌/◌, ◌≤◌, ◌<◌, ◌≡◌, ltb_ℤ, sym, ap, ◌∙◌, arith, true, false, Option, ok,
  >>=-elim, ok_injective, if◌then◌else◌, ◌==◌, to_number,
}
use mercurial_dynamic_amm_sd.Types.{PublicKey}
use mercurial_dynamic_amm_sd.SwapCurve.{Packages}
use mercurial_dynamic_amm_sd.Utils.{Numbers, min_slippage, get_min_amount_with_slippage}
use mercurial_dynamic_amm_sd.Utils.Slippage.{get_min_amount_with_slippage-pos, part_of_amount}
use mercurial_dynamic_amm_sd.Vault.{VaultSdk}
use mercurial_dynamic_amm_sd.Quote.{SwapQuoteParam, calculate_swap_quote}
use mercurial_dynamic_amm_sd.Quote.Limits.{calculate_swap_quote-limits, paid_reserve}
use mercurial_dynamic_amm_sd.Pool.{AmmImpl, SwapQuote, get_swap_quote}

module _ (pk : Packages) (vault : VaultSdk) (num : Numbers) where
  open num use {Number}

  -- The parameters that `getSwapQuote` passes on, for a time and a slot.
  abbrev pub quote_params : AmmImpl pk vault num → (time slot : ℤ) → SwapQuoteParam pk vault
  quote_params amm time slot =
      let info = amm.accounts_info in
      record {
        pool_state = amm.pool_state;
        vault_a = amm.vault_a;
        vault_b = amm.vault_b;
        pool_vault_a_lp = info.pool_vault_a_lp;
        pool_vault_b_lp = info.pool_vault_b_lp;
        vault_a_lp_supply = info.vault_a_lp_supply;
        vault_b_lp_supply = info.vault_b_lp_supply;
        vault_a_reserve = info.vault_a_reserve;
        vault_b_reserve = info.vault_b_reserve;
        current_time = time;
        current_slot = slot;
        depeg_accounts = amm.depeg_accounts;
      }

  -- If a pool of two different tokens quotes an amount out that is not negative, for a slippage rate whose
  -- minimum comes out as f/10000 with f at most 10000, then the pool is enabled, the amount in is the one asked
  -- for, the amount out is below the reserve of the vault that pays it, and the minimum that the swap asks
  -- for is that part of it, rounded down, and no more than it.
  pub get_swap_quote-limits :
      (amm : AmmImpl pk vault num) (in_mint : PublicKey) (x : ℤ) (slippage : Number)
      (initiator : Option PublicKey) {q : AmmImpl pk vault num × SwapQuote pk vault num} (f o : ℕ)
      → (amm.pool_state.token_b_mint == amm.pool_state.token_a_mint) ≡ false
      → min_slippage num slippage ≡ pos f
      → f ≤ 10000
      → q.1.swap_out_amount ≡ pos o
      → get_swap_quote pk vault num amm in_mint x slippage initiator ≡ ok q
      → (lo : ℕ) × (amm.pool_state.enabled ≡ true)
        × (q.1.swap_in_amount ≡ x)
        × (ltb_ℤ (pos o) (
              if in_mint == amm.pool_state.token_a_mint
              then amm.accounts_info.vault_b_reserve
              else amm.accounts_info.vault_a_reserve)
            ≡ true)
        × (q.1.min_swap_out_amount ≡ pos lo)
        × (lo * 10000 ≤ o * f)
        × (o * f < (lo + 1) * 10000)
        × (lo ≤ o)
  unfolding get_swap_quote paid_reserve
  get_swap_quote-limits amm in_mint x slippage initiator f o differ rate le out h =
      let info = amm.accounts_info in
      >>=-elim (to_number info.current_time) h (λ time _ h1.
        >>=-elim (to_number info.current_slot) h1 (λ slot _ h2.
          >>=-elim (calculate_swap_quote pk vault in_mint x (quote_params amm time slot) initiator)
            h2
            (λ r quoted h3.
              >>=-elim (get_min_amount_with_slippage num r.1.amount_out slippage) h3
                (λ low found h4.
                  let same = sym (ok_injective h4) in
                  let out' : r.1.amount_out ≡ pos o =
                    ap (λ z. z.1.swap_out_amount) (sym same) ∙ out in
                  let (_, _, _, enabled, _, below) =
                    calculate_swap_quote-limits pk vault in_mint x (quote_params amm time slot)
                      initiator differ quoted in
                  let low' : low ≡ pos (o * f / 10000) = ok_injective (
                    sym found
                    ∙ (ap (λ z. get_min_amount_with_slippage num z slippage) out'
                        ∙ get_min_amount_with_slippage-pos num slippage o f rate)) in
                  (
                    o * f / 10000,
                    enabled,
                    ap (λ z. z.1.swap_in_amount) same,
                    rw out' at below,
                    ap (λ z. z.1.min_swap_out_amount) same ∙ low',
                    omega arith,
                    omega arith,
                    part_of_amount o f le,
                  )))))
