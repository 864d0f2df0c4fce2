-- ===== src/Pool/State/Run.antt =====
-- Any calls on an object of the class `AmmImpl` of ts-client/src/amm/index.ts, one after the other.
use mathlib.Core.Path.{subst}
use mercurial_dynamic_amm_sd.Prelude.{
  ℤ, ◌≡◌, refl, sym, ap, ◌∙◌, Bool, true, false, Option, Error, ok, err, >>=-elim, ok_injective,
  to_number, ltb_ℤ, if◌then◌else◌, ◌==◌,
}
use mercurial_dynamic_amm_sd.Types.{PublicKey, CurveType}
use mercurial_dynamic_amm_sd.SwapCurve.{Packages, SwapCurve}
use mercurial_dynamic_amm_sd.Utils.{
  Numbers, calculate_max_swap_out_amount, get_min_amount_with_slippage,
}
use mercurial_dynamic_amm_sd.Vault.{VaultSdk}
use mercurial_dynamic_amm_sd.Quote.{calculate_swap_quote}
use mercurial_dynamic_amm_sd.Quote.Parts.{calculate_swap_quote-IsQuoted}
use mercurial_dynamic_amm_sd.Pool.{
  AmmImpl, SwapQuote, DepositQuote, WithdrawQuote, with_curve, with_shared, store_depeg,
  get_swap_quote, get_max_swap_in_amount, get_max_swap_out_amount,
}
use mercurial_dynamic_amm_sd.Pool.Liquidity.{get_deposit_quote, get_withdraw_quote}
use mercurial_dynamic_amm_sd.Pool.Swap.{quote_params}
use mercurial_dynamic_amm_sd.Pool.Quotes.{
  Leaves, same, refreshed, shared, get_swap_quote-Leaves, get_max_swap_in_amount-Leaves,
  get_deposit_quote-Leaves, get_withdraw_quote-Leaves,
}
use mercurial_dynamic_amm_sd.Pool.Accounts.{Rpc}
use mercurial_dynamic_amm_sd.Pool.State.{create, update_state, fetch_state}
use mercurial_dynamic_amm_sd.Pool.State.Coherent.{
  Agrees, IsCoherent, Leaves-IsCoherent, update_state-IsCoherent,
}
use mercurial_dynamic_amm_sd.Pool.State.Fresh.{IsFresh, update_state-IsUpdated}
use mercurial_dynamic_amm_sd.Pool.State.Whole.{
  Rebuilds, update_state_rebuilt, update_state_refused, create-IsCoherent,
}

module _ (pk : Packages) (vault : VaultSdk) (num : Numbers) where
  open num use {Number}

  -- A quote that is asked of an object, and what the object is then.
  pub data Asks (amm amm' : AmmImpl pk vault num) : Type 0 where
    swap_quote :
        (mint : PublicKey) (x : ℤ) (slippage : Number) (initiator : Option PublicKey)
        (q : SwapQuote pk vault num)
        → get_swap_quote pk vault num amm mint x slippage initiator ≡ ok (amm', q)
        → Asks amm amm'
    max_swap_in :
        (mint : PublicKey) (most : ℤ)
        → get_max_swap_in_amount pk vault num amm mint ≡ ok (amm', most)
        → Asks amm amm'
    deposit_quote :
        (a b : ℤ) (balance : Bool) (slippage : Number) (q : DepositQuote pk vault num)
        → get_deposit_quote pk vault num amm a b balance slippage ≡ ok (amm', q)
        → Asks amm amm'
    withdraw_quote :
        (x : ℤ) (slippage : Number) (mint : Option PublicKey) (q : WithdrawQuote pk vault num)
        → get_withdraw_quote pk vault num amm x slippage mint ≡ ok (amm', q)
        → Asks amm amm'

  -- Quotes, and updates that succeed or fail, in any order. The flag is false from an update that fails after it has replaced
  -- the pool's state and before it has replaced the curve, until an update replaces the curve.
  pub data Reach (amm : AmmImpl pk vault num) : Bool → AmmImpl pk vault num → Type 0 where
    here : Reach amm true amm
    asked :
        {whole : Bool} {b c : AmmImpl pk vault num}
        → Reach amm whole b
        → Asks b c
        → Reach amm whole c
    updated :
        {whole : Bool} {b c : AmmImpl pk vault num} (rpc : Rpc pk vault num)
        → Reach amm whole b
        → update_state pk vault num rpc b ≡ (c, ok tt)
        → Reach amm true c
    refused :
        {whole : Bool} {b : AmmImpl pk vault num} (rpc : Rpc pk vault num) (e : Error)
        → Reach amm whole b
        → fetch_state pk vault num rpc b ≡ err e
        → Reach amm whole (update_state pk vault num rpc b).0
    rebuilt :
        {whole : Bool} {b : AmmImpl pk vault num} (rpc : Rpc pk vault num)
        → Reach amm whole b
        → Rebuilds pk vault num rpc b
        → Reach amm true (update_state pk vault num rpc b).0
    cut_off :
        {whole : Bool} {b c : AmmImpl pk vault num} (rpc : Rpc pk vault num) (e : Error)
        → Reach amm whole b
        → update_state pk vault num rpc b ≡ (c, err e)
        → Reach amm false c

  -- Quotes alone.
  pub data Asked (amm : AmmImpl pk vault num) : AmmImpl pk vault num → Type 0 where
    none_yet : Asked amm amm
    further : {b c : AmmImpl pk vault num} → Asked amm b → Asks b c → Asked amm c

  Asks-Leaves : {amm amm' : AmmImpl pk vault num} → Asks amm amm' → Leaves pk vault num amm amm'
  Asks-Leaves {amm} (swap_quote mint x slippage initiator q e) =
      get_swap_quote-Leaves pk vault num amm mint x slippage initiator e
  Asks-Leaves {amm} (max_swap_in mint most e) =
      get_max_swap_in_amount-Leaves pk vault num amm mint e
  Asks-Leaves {amm} (deposit_quote a b balance slippage q e) =
      get_deposit_quote-Leaves pk vault num amm a b balance slippage e
  Asks-Leaves {amm} (withdraw_quote x slippage mint q e) =
      get_withdraw_quote-Leaves pk vault num amm x slippage mint e

  -- The object with another curve and another cached price.
  abbrev restated : AmmImpl pk vault num → SwapCurve pk → CurveType → AmmImpl pk vault num
  restated amm curve curve_type = record amm {
    swap_curve = curve;
    pool_state = record amm.pool_state { curve_type = curve_type };
  }

  -- All but the curve and the cached price is as it was.
  abbrev Kept : AmmImpl pk vault num → AmmImpl pk vault num → Type 0
  Kept amm amm' = (curve : SwapCurve pk) × (t : CurveType) × (restated amm curve t ≡ amm')

  Kept-if :
      (amm : AmmImpl pk vault num) (curve : SwapCurve pk) (b : Bool) (t : CurveType)
      {amm' : AmmImpl pk vault num}
      → record amm {
        swap_curve = curve;
        pool_state = if b then record amm.pool_state { curve_type = t } else amm.pool_state;
      }
        ≡ amm'
      → Kept amm amm'
  Kept-if amm curve true t e = (curve, t, e)
  Kept-if amm curve false t e = (curve, amm.pool_state.curve_type, e)

  Leaves-Kept : {amm amm' : AmmImpl pk vault num} → Leaves pk vault num amm amm' → Kept amm amm'
  Leaves-Kept {amm} (same e) = (amm.swap_curve, amm.pool_state.curve_type, e)
  Leaves-Kept {amm} (refreshed curve r e) =
      unfold with_curve in
      Kept-if amm curve amm.shares_depeg (store_depeg pk vault num curve amm.pool_state.curve_type)
        e
  Leaves-Kept (shared other e) = unfold with_shared in (_, _, e)

  Reach-IsCoherent' :
      {amm amm' : AmmImpl pk vault num} {whole : Bool}
      → IsCoherent pk vault num amm
      → Reach amm whole amm'
      → IsCoherent pk vault num amm'
  Reach-IsCoherent' h here = h
  Reach-IsCoherent' h (asked r a) =
      Leaves-IsCoherent pk vault num (Reach-IsCoherent' h r) (Asks-Leaves a)
  Reach-IsCoherent' h (updated {b = b} rpc r e) =
      subst (IsCoherent pk vault num) (ap (λ p. p.0) e)
        (update_state-IsCoherent pk vault num rpc b (Reach-IsCoherent' h r))
  Reach-IsCoherent' h (refused {b = b} rpc e r fails) =
      update_state-IsCoherent pk vault num rpc b (Reach-IsCoherent' h r)
  Reach-IsCoherent' h (rebuilt {b = b} rpc r goes) =
      update_state-IsCoherent pk vault num rpc b (Reach-IsCoherent' h r)
  Reach-IsCoherent' h (cut_off {b = b} rpc _ r e) =
      subst (IsCoherent pk vault num) (ap (λ p. p.0) e)
        (update_state-IsCoherent pk vault num rpc b (Reach-IsCoherent' h r))

  Reach-shares :
      {amm amm' : AmmImpl pk vault num} {whole : Bool}
      → amm.shares_depeg ≡ true
      → Reach amm whole amm'
      → whole ≡ true
      → amm'.shares_depeg ≡ true
  Reach-shares h here w = h
  Reach-shares h (asked r a) w =
      let (c, t, e) = Leaves-Kept (Asks-Leaves a) in
      ap (λ o. o.shares_depeg) (sym e) ∙ Reach-shares h r w
  Reach-shares h (updated {b = b} rpc r e) w =
      (update_state-IsUpdated pk vault num rpc b e).shares_eq
  Reach-shares h (refused {b = b} rpc e r fails) w =
      update_state_refused pk vault num rpc b fails ∙ Reach-shares h r w
  Reach-shares h (rebuilt {b = b} rpc r goes) w = update_state_rebuilt pk vault num rpc b goes
  Reach-shares h (cut_off rpc _ r e) w = cc

  -- Whatever quotes are asked of an object that was created, and whatever updates of it succeed or fail, in any order: if no
  -- update has failed between replacing the pool's state and replacing the curve, or one has replaced the curve since, by
  -- succeeding or by getting as far as a new curve, then the object's curve is of the type of its pool's state, with the same
  -- amplification, multipliers, stake and cached price.
  pub Reach-IsCoherent :
      (rpc : Rpc pk vault num) (program vaults pool : PublicKey) {amm amm' : AmmImpl pk vault num}
      → create pk vault num rpc program vaults pool ≡ ok amm
      → Reach amm true amm'
      → Agrees pk vault num amm'.swap_curve amm'.pool_state.curve_type amm'.pool_state.stake
  Reach-IsCoherent rpc program vaults pool made r =
      let (coherent, shares) = create-IsCoherent pk vault num rpc program vaults pool made in
      Reach-IsCoherent' coherent r (Reach-shares shares r refl)

  Asked-Kept : {amm amm' : AmmImpl pk vault num} → Asked amm amm' → Kept amm amm'
  Asked-Kept {amm} none_yet = (amm.swap_curve, amm.pool_state.curve_type, refl)
  Asked-Kept {amm} (further r a) =
      let (c, t, e) = Asked-Kept r in
      let (c', t', e') = Leaves-Kept (Asks-Leaves a) in (c', t', ap (λ o. restated o c' t') e ∙ e')

  -- The mint of the other token.
  abbrev pub other_mint : AmmImpl pk vault num → PublicKey → PublicKey
  other_mint amm mint =
      if mint == amm.pool_state.token_a_mint
      then amm.pool_state.token_b_mint
      else amm.pool_state.token_a_mint

  -- A quote is below what `getMaxSwapOutAmount` gives for the other token.
  quote_below :
      (amm : AmmImpl pk vault num) (mint : PublicKey) (x : ℤ) (slippage : Number)
      (initiator : Option PublicKey) {r : AmmImpl pk vault num × SwapQuote pk vault num} {most : ℤ}
      → IsFresh pk vault num amm
      → get_max_swap_out_amount pk vault num amm (other_mint amm mint) ≡ ok most
      → get_swap_quote pk vault num amm mint x slippage initiator ≡ ok r
      → ltb_ℤ r.1.swap_out_amount most ≡ true
  unfolding get_swap_quote get_max_swap_out_amount
  quote_below amm mint x slippage initiator {most = most} fresh limit h =
      let info = amm.accounts_info in
      >>=-elim (to_number info.current_time) h (λ time e1 h1.
        >>=-elim (to_number info.current_slot) h1 (λ slot _ h2.
          let p = quote_params pk vault num amm time slot in
          >>=-elim (calculate_swap_quote pk vault mint x p initiator) h2 (λ q e2 h3.
            >>=-elim (get_min_amount_with_slippage num q.1.amount_out slippage) h3 (λ _ _ h4.
              let parts = calculate_swap_quote-IsQuoted pk vault mint x p initiator e2 in
              let now = ok_injective (sym fresh.time_eq ∙ e1) in
              let amounts = ok_injective (sym (rw now at fresh.amounts_eq) ∙ parts.amounts_eq) in
              let same_limit = ok_injective (
                sym limit
                ∙ (ap
                      (λ (a : ℤ × ℤ).
                        calculate_max_swap_out_amount (other_mint amm mint)
                          amm.pool_state.token_a_mint amm.pool_state.token_b_mint a.0 a.1
                          info.vault_a_reserve info.vault_b_reserve)
                      amounts
                    ∙ parts.swap.limit_eq)) in
              ap (λ r. ltb_ℤ r.1.swap_out_amount most) (sym (ok_injective h4))
              ∙ (ap (λ m. ltb_ℤ q.1.amount_out m) same_limit ∙ parts.swap.below)))))

  -- If the amounts that an object holds are those that its accounts give, as after an update that
  -- succeeded, then after any quotes, a swap quote for a token has an amount out below what `getMaxSwapOutAmount` gave for the
  -- other token at the start.
  pub Asked-quote_below :
      {amm amm' : AmmImpl pk vault num} (mint : PublicKey) (x : ℤ) (slippage : Number)
      (initiator : Option PublicKey) {r : AmmImpl pk vault num × SwapQuote pk vault num} {most : ℤ}
      → IsFresh pk vault num amm
      → Asked amm amm'
      → get_max_swap_out_amount pk vault num amm (other_mint amm mint) ≡ ok most
      → get_swap_quote pk vault num amm' mint x slippage initiator ≡ ok r
      → ltb_ℤ r.1.swap_out_amount most ≡ true
  unfolding get_max_swap_out_amount
  Asked-quote_below {amm} mint x slippage initiator {r} {most} fresh asks limit h =
      let (c, t, e) = Asked-Kept asks in
      quote_below (restated amm c t) mint x slippage initiator
        (record { time = fresh.time; time_eq = fresh.time_eq; amounts_eq = fresh.amounts_eq }) limit
        (subst (λ o. get_swap_quote pk vault num o mint x slippage initiator ≡ ok r) (sym e) h)
