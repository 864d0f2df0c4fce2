-- ===== src/Pool/Quotes.antt =====
-- What the quotes of ts-client/src/amm/index.ts leave of the object that they are asked of.
use mathlib.Core.Option.{none}
use mercurial_dynamic_amm_sd.Prelude.{
  ℤ, pos, ◌-ℤ◌, ◌==ℤ◌, ◌≡◌, ap, Bool, true, false, not, ◌&&◌, ◌||◌, Option, some, Result, ok, ◌>>=◌,
  >>=-elim, ok_injective, Bool-cases, inl, inr, is_zero, to_number, tdiv, invariant, invalid_mint,
  only_balanced_deposit, balanced_deposit_two_sided, if◌then◌else◌, ◌==◌, ◌*ℤ◌,
}
use mercurial_dynamic_amm_sd.Types.{PublicKey}
use mercurial_dynamic_amm_sd.Curve.{a_to_b, b_to_a}
use mercurial_dynamic_amm_sd.SwapCurve.{
  Packages, SwapCurve, compute_d, compute_in_amount, compute_imbalance_deposit,
  compute_withdraw_one,
}
use mercurial_dynamic_amm_sd.SwapCurve.Refresh.{
  IsRefresh, compute_d-IsRefresh, compute_in_amount-IsRefresh, compute_imbalance_deposit-IsRefresh,
  compute_withdraw_one-IsRefresh,
}
use mercurial_dynamic_amm_sd.Utils.{
  Numbers, calculate_trading_fee, calculate_protocol_trading_fee, get_min_amount_with_slippage,
  compute_actual_deposit_amount,
}
use mercurial_dynamic_amm_sd.Vault.{VaultSdk}
use mercurial_dynamic_amm_sd.Quote.{calculate_swap_quote}
use mercurial_dynamic_amm_sd.Pool.{
  AmmImpl, SwapQuote, DepositQuote, WithdrawQuote, with_curve, with_shared, is_stable_pool,
  get_swap_quote, get_max_swap_out_amount, get_max_swap_in_amount,
}
use mercurial_dynamic_amm_sd.Pool.Liquidity.{
  first_deposit, balanced_deposit, imbalanced_deposit, get_deposit_quote, balanced_withdraw,
  withdraw_one, get_withdraw_quote,
}
use mercurial_dynamic_amm_sd.Pool.Swap.{quote_params}

module _ (pk : Packages) (vault : VaultSdk) (num : Numbers) where
  open num use {Number}
  open vault use {calculate_withdrawable_amount}

  -- A quote leaves the object as it was, or with its own curve brought up to date, or with the price that
  -- another curve has cached.
  pub data Leaves (amm amm' : AmmImpl pk vault num) : Type 0 where
    same : amm ≡ amm' → Leaves amm amm'
    refreshed :
        (curve : SwapCurve pk)
        → IsRefresh pk amm.swap_curve curve
        → with_curve pk vault num amm curve ≡ amm'
        → Leaves amm amm'
    shared : (other : SwapCurve pk) → with_shared pk vault num amm other ≡ amm' → Leaves amm amm'

  pub get_max_swap_in_amount-Leaves :
      (amm : AmmImpl pk vault num) (mint : PublicKey) {r : AmmImpl pk vault num × ℤ}
      → get_max_swap_in_amount pk vault num amm mint ≡ ok r
      → Leaves amm r.0
  unfolding get_max_swap_in_amount
  get_max_swap_in_amount-Leaves amm mint h =
      let pool = amm.pool_state in
      let info = amm.pool_info in
      let is_a = mint == pool.token_a_mint in
      let src = if is_a then info.token_a_amount else info.token_b_amount in
      let dst = if is_a then info.token_b_amount else info.token_a_amount in
      let dir = if is_a then a_to_b else b_to_a in
      >>=-elim (invariant (mint == pool.token_a_mint || mint == pool.token_b_mint) invalid_mint) h
        (λ _ _ h1.
          >>=-elim
            (get_max_swap_out_amount pk vault num amm
              (if is_a then pool.token_b_mint else pool.token_a_mint))
            h1
            (λ limit _ h2.
              let out = if limit ==ℤ dst then limit -ℤ pos 1 else limit in
              >>=-elim (compute_in_amount pk amm.swap_curve out src dst dir) h2 (λ c e h3.
                >>=-elim (calculate_protocol_trading_fee c.1 pool.fees) h3 (λ _ _ h4.
                  >>=-elim (calculate_trading_fee c.1 pool.fees) h4 (λ _ _ h5.
                    refreshed c.0 (compute_in_amount-IsRefresh pk amm.swap_curve out src dst dir e)
                      (ap (λ q. q.0) (ok_injective h5)))))))

  pub get_swap_quote-Leaves :
      (amm : AmmImpl pk vault num) (mint : PublicKey) (x : ℤ) (slippage : Number)
      (initiator : Option PublicKey) {r : AmmImpl pk vault num × SwapQuote pk vault num}
      → get_swap_quote pk vault num amm mint x slippage initiator ≡ ok r
      → Leaves amm r.0
  unfolding get_swap_quote
  get_swap_quote-Leaves amm mint x slippage initiator h =
      >>=-elim (to_number amm.accounts_info.current_time) h (λ time _ h1.
        >>=-elim (to_number amm.accounts_info.current_slot) h1 (λ slot _ h2.
          >>=-elim
            (calculate_swap_quote pk vault mint x (quote_params pk vault num amm time slot)
              initiator)
            h2
            (λ q _ h3.
              >>=-elim (get_min_amount_with_slippage num q.1.amount_out slippage) h3
                (λ _ _ h4. shared q.0 (ap (λ p. p.0) (ok_injective h4))))))

  first_deposit-Leaves :
      (amm : AmmImpl pk vault num) (a b : ℤ) {r : AmmImpl pk vault num × DepositQuote pk vault num}
      → first_deposit pk vault num amm a b ≡ ok r
      → Leaves amm r.0
  unfolding first_deposit
  first_deposit-Leaves amm a b h = >>=-elim (compute_d pk amm.swap_curve a b) h (λ c e h1.
      refreshed c.0 (compute_d-IsRefresh pk amm.swap_curve a b e) (ap (λ q. q.0) (ok_injective h1)))

  imbalanced_deposit-Leaves :
      (amm : AmmImpl pk vault num) (a b wa wb : ℤ) (slippage : Number)
      {r : AmmImpl pk vault num × DepositQuote pk vault num}
      → imbalanced_deposit pk vault num amm a b wa wb slippage ≡ ok r
      → Leaves amm r.0
  unfolding imbalanced_deposit
  imbalanced_deposit-Leaves amm a b wa wb slippage h =
      let i = amm.accounts_info in
      let ta = amm.pool_info.token_a_amount in
      let tb = amm.pool_info.token_b_amount in
      let fees = amm.pool_state.fees in
      >>=-elim (compute_actual_deposit_amount a ta i.pool_vault_a_lp i.vault_a_lp_supply wa) h
        (λ x _ h1.
          >>=-elim (compute_actual_deposit_amount b tb i.pool_vault_b_lp i.vault_b_lp_supply wb) h1
            (λ y _ h2.
              >>=-elim (compute_imbalance_deposit pk amm.swap_curve x y ta tb i.pool_lp_supply fees)
                h2
                (λ c e h3. >>=-elim (get_min_amount_with_slippage num c.1 slippage) h3 (λ _ _ h4.
                  refreshed c.0
                    (compute_imbalance_deposit-IsRefresh pk amm.swap_curve x y ta tb
                      i.pool_lp_supply fees e)
                    (ap (λ q. q.0) (ok_injective h4))))))

  unchanged :
      {A : Type 0} (amm : AmmImpl pk vault num) (m : Result A) {r : AmmImpl pk vault num × A}
      → (m >>= (λ q. ok (amm, q))) ≡ ok r
      → Leaves amm r.0
  unchanged amm m h = >>=-elim m h (λ _ _ h1. same (ap (λ q. q.0) (ok_injective h1)))

  pub get_deposit_quote-Leaves :
      (amm : AmmImpl pk vault num) (a b : ℤ) (balance : Bool) (slippage : Number)
      {r : AmmImpl pk vault num × DepositQuote pk vault num}
      → get_deposit_quote pk vault num amm a b balance slippage ≡ ok r
      → Leaves amm r.0
  unfolding get_deposit_quote
  get_deposit_quote-Leaves amm a b balance slippage {r} h =
      let i = amm.accounts_info in
      >>=-elim
        (invariant
          (not (
            not (is_stable_pool pk vault num amm)
            && not (is_zero a)
            && not (is_zero b)
            && not (is_zero i.pool_lp_supply)))
          only_balanced_deposit)
        h
        (λ _ _ h1.
          >>=-elim
            (invariant (not (not (is_zero a) && not (is_zero b) && balance))
              balanced_deposit_two_sided)
            h1
            (λ _ _ h2. elim (Bool-cases (is_zero i.pool_lp_supply)) [
              | inl empty ↦ first_deposit-Leaves amm a b (rw empty at h2)
              | inr lively ↦ >>=-elim (to_number i.current_time) (rw lively at h2) (λ time _ h3.
                  elim (Bool-cases (is_zero a && balance)) [
                    | inl only_b ↦
                        unchanged amm
                          (balanced_deposit pk vault num amm false b
                            (calculate_withdrawable_amount time amm.vault_a)
                            (calculate_withdrawable_amount time amm.vault_b) slippage)
                          (rw only_b at h3)
                    | inr both ↦ elim (Bool-cases (is_zero b && balance)) [
                      | inl only_a ↦
                          unchanged amm
                            (balanced_deposit pk vault num amm true a
                              (calculate_withdrawable_amount time amm.vault_a)
                              (calculate_withdrawable_amount time amm.vault_b) slippage)
                            (rw (both, only_a) at h3)
                      | inr two ↦
                          imbalanced_deposit-Leaves amm a b
                            (calculate_withdrawable_amount time amm.vault_a)
                            (calculate_withdrawable_amount time amm.vault_b) slippage
                            (rw (both, two) at h3)
                    ]
                  ])
            ]))

  withdraw_one-Leaves :
      (amm : AmmImpl pk vault num) (x wa wb : ℤ) (slippage : Number) (mint : PublicKey)
      {r : AmmImpl pk vault num × WithdrawQuote pk vault num}
      → withdraw_one pk vault num amm x wa wb slippage mint ≡ ok r
      → Leaves amm r.0
  unfolding withdraw_one
  withdraw_one-Leaves amm x wa wb slippage mint h =
      let i = amm.accounts_info in
      let ta = amm.pool_info.token_a_amount in
      let tb = amm.pool_info.token_b_amount in
      let fees = amm.pool_state.fees in
      let from_a = mint == amm.pool_state.token_a_mint in
      let dir = if from_a then b_to_a else a_to_b in
      let supply = if from_a then i.vault_a_lp_supply else i.vault_b_lp_supply in
      let total = if from_a then wa else wb in
      >>=-elim
        (invariant (mint == amm.token_a_mint_address || mint == amm.token_b_mint_address)
          invalid_mint)
        h
        (λ _ _ h1.
          >>=-elim (compute_withdraw_one pk amm.swap_curve x i.pool_lp_supply ta tb fees dir) h1
            (λ c e h2. >>=-elim (tdiv (c.1 *ℤ supply) total) h2 (λ burn _ h3.
              >>=-elim (tdiv (burn *ℤ total) supply) h3 (λ real _ h4.
                >>=-elim (get_min_amount_with_slippage num real slippage) h4 (λ _ _ h5.
                  refreshed c.0
                    (compute_withdraw_one-IsRefresh pk amm.swap_curve x i.pool_lp_supply ta tb fees
                      dir e)
                    (ap (λ q. q.0) (ok_injective h5)))))))

  pub get_withdraw_quote-Leaves :
      (amm : AmmImpl pk vault num) (x : ℤ) (slippage : Number) (mint : Option PublicKey)
      {r : AmmImpl pk vault num × WithdrawQuote pk vault num}
      → get_withdraw_quote pk vault num amm x slippage mint ≡ ok r
      → Leaves amm r.0
  unfolding get_withdraw_quote
  get_withdraw_quote-Leaves amm x slippage none h =
      >>=-elim (to_number amm.accounts_info.current_time) h (λ time _ h1.
        unchanged amm
          (balanced_withdraw pk vault num amm x (calculate_withdrawable_amount time amm.vault_a)
            (calculate_withdrawable_amount time amm.vault_b) slippage)
          h1)
  get_withdraw_quote-Leaves amm x slippage (some mint) h =
      >>=-elim (to_number amm.accounts_info.current_time) h (λ time _ h1.
        withdraw_one-Leaves amm x (calculate_withdrawable_amount time amm.vault_a)
          (calculate_withdrawable_amount time amm.vault_b) slippage mint h1)
