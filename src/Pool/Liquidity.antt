-- ===== src/Pool/Liquidity.antt =====
-- ts-client/src/amm/index.ts: `getDepositQuote`, `getWithdrawQuote` and the amounts of
-- `getUserLockEscrow` of the class `AmmImpl`.
use mathlib.Core.Option.{none}
use mercurial_dynamic_amm_sd.Prelude.{
  ℤ, pos, ◌*ℤ◌, ltb_ℤ, is_zero, tdiv, to_number, Bool, true, false, not, ◌||◌, ◌&&◌, Option, some,
  Result, ok, ◌>>=◌, ◌>>◌, invariant, invalid_mint, only_balanced_deposit,
  balanced_deposit_two_sided, if◌then◌else◌, ◌==◌,
}
use mercurial_dynamic_amm_sd.Types.{PublicKey}
use mercurial_dynamic_amm_sd.Curve.{a_to_b, b_to_a}
use mercurial_dynamic_amm_sd.SwapCurve.{
  Packages, compute_d, compute_imbalance_deposit, compute_withdraw_one,
}
use mercurial_dynamic_amm_sd.Utils.{
  Numbers, calculate_unclaimed_lock_escrow_fee, compute_actual_deposit_amount,
  get_min_amount_with_slippage, get_max_amount_with_slippage,
}
use mercurial_dynamic_amm_sd.Vault.{VaultSdk}
use mercurial_dynamic_amm_sd.Pool.{
  AmmImpl, DepositQuote, WithdrawQuote, is_stable_pool, get_share_by_amount, get_amount_by_share,
  with_curve,
}

module _ (pk : Packages) (vault : VaultSdk) (num : Numbers) where
  open num use {Number, literal}
  open vault use {calculate_withdrawable_amount}

  -- UNLOCK_AMOUNT_BUFFER.
  unlock_amount_buffer : Number
  unlock_amount_buffer = literal 998 3

  unfoldable pub compute_actual_in_amount :
      (pool_token_amount pool_lp_supply pool_vault_a_lp pool_vault_b_lp vault_a_lp_supply
        vault_b_lp_supply vault_a_withdrawable vault_b_withdrawable : ℤ)
      → Result (ℤ × ℤ)
  compute_actual_in_amount amount supply lp_a lp_b supply_a supply_b withdrawable_a withdrawable_b =
      do
        minted_a ← get_share_by_amount pk vault num amount supply lp_a true
        minted_b ← get_share_by_amount pk vault num amount supply lp_b true
        a ← get_amount_by_share pk vault num minted_a withdrawable_a supply_a true
        b ← get_amount_by_share pk vault num minted_b withdrawable_b supply_b true
        ok (a, b)

  -- The two branches of a balanced deposit, in which one amount is given, that of token A if `is_a`.
  unfoldable pub balanced_deposit :
      AmmImpl pk vault num
      → (is_a : Bool) (in_amount vault_a_withdrawable vault_b_withdrawable : ℤ)
      → (slippage : Number) → Result (DepositQuote pk vault num)
  unfolding unlock_amount_buffer
  balanced_deposit amm is_a in_amount withdrawable_a withdrawable_b slippage = do
    let info = amm.accounts_info
    let in_total = if is_a then amm.pool_info.token_a_amount else amm.pool_info.token_b_amount
    let other_total = if is_a then amm.pool_info.token_b_amount else amm.pool_info.token_a_amount
    pool_token ← get_share_by_amount pk vault num in_amount in_total info.pool_lp_supply false
    buffered ← get_min_amount_with_slippage num pool_token unlock_amount_buffer
    min ← get_min_amount_with_slippage num buffered slippage
    if is_stable_pool pk vault num amm
        then (do
          other ← tdiv (in_amount *ℤ other_total) in_total
          ok (record {
            pool_token_amount_out = buffered;
            min_pool_token_amount_out = min;
            token_a_in_amount = if is_a then in_amount else other;
            token_b_in_amount = if is_a then other else in_amount;
          }))
        else (do
          (actual_a, actual_b) ←
              compute_actual_in_amount pool_token info.pool_lp_supply info.pool_vault_a_lp
                info.pool_vault_b_lp info.vault_a_lp_supply info.vault_b_lp_supply withdrawable_a
                withdrawable_b
          max_a ← get_max_amount_with_slippage num actual_a slippage
          max_b ← get_max_amount_with_slippage num actual_b slippage
          ok (record {
            pool_token_amount_out = buffered;
            min_pool_token_amount_out = min;
            token_a_in_amount = max_a;
            token_b_in_amount = max_b;
          }))

  unfoldable pub imbalanced_deposit :
      AmmImpl pk vault num
      → (token_a_in_amount token_b_in_amount vault_a_withdrawable vault_b_withdrawable : ℤ)
      → (slippage : Number) → Result (AmmImpl pk vault num × DepositQuote pk vault num)
  imbalanced_deposit amm a_in b_in withdrawable_a withdrawable_b slippage = do
    let info = amm.accounts_info
    let a = amm.pool_info.token_a_amount
    let b = amm.pool_info.token_b_amount
    actual_a ←
        compute_actual_deposit_amount a_in a info.pool_vault_a_lp info.vault_a_lp_supply
          withdrawable_a
    actual_b ←
        compute_actual_deposit_amount b_in b info.pool_vault_b_lp info.vault_b_lp_supply
          withdrawable_b
    (curve, pool_token) ←
        compute_imbalance_deposit pk amm.swap_curve actual_a actual_b a b info.pool_lp_supply
          amm.pool_state.fees
    min ← get_min_amount_with_slippage num pool_token slippage
    ok (
      with_curve pk vault num amm curve,
      record {
        pool_token_amount_out = pool_token;
        min_pool_token_amount_out = min;
        token_a_in_amount = a_in;
        token_b_in_amount = b_in;
      },
    )

  -- A deposit into a pool without liquidity.
  unfoldable pub first_deposit :
      AmmImpl pk vault num
      → (token_a_in_amount token_b_in_amount : ℤ)
      → Result (AmmImpl pk vault num × DepositQuote pk vault num)
  first_deposit amm a_in b_in = do
    (curve, d) ← compute_d pk amm.swap_curve a_in b_in
    ok (
      with_curve pk vault num amm curve,
      record {
        pool_token_amount_out = d;
        min_pool_token_amount_out = d;
        token_a_in_amount = a_in;
        token_b_in_amount = b_in;
      },
    )

  unfoldable pub get_deposit_quote :
      AmmImpl pk vault num
      → (token_a_in_amount token_b_in_amount : ℤ) (balance : Bool) (slippage : Number)
      → Result (AmmImpl pk vault num × DepositQuote pk vault num)
  unfolding first_deposit
  get_deposit_quote amm a_in b_in balance slippage = do
    let info = amm.accounts_info
    invariant
        (not (
          not (is_stable_pool pk vault num amm)
          && not (is_zero a_in)
          && not (is_zero b_in)
          && not (is_zero info.pool_lp_supply)))
        only_balanced_deposit
    invariant (not (not (is_zero a_in) && not (is_zero b_in) && balance)) balanced_deposit_two_sided
    if is_zero info.pool_lp_supply then first_deposit amm a_in b_in else (do
      time ← to_number info.current_time
      let withdrawable_a = calculate_withdrawable_amount time amm.vault_a
      let withdrawable_b = calculate_withdrawable_amount time amm.vault_b
      if is_zero a_in && balance
          then balanced_deposit amm false b_in withdrawable_a withdrawable_b slippage
            >>= (λ q. ok (amm, q))
          else if is_zero b_in && balance
          then balanced_deposit amm true a_in withdrawable_a withdrawable_b slippage
            >>= (λ q. ok (amm, q))
          else imbalanced_deposit amm a_in b_in withdrawable_a withdrawable_b slippage)

  unfoldable pub balanced_withdraw :
      AmmImpl pk vault num
      → (withdraw_token_amount vault_a_withdrawable vault_b_withdrawable : ℤ) → (slippage : Number)
      → Result (WithdrawQuote pk vault num)
  balanced_withdraw amm amount withdrawable_a withdrawable_b slippage = do
    let info = amm.accounts_info
    burn_a ← get_share_by_amount pk vault num amount info.pool_lp_supply info.pool_vault_a_lp false
    burn_b ← get_share_by_amount pk vault num amount info.pool_lp_supply info.pool_vault_b_lp false
    out_a ← get_amount_by_share pk vault num burn_a withdrawable_a info.vault_a_lp_supply false
    out_b ← get_amount_by_share pk vault num burn_b withdrawable_b info.vault_b_lp_supply false
    min_a ← get_min_amount_with_slippage num out_a slippage
    min_b ← get_min_amount_with_slippage num out_b slippage
    ok (record {
      pool_token_amount_in = amount;
      min_token_a_out_amount = min_a;
      min_token_b_out_amount = min_b;
      token_a_out_amount = out_a;
      token_b_out_amount = out_b;
    })

  unfoldable pub withdraw_one :
      AmmImpl pk vault num
      → (withdraw_token_amount vault_a_withdrawable vault_b_withdrawable : ℤ)
      → (slippage : Number) (token_mint : PublicKey)
      → Result (AmmImpl pk vault num × WithdrawQuote pk vault num)
  withdraw_one amm amount withdrawable_a withdrawable_b slippage token_mint = do
    let info = amm.accounts_info
    let is_a = token_mint == amm.token_a_mint_address
    let is_b = token_mint == amm.token_b_mint_address
    invariant (is_a || is_b) invalid_mint
    let from_a = token_mint == amm.pool_state.token_a_mint
    (curve, out) ←
        compute_withdraw_one pk amm.swap_curve amount info.pool_lp_supply
          amm.pool_info.token_a_amount amm.pool_info.token_b_amount amm.pool_state.fees
          (if from_a then b_to_a else a_to_b)
    let supply = if from_a then info.vault_a_lp_supply else info.vault_b_lp_supply
    let total = if from_a then withdrawable_a else withdrawable_b
    burn ← tdiv (out *ℤ supply) total
    real ← tdiv (burn *ℤ total) supply
    min ← get_min_amount_with_slippage num real slippage
    ok (
      with_curve pk vault num amm curve,
      record {
        pool_token_amount_in = amount;
        min_token_a_out_amount = if is_a then min else pos 0;
        min_token_b_out_amount = if is_b then min else pos 0;
        token_a_out_amount = if is_a then real else pos 0;
        token_b_out_amount = if is_b then real else pos 0;
      },
    )

  -- Without a mint, both tokens are withdrawn.
  unfoldable pub get_withdraw_quote :
      AmmImpl pk vault num
      → (withdraw_token_amount : ℤ) (slippage : Number) (token_mint : Option PublicKey)
      → Result (AmmImpl pk vault num × WithdrawQuote pk vault num)
  unfolding balanced_withdraw withdraw_one
  get_withdraw_quote amm amount slippage none = do
    time ← to_number amm.accounts_info.current_time
    q ←
        balanced_withdraw amm amount (calculate_withdrawable_amount time amm.vault_a)
          (calculate_withdrawable_amount time amm.vault_b) slippage
    ok (amm, q)
  get_withdraw_quote amm amount slippage (some token_mint) = do
    time ← to_number amm.accounts_info.current_time
    withdraw_one amm amount (calculate_withdrawable_amount time amm.vault_a)
        (calculate_withdrawable_amount time amm.vault_b) slippage token_mint

  -- The unclaimed fee of a locked position, in pool tokens and in the two tokens: no more than the
  -- escrow's vault holds.
  pub record UnclaimedFee : Type 0 where
    pub lp : ℤ
    pub token_a : ℤ
    pub token_b : ℤ

  unfoldable pub get_unclaimed_fee :
      AmmImpl pk vault num
      → (total_locked_amount lp_per_token unclaimed_fee_pending escrow_vault_amount : ℤ)
      → Result UnclaimedFee
  get_unclaimed_fee amm total_locked_amount lp_per_token unclaimed_fee_pending escrow_vault_amount =
      do
        fee ←
            calculate_unclaimed_lock_escrow_fee total_locked_amount lp_per_token
              unclaimed_fee_pending amm.pool_info.virtual_price_raw
        let cap = if ltb_ℤ escrow_vault_amount fee then escrow_vault_amount else fee
        (_, q) ← get_withdraw_quote amm cap (literal 0 0) none
        ok (record { lp = cap; token_a = q.token_a_out_amount; token_b = q.token_b_out_amount })
