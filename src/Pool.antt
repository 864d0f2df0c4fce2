-- ===== src/Pool.antt =====
-- ts-client/src/amm/index.ts: the class `AmmImpl`, as far as it computes quotes from the state that it
-- has fetched. A method whose curve may refresh its cached price returns the new object beside its
-- result.
pub mod Liquidity
pub mod Withdraw
pub mod Swap
pub mod Deposit
pub mod Depeg
pub mod Quotes
pub mod Accounts
pub mod State
use mathlib.Core.Option.{none}
use mercurial_dynamic_amm_sd.Prelude.{
  ℕ, ℤ, pos, ◌+ℤ◌, ◌-ℤ◌, ◌*ℤ◌, ◌==ℤ◌, ltb_ℤ, is_zero, tdiv, to_number, Bool, true, false, not, ◌||◌,
  ◌&&◌, List, Option, some, Result, ok, ◌>>=◌, ◌>>◌, invariant, invalid_mint, only_balanced_deposit,
  balanced_deposit_two_sided, if◌then◌else◌, ◌==◌,
}
use mercurial_dynamic_amm_sd.Types.{PublicKey, PoolState, CurveType, PoolFees}
use mercurial_dynamic_amm_sd.Curve.{DecimalJs, TradeDirection, a_to_b, b_to_a}
use mercurial_dynamic_amm_sd.StableSwap.{StableSwap, is_none}
use mercurial_dynamic_amm_sd.SwapCurve.{
  Packages, SwapCurve, compute_d, compute_in_amount, compute_imbalance_deposit,
  compute_withdraw_one,
}
use mercurial_dynamic_amm_sd.Utils.{
  Numbers, calculate_trading_fee, calculate_protocol_trading_fee, calculate_max_swap_out_amount,
  calculate_unclaimed_lock_escrow_fee, compute_actual_deposit_amount, get_min_amount_with_slippage,
  get_max_amount_with_slippage,
}
use mercurial_dynamic_amm_sd.Vault.{VaultSdk}
use mercurial_dynamic_amm_sd.Quote.{PoolInformation, SwapQuoteParam, calculate_swap_quote}

module _ (pk : Packages) (vault : VaultSdk) (num : Numbers) where
  open pk use {js, acc, div_round}
  open acc use {Buffer}
  open js use {Decimal}
  open num use {Number, literal}
  open vault use {VaultState, calculate_withdrawable_amount}

  pub record AccountsInfo : Type 0 where
    pub vault_a_reserve : ℤ
    pub vault_b_reserve : ℤ
    pub vault_a_lp_supply : ℤ
    pub vault_b_lp_supply : ℤ
    pub pool_vault_a_lp : ℤ
    pub pool_vault_b_lp : ℤ
    pub pool_lp_supply : ℤ
    pub current_time : ℤ
    pub current_slot : ℤ

  -- A `Mint` is its address and its decimals. The states of the two vaults stand beside their
  -- addresses, and the supply of pool tokens beside the pool's state.
  pub record AmmImpl : Type 0 where
    pub address : PublicKey
    pub program_id : PublicKey
    pub vault_program_id : PublicKey
    pub token_a_mint_address : PublicKey
    pub token_b_mint_address : PublicKey
    pub token_a_mint_decimals : ℕ
    pub token_b_mint_decimals : ℕ
    pub pool_state : PoolState
    pub lp_supply : ℤ
    pub pool_info : PoolInformation pk vault
    pub vault_a_pda : PublicKey
    pub vault_b_pda : PublicKey
    pub vault_a : VaultState
    pub vault_b : VaultState
    pub accounts_info : AccountsInfo
    pub swap_curve : SwapCurve pk
    -- whether the cached price of a stable curve is the object in the pool's state, as it is unless
    -- `updateState` has failed in between
    pub shares_depeg : Bool
    pub depeg_accounts : List (PublicKey × Buffer)

  -- The curve object of a stable pool and the pool's state share one object, the cached price of the
  -- base pool.
  unfoldable pub store_depeg : SwapCurve pk → CurveType → CurveType
  store_depeg SwapCurve.constant_product curve_type = curve_type
  store_depeg (SwapCurve.stable s) CurveType.constant_product = CurveType.constant_product
  store_depeg (SwapCurve.stable s) (CurveType.stable amp token_multiplier depeg updated) =
      CurveType.stable amp token_multiplier s.depeg updated

  unfoldable pub share_depeg : SwapCurve pk → SwapCurve pk → SwapCurve pk
  share_depeg SwapCurve.constant_product to = to
  share_depeg (SwapCurve.stable s) SwapCurve.constant_product = SwapCurve.constant_product
  share_depeg (SwapCurve.stable s) (SwapCurve.stable to) =
      SwapCurve.stable (record to { depeg = s.depeg })

  -- The object once another curve that shares the cached price has changed it.
  unfoldable pub with_shared : AmmImpl → SwapCurve pk → AmmImpl
  unfolding store_depeg share_depeg
  with_shared amm other = record amm {
    swap_curve = if amm.shares_depeg then share_depeg other amm.swap_curve else amm.swap_curve;
    pool_state = record amm.pool_state { curve_type = store_depeg other amm.pool_state.curve_type };
  }

  -- The object once a method has changed its curve.
  unfoldable pub with_curve : AmmImpl → SwapCurve pk → AmmImpl
  unfolding store_depeg
  with_curve amm curve = record amm {
    swap_curve = curve;
    pool_state =
        if amm.shares_depeg
        then record amm.pool_state { curve_type = store_depeg curve amm.pool_state.curve_type }
        else amm.pool_state;
  }

  pub record SwapQuote : Type 0 where
    pub swap_in_amount : ℤ
    pub swap_out_amount : ℤ
    pub min_swap_out_amount : ℤ
    pub fee : ℤ
    pub price_impact : Decimal

  pub record DepositQuote : Type 0 where
    pub pool_token_amount_out : ℤ
    pub min_pool_token_amount_out : ℤ
    pub token_a_in_amount : ℤ
    pub token_b_in_amount : ℤ

  pub record WithdrawQuote : Type 0 where
    pub pool_token_amount_in : ℤ
    pub min_token_a_out_amount : ℤ
    pub min_token_b_out_amount : ℤ
    pub token_a_out_amount : ℤ
    pub token_b_out_amount : ℤ

  is_stable : CurveType → Bool
  is_stable (CurveType.stable amp token_multiplier depeg updated) = true
  is_stable CurveType.constant_product = false

  unfoldable pub is_stable_pool : AmmImpl → Bool
  unfolding is_stable
  is_stable_pool amm = is_stable amm.pool_state.curve_type

  curve_is_depeg : SwapCurve pk → Bool
  curve_is_depeg (SwapCurve.stable s) = not (is_none s.depeg.depeg_type)
  curve_is_depeg SwapCurve.constant_product = false

  -- Whether the pool is one of a liquid staking token.
  unfoldable pub is_lst : AmmImpl → Bool
  unfolding curve_is_depeg
  is_lst amm = is_stable_pool amm && curve_is_depeg amm.swap_curve

  unfoldable pub fee_bps : AmmImpl → Result ℤ
  fee_bps amm =
      let fees = amm.pool_state.fees in
      tdiv (fees.trade_fee_numerator *ℤ pos 10000) fees.trade_fee_denominator

  -- `null` for a constant product pool.
  depeg_token_of : CurveType → AmmImpl → Result (Option PublicKey)
  depeg_token_of CurveType.constant_product amm = ok none
  depeg_token_of (CurveType.stable amp token_multiplier depeg updated) amm =
      let info = amm.pool_info in
      let token_a_balance = info.token_a_amount *ℤ token_multiplier.token_a_multiplier in
      let token_b_balance = info.token_b_amount *ℤ token_multiplier.token_b_multiplier in
      let total = token_a_balance +ℤ token_b_balance in
      if is_zero total then ok none else (do
        a ← tdiv (info.token_a_amount *ℤ pos 2) total
        let is_token_a_depeg = ltb_ℤ (pos 95) (a *ℤ pos 100)
        b ← tdiv (info.token_b_amount *ℤ pos 2) total
        let is_token_b_depeg = ltb_ℤ (pos 95) (b *ℤ pos 100)
        ok (
            if is_token_a_depeg
            then some amm.token_a_mint_address
            else if is_token_b_depeg
            then some amm.token_b_mint_address
            else none))

  unfoldable pub depeg_token : AmmImpl → Result (Option PublicKey)
  unfolding depeg_token_of
  depeg_token amm = depeg_token_of amm.pool_state.curve_type amm

  unfoldable pub get_swap_quote :
      AmmImpl
      → (in_token_mint : PublicKey) (in_amount_lamport : ℤ) (slippage : Number)
      → (swap_initiator : Option PublicKey) → Result (AmmImpl × SwapQuote)
  get_swap_quote amm in_token_mint in_amount_lamport slippage swap_initiator = do
    let info = amm.accounts_info
    time ← to_number info.current_time
    slot ← to_number info.current_slot
    (curve, r) ←
        calculate_swap_quote pk vault in_token_mint in_amount_lamport
          (record {
            pool_state = amm.pool_state;
            vault_a = amm.vault_a;
            vault_b = amm.vault_b;
            pool_vault_a_lp = info.pool_vault_a_lp;
            pool_vault_b_lp = info.pool_vault_b_lp;
            vault_a_lp_supply = info.vault_a_lp_supply;
            vault_b_lp_supply = info.vault_b_lp_supply;
            vault_a_reserve = info.vault_a_reserve;
            vault_b_reserve = info.vault_b_reserve;
            current_time = time;
            current_slot = slot;
            depeg_accounts = amm.depeg_accounts;
          })
          swap_initiator
    min ← get_min_amount_with_slippage num r.amount_out slippage
    ok (
      with_shared amm curve,
      record {
        swap_in_amount = in_amount_lamport;
        swap_out_amount = r.amount_out;
        min_swap_out_amount = min;
        fee = r.fee;
        price_impact = r.price_impact;
      },
    )

  unfoldable pub get_max_swap_out_amount : AmmImpl → (token_mint : PublicKey) → Result ℤ
  get_max_swap_out_amount amm token_mint =
      calculate_max_swap_out_amount token_mint amm.pool_state.token_a_mint
        amm.pool_state.token_b_mint amm.pool_info.token_a_amount amm.pool_info.token_b_amount
        amm.accounts_info.vault_a_reserve amm.accounts_info.vault_b_reserve

  unfoldable pub get_max_swap_in_amount : AmmImpl → (token_mint : PublicKey) → Result (AmmImpl × ℤ)
  get_max_swap_in_amount amm token_mint = do
    let pool = amm.pool_state
    let info = amm.pool_info
    invariant (token_mint == pool.token_a_mint || token_mint == pool.token_b_mint) invalid_mint
    let is_a = token_mint == pool.token_a_mint
    let out_token_mint = if is_a then pool.token_b_mint else pool.token_a_mint
    let swap_source = if is_a then info.token_a_amount else info.token_b_amount
    let swap_dest = if is_a then info.token_b_amount else info.token_a_amount
    let direction = if is_a then a_to_b else b_to_a
    limit ← get_max_swap_out_amount amm out_token_mint
    -- one token stays in the pool
    let max_out = if limit ==ℤ swap_dest then limit -ℤ pos 1 else limit
    (curve, max_in) ← compute_in_amount pk amm.swap_curve max_out swap_source swap_dest direction
    admin_fee ← calculate_protocol_trading_fee max_in pool.fees
    trade_fee ← calculate_trading_fee max_in pool.fees
    ok (with_curve amm curve, max_in -ℤ admin_fee -ℤ trade_fee)

  -- `roundUp` rounds to a nearest integer.
  unfoldable pub get_share_by_amount :
      (amount token_amount lp_supply : ℤ) (round_up : Bool) → Result ℤ
  get_share_by_amount amount token_amount lp_supply round_up =
      if is_zero token_amount
      then ok (pos 0)
      else if round_up
      then div_round (amount *ℤ lp_supply) token_amount
      else tdiv (amount *ℤ lp_supply) token_amount

  unfoldable pub get_amount_by_share :
      (amount token_amount lp_supply : ℤ) (round_up : Bool) → Result ℤ
  get_amount_by_share amount token_amount lp_supply round_up =
      if is_zero lp_supply
      then ok (pos 0)
      else if round_up
      then div_round (amount *ℤ token_amount) lp_supply
      else tdiv (amount *ℤ token_amount) lp_supply
