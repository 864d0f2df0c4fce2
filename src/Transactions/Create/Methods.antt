-- ===== src/Transactions/Create/Methods.antt =====
-- ts-client/src/amm/index.ts: `createPermissionlessConstantProductPoolWithConfig2`,
-- `createPermissionlessConstantProductPoolWithConfig` and `createPermissionlessPool`.
use mathlib.Core.Option.{none}
use mercurial_dynamic_amm_sd.Prelude.{
  ℕ, ℤ, pos, ◌+ℤ◌, Bool, false, List, [], ◌∷◌, ◌++◌, Option, some, Result, ok, ◌>>=◌,
}
use mercurial_dynamic_amm_sd.Types.{PublicKey}
use mercurial_dynamic_amm_sd.Constants.{fee_owner}
use mercurial_dynamic_amm_sd.Keys.{
  TokenInfo, generate_curve_type, derive_pool_address, derive_pool_address_with_config,
}
use mercurial_dynamic_amm_sd.Idl
use mercurial_dynamic_amm_sd.Idl.Pools
use mercurial_dynamic_amm_sd.Transactions.{
  Chain, Instruction, set_compute_unit_limit, Transaction, number, optional, curve,
}
use mercurial_dynamic_amm_sd.Transactions.Create.{
  NewPool, SwapLiquidity, new_pool, pre_instructions, new_pool_accounts, pool_transactions,
}

-- `opt?.swapLiquidity?.inAmount ?? new BN(0)`.
unfoldable pub swapped_amount : Option SwapLiquidity → ℤ
swapped_amount none = pos 0
swapped_amount (some swap) = swap.in_amount

module _ (chain : Chain) (program_id : PublicKey) where
  open chain use {find_program_address}

  new_pool_with_config : (payer token_a_mint token_b_mint config : PublicKey) → NewPool
  new_pool_with_config payer token_a_mint token_b_mint config =
      new_pool chain program_id payer token_a_mint token_b_mint (
        derive_pool_address_with_config find_program_address token_a_mint token_b_mint config
          program_id)

  unfoldable pub create_pool_with_config_2 :
      (payer token_a_mint token_b_mint : PublicKey) (token_a_amount token_b_amount : ℤ)
      (config : PublicKey) (lock_liquidity : Bool) (swap_liquidity : Option SwapLiquidity)
      (activation_point : Option ℤ)
      → List Transaction
  unfolding new_pool_with_config
  create_pool_with_config_2 payer token_a_mint token_b_mint token_a_amount token_b_amount config
        lock_liquidity swap_liquidity activation_point =
      let pool = new_pool_with_config payer token_a_mint token_b_mint config in
      pool_transactions chain program_id payer pool
        (pre_instructions chain program_id payer pool false false token_a_amount token_b_amount)
        (Instruction.method program_id
          Idl.Pools.initialize_permissionless_constant_product_pool_with_config_2
          (number token_a_amount ∷ number token_b_amount ∷ optional activation_point ∷ [])
          (("config", config) ∷ new_pool_accounts chain program_id payer pool) [])
        lock_liquidity swap_liquidity

  unfoldable pub create_pool_with_config :
      (payer token_a_mint token_b_mint : PublicKey) (token_a_amount token_b_amount : ℤ)
      (config : PublicKey) (lock_liquidity : Bool) (swap_liquidity : Option SwapLiquidity)
      (skip_a_ata skip_b_ata : Bool)
      → List Transaction
  unfolding new_pool_with_config
  create_pool_with_config payer token_a_mint token_b_mint token_a_amount token_b_amount config
        lock_liquidity swap_liquidity skip_a_ata skip_b_ata =
      let pool = new_pool_with_config payer token_a_mint token_b_mint config in
      pool_transactions chain program_id payer pool
        (pre_instructions chain program_id payer pool skip_a_ata skip_b_ata token_a_amount
          (token_b_amount +ℤ swapped_amount swap_liquidity))
        (Instruction.method program_id
          Idl.Pools.initialize_permissionless_constant_product_pool_with_config
          (number token_a_amount ∷ number token_b_amount ∷ [])
          (("config", config) ∷ new_pool_accounts chain program_id payer pool) [])
        lock_liquidity swap_liquidity

  -- One transaction; of the two token accounts only that of token A may be skipped.
  unfoldable pub create_permissionless_pool :
      (payer : PublicKey) (token_info_a token_info_b : TokenInfo)
      (token_a_amount token_b_amount : ℤ) (is_stable : Bool) (trade_fee_bps : ℕ) (skip_ata : Bool)
      → Result Transaction
  create_permissionless_pool payer token_info_a token_info_b token_a_amount token_b_amount is_stable
        trade_fee_bps skip_ata =
      do
        curve_type ← generate_curve_type token_info_a token_info_b is_stable
        address ←
            derive_pool_address find_program_address token_info_a token_info_b is_stable
              trade_fee_bps program_id
        let pool = new_pool chain program_id payer token_info_a.address token_info_b.address address
        ok (record {
          fee_payer = payer;
          instructions =
              (set_compute_unit_limit 600_000
                ∷ pre_instructions chain program_id payer pool skip_ata false token_a_amount
                    token_b_amount)
              ++ (Instruction.method program_id
                    Idl.Pools.initialize_permissionless_pool_with_fee_tier
                    (curve curve_type
                      ∷ number (pos trade_fee_bps)
                      ∷ number token_a_amount
                      ∷ number token_b_amount
                      ∷ [])
                    (("feeOwner", fee_owner) ∷ new_pool_accounts chain program_id payer pool) []
                  ∷ []);
        })
