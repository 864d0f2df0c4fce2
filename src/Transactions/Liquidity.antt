-- ===== src/Transactions/Liquidity.antt =====
-- ts-client/src/amm/index.ts: the methods `deposit` and `withdraw` of the class `AmmImpl`, which build
-- transactions.
pub mod Accepted
pub mod Runs
pub mod Minimum
use mercurial_dynamic_amm_sd.Prelude.{
  ℤ, pos, is_zero, Bool, true, false, List, [], ◌∷◌, ◌++◌, ◌||◌, ◌&&◌, if◌then◌else◌, ◌==◌,
}
use mercurial_dynamic_amm_sd.Types.{PublicKey}
use mercurial_dynamic_amm_sd.SwapCurve.{Packages, get_remaining_accounts}
use mercurial_dynamic_amm_sd.Utils.{Numbers}
use mercurial_dynamic_amm_sd.Vault.{VaultSdk}
use mercurial_dynamic_amm_sd.Pool.{AmmImpl, is_stable_pool}
use mercurial_dynamic_amm_sd.Idl
use mercurial_dynamic_amm_sd.Idl.Types.{IdlInstruction}
use mercurial_dynamic_amm_sd.Idl.Liquidity
use mercurial_dynamic_amm_sd.Transactions.{
  Chain, Instruction, Transaction, Arg, number, push, get_or_create_ata_instruction,
  wrap_sol_instruction, unwrap_sol_instruction,
}
use mercurial_dynamic_amm_sd.Transactions.Swap.{read_only, vault_accounts}
use mathlib.Core.Option.{none}

module _ (pk : Packages) (vault : VaultSdk) (num : Numbers) (chain : Chain) where
  open chain use {native_mint}

  -- The method, with its arguments, that a deposit calls.
  unfoldable pub deposit_method :
      AmmImpl pk vault num
      → (token_a_in_amount token_b_in_amount pool_token_amount : ℤ) → IdlInstruction × List Arg
  deposit_method amm a_in b_in pool_token_amount =
      if is_zero amm.lp_supply
      then (Idl.Liquidity.bootstrap_liquidity, number a_in ∷ number b_in ∷ [])
      else if is_stable_pool pk vault num amm
      then (
        Idl.Liquidity.add_imbalance_liquidity,
        number pool_token_amount ∷ number a_in ∷ number b_in ∷ [],
      )
      else (
        Idl.Liquidity.add_balance_liquidity,
        number pool_token_amount ∷ number a_in ∷ number b_in ∷ [],
      )

  -- Wrapped SOL is unwrapped at the end.
  unfoldable pub unwrap_if_native : AmmImpl pk vault num → (owner : PublicKey) → List Instruction
  unwrap_if_native amm owner =
      if amm.token_a_mint_address == native_mint || amm.token_b_mint_address == native_mint
      then push [] (unwrap_sol_instruction chain owner)
      else []

  unfoldable pub deposit :
      AmmImpl pk vault num
      → (owner : PublicKey) (token_a_in_amount token_b_in_amount pool_token_amount : ℤ)
      → Transaction
  deposit amm owner a_in b_in pool_token_amount =
      let pool = amm.pool_state in
      let (user_a_token, create_a) =
        get_or_create_ata_instruction chain pool.token_a_mint owner none in
      let (user_b_token, create_b) =
        get_or_create_ata_instruction chain pool.token_b_mint owner none in
      let (user_pool_lp, create_lp) = get_or_create_ata_instruction chain pool.lp_mint owner none in
      let wrap_a =
        if native_mint == amm.token_a_mint_address
        then wrap_sol_instruction chain owner user_a_token a_in
        else [] in
      let wrap_b =
        if native_mint == amm.token_b_mint_address
        then wrap_sol_instruction chain owner user_b_token b_in
        else [] in
      let (program_method, args) = deposit_method amm a_in b_in pool_token_amount in
      record {
        fee_payer = owner;
        instructions =
            push (push (push [] create_a) create_b) create_lp
            ++ (wrap_a
                ++ (wrap_b
                    ++ (Instruction.method amm.program_id program_method args
                          (("user", owner)
                            ∷ ("userAToken", user_a_token)
                            ∷ ("userBToken", user_b_token)
                            ∷ ("lpMint", pool.lp_mint)
                            ∷ ("userPoolLp", user_pool_lp)
                            ∷ vault_accounts pk vault num chain amm)
                          (read_only (get_remaining_accounts pk amm.swap_curve))
                        ∷ unwrap_if_native amm owner)));
      }

  -- The call that a withdrawal makes. One side alone is withdrawn from a stable pool when the amount
  -- of the other is zero; no minimum is then passed on.
  unfoldable pub withdraw_method :
      AmmImpl pk vault num
      → (owner user_a_token user_b_token user_pool_lp : PublicKey)
        (lp_token_amount token_a_out_amount token_b_out_amount : ℤ)
      → Instruction
  withdraw_method amm owner user_a_token user_b_token user_pool_lp lp_token_amount a_out b_out =
      let remaining = read_only (get_remaining_accounts pk amm.swap_curve) in
      if is_stable_pool pk vault num amm && (is_zero a_out || is_zero b_out)
      then Instruction.method amm.program_id Idl.Liquidity.remove_liquidity_single_side
          (number lp_token_amount ∷ number (pos 0) ∷ [])
          (("lpMint", amm.pool_state.lp_mint)
            ∷ ("userDestinationToken", if is_zero b_out then user_a_token else user_b_token)
            ∷ ("userPoolLp", user_pool_lp)
            ∷ ("user", owner)
            ∷ vault_accounts pk vault num chain amm)
          remaining
      else Instruction.method amm.program_id Idl.Liquidity.remove_balance_liquidity
          (number lp_token_amount ∷ number a_out ∷ number b_out ∷ [])
          (("lpMint", amm.pool_state.lp_mint)
            ∷ ("userAToken", user_a_token)
            ∷ ("userBToken", user_b_token)
            ∷ ("user", owner)
            ∷ ("userPoolLp", user_pool_lp)
            ∷ vault_accounts pk vault num chain amm)
          remaining

  unfoldable pub withdraw :
      AmmImpl pk vault num
      → (owner : PublicKey) (lp_token_amount token_a_out_amount token_b_out_amount : ℤ)
      → Transaction
  withdraw amm owner lp_token_amount a_out b_out =
      let pool = amm.pool_state in
      let (user_a_token, create_a) =
        get_or_create_ata_instruction chain pool.token_a_mint owner none in
      let (user_b_token, create_b) =
        get_or_create_ata_instruction chain pool.token_b_mint owner none in
      let (user_pool_lp, create_lp) = get_or_create_ata_instruction chain pool.lp_mint owner none in
      record {
        fee_payer = owner;
        instructions =
            push (push (push [] create_a) create_b) create_lp
            ++ (withdraw_method amm owner user_a_token user_b_token user_pool_lp lp_token_amount
                  a_out b_out
                ∷ unwrap_if_native amm owner);
      }
