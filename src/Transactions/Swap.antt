-- ===== src/Transactions/Swap.antt =====
-- ts-client/src/amm/index.ts: the method `swap` of the class `AmmImpl`, which builds a transaction.
pub mod Accepted
pub mod Runs
use mathlib.Core.Option.{none}
use Prim.Native.String.{String}
use mercurial_dynamic_amm_sd.Prelude.{
  ℤ, Bool, true, false, List, [], ◌∷◌, ◌++◌, Option, some, map, if◌then◌else◌, ◌==◌,
}
use mercurial_dynamic_amm_sd.Types.{PublicKey}
use mercurial_dynamic_amm_sd.SwapCurve.{Packages, get_remaining_accounts}
use mercurial_dynamic_amm_sd.Utils.{Numbers}
use mercurial_dynamic_amm_sd.Vault.{VaultSdk}
use mercurial_dynamic_amm_sd.Pool.{AmmImpl}
use mercurial_dynamic_amm_sd.Idl
use mercurial_dynamic_amm_sd.Idl.Liquidity
use mercurial_dynamic_amm_sd.Transactions.{
  Chain, Instruction, Transaction, AccountMeta, number, push, get_or_create_ata_instruction,
  wrap_sol_instruction, unwrap_sol_instruction,
}

-- The accounts of `getRemainingAccounts`, each read only and no signer.
abbrev pub read_only : List PublicKey → List AccountMeta
read_only keys =
    map (λ (key : PublicKey). record { is_signer = false; is_writable = false; pubkey = key }) keys

module _ (pk : Packages) (vault : VaultSdk) (num : Numbers) (chain : Chain) where
  open vault use {VaultState, token_vault, lp_mint}
  open chain use {native_mint, token_program_id}

  -- The accounts that `swap`, `deposit` and `withdraw` pass, of the pool and its vaults.
  abbrev pub vault_accounts : AmmImpl pk vault num → List (String × PublicKey)
  vault_accounts amm =
      ("aTokenVault", token_vault amm.vault_a)
      ∷ ("bTokenVault", token_vault amm.vault_b)
      ∷ ("aVault", amm.pool_state.a_vault)
      ∷ ("bVault", amm.pool_state.b_vault)
      ∷ ("aVaultLp", amm.pool_state.a_vault_lp)
      ∷ ("bVaultLp", amm.pool_state.b_vault_lp)
      ∷ ("aVaultLpMint", lp_mint amm.vault_a)
      ∷ ("bVaultLpMint", lp_mint amm.vault_b)
      ∷ ("pool", amm.address)
      ∷ ("tokenProgram", token_program_id)
      ∷ ("vaultProgram", amm.vault_program_id)
      ∷ []

  -- The token account of the referrer: the instruction that makes it, and the account that is passed.
  unfoldable pub referral :
      Option PublicKey → (in_token_mint owner : PublicKey) → Option Instruction × List AccountMeta
  referral none in_token_mint owner = (none, [])
  referral (some referral_owner) in_token_mint owner =
      let (referral_token_account, create) =
        get_or_create_ata_instruction chain in_token_mint referral_owner (some owner) in
      (
        create,
        record { is_signer = false; is_writable = true; pubkey = referral_token_account } ∷ [],
      )

  unfoldable pub swap :
      AmmImpl pk vault num
      → (owner in_token_mint : PublicKey) (in_amount_lamport out_amount_lamport : ℤ)
      → (referral_owner : Option PublicKey) → Transaction
  unfolding referral
  swap amm owner in_token_mint in_amount_lamport out_amount_lamport referral_owner =
      let pool = amm.pool_state in
      let from_a = amm.token_a_mint_address == in_token_mint in
      let source_token = if from_a then pool.token_a_mint else pool.token_b_mint in
      let destination_token = if from_a then pool.token_b_mint else pool.token_a_mint in
      let protocol_token_fee =
        if from_a then pool.protocol_token_a_fee else pool.protocol_token_b_fee in
      let (user_source_token, create_source) =
        get_or_create_ata_instruction chain source_token owner none in
      let (user_destination_token, create_destination) =
        get_or_create_ata_instruction chain destination_token owner none in
      let wrap =
        if source_token == native_mint
        then wrap_sol_instruction chain owner user_source_token in_amount_lamport
        else [] in
      let post_instructions =
        if native_mint == destination_token
        then push [] (unwrap_sol_instruction chain owner)
        else [] in
      let (create_referral, referral_accounts) = referral referral_owner in_token_mint owner in
      let pre_instructions =
        push (push (push [] create_source) create_destination ++ wrap) create_referral in
      record {
        fee_payer = owner;
        instructions =
            pre_instructions
            ++ (Instruction.method amm.program_id Idl.Liquidity.swap
                  (number in_amount_lamport ∷ number out_amount_lamport ∷ [])
                  (("userSourceToken", user_source_token)
                    ∷ ("userDestinationToken", user_destination_token)
                    ∷ ("user", owner)
                    ∷ ("protocolTokenFee", protocol_token_fee)
                    ∷ vault_accounts amm)
                  (read_only (get_remaining_accounts pk amm.swap_curve) ++ referral_accounts)
                ∷ post_instructions);
      }
