-- ===== src/Transactions/Locks.antt =====
-- ts-client/src/amm/index.ts: `getUserLockEscrow`, `lockLiquidity` and `claimLockFee` of the class `AmmImpl`.
pub mod Accepted
use mathlib.Core.Option.{none}
use mercurial_dynamic_amm_sd.Prelude.{
  ℤ, Bool, true, false, List, [], ◌∷◌, ◌++◌, Option, some, Result, ok, ◌>>=◌, ◌||◌, if◌then◌else◌,
  ◌==◌,
}
use mercurial_dynamic_amm_sd.Types.{PublicKey, LockEscrowAccount}
use mercurial_dynamic_amm_sd.Keys.{derive_lock_escrow_pda}
use mercurial_dynamic_amm_sd.SwapCurve.{Packages}
use mercurial_dynamic_amm_sd.Utils.{Numbers}
use mercurial_dynamic_amm_sd.Vault.{VaultSdk}
use mercurial_dynamic_amm_sd.Pool.{AmmImpl}
use mercurial_dynamic_amm_sd.Pool.Liquidity.{UnclaimedFee, get_unclaimed_fee}
use mercurial_dynamic_amm_sd.Idl
use mercurial_dynamic_amm_sd.Idl.Locks
use mercurial_dynamic_amm_sd.Transactions.{
  Chain, Instruction, Transaction, number, push, get_or_create_ata_instruction,
  unwrap_sol_instruction, payer_or,
}

-- `LockEscrow` of types/index.ts.
pub record LockEscrow : Type 0 where
  pub address : PublicKey
  pub amount : ℤ
  pub claimed_token_a : ℤ
  pub claimed_token_b : ℤ
  pub unclaimed_lp : ℤ
  pub unclaimed_token_a : ℤ
  pub unclaimed_token_b : ℤ

module _ (pk : Packages) (vault : VaultSdk) (num : Numbers) (chain : Chain) where
  open vault use {token_vault, lp_mint}
  open chain use {
    native_mint, token_program_id, system_program_id, find_program_address, fetch_lock_escrow,
  }

  unfoldable pub lock_escrow_pk : AmmImpl pk vault num → (owner : PublicKey) → PublicKey
  lock_escrow_pk amm owner =
      (derive_lock_escrow_pda find_program_address amm.address owner amm.program_id).0

  lock_escrow_of :
      AmmImpl pk vault num
      → (token_balance : PublicKey → Result ℤ) (owner : PublicKey) → Option LockEscrowAccount
      → Result (Option LockEscrow)
  lock_escrow_of amm token_balance owner none = ok none
  lock_escrow_of amm token_balance owner (some account) = do
    escrow_vault_amount ← token_balance account.escrow_vault
    fee ←
        get_unclaimed_fee pk vault num amm account.total_locked_amount account.lp_per_token
          account.unclaimed_fee_pending escrow_vault_amount
    ok (
        some (record {
          address = lock_escrow_pk amm owner;
          amount = account.total_locked_amount;
          claimed_token_a = account.a_fee;
          claimed_token_b = account.b_fee;
          unclaimed_lp = fee.lp;
          unclaimed_token_a = fee.token_a;
          unclaimed_token_b = fee.token_b;
        }))

  -- `token_balance` is `getTokenAccountBalance(account).value.amount`.
  unfoldable pub get_user_lock_escrow :
      AmmImpl pk vault num
      → (token_balance : PublicKey → Result ℤ) (owner : PublicKey) → Result (Option LockEscrow)
  unfolding lock_escrow_of
  get_user_lock_escrow amm token_balance owner =
      lock_escrow_of amm token_balance owner (fetch_lock_escrow (lock_escrow_pk amm owner))

  -- The instruction that makes the escrow, if it is not there.
  unfoldable pub create_escrow :
      AmmImpl pk vault num
      → (owner payer : PublicKey) → Option LockEscrowAccount
      → Option Instruction
  create_escrow amm owner payer (some account) = none
  create_escrow amm owner payer none = some (
      Instruction.method amm.program_id Idl.Locks.create_lock_escrow []
        (("pool", amm.address)
          ∷ ("lockEscrow", lock_escrow_pk amm owner)
          ∷ ("owner", owner)
          ∷ ("lpMint", amm.pool_state.lp_mint)
          ∷ ("payer", payer)
          ∷ ("systemProgram", system_program_id)
          ∷ [])
        [])

  unfoldable pub lock_liquidity :
      AmmImpl pk vault num
      → (owner : PublicKey) (amount : ℤ) (fee_payer : Option PublicKey) → Transaction
  lock_liquidity amm owner amount fee_payer =
      let payer = payer_or chain fee_payer owner in
      let lock_escrow = lock_escrow_pk amm owner in
      let create = create_escrow amm owner payer (fetch_lock_escrow lock_escrow) in
      let (user_ata, create_user_ata) =
        get_or_create_ata_instruction chain amm.pool_state.lp_mint payer (some payer) in
      let (escrow_ata, create_escrow_ata) =
        get_or_create_ata_instruction chain amm.pool_state.lp_mint lock_escrow (some payer) in
      record {
        fee_payer = payer;
        instructions =
            push (push (push [] create) create_user_ata) create_escrow_ata
            ++ (Instruction.method amm.program_id Idl.Locks.lock (number amount ∷ [])
                  (("pool", amm.address)
                    ∷ ("lockEscrow", lock_escrow)
                    ∷ ("owner", payer)
                    ∷ ("lpMint", amm.pool_state.lp_mint)
                    ∷ ("sourceTokens", user_ata)
                    ∷ ("escrowVault", escrow_ata)
                    ∷ ("tokenProgram", token_program_id)
                    ∷ ("aVault", amm.pool_state.a_vault)
                    ∷ ("bVault", amm.pool_state.b_vault)
                    ∷ ("aVaultLp", amm.pool_state.a_vault_lp)
                    ∷ ("bVaultLp", amm.pool_state.b_vault_lp)
                    ∷ ("aVaultLpMint", lp_mint amm.vault_a)
                    ∷ ("bVaultLpMint", lp_mint amm.vault_b)
                    ∷ [])
                  []
                ∷ []);
      }

  -- The token accounts of the owner and of the escrow, with the instructions that make them.
  abbrev pub claim_ata : (mint owner : PublicKey) → PublicKey × Option Instruction
  claim_ata mint owner = get_or_create_ata_instruction chain mint owner none

  unfoldable pub claim_pre_instructions :
      AmmImpl pk vault num → (owner : PublicKey) → List Instruction
  claim_pre_instructions amm owner =
      let pool = amm.pool_state in
      push
        (push
          (push (push [] (claim_ata pool.lp_mint owner).1)
            (claim_ata pool.lp_mint (lock_escrow_pk amm owner)).1)
          (claim_ata pool.token_a_mint owner).1)
        (claim_ata pool.token_b_mint owner).1

  unfoldable pub claim_method :
      AmmImpl pk vault num → (owner : PublicKey) (max_amount : ℤ) → Instruction
  claim_method amm owner max_amount =
      let pool = amm.pool_state in
      let lock_escrow = lock_escrow_pk amm owner in
      Instruction.method amm.program_id Idl.Locks.claim_fee (number max_amount ∷ [])
        (("pool", amm.address)
          ∷ ("lockEscrow", lock_escrow)
          ∷ ("owner", owner)
          ∷ ("lpMint", pool.lp_mint)
          ∷ ("sourceTokens", (claim_ata pool.lp_mint owner).0)
          ∷ ("escrowVault", (claim_ata pool.lp_mint lock_escrow).0)
          ∷ ("tokenProgram", token_program_id)
          ∷ ("aVault", pool.a_vault)
          ∷ ("bVault", pool.b_vault)
          ∷ ("aVaultLp", pool.a_vault_lp)
          ∷ ("bVaultLp", pool.b_vault_lp)
          ∷ ("aVaultLpMint", lp_mint amm.vault_a)
          ∷ ("bVaultLpMint", lp_mint amm.vault_b)
          ∷ ("vaultProgram", amm.vault_program_id)
          ∷ ("aTokenVault", token_vault amm.vault_a)
          ∷ ("bTokenVault", token_vault amm.vault_b)
          ∷ ("userAToken", (claim_ata pool.token_a_mint owner).0)
          ∷ ("userBToken", (claim_ata pool.token_b_mint owner).0)
          ∷ [])
        []

  unfoldable pub claim_post_instructions :
      AmmImpl pk vault num → (owner : PublicKey) → List Instruction
  claim_post_instructions amm owner =
      if amm.pool_state.token_a_mint == native_mint || amm.pool_state.token_b_mint == native_mint
      then push [] (unwrap_sol_instruction chain owner)
      else []

  unfoldable pub claim_lock_fee :
      AmmImpl pk vault num → (owner : PublicKey) (max_amount : ℤ) → Transaction
  claim_lock_fee amm owner max_amount = record {
    fee_payer = owner;
    instructions =
        claim_pre_instructions amm owner
        ++ (claim_method amm owner max_amount ∷ claim_post_instructions amm owner);
  }
