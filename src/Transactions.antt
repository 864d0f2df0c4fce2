-- ===== src/Transactions.antt =====
-- ts-client/src/amm/utils.ts and index.ts: instructions and transactions as data, and the helpers that
-- make the instructions of other programs. What the cluster and the packages answer is a parameter.
pub mod Accepts
pub mod Runs
pub mod Swap
pub mod Liquidity
pub mod Locks
pub mod Create
pub mod Configs
pub mod Typed
use mathlib.Core.Option.{none}
use Prim.Native.String.{String}
use mercurial_dynamic_amm_sd.Prelude.{
  ℕ, ℤ, Bool, true, false, List, [], ◌∷◌, ◌++◌, Option, some, map, if◌then◌else◌, ◌==◌,
}
use mercurial_dynamic_amm_sd.Types.{PublicKey, CurveType, LockEscrowAccount}
use mercurial_dynamic_amm_sd.Keys.{Bytes}
use mercurial_dynamic_amm_sd.Idl.Types.{IdlInstruction}

-- What `createConfig` passes of a configuration.
pub record ConfigParameters : Type 0 where
  pub trade_fee_numerator : ℤ
  pub protocol_trade_fee_numerator : ℤ
  pub vault_config_key : PublicKey
  pub activation_duration : ℤ
  pub pool_creator_authority : PublicKey
  pub index : ℕ
  pub activation_type : ℕ

-- An argument of a method of the program.
pub data Arg : Type 0 where
  number : ℤ → Arg
  optional : Option ℤ → Arg
  curve : CurveType → Arg
  config : ConfigParameters → Arg

pub record AccountMeta : Type 0 where
  pub is_signer : Bool
  pub is_writable : Bool
  pub pubkey : PublicKey

pub data Instruction : Type 0 where
  -- `program.methods.…(args).accounts(accounts).remainingAccounts(remaining_accounts)`
  method :
      (program : PublicKey) (idl : IdlInstruction) (args : List Arg)
      (accounts : List (String × PublicKey)) (remaining_accounts : List AccountMeta)
      → Instruction
  create_associated_token_account : (payer associated_token owner mint : PublicKey) → Instruction
  transfer : (from_pubkey to_pubkey : PublicKey) (lamports : ℤ) → Instruction
  -- the instruction 17 of the token program
  sync_native : (program account : PublicKey) → Instruction
  close_account : (account destination owner : PublicKey) → Instruction
  set_compute_unit_limit : (units : ℕ) → Instruction
  -- `VaultImpl.createPermissionlessVaultInstruction`
  create_vault : (payer token_mint : PublicKey) → Instruction

-- The block hash is left out.
pub record Transaction : Type 0 where
  pub fee_payer : PublicKey
  pub instructions : List Instruction

-- The addresses that `getVaultPdas` derives of a mint.
pub record VaultPdas : Type 0 where
  pub vault_pda : PublicKey
  pub token_vault_pda : PublicKey
  pub lp_mint_pda : PublicKey

-- The constants of the packages, and what they and the cluster answer.
pub record Chain : Type 0 where
  pub native_mint : PublicKey
  pub token_program_id : PublicKey
  pub associated_token_program_id : PublicKey
  pub system_program_id : PublicKey
  pub sysvar_rent_pubkey : PublicKey
  pub find_program_address : List Bytes → PublicKey → PublicKey × ℕ
  -- `getAssociatedTokenAddressSync`
  pub associated_token_address : (mint owner : PublicKey) → PublicKey
  -- whether `getAccountInfo` finds an account
  pub account_exists : PublicKey → Bool
  pub vault_program_id : PublicKey
  pub get_vault_pdas : (token_mint : PublicKey) → VaultPdas
  -- `vaultProgram.account.vault.fetchNullable`, the mint of the vault's LP token
  pub fetch_vault_lp_mint : PublicKey → Option PublicKey
  -- whether `createPermissionlessVaultInstruction` returns an instruction
  pub has_create_vault : (payer token_mint : PublicKey) → Bool
  -- `program.account.lockEscrow.fetchNullable`
  pub fetch_lock_escrow : PublicKey → Option LockEscrowAccount

-- `instruction && instructions.push(instruction)`.
abbrev pub push : List Instruction → Option Instruction → List Instruction
push instructions none = instructions
push instructions (some instruction) = instructions ++ (instruction ∷ [])

module _ (chain : Chain) where
  open chain use {native_mint, token_program_id, associated_token_address, account_exists}

  unfoldable pub get_associated_token_account : (token_mint owner : PublicKey) → PublicKey
  get_associated_token_account token_mint owner = associated_token_address token_mint owner

  -- `payer || owner`.
  unfoldable pub payer_or : Option PublicKey → (owner : PublicKey) → PublicKey
  payer_or none owner = owner
  payer_or (some payer) owner = payer

  unfoldable pub get_or_create_ata_instruction :
      (token_mint owner : PublicKey) (payer : Option PublicKey) → PublicKey × Option Instruction
  unfolding get_associated_token_account payer_or
  get_or_create_ata_instruction token_mint owner payer =
      let to_account = get_associated_token_account token_mint owner in
      if account_exists to_account then (to_account, none) else (
        to_account,
        some (create_associated_token_account (payer_or payer owner) to_account owner token_mint),
      )

  unfoldable pub wrap_sol_instruction : (from to : PublicKey) (amount : ℤ) → List Instruction
  wrap_sol_instruction from to amount =
      transfer from to amount ∷ sync_native token_program_id to ∷ []

  -- The address is always there.
  unfoldable pub unwrap_sol_instruction : (owner : PublicKey) → Option Instruction
  unfolding get_associated_token_account
  unwrap_sol_instruction owner =
      some (close_account (get_associated_token_account native_mint owner) owner owner)

  unfoldable pub create_ata_pre_instructions :
      (owner : PublicKey) (mint_list : List PublicKey) → List (PublicKey × Option Instruction)
  create_ata_pre_instructions owner mint_list =
      map (λ (mint : PublicKey). get_or_create_ata_instruction mint owner none) mint_list
