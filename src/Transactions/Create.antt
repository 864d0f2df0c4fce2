-- ===== src/Transactions/Create.antt =====
-- ts-client/src/amm/index.ts: the static methods of the class `AmmImpl` that build the transactions which
-- create a pool.
pub mod Methods
pub mod Accepted
pub mod Funds
use mathlib.Core.Option.{none}
use Prim.Native.String.{String}
use mercurial_dynamic_amm_sd.Prelude.{
  ℕ, ℤ, pos, ◌+ℤ◌, Bool, true, false, not, List, [], ◌∷◌, ◌++◌, Option, some, Result, ok, ◌>>=◌,
  if◌then◌else◌, ◌==◌, ◌&&◌,
}
use mercurial_dynamic_amm_sd.Types.{PublicKey}
use mercurial_dynamic_amm_sd.Constants.{metaplex_program, fee_owner, u64_max}
use mercurial_dynamic_amm_sd.Keys.{
  Bytes, key_bytes, TokenInfo, generate_curve_type, derive_pool_address,
  derive_pool_address_with_config, derive_protocol_token_fee, derive_mint_metadata,
  derive_lock_escrow_pda,
}
use mercurial_dynamic_amm_sd.Idl
use mercurial_dynamic_amm_sd.Idl.Types.{IdlInstruction}
use mercurial_dynamic_amm_sd.Idl.Pools
use mercurial_dynamic_amm_sd.Idl.Locks
use mercurial_dynamic_amm_sd.Idl.Liquidity
use mercurial_dynamic_amm_sd.Transactions.{
  Chain, VaultPdas, Instruction, create_vault, set_compute_unit_limit, Transaction, Arg, number,
  optional, curve, push, get_associated_token_account, get_or_create_ata_instruction,
  wrap_sol_instruction,
}

-- The addresses that go with a pool.
pub record NewPool : Type 0 where
  pub pool : PublicKey
  pub token_a_mint : PublicKey
  pub token_b_mint : PublicKey
  pub a_vault : PublicKey
  pub b_vault : PublicKey
  pub a_token_vault : PublicKey
  pub b_token_vault : PublicKey
  pub a_vault_lp_mint : PublicKey
  pub b_vault_lp_mint : PublicKey
  pub a_vault_lp : PublicKey
  pub b_vault_lp : PublicKey
  pub lp_mint : PublicKey
  pub payer_token_a : PublicKey
  pub payer_token_b : PublicKey
  pub protocol_token_a_fee : PublicKey
  pub protocol_token_b_fee : PublicKey
  pub payer_pool_lp : PublicKey
  pub mint_metadata : PublicKey

-- `opt.swapLiquidity`.
pub record SwapLiquidity : Type 0 where
  pub in_amount : ℤ
  pub min_amount_out : ℤ

module _ (chain : Chain) (program_id : PublicKey) where
  open chain use {
    native_mint, token_program_id, associated_token_program_id, system_program_id,
    sysvar_rent_pubkey, find_program_address, vault_program_id, get_vault_pdas, fetch_vault_lp_mint,
    has_create_vault,
  }

  address_of : List Bytes → PublicKey
  address_of seeds = (find_program_address seeds program_id).0

  -- The mint of a vault's LP token: that of the vault, or the derived one if there is no vault.
  vault_lp_mint : VaultPdas → Option PublicKey → PublicKey
  vault_lp_mint pdas none = pdas.lp_mint_pda
  vault_lp_mint pdas (some lp_mint) = lp_mint

  -- The instruction that makes a vault, if there is none.
  unfoldable pub create_vault_instruction :
      (payer token_mint : PublicKey) → Option PublicKey → Option Instruction
  create_vault_instruction payer token_mint (some lp_mint) = none
  create_vault_instruction payer token_mint none =
      if has_create_vault payer token_mint then some (create_vault payer token_mint) else none

  unfoldable pub new_pool : (payer token_a_mint token_b_mint pool : PublicKey) → NewPool
  unfolding address_of vault_lp_mint get_or_create_ata_instruction
  new_pool payer token_a_mint token_b_mint pool =
      let a = get_vault_pdas token_a_mint in
      let b = get_vault_pdas token_b_mint in
      let lp_mint =
        address_of ((b'l' ∷ b'p' ∷ b'_' ∷ b'm' ∷ b'i' ∷ b'n' ∷ b't' ∷ []) ∷ key_bytes pool ∷ []) in
      record {
        pool = pool;
        token_a_mint = token_a_mint;
        token_b_mint = token_b_mint;
        a_vault = a.vault_pda;
        b_vault = b.vault_pda;
        a_token_vault = a.token_vault_pda;
        b_token_vault = b.token_vault_pda;
        a_vault_lp_mint = vault_lp_mint a (fetch_vault_lp_mint a.vault_pda);
        b_vault_lp_mint = vault_lp_mint b (fetch_vault_lp_mint b.vault_pda);
        a_vault_lp = address_of (key_bytes a.vault_pda ∷ key_bytes pool ∷ []);
        b_vault_lp = address_of (key_bytes b.vault_pda ∷ key_bytes pool ∷ []);
        lp_mint = lp_mint;
        payer_token_a = (get_or_create_ata_instruction chain token_a_mint payer none).0;
        payer_token_b = (get_or_create_ata_instruction chain token_b_mint payer none).0;
        protocol_token_a_fee =
            address_of ((b'f' ∷ b'e' ∷ b'e' ∷ []) ∷ key_bytes token_a_mint ∷ key_bytes pool ∷ []);
        protocol_token_b_fee =
            address_of ((b'f' ∷ b'e' ∷ b'e' ∷ []) ∷ key_bytes token_b_mint ∷ key_bytes pool ∷ []);
        payer_pool_lp = get_associated_token_account chain lp_mint payer;
        mint_metadata = (derive_mint_metadata find_program_address lp_mint).0;
      }

  -- The vaults that are missing.
  unfoldable pub create_vaults : (payer : PublicKey) → NewPool → List Instruction
  create_vaults payer pool =
      push
        (push []
          (create_vault_instruction payer pool.token_a_mint (fetch_vault_lp_mint pool.a_vault)))
        (create_vault_instruction payer pool.token_b_mint (fetch_vault_lp_mint pool.b_vault))

  -- The instruction that makes a token account of the payer, unless it is to be skipped.
  unfoldable pub create_payer_token : (payer mint : PublicKey) (skip : Bool) → Option Instruction
  create_payer_token payer mint true = none
  create_payer_token payer mint false = (get_or_create_ata_instruction chain mint payer none).1

  unfoldable pub wrap_if_native :
      (payer mint token_account : PublicKey) (amount : ℤ) → List Instruction
  wrap_if_native payer mint token_account amount =
      if mint == native_mint then wrap_sol_instruction chain payer token_account amount else []

  -- What the three methods do before the pool is made.
  unfoldable pub pre_instructions :
      (payer : PublicKey)
      → NewPool
      → (skip_a skip_b : Bool) (token_a_amount token_b_amount : ℤ) → List Instruction
  pre_instructions payer pool skip_a skip_b token_a_amount token_b_amount =
      push (push (create_vaults payer pool) (create_payer_token payer pool.token_a_mint skip_a))
        (create_payer_token payer pool.token_b_mint skip_b)
      ++ (wrap_if_native payer pool.token_a_mint pool.payer_token_a token_a_amount
          ++ wrap_if_native payer pool.token_b_mint pool.payer_token_b token_b_amount)

  -- The accounts that each of the three instructions takes.
  unfoldable pub new_pool_accounts : (payer : PublicKey) → NewPool → List (String × PublicKey)
  new_pool_accounts payer pool =
      ("pool", pool.pool)
      ∷ ("tokenAMint", pool.token_a_mint)
      ∷ ("tokenBMint", pool.token_b_mint)
      ∷ ("aVault", pool.a_vault)
      ∷ ("bVault", pool.b_vault)
      ∷ ("aVaultLpMint", pool.a_vault_lp_mint)
      ∷ ("bVaultLpMint", pool.b_vault_lp_mint)
      ∷ ("aVaultLp", pool.a_vault_lp)
      ∷ ("bVaultLp", pool.b_vault_lp)
      ∷ ("lpMint", pool.lp_mint)
      ∷ ("payerTokenA", pool.payer_token_a)
      ∷ ("payerTokenB", pool.payer_token_b)
      ∷ ("protocolTokenAFee", pool.protocol_token_a_fee)
      ∷ ("protocolTokenBFee", pool.protocol_token_b_fee)
      ∷ ("payerPoolLp", pool.payer_pool_lp)
      ∷ ("aTokenVault", pool.a_token_vault)
      ∷ ("bTokenVault", pool.b_token_vault)
      ∷ ("mintMetadata", pool.mint_metadata)
      ∷ ("metadataProgram", metaplex_program)
      ∷ ("payer", payer)
      ∷ ("rent", sysvar_rent_pubkey)
      ∷ ("vaultProgram", vault_program_id)
      ∷ ("tokenProgram", token_program_id)
      ∷ ("systemProgram", system_program_id)
      ∷ ("associatedTokenProgram", associated_token_program_id)
      ∷ []

  -- What follows a new pool whose liquidity is to be locked: all of the payer's LP tokens are.
  unfoldable pub lock_instructions :
      (payer : PublicKey) → NewPool → (lock_liquidity : Bool) → List Instruction
  lock_instructions payer pool false = []
  lock_instructions payer pool true =
      let lock_escrow =
        (derive_lock_escrow_pda find_program_address pool.pool payer program_id).0 in
      let (escrow_ata, create_escrow_ata) =
        get_or_create_ata_instruction chain pool.lp_mint lock_escrow (some payer) in
      push
        (Instruction.method program_id Idl.Locks.create_lock_escrow []
            (("pool", pool.pool)
              ∷ ("lockEscrow", lock_escrow)
              ∷ ("owner", payer)
              ∷ ("lpMint", pool.lp_mint)
              ∷ ("payer", payer)
              ∷ ("systemProgram", system_program_id)
              ∷ [])
            []
          ∷ [])
        create_escrow_ata
      ++ (Instruction.method program_id Idl.Locks.lock (number u64_max ∷ [])
            (("pool", pool.pool)
              ∷ ("lockEscrow", lock_escrow)
              ∷ ("owner", payer)
              ∷ ("lpMint", pool.lp_mint)
              ∷ ("sourceTokens", pool.payer_pool_lp)
              ∷ ("escrowVault", escrow_ata)
              ∷ ("tokenProgram", token_program_id)
              ∷ ("aVault", pool.a_vault)
              ∷ ("bVault", pool.b_vault)
              ∷ ("aVaultLp", pool.a_vault_lp)
              ∷ ("bVaultLp", pool.b_vault_lp)
              ∷ ("aVaultLpMint", pool.a_vault_lp_mint)
              ∷ ("bVaultLpMint", pool.b_vault_lp_mint)
              ∷ [])
            []
          ∷ [])

  -- The swap of token B for token A that may follow, in a transaction of its own.
  unfoldable pub swap_transactions :
      (payer : PublicKey) → NewPool → Option SwapLiquidity → List Transaction
  swap_transactions payer pool none = []
  swap_transactions payer pool (some swap) =
      record {
        fee_payer = payer;
        instructions =
            Instruction.method program_id Idl.Liquidity.swap
              (number swap.in_amount ∷ number swap.min_amount_out ∷ [])
              (("aTokenVault", pool.a_token_vault)
                ∷ ("bTokenVault", pool.b_token_vault)
                ∷ ("aVault", pool.a_vault)
                ∷ ("bVault", pool.b_vault)
                ∷ ("aVaultLp", pool.a_vault_lp)
                ∷ ("bVaultLp", pool.b_vault_lp)
                ∷ ("aVaultLpMint", pool.a_vault_lp_mint)
                ∷ ("bVaultLpMint", pool.b_vault_lp_mint)
                ∷ ("userSourceToken", pool.payer_token_b)
                ∷ ("userDestinationToken", pool.payer_token_a)
                ∷ ("user", payer)
                ∷ (
                  "protocolTokenFee",
                  derive_protocol_token_fee find_program_address pool.pool pool.token_b_mint
                      program_id,
                )
                ∷ ("pool", pool.pool)
                ∷ ("tokenProgram", token_program_id)
                ∷ ("vaultProgram", vault_program_id)
                ∷ [])
              []
            ∷ [];
      }
      ∷ []

  -- No transaction is made of no instructions.
  unfoldable pub pre_transactions : (payer : PublicKey) → List Instruction → List Transaction
  pre_transactions payer [] = []
  pre_transactions payer (i ∷ is) = record { fee_payer = payer; instructions = i ∷ is } ∷ []

  -- The transactions of the two methods with a configuration.
  unfoldable pub pool_transactions :
      (payer : PublicKey)
      → NewPool
      → (pre_instructions : List Instruction) (create : Instruction) → (lock_liquidity : Bool)
      → Option SwapLiquidity
      → List Transaction
  pool_transactions payer pool pre create lock_liquidity swap_liquidity =
      pre_transactions payer pre
      ++ (record {
        fee_payer = payer;
        instructions =
            set_compute_unit_limit 1_400_000 ∷ create ∷ lock_instructions payer pool lock_liquidity;
      }
          ∷ swap_transactions payer pool swap_liquidity)
