-- ===== src/Idl/Locks.antt =====
-- ts-client/src/amm/idl.ts: the instructions on locked liquidity.
use mercurial_dynamic_amm_sd.Prelude.{true, false, [], ◌∷◌}
use mercurial_dynamic_amm_sd.Idl.Types.{IdlInstruction, account, u64}

abbrev pub create_lock_escrow : IdlInstruction
create_lock_escrow = record {
  name = "createLockEscrow";
  accounts =
      account "pool" false false
      ∷ account "lockEscrow" true false
      ∷ account "owner" false false
      ∷ account "lpMint" false false
      ∷ account "payer" true true
      ∷ account "systemProgram" false false
      ∷ [];
  args = [];
}

abbrev pub lock : IdlInstruction
lock = record {
  name = "lock";
  accounts =
      account "pool" true false
      ∷ account "lpMint" false false
      ∷ account "lockEscrow" true false
      ∷ account "owner" true true
      ∷ account "sourceTokens" true false
      ∷ account "escrowVault" true false
      ∷ account "tokenProgram" false false
      ∷ account "aVault" false false
      ∷ account "bVault" false false
      ∷ account "aVaultLp" false false
      ∷ account "bVaultLp" false false
      ∷ account "aVaultLpMint" false false
      ∷ account "bVaultLpMint" false false
      ∷ [];
  args = ("maxAmount", u64) ∷ [];
}

abbrev pub claim_fee : IdlInstruction
claim_fee = record {
  name = "claimFee";
  accounts =
      account "pool" true false
      ∷ account "lpMint" true false
      ∷ account "lockEscrow" true false
      ∷ account "owner" true true
      ∷ account "sourceTokens" true false
      ∷ account "escrowVault" true false
      ∷ account "tokenProgram" false false
      ∷ account "aTokenVault" true false
      ∷ account "bTokenVault" true false
      ∷ account "aVault" true false
      ∷ account "bVault" true false
      ∷ account "aVaultLp" true false
      ∷ account "bVaultLp" true false
      ∷ account "aVaultLpMint" true false
      ∷ account "bVaultLpMint" true false
      ∷ account "userAToken" true false
      ∷ account "userBToken" true false
      ∷ account "vaultProgram" false false
      ∷ [];
  args = ("maxAmount", u64) ∷ [];
}
