-- ===== src/Idl/Pools.antt =====
-- ts-client/src/amm/idl.ts: the instructions that create pools and configurations.
use mercurial_dynamic_amm_sd.Prelude.{true, false, [], ◌∷◌}
use mercurial_dynamic_amm_sd.Idl.Types.{IdlInstruction, account, defined, option, u64}

abbrev pub initialize_permissionless_pool_with_fee_tier : IdlInstruction
initialize_permissionless_pool_with_fee_tier = record {
  name = "initializePermissionlessPoolWithFeeTier";
  accounts =
      account "pool" true false
      ∷ account "lpMint" true false
      ∷ account "tokenAMint" false false
      ∷ account "tokenBMint" false false
      ∷ account "aVault" true false
      ∷ account "bVault" true false
      ∷ account "aTokenVault" true false
      ∷ account "bTokenVault" true false
      ∷ account "aVaultLpMint" true false
      ∷ account "bVaultLpMint" true false
      ∷ account "aVaultLp" true false
      ∷ account "bVaultLp" true false
      ∷ account "payerTokenA" true false
      ∷ account "payerTokenB" true false
      ∷ account "payerPoolLp" true false
      ∷ account "protocolTokenAFee" true false
      ∷ account "protocolTokenBFee" true false
      ∷ account "payer" true true
      ∷ account "feeOwner" false false
      ∷ account "rent" false false
      ∷ account "mintMetadata" true false
      ∷ account "metadataProgram" false false
      ∷ account "vaultProgram" false false
      ∷ account "tokenProgram" false false
      ∷ account "associatedTokenProgram" false false
      ∷ account "systemProgram" false false
      ∷ [];
  args =
      ("curveType", defined "CurveType")
      ∷ ("tradeFeeBps", u64)
      ∷ ("tokenAAmount", u64)
      ∷ ("tokenBAmount", u64)
      ∷ [];
}

abbrev pub initialize_permissionless_constant_product_pool_with_config : IdlInstruction
initialize_permissionless_constant_product_pool_with_config = record {
  name = "initializePermissionlessConstantProductPoolWithConfig";
  accounts =
      account "pool" true false
      ∷ account "config" false false
      ∷ account "lpMint" true false
      ∷ account "tokenAMint" false false
      ∷ account "tokenBMint" false false
      ∷ account "aVault" true false
      ∷ account "bVault" true false
      ∷ account "aTokenVault" true false
      ∷ account "bTokenVault" true false
      ∷ account "aVaultLpMint" true false
      ∷ account "bVaultLpMint" true false
      ∷ account "aVaultLp" true false
      ∷ account "bVaultLp" true false
      ∷ account "payerTokenA" true false
      ∷ account "payerTokenB" true false
      ∷ account "payerPoolLp" true false
      ∷ account "protocolTokenAFee" true false
      ∷ account "protocolTokenBFee" true false
      ∷ account "payer" true true
      ∷ account "rent" false false
      ∷ account "mintMetadata" true false
      ∷ account "metadataProgram" false false
      ∷ account "vaultProgram" false false
      ∷ account "tokenProgram" false false
      ∷ account "associatedTokenProgram" false false
      ∷ account "systemProgram" false false
      ∷ [];
  args = ("tokenAAmount", u64) ∷ ("tokenBAmount", u64) ∷ [];
}

abbrev pub initialize_permissionless_constant_product_pool_with_config_2 : IdlInstruction
initialize_permissionless_constant_product_pool_with_config_2 = record {
  name = "initializePermissionlessConstantProductPoolWithConfig2";
  accounts =
      account "pool" true false
      ∷ account "config" false false
      ∷ account "lpMint" true false
      ∷ account "tokenAMint" false false
      ∷ account "tokenBMint" false false
      ∷ account "aVault" true false
      ∷ account "bVault" true false
      ∷ account "aTokenVault" true false
      ∷ account "bTokenVault" true false
      ∷ account "aVaultLpMint" true false
      ∷ account "bVaultLpMint" true false
      ∷ account "aVaultLp" true false
      ∷ account "bVaultLp" true false
      ∷ account "payerTokenA" true false
      ∷ account "payerTokenB" true false
      ∷ account "payerPoolLp" true false
      ∷ account "protocolTokenAFee" true false
      ∷ account "protocolTokenBFee" true false
      ∷ account "payer" true true
      ∷ account "rent" false false
      ∷ account "mintMetadata" true false
      ∷ account "metadataProgram" false false
      ∷ account "vaultProgram" false false
      ∷ account "tokenProgram" false false
      ∷ account "associatedTokenProgram" false false
      ∷ account "systemProgram" false false
      ∷ [];
  args = ("tokenAAmount", u64) ∷ ("tokenBAmount", u64) ∷ ("activationPoint", option u64) ∷ [];
}

abbrev pub create_config : IdlInstruction
create_config = record {
  name = "createConfig";
  accounts =
      account "config" true false
      ∷ account "admin" true true
      ∷ account "systemProgram" false false
      ∷ [];
  args = ("configParameters", defined "ConfigParameters") ∷ [];
}
