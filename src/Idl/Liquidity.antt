-- ===== src/Idl/Liquidity.antt =====
-- ts-client/src/amm/idl.ts: swaps, deposits and withdrawals.
use mercurial_dynamic_amm_sd.Prelude.{true, false, [], ◌∷◌}
use mercurial_dynamic_amm_sd.Idl.Types.{IdlInstruction, account, u64}

abbrev pub swap : IdlInstruction
swap = record {
  name = "swap";
  accounts =
      account "pool" true false
      ∷ account "userSourceToken" true false
      ∷ account "userDestinationToken" true false
      ∷ account "aVault" true false
      ∷ account "bVault" true false
      ∷ account "aTokenVault" true false
      ∷ account "bTokenVault" true false
      ∷ account "aVaultLpMint" true false
      ∷ account "bVaultLpMint" true false
      ∷ account "aVaultLp" true false
      ∷ account "bVaultLp" true false
      ∷ account "protocolTokenFee" true false
      ∷ account "user" false true
      ∷ account "vaultProgram" false false
      ∷ account "tokenProgram" false false
      ∷ [];
  args = ("inAmount", u64) ∷ ("minimumOutAmount", u64) ∷ [];
}

abbrev pub bootstrap_liquidity : IdlInstruction
bootstrap_liquidity = record {
  name = "bootstrapLiquidity";
  accounts =
      account "pool" true false
      ∷ account "lpMint" true false
      ∷ account "userPoolLp" true false
      ∷ account "aVaultLp" true false
      ∷ account "bVaultLp" true false
      ∷ account "aVault" true false
      ∷ account "bVault" true false
      ∷ account "aVaultLpMint" true false
      ∷ account "bVaultLpMint" true false
      ∷ account "aTokenVault" true false
      ∷ account "bTokenVault" true false
      ∷ account "userAToken" true false
      ∷ account "userBToken" true false
      ∷ account "user" false true
      ∷ account "vaultProgram" false false
      ∷ account "tokenProgram" false false
      ∷ [];
  args = ("tokenAAmount", u64) ∷ ("tokenBAmount", u64) ∷ [];
}

abbrev pub add_balance_liquidity : IdlInstruction
add_balance_liquidity = record {
  name = "addBalanceLiquidity";
  accounts =
      account "pool" true false
      ∷ account "lpMint" true false
      ∷ account "userPoolLp" true false
      ∷ account "aVaultLp" true false
      ∷ account "bVaultLp" true false
      ∷ account "aVault" true false
      ∷ account "bVault" true false
      ∷ account "aVaultLpMint" true false
      ∷ account "bVaultLpMint" true false
      ∷ account "aTokenVault" true false
      ∷ account "bTokenVault" true false
      ∷ account "userAToken" true false
      ∷ account "userBToken" true false
      ∷ account "user" false true
      ∷ account "vaultProgram" false false
      ∷ account "tokenProgram" false false
      ∷ [];
  args =
      ("poolTokenAmount", u64) ∷ ("maximumTokenAAmount", u64) ∷ ("maximumTokenBAmount", u64) ∷ [];
}

abbrev pub add_imbalance_liquidity : IdlInstruction
add_imbalance_liquidity = record {
  name = "addImbalanceLiquidity";
  accounts =
      account "pool" true false
      ∷ account "lpMint" true false
      ∷ account "userPoolLp" true false
      ∷ account "aVaultLp" true false
      ∷ account "bVaultLp" true false
      ∷ account "aVault" true false
      ∷ account "bVault" true false
      ∷ account "aVaultLpMint" true false
      ∷ account "bVaultLpMint" true false
      ∷ account "aTokenVault" true false
      ∷ account "bTokenVault" true false
      ∷ account "userAToken" true false
      ∷ account "userBToken" true false
      ∷ account "user" false true
      ∷ account "vaultProgram" false false
      ∷ account "tokenProgram" false false
      ∷ [];
  args = ("minimumPoolTokenAmount", u64) ∷ ("tokenAAmount", u64) ∷ ("tokenBAmount", u64) ∷ [];
}

abbrev pub remove_balance_liquidity : IdlInstruction
remove_balance_liquidity = record {
  name = "removeBalanceLiquidity";
  accounts =
      account "pool" true false
      ∷ account "lpMint" true false
      ∷ account "userPoolLp" true false
      ∷ account "aVaultLp" true false
      ∷ account "bVaultLp" true false
      ∷ account "aVault" true false
      ∷ account "bVault" true false
      ∷ account "aVaultLpMint" true false
      ∷ account "bVaultLpMint" true false
      ∷ account "aTokenVault" true false
      ∷ account "bTokenVault" true false
      ∷ account "userAToken" true false
      ∷ account "userBToken" true false
      ∷ account "user" false true
      ∷ account "vaultProgram" false false
      ∷ account "tokenProgram" false false
      ∷ [];
  args = ("poolTokenAmount", u64) ∷ ("minimumATokenOut", u64) ∷ ("minimumBTokenOut", u64) ∷ [];
}

abbrev pub remove_liquidity_single_side : IdlInstruction
remove_liquidity_single_side = record {
  name = "removeLiquiditySingleSide";
  accounts =
      account "pool" true false
      ∷ account "lpMint" true false
      ∷ account "userPoolLp" true false
      ∷ account "aVaultLp" true false
      ∷ account "bVaultLp" true false
      ∷ account "aVault" true false
      ∷ account "bVault" true false
      ∷ account "aVaultLpMint" true false
      ∷ account "bVaultLpMint" true false
      ∷ account "aTokenVault" true false
      ∷ account "bTokenVault" true false
      ∷ account "userDestinationToken" true false
      ∷ account "user" false true
      ∷ account "vaultProgram" false false
      ∷ account "tokenProgram" false false
      ∷ [];
  args = ("poolTokenAmount", u64) ∷ ("minimumOutAmount", u64) ∷ [];
}
