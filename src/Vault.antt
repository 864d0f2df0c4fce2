-- ===== src/Vault.antt =====
-- The package @mercurial-finance/vault-sdk, as far as the client calls it. It is a parameter.
use mercurial_dynamic_amm_sd.Prelude.{ℕ, ◌*◌, ◌/◌, ◌<◌, ◌≡◌, ℤ, pos, Result, ok}
use mercurial_dynamic_amm_sd.Types.{PublicKey}

pub record VaultSdk : Type 1 where
  pub VaultState : Type 0
  -- the address of the vault's reserve, and of the mint of its shares
  pub token_vault : VaultState → PublicKey
  pub lp_mint : VaultState → PublicKey
  pub total_amount : VaultState → ℤ
  pub set_total_amount : VaultState → ℤ → VaultState
  -- the time, then the vault
  pub calculate_withdrawable_amount : ℤ → VaultState → ℤ
  -- an amount of shares, the withdrawable amount, the supply of shares
  pub get_amount_by_share : ℤ → ℤ → ℤ → Result ℤ
  -- an amount of tokens, the withdrawable amount, the supply of shares
  pub get_unmint_amount : ℤ → ℤ → ℤ → Result ℤ

-- What the package documents of its two conversions: each is a proportion, rounded down.
pub record IsProportional (vault : VaultSdk) : Type 0 where
  pub amount_by_share :
      (share total supply : ℕ)
      → 0 < supply
      → vault.get_amount_by_share (pos share) (pos total) (pos supply)
        ≡ ok (pos (share * total / supply))
  pub unmint_amount :
      (amount total supply : ℕ)
      → 0 < total
      → vault.get_unmint_amount (pos amount) (pos total) (pos supply)
        ≡ ok (pos (amount * supply / total))
