-- ===== src/Transactions/Liquidity/Minimum.antt =====
-- The minimum that `withdraw` of ts-client/src/amm/index.ts passes on when one token alone is withdrawn.
use mercurial_dynamic_amm_sd.Prelude.{ℤ, pos, is_zero, ◌≡◌, refl, true, false}
use mercurial_dynamic_amm_sd.Types.{PublicKey}
use mercurial_dynamic_amm_sd.SwapCurve.{Packages}
use mercurial_dynamic_amm_sd.Utils.{Numbers}
use mercurial_dynamic_amm_sd.Vault.{VaultSdk}
use mercurial_dynamic_amm_sd.Pool.{AmmImpl, is_stable_pool}
use mercurial_dynamic_amm_sd.Transactions.{Chain}
use mercurial_dynamic_amm_sd.Transactions.Liquidity.{withdraw, withdraw_method}

module _ (pk : Packages) (vault : VaultSdk) (num : Numbers) (chain : Chain) where
  -- For a stable pool, when one of the two amounts that are asked for is zero, the transaction of `withdraw`
  -- is the same for any two other amounts that are not zero: no minimum is passed on.
  pub withdraw_ignores_minimum :
      (amm : AmmImpl pk vault num) (owner : PublicKey) (lp x y : ℤ)
      → is_stable_pool pk vault num amm ≡ true
      → is_zero x ≡ false
      → is_zero y ≡ false
      → (withdraw pk vault num chain amm owner lp x (pos 0)
          ≡ withdraw pk vault num chain amm owner lp y (pos 0))
        × (withdraw pk vault num chain amm owner lp (pos 0) x
            ≡ withdraw pk vault num chain amm owner lp (pos 0) y)
  unfolding withdraw withdraw_method
  withdraw_ignores_minimum amm owner lp x y stable hx hy = (
    rw (withdraw, withdraw_method, stable, hx, hy) refl,
    rw (withdraw, withdraw_method, stable, hx, hy) refl,
  )
