-- ===== src/Transactions/Typed.antt =====
-- The methods of ts-client/src/amm/index.ts that build transactions, all against the interface description.
use mercurial_dynamic_amm_sd.Prelude.{ℤ, Bool, Option}
use mercurial_dynamic_amm_sd.Types.{PublicKey}
use mercurial_dynamic_amm_sd.Chunks.Requests.{All}
use mercurial_dynamic_amm_sd.SwapCurve.{Packages}
use mercurial_dynamic_amm_sd.Utils.{Numbers}
use mercurial_dynamic_amm_sd.Vault.{VaultSdk}
use mercurial_dynamic_amm_sd.Pool.{AmmImpl}
use mercurial_dynamic_amm_sd.Transactions.{Chain}
use mercurial_dynamic_amm_sd.Transactions.Accepts.{IsAccepted}
use mercurial_dynamic_amm_sd.Transactions.Swap.{swap}
use mercurial_dynamic_amm_sd.Transactions.Swap.Accepted.{swap-IsAccepted}
use mercurial_dynamic_amm_sd.Transactions.Liquidity.{deposit, withdraw}
use mercurial_dynamic_amm_sd.Transactions.Liquidity.Accepted.{
  deposit-IsAccepted, withdraw-IsAccepted,
}
use mercurial_dynamic_amm_sd.Transactions.Locks.{lock_liquidity}
use mercurial_dynamic_amm_sd.Transactions.Locks.Accepted.{lock_liquidity-IsAccepted}
use mercurial_dynamic_amm_sd.Transactions.Create.{SwapLiquidity}
use mercurial_dynamic_amm_sd.Transactions.Create.Methods.{
  create_pool_with_config, create_pool_with_config_2,
}
use mercurial_dynamic_amm_sd.Transactions.Create.Accepted.{
  create_pool_with_config-IsAccepted, create_pool_with_config_2-IsAccepted,
}

module _ (pk : Packages) (vault : VaultSdk) (num : Numbers) (chain : Chain) where
  -- Every instruction in the transactions of `swap`, `deposit`, `withdraw` and `lock_liquidity` has, for
  -- each account that the interface description names, an account of that name, which is the fee payer where a signature is
  -- wanted, and has as many arguments as described, each of its type; an instruction of another program that
  -- wants a signature wants the fee payer's.
  pub pool_transactions-IsAccepted :
      (amm : AmmImpl pk vault num) (owner mint : PublicKey) (x y z : ℤ)
      (referrer fee_payer : Option PublicKey)
      → IsAccepted (swap pk vault num chain amm owner mint x y referrer)
        × IsAccepted (deposit pk vault num chain amm owner x y z)
        × IsAccepted (withdraw pk vault num chain amm owner x y z)
        × IsAccepted (lock_liquidity pk vault num chain amm owner x fee_payer)
  pool_transactions-IsAccepted amm owner mint x y z referrer fee_payer = (
    swap-IsAccepted pk vault num chain amm owner mint x y referrer,
    deposit-IsAccepted pk vault num chain amm owner x y z,
    withdraw-IsAccepted pk vault num chain amm owner x y z,
    lock_liquidity-IsAccepted pk vault num chain amm owner x fee_payer,
  )

-- The same holds of each transaction of the two methods that create a pool with a configuration, with or
-- without a lock of the liquidity and a swap.
pub create_pool_with_configs-IsAccepted :
    (chain : Chain) (program_id payer a_mint b_mint : PublicKey) (a b : ℤ) (config : PublicKey)
    (lock : Bool) (swap_liquidity : Option SwapLiquidity) (skip_a skip_b : Bool)
    (activation : Option ℤ)
    → All IsAccepted (
        create_pool_with_config chain program_id payer a_mint b_mint a b config lock swap_liquidity
          skip_a skip_b)
      × All IsAccepted (
          create_pool_with_config_2 chain program_id payer a_mint b_mint a b config lock
            swap_liquidity activation)
create_pool_with_configs-IsAccepted chain program_id payer a_mint b_mint a b config lock
      swap_liquidity skip_a skip_b activation =
    (
      create_pool_with_config-IsAccepted chain program_id payer a_mint b_mint a b config lock
          swap_liquidity skip_a skip_b,
      create_pool_with_config_2-IsAccepted chain program_id payer a_mint b_mint a b config lock
          swap_liquidity activation,
    )
