-- ===== src/Multiple/Objects.antt =====
-- The objects that `createMultiple` of ts-client/src/amm/index.ts makes are each of its own pool.
use mercurial_dynamic_amm_sd.Prelude.{ℤ, ◌≡◌, List, [], ◌∷◌}
use mercurial_dynamic_amm_sd.Types.{PublicKey, PoolState}
use mercurial_dynamic_amm_sd.SwapCurve.{Packages}
use mercurial_dynamic_amm_sd.Utils.{Numbers}
use mercurial_dynamic_amm_sd.Vault.{VaultSdk}
use mercurial_dynamic_amm_sd.Pool.{AmmImpl}
use mercurial_dynamic_amm_sd.Pool.State.Curves.{Holds}
use mercurial_dynamic_amm_sd.Pool.State.Fresh.{IsFresh}
use mercurial_dynamic_amm_sd.Multiple.Entries.{Entries}

module _ (pk : Packages) (vault : VaultSdk) (num : Numbers) where
  open pk use {acc}
  open acc use {Buffer}

  -- An object is of a pool that was fetched: it has its address, its state but for the cached price, the supply of its
  -- tokens and the vaults that the state names, a curve for that state, and the amounts that its accounts give.
  pub record IsOf (accounts : List (PublicKey × Buffer)) (pool : PublicKey) (state : PoolState × ℤ)
      (amm : AmmImpl pk vault num) : Type 0 where
    pub accounts_eq : amm.depeg_accounts ≡ accounts
    pub address_eq : amm.address ≡ pool
    pub supply_eq : amm.lp_supply ≡ state.1
    pub holds : Holds pk vault num state.0 amm
    pub vault_a_eq : amm.vault_a_pda ≡ state.0.a_vault
    pub vault_b_eq : amm.vault_b_pda ≡ state.0.b_vault
    pub fresh : IsFresh pk vault num amm

  -- One object of each pool, in order.
  abbrev pub Each :
      List (PublicKey × Buffer)
      → List PublicKey
      → List (PoolState × ℤ)
      → List (AmmImpl pk vault num)
      → Type 0
  Each accounts [] [] [] = Unit
  Each accounts (p ∷ ps) (s ∷ ss) (a ∷ amms) = IsOf accounts p s a × Each accounts ps ss amms
  Each accounts ps ss amms = ⊥
