-- ===== src/Transactions/Swap/Accepted.antt =====
-- The transactions of ts-client/src/amm/index.ts against the interface description.
use mathlib.Core.Option.{none}
use mercurial_dynamic_amm_sd.Prelude.{ℤ, [], ◌++◌, Option, some, if◌then◌else◌, ◌==◌, arith}
use mercurial_dynamic_amm_sd.Types.{PublicKey}
use mercurial_dynamic_amm_sd.SwapCurve.{Packages}
use mercurial_dynamic_amm_sd.Utils.{Numbers}
use mercurial_dynamic_amm_sd.Vault.{VaultSdk}
use mercurial_dynamic_amm_sd.Pool.{AmmImpl}
use mercurial_dynamic_amm_sd.Transactions.{
  Chain, push, payer_or, get_or_create_ata_instruction, wrap_sol_instruction,
  unwrap_sol_instruction,
}
use mercurial_dynamic_amm_sd.Transactions.Accepts.{
  IsAccepted, AcceptsIf, Accepts-append, push-Accepts, if_Accepts, ata-AcceptsIf, wrap-Accepts,
  unwrap-Accepts,
}
use mercurial_dynamic_amm_sd.Transactions.Swap.{swap, referral}

module _ (pk : Packages) (vault : VaultSdk) (num : Numbers) (chain : Chain) where
  open chain use {native_mint}

  referral_accepts :
      (mint owner : PublicKey) (referral_owner : Option PublicKey)
      → AcceptsIf owner (referral pk vault num chain referral_owner mint owner).0
  unfolding referral payer_or
  referral_accepts mint owner none = tt
  referral_accepts mint owner (some r) = ata-AcceptsIf chain mint r (some owner)

  pub swap-IsAccepted :
      (amm : AmmImpl pk vault num) (owner mint : PublicKey) (x least : ℤ) (r : Option PublicKey)
      → IsAccepted (swap pk vault num chain amm owner mint x least r)
  unfolding swap payer_or
  swap-IsAccepted amm owner mint x least r =
      let pool = amm.pool_state in
      let from_a = amm.token_a_mint_address == mint in
      let source = if from_a then pool.token_a_mint else pool.token_b_mint in
      let destination = if from_a then pool.token_b_mint else pool.token_a_mint in
      let (account, create) = get_or_create_ata_instruction chain source owner none in
      let (_, create') = get_or_create_ata_instruction chain destination owner none in
      let wrap = wrap_sol_instruction chain owner account x in
      let created = push (push [] create) create' in
      let wrapped = if source == native_mint then wrap else [] in
      Accepts-append owner _ _
        (push-Accepts owner (created ++ wrapped) _
          (Accepts-append owner created wrapped
            (push-Accepts owner (push [] create) create'
              (push-Accepts owner [] create tt (ata-AcceptsIf chain source owner none))
              (ata-AcceptsIf chain destination owner none))
            (if_Accepts owner (source == native_mint) wrap (wrap-Accepts chain owner account x)))
          (referral_accepts mint owner r))
        (
          ground arith,
          if_Accepts owner (native_mint == destination)
              (push [] (unwrap_sol_instruction chain owner)) (unwrap-Accepts chain owner),
        )
