-- ===== src/Transactions/Liquidity/Accepted.antt =====
-- `deposit` and `withdraw` of ts-client/src/amm/index.ts against the interface description.
use mathlib.Core.Option.{none}
use mercurial_dynamic_amm_sd.Prelude.{ℤ, [], ◌||◌, ◌&&◌, ◌==◌, arith, is_zero, Bool-cases, inl, inr}
use mercurial_dynamic_amm_sd.Types.{PublicKey}
use mercurial_dynamic_amm_sd.Chunks.Requests.{All}
use mercurial_dynamic_amm_sd.SwapCurve.{Packages}
use mercurial_dynamic_amm_sd.Utils.{Numbers}
use mercurial_dynamic_amm_sd.Vault.{VaultSdk}
use mercurial_dynamic_amm_sd.Pool.{AmmImpl, is_stable_pool}
use mercurial_dynamic_amm_sd.Transactions.{
  Chain, push, payer_or, get_or_create_ata_instruction, wrap_sol_instruction,
  unwrap_sol_instruction,
}
use mercurial_dynamic_amm_sd.Transactions.Accepts.{
  IsAccepted, Accepts, Accepts-append, push-Accepts, if_Accepts, ata-AcceptsIf, wrap-Accepts,
  unwrap-Accepts,
}
use mercurial_dynamic_amm_sd.Transactions.Liquidity.{
  deposit, deposit_method, withdraw, withdraw_method, unwrap_if_native,
}

module _ (pk : Packages) (vault : VaultSdk) (num : Numbers) (chain : Chain) where
  open chain use {native_mint}

  unwrap_if_native-Accepts :
      (amm : AmmImpl pk vault num) (owner : PublicKey)
      → All (Accepts owner) (unwrap_if_native pk vault num chain amm owner)
  unfolding unwrap_if_native
  unwrap_if_native-Accepts amm owner =
      if_Accepts owner
        (amm.token_a_mint_address == native_mint || amm.token_b_mint_address == native_mint)
        (push [] (unwrap_sol_instruction chain owner)) (unwrap-Accepts chain owner)

  -- The owner's three token accounts, made where they are missing.
  created-Accepts :
      (owner a b c : PublicKey)
      → All (Accepts owner) (
          push
            (push
              (push [] (get_or_create_ata_instruction chain a owner none).1)
              (get_or_create_ata_instruction chain b owner none).1)
            (get_or_create_ata_instruction chain c owner none).1)
  unfolding payer_or
  created-Accepts owner a b c =
      push-Accepts owner _ _
        (push-Accepts owner _ _ (push-Accepts owner [] _ tt (ata-AcceptsIf chain a owner none))
          (ata-AcceptsIf chain b owner none))
        (ata-AcceptsIf chain c owner none)

  pub deposit-IsAccepted :
      (amm : AmmImpl pk vault num) (owner : PublicKey) (a b lp : ℤ)
      → IsAccepted (deposit pk vault num chain amm owner a b lp)
  unfolding deposit deposit_method
  deposit-IsAccepted amm owner a b lp =
      let pool = amm.pool_state in
      let wrap = λ (mint : PublicKey) (x : ℤ).
        wrap_sol_instruction chain owner (get_or_create_ata_instruction chain mint owner none).0
          x in
      Accepts-append owner _ _
        (created-Accepts owner pool.token_a_mint pool.token_b_mint pool.lp_mint)
        (Accepts-append owner _ _
          (if_Accepts owner (native_mint == amm.token_a_mint_address) (wrap pool.token_a_mint a)
            (wrap-Accepts chain owner _ a))
          (Accepts-append owner _ _
            (if_Accepts owner (native_mint == amm.token_b_mint_address) (wrap pool.token_b_mint b)
              (wrap-Accepts chain owner _ b))
            (elim (Bool-cases (is_zero amm.lp_supply)) [
              | inl first ↦ rw first (ground arith, unwrap_if_native-Accepts amm owner)
              | inr later ↦ elim (Bool-cases (is_stable_pool pk vault num amm)) [
                | inl stable ↦ rw (later, stable) (ground arith, unwrap_if_native-Accepts amm owner)
                | inr plain ↦ rw (later, plain) (ground arith, unwrap_if_native-Accepts amm owner)
              ]
            ])))

  pub withdraw-IsAccepted :
      (amm : AmmImpl pk vault num) (owner : PublicKey) (lp a b : ℤ)
      → IsAccepted (withdraw pk vault num chain amm owner lp a b)
  unfolding withdraw withdraw_method
  withdraw-IsAccepted amm owner lp a b =
      let pool = amm.pool_state in
      Accepts-append owner _ _
        (created-Accepts owner pool.token_a_mint pool.token_b_mint pool.lp_mint)
        (elim (Bool-cases (is_stable_pool pk vault num amm && (is_zero a || is_zero b))) [
          | inl one ↦ rw one (ground arith, unwrap_if_native-Accepts amm owner)
          | inr both ↦ rw both (ground arith, unwrap_if_native-Accepts amm owner)
        ])
