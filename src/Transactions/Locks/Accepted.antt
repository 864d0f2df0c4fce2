-- ===== src/Transactions/Locks/Accepted.antt =====
-- `lockLiquidity` and `claimLockFee` of ts-client/src/amm/index.ts against the interface description.
use mathlib.Core.Option.{none}
use mercurial_dynamic_amm_sd.Prelude.{
  ℤ, ◌≡◌, ◌≢◌, ◌↔◌, Bool, true, false, [], ◌∷◌, ◌||◌, Option, some, ◌==◌, arith, Bool-cases, inl,
  inr,
}
use mercurial_dynamic_amm_sd.Types.{PublicKey, LockEscrowAccount}
use mercurial_dynamic_amm_sd.SwapCurve.{Packages}
use mercurial_dynamic_amm_sd.Utils.{Numbers}
use mercurial_dynamic_amm_sd.Vault.{VaultSdk}
use mercurial_dynamic_amm_sd.Pool.{AmmImpl}
use mercurial_dynamic_amm_sd.Transactions.{
  Chain, push, payer_or, get_or_create_ata_instruction, get_associated_token_account,
  unwrap_sol_instruction,
}
use mercurial_dynamic_amm_sd.Transactions.Accepts.{
  IsAccepted, AcceptsIf, Accepts-append, push-Accepts, if_Accepts, Accepts-prefix, pushed-Accepts,
  ata-AcceptsIf, unwrap-Accepts,
}
use mercurial_dynamic_amm_sd.Transactions.Locks.{
  create_escrow, lock_escrow_pk, lock_liquidity, claim_lock_fee, claim_pre_instructions,
  claim_method, claim_post_instructions,
}

module _ (pk : Packages) (vault : VaultSdk) (num : Numbers) (chain : Chain) where
  open chain use {native_mint, fetch_lock_escrow}

  create_escrow-AcceptsIf :
      (amm : AmmImpl pk vault num) (owner payer : PublicKey) (account : Option LockEscrowAccount)
      → AcceptsIf payer (create_escrow pk vault num chain amm owner payer account)
  unfolding create_escrow
  create_escrow-AcceptsIf amm owner payer none = ground arith
  create_escrow-AcceptsIf amm owner payer (some account) = tt

  pub lock_liquidity-IsAccepted :
      (amm : AmmImpl pk vault num) (owner : PublicKey) (x : ℤ) (fee_payer : Option PublicKey)
      → IsAccepted (lock_liquidity pk vault num chain amm owner x fee_payer)
  unfolding lock_liquidity payer_or
  lock_liquidity-IsAccepted amm owner x fee_payer =
      let payer = payer_or chain fee_payer owner in
      let escrow = lock_escrow_pk pk vault num chain amm owner in
      let lp = amm.pool_state.lp_mint in
      Accepts-append payer _ _
        (push-Accepts payer _ _
          (push-Accepts payer _ _
            (push-Accepts payer [] _ tt
              (create_escrow-AcceptsIf amm owner payer (fetch_lock_escrow escrow)))
            (ata-AcceptsIf chain lp payer (some payer)))
          (ata-AcceptsIf chain lp escrow (some payer)))
        (ground arith, tt)

  -- The account of the escrow is there, and is not made.
  there :
      (mint owner fee_payer : PublicKey)
      → chain.account_exists (get_associated_token_account chain mint owner) ≡ true
      → AcceptsIf fee_payer (get_or_create_ata_instruction chain mint owner none).1
  unfolding get_or_create_ata_instruction
  there mint owner fee_payer e = rw e tt

  -- The token account of the escrow exists.
  abbrev pub escrow_account : AmmImpl pk vault num → (owner : PublicKey) → Bool
  escrow_account amm owner = chain.account_exists (
      get_associated_token_account chain amm.pool_state.lp_mint
        (lock_escrow_pk pk vault num chain amm owner))

  pub claim_lock_fee-IsAccepted :
      (amm : AmmImpl pk vault num) (owner : PublicKey) (x : ℤ)
      → escrow_account amm owner ≡ true
      → IsAccepted (claim_lock_fee pk vault num chain amm owner x)
  unfolding claim_lock_fee claim_pre_instructions claim_method claim_post_instructions payer_or
  claim_lock_fee-IsAccepted amm owner x e =
      let pool = amm.pool_state in
      let escrow = lock_escrow_pk pk vault num chain amm owner in
      Accepts-append owner _ _
        (push-Accepts owner _ _
          (push-Accepts owner _ _
            (push-Accepts owner _ _
              (push-Accepts owner [] _ tt (ata-AcceptsIf chain pool.lp_mint owner none))
              (there pool.lp_mint escrow owner e))
            (ata-AcceptsIf chain pool.token_a_mint owner none))
          (ata-AcceptsIf chain pool.token_b_mint owner none))
        (
          ground arith,
          if_Accepts owner (pool.token_a_mint == native_mint || pool.token_b_mint == native_mint)
              (push [] (unwrap_sol_instruction chain owner)) (unwrap-Accepts chain owner),
        )

  -- An instruction that makes the escrow's account is paid for by the escrow.
  escrow_pays :
      (mint owner payer : PublicKey)
      → chain.account_exists (get_associated_token_account chain mint owner) ≡ false
      → AcceptsIf payer (get_or_create_ata_instruction chain mint owner none).1
      → owner ≡ payer
  unfolding get_or_create_ata_instruction payer_or
  escrow_pays mint owner payer e h = rw e at h

  -- The account of the escrow would be paid for by the escrow, which does not sign.
  pub claim_lock_fee_unsigned :
      (amm : AmmImpl pk vault num) (owner : PublicKey) (x : ℤ)
      → escrow_account amm owner ≡ false
      → lock_escrow_pk pk vault num chain amm owner ≢ owner
      → ¬ (IsAccepted (claim_lock_fee pk vault num chain amm owner x))
  unfolding claim_lock_fee claim_pre_instructions
  claim_lock_fee_unsigned amm owner x e differ accepted =
      let pool = amm.pool_state in
      let escrow = lock_escrow_pk pk vault num chain amm owner in
      let make = λ (mint key : PublicKey). (get_or_create_ata_instruction chain mint key none).1 in
      let one = push [] (make pool.lp_mint owner) in
      let two = push one (make pool.lp_mint escrow) in
      let three = push two (make pool.token_a_mint owner) in
      let all =
        Accepts-prefix owner (claim_pre_instructions pk vault num chain amm owner)
          (claim_method pk vault num chain amm owner x
            ∷ claim_post_instructions pk vault num chain amm owner)
          accepted in
      let first_three = pushed-Accepts owner three (make pool.token_b_mint owner) all in
      let first_two = pushed-Accepts owner two (make pool.token_a_mint owner) first_three.0 in
      let made = pushed-Accepts owner one (make pool.lp_mint escrow) first_two.0 in
      differ (escrow_pays pool.lp_mint escrow owner e made.1)

  -- If the escrow is not the owner, then what the interface description asks of the accounts, the signatures
  -- and the arguments is met by every instruction of `claim_lock_fee` just when the token account of the
  -- escrow exists already; otherwise the escrow, which does not sign, would have to pay for it.
  pub claim_lock_fee-IsAccepted_iff :
      (amm : AmmImpl pk vault num) (owner : PublicKey) (x : ℤ)
      → lock_escrow_pk pk vault num chain amm owner ≢ owner
      → (escrow_account amm owner ≡ true)
        ↔ IsAccepted (claim_lock_fee pk vault num chain amm owner x)
  claim_lock_fee-IsAccepted_iff amm owner x differ = (
    claim_lock_fee-IsAccepted amm owner x,
    λ accepted. elim (Bool-cases (escrow_account amm owner)) [
      | inl e ↦ e
      | inr e ↦ absurd (claim_lock_fee_unsigned amm owner x e differ accepted)
    ],
  )
