-- ===== src/Transactions/Create/Accepted.antt =====
-- The transactions that create a pool in ts-client/src/amm/index.ts against the interface description.
use mathlib.Core.Option.{none}
use mathlib.Core.Path.{subst}
use mercurial_dynamic_amm_sd.Prelude.{
  ℕ, ℤ, ◌≡◌, refl, Bool, true, false, List, [], ◌∷◌, ◌==◌, Option, some, ok, arith, Bool-cases, inl,
  inr, >>=-elim, ok_injective,
}
use mercurial_dynamic_amm_sd.Types.{PublicKey}
use mercurial_dynamic_amm_sd.Chunks.Requests.{All}
use mercurial_dynamic_amm_sd.Keys.{TokenInfo, generate_curve_type, derive_pool_address}
use mercurial_dynamic_amm_sd.Transactions.{
  Chain, Instruction, Transaction, set_compute_unit_limit, payer_or, wrap_sol_instruction,
}
use mercurial_dynamic_amm_sd.Transactions.Accepts.{
  IsAccepted, Accepts, AcceptsIf, Accepts-append, push-Accepts, if_Accepts, ata-AcceptsIf,
  wrap-Accepts,
}
use mercurial_dynamic_amm_sd.Transactions.Create.{
  NewPool, SwapLiquidity, create_vault_instruction, create_vaults, create_payer_token,
  wrap_if_native, pre_instructions, new_pool_accounts, lock_instructions, swap_transactions,
  pre_transactions, pool_transactions,
}
use mercurial_dynamic_amm_sd.Transactions.Create.Methods.{
  create_pool_with_config, create_pool_with_config_2, create_permissionless_pool,
}

module _ (chain : Chain) (program_id : PublicKey) where
  open chain use {native_mint, find_program_address, has_create_vault, fetch_vault_lp_mint}

  create_vault-AcceptsIf :
      (payer mint : PublicKey) (found : Option PublicKey)
      → AcceptsIf payer (create_vault_instruction chain program_id payer mint found)
  unfolding create_vault_instruction
  create_vault-AcceptsIf payer mint (some lp) = tt
  create_vault-AcceptsIf payer mint none = elim (Bool-cases (has_create_vault payer mint)) [
    | inl e ↦ rw e refl
    | inr e ↦ rw e tt
  ]

  create_payer_token-AcceptsIf :
      (payer mint : PublicKey) (skip : Bool)
      → AcceptsIf payer (create_payer_token chain program_id payer mint skip)
  unfolding create_payer_token payer_or
  create_payer_token-AcceptsIf payer mint true = tt
  create_payer_token-AcceptsIf payer mint false = ata-AcceptsIf chain mint payer none

  wrap_if_native-Accepts :
      (payer mint to : PublicKey) (x : ℤ)
      → All (Accepts payer) (wrap_if_native chain program_id payer mint to x)
  unfolding wrap_if_native
  wrap_if_native-Accepts payer mint to x =
      if_Accepts payer (mint == native_mint) (wrap_sol_instruction chain payer to x)
        (wrap-Accepts chain payer to x)

  pre_instructions-Accepts :
      (payer : PublicKey) (pool : NewPool) (skip_a skip_b : Bool) (a b : ℤ)
      → All (Accepts payer) (pre_instructions chain program_id payer pool skip_a skip_b a b)
  unfolding pre_instructions create_vaults
  pre_instructions-Accepts payer pool skip_a skip_b a b =
      Accepts-append payer _ _
        (push-Accepts payer _ _
          (push-Accepts payer _ _
            (push-Accepts payer _ _
              (push-Accepts payer [] _ tt
                (create_vault-AcceptsIf payer pool.token_a_mint (fetch_vault_lp_mint pool.a_vault)))
              (create_vault-AcceptsIf payer pool.token_b_mint (fetch_vault_lp_mint pool.b_vault)))
            (create_payer_token-AcceptsIf payer pool.token_a_mint skip_a))
          (create_payer_token-AcceptsIf payer pool.token_b_mint skip_b))
        (Accepts-append payer _ _
          (wrap_if_native-Accepts payer pool.token_a_mint pool.payer_token_a a)
          (wrap_if_native-Accepts payer pool.token_b_mint pool.payer_token_b b))

  lock_instructions-Accepts :
      (payer : PublicKey) (pool : NewPool) (lock : Bool)
      → All (Accepts payer) (lock_instructions chain program_id payer pool lock)
  unfolding lock_instructions payer_or
  lock_instructions-Accepts payer pool false = tt
  lock_instructions-Accepts payer pool true =
      Accepts-append payer _ _
        (push-Accepts payer _ _ (ground arith, tt)
          (ata-AcceptsIf chain pool.lp_mint _ (some payer)))
        (ground arith, tt)

  swap_transactions-IsAccepted :
      (payer : PublicKey) (pool : NewPool) (swap : Option SwapLiquidity)
      → All IsAccepted (swap_transactions chain program_id payer pool swap)
  unfolding swap_transactions
  swap_transactions-IsAccepted payer pool none = tt
  swap_transactions-IsAccepted payer pool (some swap) = ((ground arith, tt), tt)

  pool_transactions-Accepts :
      (payer : PublicKey) (pool : NewPool) (pre : List Instruction) (create : Instruction)
      (lock : Bool) (swap : Option SwapLiquidity)
      → All (Accepts payer) pre
      → Accepts payer create
      → All IsAccepted (pool_transactions chain program_id payer pool pre create lock swap)
  unfolding pool_transactions pre_transactions
  pool_transactions-Accepts payer pool [] create lock swap h k = (
    (tt, (k, lock_instructions-Accepts payer pool lock)),
    swap_transactions-IsAccepted payer pool swap,
  )
  pool_transactions-Accepts payer pool (i ∷ is) create lock swap h k = (
    h,
    (
      (tt, (k, lock_instructions-Accepts payer pool lock)),
      swap_transactions-IsAccepted payer pool swap,
    ),
  )

  pub create_pool_with_config_2-IsAccepted :
      (payer a_mint b_mint : PublicKey) (a b : ℤ) (config : PublicKey) (lock : Bool)
      (swap : Option SwapLiquidity) (activation : Option ℤ)
      → All IsAccepted (
          create_pool_with_config_2 chain program_id payer a_mint b_mint a b config lock swap
            activation)
  unfolding create_pool_with_config_2 new_pool_accounts
  create_pool_with_config_2-IsAccepted payer a_mint b_mint a b config lock swap activation =
      pool_transactions-Accepts payer _ _ _ lock swap
        (pre_instructions-Accepts payer _ false false a b) (ground arith)

  pub create_pool_with_config-IsAccepted :
      (payer a_mint b_mint : PublicKey) (a b : ℤ) (config : PublicKey) (lock : Bool)
      (swap : Option SwapLiquidity) (skip_a skip_b : Bool)
      → All IsAccepted (
          create_pool_with_config chain program_id payer a_mint b_mint a b config lock swap skip_a
            skip_b)
  unfolding create_pool_with_config new_pool_accounts
  create_pool_with_config-IsAccepted payer a_mint b_mint a b config lock swap skip_a skip_b =
      pool_transactions-Accepts payer _ _ _ lock swap
        (pre_instructions-Accepts payer _ skip_a skip_b a _) (ground arith)

  pub create_permissionless_pool-IsAccepted :
      (payer : PublicKey) (a_info b_info : TokenInfo) (a b : ℤ) (is_stable : Bool) (fee : ℕ)
      (skip : Bool) {t : Transaction}
      → create_permissionless_pool chain program_id payer a_info b_info a b is_stable fee skip
        ≡ ok t
      → IsAccepted t
  unfolding create_permissionless_pool new_pool_accounts
  create_permissionless_pool-IsAccepted payer a_info b_info a b is_stable fee skip h =
      >>=-elim (generate_curve_type a_info b_info is_stable) h (λ curve_type found h1.
        >>=-elim (derive_pool_address find_program_address a_info b_info is_stable fee program_id)
          h1
          (λ address derived h2. subst IsAccepted (ok_injective h2) (
            Accepts-append payer (set_compute_unit_limit 600_000 ∷ _) _
              (tt, pre_instructions-Accepts payer _ skip false a b) (ground arith, tt))))
