-- ===== src/Transactions/Create/Funds.antt =====
-- What the transactions that create a pool in ts-client/src/amm/index.ts transfer to the token accounts
-- of the payer.
use mathlib.Core.Option.{none}
use Prim.Native.String.{String}
use mercurial_dynamic_amm_sd.Prelude.{
  ℤ, ◌+ℤ◌, ◌≡◌, refl, ap, ◌∙◌, Bool, true, false, List, [], ◌∷◌, ◌++◌, ◌==◌, Option, some,
  Bool-cases, inl, inr,
}
use mercurial_dynamic_amm_sd.Types.{PublicKey}
use mercurial_dynamic_amm_sd.Idl.Types.{IdlInstruction}
use mercurial_dynamic_amm_sd.Keys.{derive_lock_escrow_pda, derive_pool_address_with_config}
use mercurial_dynamic_amm_sd.Transactions.{
  Chain, Instruction, Transaction, Arg, method, transfer, create_associated_token_account,
  sync_native, close_account, set_compute_unit_limit, create_vault, push,
  get_associated_token_account, get_or_create_ata_instruction, wrap_sol_instruction,
}
use mercurial_dynamic_amm_sd.Transactions.Create.{
  NewPool, SwapLiquidity, new_pool, create_vault_instruction, create_vaults, create_payer_token,
  wrap_if_native, pre_instructions, lock_instructions, swap_transactions, pre_transactions,
  pool_transactions,
}
use mercurial_dynamic_amm_sd.Transactions.Create.Methods.{
  create_pool_with_config, create_pool_with_config_2, swapped_amount,
}

-- The transfers of lamports among some instructions, each with the account that gets them.
abbrev pub transfers : List Instruction → List (PublicKey × ℤ)
transfers [] = []
transfers (transfer from to lamports ∷ rest) = (to, lamports) ∷ transfers rest
transfers (method program idl args accounts remaining ∷ rest) = transfers rest
transfers (create_associated_token_account payer account owner mint ∷ rest) = transfers rest
transfers (sync_native program account ∷ rest) = transfers rest
transfers (close_account account destination owner ∷ rest) = transfers rest
transfers (set_compute_unit_limit units ∷ rest) = transfers rest
transfers (create_vault payer mint ∷ rest) = transfers rest

abbrev pub all_transfers : List Transaction → List (PublicKey × ℤ)
all_transfers [] = []
all_transfers (t ∷ ts) = transfers t.instructions ++ all_transfers ts

transfers-append : (xs ys : List Instruction) → transfers (xs ++ ys) ≡ transfers xs ++ transfers ys
transfers-append [] ys = refl
transfers-append (transfer from to x ∷ xs) ys = ap (λ rest. (to, x) ∷ rest) (transfers-append xs ys)
transfers-append (method program idl args accounts remaining ∷ xs) ys = transfers-append xs ys
transfers-append (create_associated_token_account payer account owner mint ∷ xs) ys =
    transfers-append xs ys
transfers-append (sync_native program account ∷ xs) ys = transfers-append xs ys
transfers-append (close_account account destination owner ∷ xs) ys = transfers-append xs ys
transfers-append (set_compute_unit_limit units ∷ xs) ys = transfers-append xs ys
transfers-append (create_vault payer mint ∷ xs) ys = transfers-append xs ys

transfers-push :
    (xs : List Instruction) (i : Option Instruction)
    → transfers xs ≡ []
    → transfers (push [] i) ≡ []
    → transfers (push xs i) ≡ []
transfers-push xs none h k = h
transfers-push xs (some i) h k = transfers-append xs (i ∷ []) ∙ rw (h, k) refl

after_silent : (xs ys : List Instruction) → transfers xs ≡ [] → transfers (xs ++ ys) ≡ transfers ys
after_silent xs ys h = transfers-append xs ys ∙ rw h refl

module _ (chain : Chain) (program_id : PublicKey) where
  open chain use {
    native_mint, find_program_address, has_create_vault, fetch_vault_lp_mint, account_exists,
  }

  no_vault_transfers :
      (payer mint : PublicKey) (found : Option PublicKey)
      → transfers (push [] (create_vault_instruction chain program_id payer mint found)) ≡ []
  unfolding create_vault_instruction
  no_vault_transfers payer mint (some lp) = refl
  no_vault_transfers payer mint none = elim (Bool-cases (has_create_vault payer mint)) [
    | inl e ↦ rw e refl
    | inr e ↦ rw e refl
  ]

  no_ata_transfers :
      (mint owner : PublicKey) (payer : Option PublicKey)
      → transfers (push [] (get_or_create_ata_instruction chain mint owner payer).1) ≡ []
  unfolding get_or_create_ata_instruction
  no_ata_transfers mint owner payer =
      elim (Bool-cases (account_exists (get_associated_token_account chain mint owner))) [
        | inl e ↦ rw e refl
        | inr e ↦ rw e refl
      ]

  no_payer_transfers :
      (payer mint : PublicKey) (skip : Bool)
      → transfers (push [] (create_payer_token chain program_id payer mint skip)) ≡ []
  unfolding create_payer_token
  no_payer_transfers payer mint true = refl
  no_payer_transfers payer mint false = no_ata_transfers mint payer none

  transfers-pre_instructions :
      (payer : PublicKey) (pool : NewPool) (skip_a skip_b : Bool) (a b : ℤ)
      → (pool.token_a_mint == native_mint) ≡ false
      → (pool.token_b_mint == native_mint) ≡ true
      → transfers (pre_instructions chain program_id payer pool skip_a skip_b a b)
        ≡ (pool.payer_token_b, b) ∷ []
  unfolding pre_instructions create_vaults wrap_if_native wrap_sol_instruction
  transfers-pre_instructions payer pool skip_a skip_b a b not_a is_b =
      let vault = λ (mint at : PublicKey).
        create_vault_instruction chain program_id payer mint (fetch_vault_lp_mint at) in
      let token =
        λ (mint : PublicKey) (skip : Bool). create_payer_token chain program_id payer mint skip in
      let one = push [] (vault pool.token_a_mint pool.a_vault) in
      let two = push one (vault pool.token_b_mint pool.b_vault) in
      let three = push two (token pool.token_a_mint skip_a) in
      let four = push three (token pool.token_b_mint skip_b) in
      let silent : transfers four ≡ [] =
        transfers-push three (token pool.token_b_mint skip_b)
          (transfers-push two (token pool.token_a_mint skip_a)
            (transfers-push one (vault pool.token_b_mint pool.b_vault)
              (no_vault_transfers payer pool.token_a_mint (fetch_vault_lp_mint pool.a_vault))
              (no_vault_transfers payer pool.token_b_mint (fetch_vault_lp_mint pool.b_vault)))
            (no_payer_transfers payer pool.token_a_mint skip_a))
          (no_payer_transfers payer pool.token_b_mint skip_b) in
      let wrap = λ (mint to : PublicKey) (x : ℤ). wrap_if_native chain program_id payer mint to x in
      after_silent four
        (wrap pool.token_a_mint pool.payer_token_a a ++ wrap pool.token_b_mint pool.payer_token_b b)
        silent
      ∙ rw (not_a, is_b) refl

  lock_transfers :
      (payer : PublicKey) (pool : NewPool) (lock : Bool)
      → transfers (lock_instructions chain program_id payer pool lock) ≡ []
  unfolding lock_instructions get_or_create_ata_instruction
  lock_transfers payer pool false = refl
  lock_transfers payer pool true =
      let escrow = (derive_lock_escrow_pda find_program_address pool.pool payer program_id).0 in
      elim (Bool-cases (account_exists (get_associated_token_account chain pool.lp_mint escrow))) [
        | inl e ↦ rw e refl
        | inr e ↦ rw e refl
      ]

  swap_transfers :
      (payer : PublicKey) (pool : NewPool) (swap : Option SwapLiquidity)
      → all_transfers (swap_transactions chain program_id payer pool swap) ≡ []
  unfolding swap_transactions
  swap_transfers payer pool none = refl
  swap_transfers payer pool (some swap) = refl

  pre_transfers :
      (payer : PublicKey) (pre : List Instruction) (rest : List Transaction)
      → all_transfers rest ≡ []
      → {paid : PublicKey × ℤ} → transfers pre ≡ paid ∷ []
      → all_transfers (pre_transactions chain program_id payer pre ++ rest) ≡ paid ∷ []
  unfolding pre_transactions
  pre_transfers payer [] rest silent h = cc
  pre_transfers payer (i ∷ is) rest silent h = rw (h, silent) refl

  pool_transfers :
      (payer : PublicKey) (pool : NewPool) (pre : List Instruction) (idl : IdlInstruction)
      (args : List Arg) (accounts : List (String × PublicKey)) (lock : Bool)
      (swap : Option SwapLiquidity) {paid : PublicKey × ℤ}
      → transfers pre ≡ paid ∷ []
      → all_transfers (
          pool_transactions chain program_id payer pool pre
            (method program_id idl args accounts [])
            lock
            swap)
        ≡ paid ∷ []
  unfolding pool_transactions
  pool_transfers payer pool pre idl args accounts lock swap h =
      pre_transfers payer pre _
        (rw (lock_transfers payer pool lock, swap_transfers payer pool swap) refl) h

  -- The account of the payer for token B.
  abbrev pub payer_token_b_of : (payer a_mint b_mint config : PublicKey) → PublicKey
  payer_token_b_of payer a_mint b_mint config =
      (new_pool chain program_id payer a_mint b_mint (
        derive_pool_address_with_config find_program_address a_mint b_mint config
          program_id)).payer_token_b

  -- If token B is SOL and token A is not, then the one transfer of lamports in the transactions of
  -- `create_pool_with_config` is to the payer's account for token B, of the amount of token B and the amount of the swap that
  -- may follow; the one of `create_pool_with_config_2` is to the same account, of the amount of token B alone.
  pub pool_with_config_transfers :
      (payer a_mint b_mint : PublicKey) (a b : ℤ) (config : PublicKey) (lock : Bool)
      (swap : Option SwapLiquidity) (skip_a skip_b : Bool) (activation : Option ℤ)
      → (a_mint == native_mint) ≡ false
      → (b_mint == native_mint) ≡ true
      → (all_transfers (
            create_pool_with_config chain program_id payer a_mint b_mint a b config lock swap skip_a
              skip_b)
          ≡ (payer_token_b_of payer a_mint b_mint config, b +ℤ swapped_amount swap) ∷ [])
        × (all_transfers (
              create_pool_with_config_2 chain program_id payer a_mint b_mint a b config lock swap
                activation)
            ≡ (payer_token_b_of payer a_mint b_mint config, b) ∷ [])
  unfolding create_pool_with_config create_pool_with_config_2 new_pool
  pool_with_config_transfers payer a_mint b_mint a b config lock swap skip_a skip_b activation not_a
        is_b =
      let pool =
        new_pool chain program_id payer a_mint b_mint
          (derive_pool_address_with_config find_program_address a_mint b_mint config program_id) in
      (
        pool_transfers payer pool _ _ _ _ lock swap (
            transfers-pre_instructions payer pool skip_a skip_b a (b +ℤ swapped_amount swap) not_a
              is_b),
        pool_transfers payer pool _ _ _ _ lock swap
            (transfers-pre_instructions payer pool false false a b not_a is_b),
      )
