-- ===== src/Transactions/Liquidity/Runs.antt =====
-- `deposit` and `withdraw` of ts-client/src/amm/index.ts, run against the token accounts of the owner.
use mercurial_dynamic_amm_sd.Prelude.{
  ℤ, ◌≡◌, refl, sym, ◌∙◌, true, not, List, ◌||◌, ◌&&◌, ◌==◌, arith, is_zero, Bool-cases, inl, inr,
}
use mercurial_dynamic_amm_sd.Types.{PublicKey}
use mercurial_dynamic_amm_sd.SwapCurve.{Packages}
use mercurial_dynamic_amm_sd.Utils.{Numbers}
use mercurial_dynamic_amm_sd.Vault.{VaultSdk}
use mercurial_dynamic_amm_sd.Pool.{AmmImpl, is_stable_pool}
use mercurial_dynamic_amm_sd.Transactions.{Chain, Instruction, unwrap_sol_instruction}
use mercurial_dynamic_amm_sd.Transactions.Runs.{
  Ledger, Runs, Runs-on, call-Runs, if_Runs, wrap-Runs, key_of, got, got_there, Made, Distinct,
  three-Made,
}
use mercurial_dynamic_amm_sd.Transactions.Liquidity.{
  deposit, deposit_method, withdraw, withdraw_method, unwrap_if_native,
}

module _ (pk : Packages) (vault : VaultSdk) (num : Numbers) (chain : Chain) where
  open chain use {native_mint, account_exists}

  -- The addresses of the mints that the object keeps are those of the pool state.
  pub record OwnMints (amm : AmmImpl pk vault num) : Type 0 where
    pub first : amm.token_a_mint_address ≡ amm.pool_state.token_a_mint
    pub second : amm.token_b_mint_address ≡ amm.pool_state.token_b_mint

  abbrev pub DistinctAccounts : AmmImpl pk vault num → (owner : PublicKey) → Type 0
  DistinctAccounts amm owner =
      Distinct chain owner amm.pool_state.token_a_mint amm.pool_state.token_b_mint
        amm.pool_state.lp_mint

  -- A run that ends with the owner's account of the LP token.
  abbrev pub RunsToLp :
      AmmImpl pk vault num → (owner : PublicKey) → List Instruction → Ledger → Type 0
  RunsToLp amm owner instructions before =
      (after : Ledger) × Runs instructions before after
      × (after (key_of chain amm.pool_state.lp_mint owner) ≡ true)

  equal : (x y : PublicKey) → (x == y) ≡ true → x ≡ y
  equal x y h = ground arith

  unwraps :
      (amm : AmmImpl pk vault num) (owner : PublicKey) (ledger : Ledger)
      → OwnMints amm
      → DistinctAccounts amm owner
      → Made chain owner amm.pool_state.token_a_mint amm.pool_state.token_b_mint
          amm.pool_state.lp_mint ledger
      → RunsToLp amm owner (unwrap_if_native pk vault num chain amm owner) ledger
  unfolding unwrap_if_native unwrap_sol_instruction
  unwraps amm owner ledger own d made =
      let pool = amm.pool_state in
      let closed : Ledger = λ k. not (key_of chain native_mint owner == k) && ledger k in
      elim (Bool-cases (amm.token_a_mint_address == native_mint)) [
        | inl a ↦
            let e : native_mint ≡ pool.token_a_mint =
              sym (equal amm.token_a_mint_address native_mint a) ∙ own.first in
            (
              closed,
              record { ends = rw (a, e, made.first) refl },
              rw (e, d.first_third, made.third) refl,
            )
        | inr a ↦ elim (Bool-cases (amm.token_b_mint_address == native_mint)) [
          | inl b ↦
              let e : native_mint ≡ pool.token_b_mint =
                sym (equal amm.token_b_mint_address native_mint b) ∙ own.second in
              (
                closed,
                record { ends = rw (a, b, e, made.second) refl },
                rw (e, d.second_third, made.third) refl,
              )
          | inr b ↦ (ledger, record { ends = rw (a, b) refl }, made.third)
        ]
      ]

  pub deposit-RunsToLp :
      (amm : AmmImpl pk vault num) (owner : PublicKey) (a b lp : ℤ)
      → OwnMints amm
      → DistinctAccounts amm owner
      → RunsToLp amm owner (deposit pk vault num chain amm owner a b lp).instructions account_exists
  unfolding deposit deposit_method
  deposit-RunsToLp amm owner a b lp own d =
      let pool = amm.pool_state in
      let (ledger, run_made, made) =
        three-Made chain owner pool.token_a_mint pool.token_b_mint pool.lp_mint d in
      let (after, run_unwrap, there) = unwraps amm owner ledger own d made in
      let at_a = got_there chain pool.token_a_mint owner ledger made.first in
      let at_b = got_there chain pool.token_b_mint owner ledger made.second in
      let at_lp = got_there chain pool.lp_mint owner ledger made.third in
      (
        after,
        Runs-on run_made (
            Runs-on
              (if_Runs (native_mint == amm.token_a_mint_address)
                (wrap-Runs chain owner (got chain pool.token_a_mint owner) a ledger at_a))
              (Runs-on
                (if_Runs (native_mint == amm.token_b_mint_address)
                  (wrap-Runs chain owner (got chain pool.token_b_mint owner) b ledger at_b))
                (elim (Bool-cases (is_zero amm.lp_supply)) [
                  | inl first ↦ rw first (call-Runs (rw (at_a, at_b, at_lp) refl) run_unwrap)
                  | inr later ↦ elim (Bool-cases (is_stable_pool pk vault num amm)) [
                    | inl stable ↦
                        rw (later, stable) (call-Runs (rw (at_a, at_b, at_lp) refl) run_unwrap)
                    | inr plain ↦
                        rw (later, plain) (call-Runs (rw (at_a, at_b, at_lp) refl) run_unwrap)
                  ]
                ]))),
        there,
      )

  pub withdraw-RunsToLp :
      (amm : AmmImpl pk vault num) (owner : PublicKey) (lp a b : ℤ)
      → OwnMints amm
      → DistinctAccounts amm owner
      → RunsToLp amm owner
          (withdraw pk vault num chain amm owner lp a b).instructions
          account_exists
  unfolding withdraw withdraw_method
  withdraw-RunsToLp amm owner lp a b own d =
      let pool = amm.pool_state in
      let (ledger, run_made, made) =
        three-Made chain owner pool.token_a_mint pool.token_b_mint pool.lp_mint d in
      let (after, run_unwrap, there) = unwraps amm owner ledger own d made in
      let at_a = got_there chain pool.token_a_mint owner ledger made.first in
      let at_b = got_there chain pool.token_b_mint owner ledger made.second in
      let at_lp = got_there chain pool.lp_mint owner ledger made.third in
      (
        after,
        Runs-on run_made
            (elim (Bool-cases (is_stable_pool pk vault num amm && (is_zero a || is_zero b))) [
              | inr both ↦ rw both (call-Runs (rw (at_a, at_b, at_lp) refl) run_unwrap)
              | inl one ↦ elim (Bool-cases (is_zero b)) [
                | inl no_b ↦ rw (one, no_b) (call-Runs (rw (at_a, at_lp) refl) run_unwrap)
                | inr some_b ↦ rw (one, some_b) (call-Runs (rw (at_b, at_lp) refl) run_unwrap)
              ]
            ]),
        there,
      )

  -- For an object whose mints are those of its pool state, and an owner whose token accounts for the two
  -- tokens and the LP token have three addresses, the instructions of `deposit` and of `withdraw`, whatever the amounts, run
  -- one after the other from the accounts that exist when they are built: none makes an account that is there or uses one
  -- that is not. At the end the owner has an account for the LP token.
  pub deposit_withdraw-RunsToLp :
      (amm : AmmImpl pk vault num) (owner : PublicKey) (lp a b : ℤ)
      → OwnMints amm
      → DistinctAccounts amm owner
      → RunsToLp amm owner (deposit pk vault num chain amm owner a b lp).instructions account_exists
        × RunsToLp amm owner
            (withdraw pk vault num chain amm owner lp a b).instructions
            account_exists
  deposit_withdraw-RunsToLp amm owner lp a b own d =
      (deposit-RunsToLp amm owner a b lp own d, withdraw-RunsToLp amm owner lp a b own d)
