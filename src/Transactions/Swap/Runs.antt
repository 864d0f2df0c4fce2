-- ===== src/Transactions/Swap/Runs.antt =====
-- `swap` of ts-client/src/amm/index.ts, run against the token accounts of the owner.
use mathlib.Core.Option.{none}
use mercurial_dynamic_amm_sd.Prelude.{
  ℤ, ◌≡◌, refl, ◌∙◌, true, false, not, [], ◌&&◌, Option, some, if◌then◌else◌, ◌==◌, arith,
  Bool-cases, inl, inr,
}
use mercurial_dynamic_amm_sd.Types.{PublicKey}
use mercurial_dynamic_amm_sd.SwapCurve.{Packages}
use mercurial_dynamic_amm_sd.Utils.{Numbers}
use mercurial_dynamic_amm_sd.Vault.{VaultSdk}
use mercurial_dynamic_amm_sd.Pool.{AmmImpl}
use mercurial_dynamic_amm_sd.Transactions.{Chain, push, unwrap_sol_instruction}
use mercurial_dynamic_amm_sd.Transactions.Runs.{
  Ledger, Runs, Runs-on, call-Runs, push-Runs, if_Runs, wrap-Runs, key_of, got, got_there, make,
  ensure, different,
}
use mercurial_dynamic_amm_sd.Transactions.Swap.{swap, referral}

module _ (pk : Packages) (vault : VaultSdk) (num : Numbers) (chain : Chain) where
  open chain use {native_mint, account_exists}

  abbrev pub source_mint : AmmImpl pk vault num → (in_token_mint : PublicKey) → PublicKey
  source_mint amm mint =
      if amm.token_a_mint_address == mint
      then amm.pool_state.token_a_mint
      else amm.pool_state.token_b_mint

  abbrev pub destination_mint : AmmImpl pk vault num → (in_token_mint : PublicKey) → PublicKey
  destination_mint amm mint =
      if amm.token_a_mint_address == mint
      then amm.pool_state.token_b_mint
      else amm.pool_state.token_a_mint

  -- The account of the referrer is neither of the owner's.
  abbrev pub Apart :
      AmmImpl pk vault num → (owner in_token_mint : PublicKey) → Option PublicKey → Type 0
  Apart amm owner mint none = Unit
  Apart amm owner mint (some referrer) =
      ((key_of chain (source_mint amm mint) owner == key_of chain mint referrer) ≡ false)
      × ((key_of chain (destination_mint amm mint) owner == key_of chain mint referrer) ≡ false)

  refers :
      (amm : AmmImpl pk vault num) (owner mint : PublicKey) (referrer : Option PublicKey)
      (before : Ledger)
      → ((k : PublicKey)
          → (key_of chain (source_mint amm mint) owner == k) ≡ false
          → (key_of chain (destination_mint amm mint) owner == k) ≡ false
          → before k ≡ account_exists k)
      → Apart amm owner mint referrer
      → before (key_of chain (source_mint amm mint) owner) ≡ true
      → before (key_of chain (destination_mint amm mint) owner) ≡ true
      → (after : Ledger) × Runs
          (push [] (referral pk vault num chain referrer mint owner).0)
          before
          after
        × (after (key_of chain (source_mint amm mint) owner) ≡ true)
        × (after (key_of chain (destination_mint amm mint) owner) ≡ true)
  unfolding referral
  refers amm owner mint none before same apart s d = (before, record { ends = refl }, s, d)
  refers amm owner mint (some referrer) before same apart s d =
      let source = key_of chain (source_mint amm mint) owner in
      let destination = key_of chain (destination_mint amm mint) owner in
      let key = key_of chain mint referrer in
      let (after, runs, made) =
        ensure chain mint referrer (some owner) before (same key apart.0 apart.1) in
      (
        after,
        runs,
        made.others source (different chain source key apart.0) ∙ s,
        made.others destination (different chain destination key apart.1) ∙ d,
      )

  unwraps :
      (destination owner : PublicKey) (ledger : Ledger)
      → ledger (key_of chain destination owner) ≡ true
      → (after : Ledger) × Runs
          (if native_mint == destination then push [] (unwrap_sol_instruction chain owner) else [])
          ledger
          after
  unfolding unwrap_sol_instruction
  unwraps destination owner ledger e =
      let closed : Ledger = λ k. not (key_of chain native_mint owner == k) && ledger k in
      elim (Bool-cases (native_mint == destination)) [
        | inl native ↦
            let same : native_mint ≡ destination = ground arith in
            (closed, record { ends = rw (native, same, e) refl })
        | inr other ↦ (ledger, record { ends = rw other refl })
      ]

  -- If the owner's accounts for the token paid in and for the token received have two addresses, and the
  -- referrer's account, if a referrer is named, has a third, then the instructions of `swap` run one
  -- after the other from the accounts that exist when they are built: none makes an account that is
  -- there or uses one that is not.
  pub swap-Runs :
      (amm : AmmImpl pk vault num) (owner mint : PublicKey) (x y : ℤ) (referrer : Option PublicKey)
      → (key_of chain (source_mint amm mint) owner
          == key_of chain (destination_mint amm mint) owner)
        ≡ false
      → Apart amm owner mint referrer
      → (after : Ledger) × Runs
          (swap pk vault num chain amm owner mint x y referrer).instructions
          account_exists
          after
  unfolding swap
  swap-Runs amm owner mint x y referrer differ apart =
      let from = source_mint amm mint in
      let to = destination_mint amm mint in
      let (l, run_source, in_source) = ensure chain from owner none account_exists refl in
      let (m, run_destination, in_destination) =
        ensure chain to owner none l (in_source.others (key_of chain to owner) differ) in
      let source_there =
        in_destination.others (key_of chain from owner)
          (different chain (key_of chain from owner) (key_of chain to owner) differ)
        ∙ in_source.there in
      let (n, run_referral, at_source, at_destination) =
        refers amm owner mint referrer m (λ k s d. in_destination.others k d ∙ in_source.others k s)
          apart source_there in_destination.there in
      let (after, run_unwrap) = unwraps to owner n at_destination in
      let source_got = got_there chain from owner m source_there in
      let at_got = got_there chain from owner n at_source in
      let to_got = got_there chain to owner n at_destination in
      (
        after,
        Runs-on
            (push-Runs (referral pk vault num chain referrer mint owner).0
              (Runs-on (push-Runs (make chain to owner) run_source run_destination) (
                if_Runs (from == native_mint)
                  (wrap-Runs chain owner (got chain from owner) x m source_got)))
              run_referral)
            (call-Runs (rw (at_got, to_got) refl) run_unwrap),
      )
