-- ===== src/Transactions/Runs.antt =====
-- What the token programs do with the instructions of ts-client/src/amm/index.ts, as far as it concerns
-- which token accounts exist: an account can be made only where there is none, and used only where
-- there is one.
use Prim.Native.String.{String}
use text.Mathlib.Text.{◌==◌ as str_eq}
use mathlib.Core.Option.{none}
use mercurial_dynamic_amm_sd.Prelude.{
  ℤ, ◌≡◌, refl, ap, ◌∙◌, arith, Bool, true, false, not, ◌&&◌, ◌||◌, List, [], ◌∷◌, ◌++◌, Option,
  some, if◌then◌else◌, ◌==◌, Bool-cases, inl, inr,
}
use mercurial_dynamic_amm_sd.Types.{PublicKey}
use mercurial_dynamic_amm_sd.Transactions.{
  Chain, Instruction, method, create_associated_token_account, transfer, sync_native, close_account,
  set_compute_unit_limit, create_vault, push, get_associated_token_account,
  get_or_create_ata_instruction, wrap_sol_instruction,
}

-- Which token accounts exist.
abbrev pub Ledger : Type 0
Ledger = PublicKey → Bool

-- The names under which the program is given token accounts of users.
abbrev is_user_account : String → Bool
is_user_account name =
    str_eq name "userSourceToken"
    || str_eq name "userDestinationToken"
    || str_eq name "userAToken"
    || str_eq name "userBToken"
    || str_eq name "userPoolLp"
    || str_eq name "sourceTokens"
    || str_eq name "escrowVault"

abbrev users_exist : Ledger → List (String × PublicKey) → Bool
users_exist ledger [] = true
users_exist ledger ((name, key) ∷ rest) =
    (if is_user_account name then ledger key else true) && users_exist ledger rest

-- The ledger after an instruction, or none if it fails.
abbrev run_one : Instruction → Ledger → Option Ledger
run_one (create_associated_token_account payer account owner mint) ledger =
    if ledger account then none else some (λ k. account == k || ledger k)
run_one (sync_native program account) ledger = if ledger account then some ledger else none
run_one (close_account account destination owner) ledger =
    if ledger account then some (λ k. not (account == k) && ledger k) else none
run_one (method program idl args accounts remaining) ledger =
    if users_exist ledger accounts then some ledger else none
run_one (transfer from to lamports) ledger = some ledger
run_one (set_compute_unit_limit units) ledger = some ledger
run_one (create_vault payer mint) ledger = some ledger

abbrev and_then : Option Ledger → (Ledger → Option Ledger) → Option Ledger
and_then none next = none
and_then (some ledger) next = next ledger

abbrev pub run : List Instruction → Ledger → Option Ledger
run [] ledger = some ledger
run (i ∷ is) ledger = and_then (run_one i ledger) (run is)

and_then_append :
    (xs ys : List Instruction) {after : Ledger}
    → ((ledger : Ledger) → run xs ledger ≡ some after → run (xs ++ ys) ledger ≡ run ys after)
    → (o : Option Ledger) → and_then o (run xs) ≡ some after
    → and_then o (run (xs ++ ys)) ≡ run ys after
and_then_append xs ys rest none e = cc
and_then_append xs ys rest (some ledger) e = rest ledger e

pub run-append :
    (xs ys : List Instruction) (ledger : Ledger) {after : Ledger}
    → run xs ledger ≡ some after
    → run (xs ++ ys) ledger ≡ run ys after
run-append [] ys ledger e = ap (λ o. and_then o (run ys)) e
run-append (x ∷ xs) ys ledger {after} e =
    and_then_append xs ys (λ l f. run-append xs ys l f) (run_one x ledger) e

-- A list of instructions runs from one ledger to another.
pub record Runs (instructions : List Instruction) (before after : Ledger) : Type 0 where
  pub ends : run instructions before ≡ some after

pub Runs-on :
    {xs ys : List Instruction} {k l m : Ledger} → Runs xs k l → Runs ys l m → Runs (xs ++ ys) k m
Runs-on {xs} {ys} {k} p q = record { ends = run-append xs ys k p.ends ∙ q.ends }

pub if_Runs :
    (b : Bool) {xs : List Instruction} {ledger : Ledger}
    → Runs xs ledger ledger
    → Runs (if b then xs else []) ledger ledger
if_Runs true p = p
if_Runs false p = record { ends = refl }

-- An instruction that changes nothing, before others.
pub call-Runs :
    {call : Instruction} {xs : List Instruction} {k l : Ledger}
    → run (call ∷ []) k ≡ some k
    → Runs xs k l
    → Runs (call ∷ xs) k l
call-Runs {call} e p = Runs-on {xs = call ∷ []} (record { ends = e }) p

-- One instruction more.
pub push-Runs :
    {xs : List Instruction} {k l m : Ledger} (i : Option Instruction)
    → Runs xs k l
    → Runs (push [] i) l m
    → Runs (push xs i) k m
push-Runs none p q = record { ends = p.ends ∙ q.ends }
push-Runs (some i) p q = Runs-on p q

module _ (chain : Chain) where
  open chain use {account_exists}

  -- The ledger once an account is there that may have been made.
  pub record Ensured (key : PublicKey) (before after : Ledger) : Type 0 where
    pub there : after key ≡ true
    pub others : (k : PublicKey) → (key == k) ≡ false → after k ≡ before k

  -- Unless a change in between has made the account, the instruction that is to make it succeeds.
  pub ensure :
      (mint owner : PublicKey) (payer : Option PublicKey) (before : Ledger)
      → let key = get_associated_token_account chain mint owner in
        before key ≡ account_exists key
        → (after : Ledger) × Runs
            (push [] (get_or_create_ata_instruction chain mint owner payer).1)
            before
            after
          × Ensured key before after
  unfolding get_or_create_ata_instruction
  ensure mint owner payer before same =
      let key = get_associated_token_account chain mint owner in
      elim (Bool-cases (account_exists key)) [
        | inl e ↦ (
          before,
          record { ends = rw e refl },
          record { there = same ∙ e; others = λ k other. refl },
        )
        | inr e ↦ (
          (λ k. key == k || before k),
          record { ends = rw (e, same ∙ e) refl },
          record { there = itself key (before key); others = λ k other. rw other refl },
        )
      ]
    where
      itself : (k : PublicKey) (b : Bool) → (k == k || b) ≡ true
      itself k b = ground arith

  pub wrap-Runs :
      (from to : PublicKey) (amount : ℤ) (ledger : Ledger)
      → ledger to ≡ true
      → Runs (wrap_sol_instruction chain from to amount) ledger ledger
  unfolding wrap_sol_instruction
  wrap-Runs from to amount ledger e = record { ends = rw e refl }

  abbrev pub key_of : (mint owner : PublicKey) → PublicKey
  key_of mint owner = get_associated_token_account chain mint owner

  -- What the instructions that make the owner's accounts for three mints leave behind.
  pub record Made (owner a b c : PublicKey) (after : Ledger) : Type 0 where
    pub first : after (key_of a owner) ≡ true
    pub second : after (key_of b owner) ≡ true
    pub third : after (key_of c owner) ≡ true

  abbrev pub got : (mint owner : PublicKey) → PublicKey
  got mint owner = (get_or_create_ata_instruction chain mint owner none).0

  got_lem : (mint owner : PublicKey) → got mint owner ≡ key_of mint owner
  unfolding get_or_create_ata_instruction
  got_lem mint owner = elim (Bool-cases (account_exists (key_of mint owner))) [
    | inl e ↦ rw (got, e) refl
    | inr e ↦ rw (got, e) refl
  ]

  -- An account that is there is there under the address that is returned with the instruction.
  pub got_there :
      (mint owner : PublicKey) (ledger : Ledger)
      → ledger (key_of mint owner) ≡ true
      → ledger (got mint owner) ≡ true
  got_there mint owner ledger e = ap ledger (got_lem mint owner) ∙ e

  pub record Distinct (owner a b c : PublicKey) : Type 0 where
    pub first_second : (key_of a owner == key_of b owner) ≡ false
    pub first_third : (key_of a owner == key_of c owner) ≡ false
    pub second_third : (key_of b owner == key_of c owner) ≡ false

  pub different : (k l : PublicKey) → (k == l) ≡ false → (l == k) ≡ false
  different k l h = ground arith

  abbrev pub make : (mint owner : PublicKey) → Option Instruction
  make mint owner = (get_or_create_ata_instruction chain mint owner none).1

  pub three-Made :
      (owner a b c : PublicKey)
      → Distinct owner a b c
      → (after : Ledger) × Runs
          (push (push (push [] (make a owner)) (make b owner)) (make c owner))
          account_exists
          after
        × Made owner a b c after
  three-Made owner a b c d =
      let (l, run_a, in_a) = ensure a owner none account_exists refl in
      let (m, run_b, in_b) = ensure b owner none l (in_a.others (key_of b owner) d.first_second) in
      let same_c =
        in_b.others (key_of c owner) d.second_third ∙ in_a.others (key_of c owner) d.first_third in
      let (n, run_c, in_c) = ensure c owner none m same_c in
      (
        n,
        push-Runs (make c owner) (push-Runs (make b owner) run_a run_b) run_c,
        record {
          first =
              in_c.others (key_of a owner)
                (different (key_of a owner) (key_of c owner) d.first_third)
              ∙ in_b.others (key_of a owner)
                  (different (key_of a owner) (key_of b owner) d.first_second)
              ∙ in_a.there;
          second =
              in_c.others (key_of b owner)
                (different (key_of b owner) (key_of c owner) d.second_third)
              ∙ in_b.there;
          third = in_c.there;
        },
      )
