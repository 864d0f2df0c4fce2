-- ===== src/Transactions/Accepts.antt =====
-- What the interface description, ts-client/src/amm/idl.ts, asks of the calls that the client makes: an
-- account under each name, the fee payer where a signature is wanted, and arguments of the types.
use Prim.Native.String.{String}
use text.Mathlib.Text.{◌==◌ as str_eq}
use mathlib.Core.Option.{none}
use mercurial_dynamic_amm_sd.Prelude.{
  ℤ, ◌≡◌, refl, Bool, true, false, ◌++◌, Bool-cases, inl, inr, List, [], ◌∷◌, Option, some,
  if◌then◌else◌,
}
use mercurial_dynamic_amm_sd.Types.{PublicKey}
use mercurial_dynamic_amm_sd.Chunks.Requests.{All}
use mercurial_dynamic_amm_sd.Idl.Types.{IdlType, u64, option, defined, IdlAccount}
use mercurial_dynamic_amm_sd.Transactions.{
  Arg, number, optional, curve, config, Instruction, Transaction, create_associated_token_account,
  transfer, sync_native, close_account, set_compute_unit_limit, create_vault, Chain, push, payer_or,
  get_associated_token_account, get_or_create_ata_instruction, wrap_sol_instruction,
  unwrap_sol_instruction,
}

abbrev lookup : String → List (String × PublicKey) → Option PublicKey
lookup name [] = none
lookup name ((n, key) ∷ rest) = if str_eq n name then some key else lookup name rest

-- Only the fee payer signs.
abbrev Signed : (is_signer : Bool) → (key fee_payer : PublicKey) → Type 0
Signed true key fee_payer = key ≡ fee_payer
Signed false key fee_payer = Unit

abbrev Given : (fee_payer : PublicKey) → IdlAccount → Option PublicKey → Type 0
Given fee_payer account none = ⊥
Given fee_payer account (some key) = Signed account.is_signer key fee_payer

abbrev pub AccountsGiven :
    (fee_payer : PublicKey) → List IdlAccount → List (String × PublicKey) → Type 0
AccountsGiven fee_payer [] given = Unit
AccountsGiven fee_payer (account ∷ rest) given =
    Given fee_payer account (lookup account.name given) × AccountsGiven fee_payer rest given

abbrev Fits : IdlType → Arg → Type 0
Fits u64 (number n) = Unit
Fits (option t) (optional n) = t ≡ u64
Fits (defined name) (curve c) = str_eq name "CurveType" ≡ true
Fits (defined name) (config c) = str_eq name "ConfigParameters" ≡ true
Fits t arg = ⊥

abbrev pub ArgsFit : List (String × IdlType) → List Arg → Type 0
ArgsFit [] [] = Unit
ArgsFit (t ∷ ts) (a ∷ rest) = Fits t.1 a × ArgsFit ts rest
ArgsFit [] (a ∷ rest) = ⊥
ArgsFit (t ∷ ts) [] = ⊥

-- The programs of the other instructions want the signature of the account that pays or is closed.
abbrev pub Accepts : (fee_payer : PublicKey) → Instruction → Type 0
Accepts fee_payer (Instruction.method program idl args accounts remaining) =
    AccountsGiven fee_payer idl.accounts accounts × ArgsFit idl.args args
Accepts fee_payer (create_associated_token_account payer account owner mint) = payer ≡ fee_payer
Accepts fee_payer (transfer from to lamports) = from ≡ fee_payer
Accepts fee_payer (close_account account destination owner) = owner ≡ fee_payer
Accepts fee_payer (create_vault payer mint) = payer ≡ fee_payer
Accepts fee_payer (sync_native program account) = Unit
Accepts fee_payer (set_compute_unit_limit units) = Unit

abbrev pub IsAccepted : Transaction → Type 0
IsAccepted t = All (Accepts t.fee_payer) t.instructions

abbrev pub AcceptsIf : (fee_payer : PublicKey) → Option Instruction → Type 0
AcceptsIf fee_payer none = Unit
AcceptsIf fee_payer (some instruction) = Accepts fee_payer instruction

pub Accepts-append :
    (payer : PublicKey) (xs ys : List Instruction)
    → All (Accepts payer) xs
    → All (Accepts payer) ys
    → All (Accepts payer) (xs ++ ys)
Accepts-append payer [] ys hx hy = hy
Accepts-append payer (x ∷ xs) ys (h, hx) hy = (h, Accepts-append payer xs ys hx hy)

pub push-Accepts :
    (payer : PublicKey) (xs : List Instruction) (i : Option Instruction)
    → All (Accepts payer) xs
    → AcceptsIf payer i
    → All (Accepts payer) (push xs i)
push-Accepts payer xs none h k = h
push-Accepts payer xs (some i) h k = Accepts-append payer xs (i ∷ []) h (k, tt)

pub Accepts-prefix :
    (payer : PublicKey) (xs ys : List Instruction)
    → All (Accepts payer) (xs ++ ys)
    → All (Accepts payer) xs
Accepts-prefix payer [] ys h = tt
Accepts-prefix payer (x ∷ xs) ys (h, hs) = (h, Accepts-prefix payer xs ys hs)

Accepts-last :
    (payer : PublicKey) (xs : List Instruction) (i : Instruction)
    → All (Accepts payer) (xs ++ (i ∷ []))
    → Accepts payer i
Accepts-last payer [] i h = h.0
Accepts-last payer (x ∷ xs) i h = Accepts-last payer xs i h.1

pub pushed-Accepts :
    (payer : PublicKey) (xs : List Instruction) (i : Option Instruction)
    → All (Accepts payer) (push xs i)
    → All (Accepts payer) xs × AcceptsIf payer i
pushed-Accepts payer xs none h = (h, tt)
pushed-Accepts payer xs (some i) h = (Accepts-prefix payer xs (i ∷ []) h, Accepts-last payer xs i h)

pub if_Accepts :
    (payer : PublicKey) (b : Bool) (xs : List Instruction)
    → All (Accepts payer) xs
    → All (Accepts payer) (if b then xs else [])
if_Accepts payer true xs h = h
if_Accepts payer false xs h = tt

module _ (chain : Chain) where
  -- The account of another owner is made at the cost of a payer, if one is named.
  pub ata-AcceptsIf :
      (mint owner : PublicKey) (payer : Option PublicKey)
      → AcceptsIf
          (payer_or chain payer owner)
          (get_or_create_ata_instruction chain mint owner payer).1
  unfolding get_or_create_ata_instruction
  ata-AcceptsIf mint owner payer =
      elim (Bool-cases (chain.account_exists (get_associated_token_account chain mint owner))) [
        | inl e ↦ rw e tt
        | inr e ↦ rw e refl
      ]

  pub wrap-Accepts :
      (owner to : PublicKey) (amount : ℤ)
      → All (Accepts owner) (wrap_sol_instruction chain owner to amount)
  unfolding wrap_sol_instruction
  wrap-Accepts owner to amount = (refl, (tt, tt))

  pub unwrap-Accepts :
      (owner : PublicKey) → All (Accepts owner) (push [] (unwrap_sol_instruction chain owner))
  unfolding unwrap_sol_instruction
  unwrap-Accepts owner = (refl, tt)
