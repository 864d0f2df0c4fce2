-- ===== src/Errors/Codes.antt =====
-- The codes of ts-client/src/amm/idl.ts, as ts-client/src/amm/error.ts looks them up.
use mercurial_dynamic_amm_sd.Prelude.{
  ℕ, zero, suc, ◌+◌, ◌-◌, ◌<◌, ◌≡◌, refl, ap, ◌∙◌, arith, ltb, List, [], ◌∷◌, if◌then◌else◌, ◌==◌,
  true, false, Bool-cases, inl, inr,
}
use mercurial_dynamic_amm_sd.Idl.Errors.{IdlError, idl_errors}
use mercurial_dynamic_amm_sd.Errors.{
  code, DynamicAmmError, something_went_wrong, of_idl_error, find_error, report, dynamic_amm_error,
}

-- The entry at a position, and what went wrong where there is none.
abbrev pub entry : List IdlError → ℕ → DynamicAmmError
entry [] n = something_went_wrong
entry (e ∷ es) zero = of_idl_error e
entry (e ∷ es) (suc n) = entry es n

-- The codes of a list count up from a number.
abbrev IsFrom : (start : ℕ) → List IdlError → Type 0
IsFrom start [] = Unit
IsFrom start (e ∷ es) = (e.code ≡ start) × IsFrom (suc start) es

before :
    (start n : ℕ) (es : List IdlError)
    → IsFrom start es
    → n < start
    → report (find_error n es) ≡ something_went_wrong
unfolding find_error report
before start n [] h lt = refl
before start n (e ∷ es) (h, hs) lt =
    let other : (e.code == n) ≡ false = ground arith in
    rw other (before (suc start) n es hs (omega (arith, lt)))

from :
    (start n : ℕ) (es : List IdlError)
    → IsFrom start es
    → report (find_error (start + n) es) ≡ entry es n
unfolding find_error report
from start n [] h = refl
from start zero (e ∷ es) (h, hs) =
    let this : (e.code == start + 0) ≡ true = ground arith in rw this refl
from start (suc n) (e ∷ es) (h, hs) =
    let other : (e.code == start + suc n) ≡ false = ground arith in
    let shift : start + suc n ≡ suc start + n = omega arith in
    rw other (ap (λ k. report (find_error k es)) shift ∙ from (suc start) n es hs)

codes : IsFrom 6000 idl_errors
codes = ground arith

-- A number is reported as the error whose place in the interface description is the number less 6000, and as an
-- unknown error with the code 0 if it is below 6000 or there is no such place.
pub dynamic_amm_error-code :
    (n : ℕ)
    → dynamic_amm_error (code n)
      ≡ (if ltb n 6000 then something_went_wrong else entry idl_errors (n - 6000))
unfolding dynamic_amm_error
dynamic_amm_error-code n = elim (Bool-cases (ltb n 6000)) [
  | inl low ↦ rw low (before 6000 n idl_errors codes (ground arith))
  | inr high ↦
      let split : n ≡ 6000 + (n - 6000) = ground arith in
      rw high
        (ap (λ k. report (find_error k idl_errors)) split ∙ from 6000 (n - 6000) idl_errors codes)
]
