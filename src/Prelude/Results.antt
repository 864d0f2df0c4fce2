-- ===== src/Prelude/Results.antt =====
-- Thrown errors as values: each constructor of `Error` is one `throw`, failed `invariant` or run-time
-- exception of the client.
use mathlib.Core.Path.{◌≡◌, refl}
use mathlib.Core.Bool.{Bool, true, false}

pub data Error : Type 0 where
  -- a BN or bigint division by zero
  division_by_zero : Error
  -- a BN that `toNumber` refuses
  unsafe_number : Error
  -- curve/constant-product.ts
  ceil_div_zero swap_result_zero unsupported_operation : Error
  -- curve/stable-swap.ts
  unsupported_base_pool new_d_less missing_account : Error
  -- utils.ts
  invalid_mint pool_disabled swap_disabled out_amount_exceeds_reserve : Error
  must_one_side_have_vault : Error
  -- a number that does not fit the bytes asked for
  byte_overflow : Error
  -- index.ts
  only_balanced_deposit balanced_deposit_two_sided : Error
  pool_not_found account_not_found clock_account_not_found account_info_not_found : Error
  pool_state_not_found vault_not_found pool_info_not_found lp_account_unreadable : Error
  -- the data of an account that is null, or of a type that no decoder is for
  null_account unknown_account_type undefined_vault : Error
  -- what another package throws: a layout, or a request
  decode_failed request_failed : Error

-- What a call gives back: the error that was thrown, or the value.
pub data Result {ν} (V : Type ν) : Type ν where
  err : (thrown : Error) → Result V
  ok : (value : V) → Result V

-- `invariant(test, error)`, which gives no value.
abbrev pub invariant : (test : Bool) (thrown : Error) → Result (Unit {0})
invariant false thrown = err thrown
invariant true thrown = ok tt

infixl 5 ◌>>=◌ ◌>>◌
-- What follows a thrown error is not run.
abbrev pub ◌>>=◌ {ν ω} :
    {V : Type ν} {W : Type ω} (first : Result V) (next : V → Result W) → Result W
err thrown >>= next = err thrown
ok value >>= next = next value

abbrev pub ◌>>◌ {ω} : {W : Type ω} (first : Result (Unit {0})) (next : Result W) → Result W
first >> next = first >>= (λ (done : Unit {0}). next)

pub ok_injective {ν} : {V : Type ν} {v w : V} → ok v ≡ ok w → v ≡ w
ok_injective same = cc

-- A call that went through, for a proof that goes on with the value of its first part.
pub >>=-elim {ν ω ρ} :
    {V : Type ν} {W : Type ω} {P : Type ρ} (first : Result V) {next : V → Result W} {w : W}
    → (first >>= next) ≡ ok w
    → ((v : V) → first ≡ ok v → next v ≡ ok w → P)
    → P
>>=-elim (err thrown) through goal = cc
>>=-elim (ok v) through goal = goal v refl through

-- The same, with the value as a result.
pub >>=-eq-ok {ν ω} :
    {V : Type ν} {W : Type ω} (first : Result V) (next : V → Result W) {w : W}
    → (first >>= next) ≡ ok w
    → (v : V) × (first ≡ ok v) × (next v ≡ ok w)
>>=-eq-ok first next through = >>=-elim first through (λ v found rest. (v, found, rest))
