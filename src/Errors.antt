-- ===== src/Errors.antt =====
-- ts-client/src/amm/error.ts: the class DynamicAmmError.
pub mod Codes
use mathlib.Core.Option.{none}
use Prim.Native.String.{String}
use mercurial_dynamic_amm_sd.Prelude.{ℕ, Option, some, List, [], ◌∷◌, if◌then◌else◌, ◌==◌}
use mercurial_dynamic_amm_sd.Types.{PublicKey}
use mercurial_dynamic_amm_sd.Constants.{program_id}
use mercurial_dynamic_amm_sd.Idl.Errors.{IdlError, idl_errors}

-- What `AnchorError.parse` finds in the logs of a transaction: the program, and its error.
pub record AnchorError : Type 0 where
  pub program : PublicKey
  pub error : IdlError

-- What the constructor is called with. An instance of Error is given as what is parsed of it; another object
-- that is no number equals no code.
pub data Thrown : Type 0 where
  code : ℕ → Thrown
  instance_of_error : Option AnchorError → Thrown
  another_object : Thrown

pub record DynamicAmmError : Type 0 where
  pub error_code : ℕ
  pub error_name : String
  pub error_message : String

abbrev pub something_went_wrong : DynamicAmmError
something_went_wrong = record {
  error_code = 0;
  error_name = "Something went wrong";
  error_message = "Something went wrong";
}

abbrev pub of_idl_error : IdlError → DynamicAmmError
of_idl_error e = record { error_code = e.code; error_name = e.name; error_message = e.msg }

-- `errors.find((err) => err.code === error)`.
unfoldable pub find_error : ℕ → List IdlError → Option IdlError
find_error n [] = none
find_error n (e ∷ es) = if e.code == n then some e else find_error n es

report : Option IdlError → DynamicAmmError
report none = something_went_wrong
report (some e) = of_idl_error e

unfoldable pub dynamic_amm_error : Thrown → DynamicAmmError
unfolding report
dynamic_amm_error (code n) = report (find_error n idl_errors)
dynamic_amm_error another_object = something_went_wrong
dynamic_amm_error (instance_of_error none) = something_went_wrong
dynamic_amm_error (instance_of_error (some anchor_error)) =
    if anchor_error.program == program_id
    then of_idl_error anchor_error.error
    else something_went_wrong
