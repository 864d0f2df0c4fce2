-- ===== src/Idl/Types.antt =====
-- The interface description of ts-client/src/amm/idl.ts: what it says of an instruction, and what it asks
-- of a call.
use Prim.Native.String.{String}
use mercurial_dynamic_amm_sd.Prelude.{ℕ, Bool, List}

pub data IdlType : Type 0 where
  u8 u64 u128 bool public_key : IdlType
  option : IdlType → IdlType
  defined : String → IdlType
  array : IdlType → ℕ → IdlType

pub record IdlAccount : Type 0 where
  pub name : String
  pub is_mut : Bool
  pub is_signer : Bool

abbrev pub account : String → Bool → Bool → IdlAccount
account name is_mut is_signer = record { name = name; is_mut = is_mut; is_signer = is_signer }

pub record IdlInstruction : Type 0 where
  pub name : String
  pub accounts : List IdlAccount
  pub args : List (String × IdlType)
