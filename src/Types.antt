-- ===== src/Types.antt =====
-- ts-client/src/amm/types/index.ts, and the pool account of ts-client/src/amm/idl.ts that its types
-- are computed from: the parts that the quotes read.
pub mod Maps
use mathlib.Core.Option.{none}
use mercurial_dynamic_amm_sd.Prelude.{
  ℕ, ℤ, Bool, List, [], ◌∷◌, Option, some, ◌==◌, if◌then◌else◌, Result,
}

-- A public key is the number that its 32 bytes spell, most significant first, so that `equals` is
-- equality and `Buffer.compare` is the order of the numbers.
abbrev pub PublicKey : Type 0
PublicKey = ℕ

pub record PoolFees : Type 0 where
  pub trade_fee_numerator : ℤ
  pub trade_fee_denominator : ℤ
  pub protocol_trade_fee_numerator : ℤ
  pub protocol_trade_fee_denominator : ℤ

pub data DepegType : Type 0 where
  no_depeg marinade lido spl_stake : DepegType

pub record Depeg : Type 0 where
  pub base_virtual_price : ℤ
  pub base_cache_updated : ℤ
  pub depeg_type : DepegType

pub record TokenMultiplier : Type 0 where
  pub token_a_multiplier : ℤ
  pub token_b_multiplier : ℤ
  pub precision_factor : ℕ

pub data CurveType : Type 0 where
  constant_product : CurveType
  stable : (amp : ℤ) → TokenMultiplier → Depeg → (last_amp_updated_timestamp : ℤ) → CurveType

pub data PoolType : Type 0 where
  permissioned permissionless : PoolType

pub data ActivationType : Type 0 where
  slot timestamp : ActivationType

-- The number that stands for a member of the enum.
abbrev pub activation_number : ActivationType → ℕ
activation_number slot = 0
activation_number timestamp = 1

pub record Bootstrapping : Type 0 where
  pub activation_point : ℤ
  pub whitelisted_vault : PublicKey
  pub pool_creator : PublicKey
  -- a number, as the account keeps it
  pub activation_type : ℕ

pub record PoolState : Type 0 where
  pub lp_mint : PublicKey
  pub token_a_mint : PublicKey
  pub token_b_mint : PublicKey
  pub a_vault : PublicKey
  pub b_vault : PublicKey
  pub a_vault_lp : PublicKey
  pub b_vault_lp : PublicKey
  pub a_vault_lp_bump : ℕ
  pub enabled : Bool
  pub protocol_token_a_fee : PublicKey
  pub protocol_token_b_fee : PublicKey
  pub fee_last_updated_at : ℤ
  pub fees : PoolFees
  pub pool_type : PoolType
  pub stake : PublicKey
  pub total_locked_lp : ℤ
  pub bootstrapping : Bootstrapping
  pub curve_type : CurveType

pub record LockEscrowAccount : Type 0 where
  pub pool : PublicKey
  pub owner : PublicKey
  pub escrow_vault : PublicKey
  pub bump : ℕ
  pub total_locked_amount : ℤ
  pub lp_per_token : ℤ
  pub unclaimed_fee_pending : ℤ
  pub a_fee : ℤ
  pub b_fee : ℤ

pub record StakePool : Type 0 where
  pub total_lamports : ℤ
  pub pool_token_supply : ℤ

pub record Clock : Type 0 where
  pub slot : ℤ
  pub epoch_start_timestamp : ℤ
  pub epoch : ℤ
  pub leader_schedule_epoch : ℤ
  pub unix_timestamp : ℤ

pub data AccountType : Type 0 where
  apy vault_a_reserve vault_b_reserve vault_a_lp vault_b_lp : AccountType
  pool_vault_a_lp pool_vault_b_lp pool_lp_mint sysvar_clock : AccountType

-- What the client reads of the accounts that it is handed: the data of an account, the price that the
-- Marinade decoder finds in it, `readBigInt64LE`, the stake pool layout and the clock layout of the
-- borsh decoder, and the amount and the supply of the token program's two layouts. The last three
-- throw on data that is too short.
pub record AccountData : Type 1 where
  pub Buffer : Type 0
  pub token_amount : Buffer → Result ℤ
  pub mint_supply : Buffer → Result ℤ
  pub decode_clock : Buffer → Result Clock
  pub msol_price : Buffer → ℤ
  pub read_big_int_64_le : Buffer → ℕ → ℤ
  pub decode_stake_pool : Buffer → StakePool

-- A `Map` from addresses to values, as its entries in the order in which their keys were first set.
module _ {A : Type 0} where
  unfoldable pub get : List (PublicKey × A) → PublicKey → Option A
  get [] key = none
  get ((k, v) ∷ rest) key = if k == key then some v else get rest key

  -- A key that is there keeps its place.
  unfoldable pub set : List (PublicKey × A) → PublicKey → A → List (PublicKey × A)
  set [] key value = (key, value) ∷ []
  set ((k, v) ∷ rest) key value =
      if k == key then (k, value) ∷ rest else (k, v) ∷ set rest key value
