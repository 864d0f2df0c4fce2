-- ===== src/Transactions/Configs.antt =====
-- ts-client/src/amm/index.ts: `getFeeConfigurations`, and `createConfig` with its loop for an index that
-- is not taken.
pub mod Index
pub mod Fees
use mathlib.Core.Option.{none}
use mercurial_dynamic_amm_sd.Prelude.{
  ℕ, zero, suc, ◌+◌, ◌^◌, ltb, unsafe_number, ℤ, pos, ◌*ℤ◌, tdiv, Bool, true, false, ◌||◌, List, [],
  ◌∷◌, map, Option, some, Result, ok, err, ◌>>=◌, if◌then◌else◌, ◌==◌, length,
}
use mercurial_dynamic_amm_sd.Types.{PublicKey, PoolFees}
use mercurial_dynamic_amm_sd.Keys.{derive_config_pda}
use mercurial_dynamic_amm_sd.Idl
use mercurial_dynamic_amm_sd.Idl.Pools
use mercurial_dynamic_amm_sd.Transactions.{
  Chain, Instruction, Transaction, ConfigParameters, config,
}

-- An account that `program.account.config.all()` returns; of it, the fees.
pub record ConfigAccount : Type 0 where
  pub public_key : PublicKey
  pub pool_fees : PoolFees

pub record FeeConfiguration : Type 0 where
  pub public_key : PublicKey
  pub pool_fees : PoolFees
  pub trade_fee_bps : ℤ
  pub protocol_trade_fee_bps : ℤ

unfoldable pub fee_configuration : ConfigAccount → Result FeeConfiguration
fee_configuration account = do
  let fees = account.pool_fees
  trade_fee_bps ← tdiv (fees.trade_fee_numerator *ℤ pos 10000) fees.trade_fee_denominator
  protocol_trade_fee_bps ←
      tdiv (fees.protocol_trade_fee_numerator *ℤ pos 10000) fees.protocol_trade_fee_denominator
  ok (record {
    public_key = account.public_key;
    pool_fees = fees;
    trade_fee_bps = trade_fee_bps;
    protocol_trade_fee_bps = protocol_trade_fee_bps;
  })

unfoldable pub get_fee_configurations : List ConfigAccount → Result (List FeeConfiguration)
get_fee_configurations [] = ok []
get_fee_configurations (account ∷ rest) = do
  first ← fee_configuration account
  others ← get_fee_configurations rest
  ok (first ∷ others)

-- `configs.find((c) => c.publicKey.equals(key))`, as a test.
unfoldable pub is_taken : PublicKey → List FeeConfiguration → Bool
is_taken key [] = false
is_taken key (c ∷ cs) = c.public_key == key || is_taken key cs

module _ (chain : Chain) (program_id : PublicKey) where
  open chain use {system_program_id, find_program_address}

  -- `deriveConfigPda(new BN(index), programId)`; a BN is not made of 2 ^ 53 or more.
  unfoldable pub index_pda : (index : ℕ) → Result PublicKey
  index_pda index =
      if ltb index (2 ^ 53)
      then derive_config_pda find_program_address index program_id
      else err unsafe_number

  -- The loop: the first index from `index` on whose address is not taken, and the address. The fuel is
  -- the number of rounds; none says that it has run out.
  unfoldable pub free_index :
      List FeeConfiguration → (fuel index : ℕ) → Option (Result (ℕ × PublicKey))
  free_index configs zero index = none
  free_index configs (suc fuel) index =
      let rest = free_index configs fuel (index + 1) in
      elim (index_pda index) [
        | err thrown ↦ some (err thrown)
        | ok config_pda ↦
            if is_taken config_pda configs then rest else some (ok (index, config_pda))
      ]

  -- One round more than there are configurations.
  abbrev pub rounds : List FeeConfiguration → ℕ
  rounds configs = length configs + 1

  unfoldable pub create_config_transaction :
      (payer : PublicKey) (trade_fee_bps protocol_fee_bps : ℤ) (vault_config_key : PublicKey)
      (activation_duration : ℤ) (pool_creator_authority : PublicKey) (activation_type : ℕ)
      (index : ℕ) (config_pda : PublicKey)
      → Transaction
  create_config_transaction payer trade_fee_bps protocol_fee_bps vault_config_key
        activation_duration pool_creator_authority activation_type index config_pda =
      record {
        fee_payer = payer;
        instructions =
            Instruction.method program_id Idl.Pools.create_config
              (config (record {
                trade_fee_numerator = trade_fee_bps *ℤ pos 10;
                protocol_trade_fee_numerator = protocol_fee_bps *ℤ pos 10;
                vault_config_key = vault_config_key;
                activation_duration = activation_duration;
                pool_creator_authority = pool_creator_authority;
                index = index;
                activation_type = activation_type;
              })
                ∷ [])
              (("config", config_pda)
                ∷ ("systemProgram", system_program_id)
                ∷ ("admin", payer)
                ∷ [])
              []
            ∷ [];
      }

  unfoldable pub create_config :
      (accounts : List ConfigAccount) (payer : PublicKey) (trade_fee_bps protocol_fee_bps : ℤ)
      (vault_config_key : PublicKey) (activation_duration : ℤ) (pool_creator_authority : PublicKey)
      (activation_type : ℕ)
      → Option (Result Transaction)
  create_config accounts payer trade_fee_bps protocol_fee_bps vault_config_key activation_duration
        pool_creator_authority activation_type =
      elim (get_fee_configurations accounts) [
        | err thrown ↦ some (err thrown)
        | ok configs ↦ elim (free_index configs (rounds configs) 0) [
          | none ↦ none
          | some found ↦ some (
              found >>= (λ found. ok (
                create_config_transaction payer trade_fee_bps protocol_fee_bps vault_config_key
                  activation_duration pool_creator_authority activation_type found.0 found.1)))
        ]
      ]
