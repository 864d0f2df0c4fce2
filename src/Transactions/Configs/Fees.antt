-- ===== src/Transactions/Configs/Fees.antt =====
-- What the fees of a new configuration are read back as (ts-client/src/amm/index.ts).
use mercurial_dynamic_amm_sd.Prelude.{
  ℕ, ◌*◌, ◌/◌, ℤ, pos, ◌*ℤ◌, List, [], ◌∷◌, ok, ◌≡◌, refl, arith,
}
use mercurial_dynamic_amm_sd.Types.{PublicKey, PoolFees}
use mercurial_dynamic_amm_sd.Transactions.{Chain, Instruction, ConfigParameters, method, config}
use mercurial_dynamic_amm_sd.Transactions.Configs.{
  ConfigAccount, fee_configuration, get_fee_configurations, create_config_transaction,
}

-- The fees that the program keeps of a configuration: parts of 100 000.
abbrev pub fees_of : (trade protocol : ℤ) → PoolFees
fees_of trade protocol = record {
  trade_fee_numerator = trade;
  trade_fee_denominator = pos 100_000;
  protocol_trade_fee_numerator = protocol;
  protocol_trade_fee_denominator = pos 100_000;
}

abbrev pub account_of : (key : PublicKey) → ConfigParameters → ConfigAccount
account_of key parameters = record {
  public_key = key;
  pool_fees = fees_of parameters.trade_fee_numerator parameters.protocol_trade_fee_numerator;
}

-- The accounts that the instructions of a transaction make.
abbrev pub made_accounts : (key : PublicKey) → List Instruction → List ConfigAccount
made_accounts key (method program idl (config parameters ∷ []) accounts remaining ∷ rest) =
    account_of key parameters ∷ made_accounts key rest
made_accounts key (i ∷ rest) = made_accounts key rest
made_accounts key [] = []

scaled : (n : ℕ) → n * 10 * 10000 / 100_000 ≡ n
scaled n = omega arith

-- For fees that are not negative, `get_fee_configurations` reads the account of a configuration that was made by the
-- transaction of `create_config`, with fees kept as parts of 100 000, as the basis points that were given.
pub get_fee_configurations-create_config_transaction :
    (chain : Chain) (program_id payer : PublicKey) (n m : ℕ) (vault_config : PublicKey)
    (duration : ℤ) (authority : PublicKey) (activation index : ℕ) (key : PublicKey)
    → get_fee_configurations (
        made_accounts key
          (create_config_transaction chain program_id payer
            (pos n)
            (pos m)
            vault_config
            duration
            authority
            activation
            index
            key).instructions)
      ≡ ok (
          record {
            public_key = key;
            pool_fees = fees_of (pos n *ℤ pos 10) (pos m *ℤ pos 10);
            trade_fee_bps = pos n;
            protocol_trade_fee_bps = pos m;
          }
          ∷ [])
unfolding create_config_transaction get_fee_configurations fee_configuration
get_fee_configurations-create_config_transaction chain program_id payer n m vault_config duration
      authority activation index key =
    rw (scaled n, scaled m) refl
