-- ===== src/Constants.antt =====
-- ts-client/src/amm/constants.ts. The addresses are the numbers that their base 58 texts stand for.
use mercurial_dynamic_amm_sd.Prelude.{ℕ, ℤ, pos}
use mercurial_dynamic_amm_sd.Types.{PublicKey}

-- CURVE_TYPE_ACCOUNTS.marinade, 8szGkuLTAux9XMgZ2vtY39jVSowEcpBfFfD8hXSEqdGC.
abbrev pub marinade_account : PublicKey
marinade_account = 0x75119b3175807586e3f4a7e5cd0f890e96a753b10fccc7681e9473a0083270f1

-- CURVE_TYPE_ACCOUNTS.lido, 49Yi1TKkNyYjPAFdR9LBvoHcUjuPX4Df5T5yv39w2XTn.
abbrev pub lido_account : PublicKey
lido_account = 0x2ec38efa47070e1f830d29bc25b818a555607244017bdf9e229dfa6218a259d1

abbrev pub virtual_price_precision : ℤ
virtual_price_precision = pos 100_000_000

abbrev pub permissionless_amp : ℤ
permissionless_amp = pos 100

abbrev pub constant_product_default_trade_fee_bps : ℕ
constant_product_default_trade_fee_bps = 25

abbrev pub stable_swap_default_trade_fee_bps : ℕ
stable_swap_default_trade_fee_bps = 1

-- METAPLEX_PROGRAM, metaqbxxUerdq28cj1RbAWkYQm3ybzjb6a8bt518x1s.
abbrev pub metaplex_program : PublicKey
metaplex_program = 0xb7065b1e3d17c45389d527f6b04c3cd58b86c731aa0fdb549b6d1bc03f82946

-- FEE_OWNER, 6WaLrrRfReGKBYUSkmx2K6AuT21ida4j8at2SUiZdXu8.
abbrev pub fee_owner : PublicKey
fee_owner = 0x51ddfa7d35a812124a296e3ab8793edf00c4e7a2b5bd69fea85bd4f56aa89687

abbrev pub u64_max : ℤ
u64_max = pos 18446744073709551615

-- PROGRAM_ID, Eo7WjKq67rjJQSZxS6z3YkapzY3eMj6Xy8X5EQVn5UaB.
abbrev pub program_id : PublicKey
program_id = 0xccf802d4cccc84d7fb21b5f73b49d81a16c5b4c88ee32394e1c91d3588cc4080
