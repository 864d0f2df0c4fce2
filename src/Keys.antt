-- ===== src/Keys.antt =====
-- ts-client/src/amm/utils.ts: the addresses that are derived from keys, the curve type of a new pool and
-- its seeds. `PublicKey.findProgramAddressSync` is a parameter.
pub mod Order
pub mod TradeFee
pub mod Multiplier
use mercurial_dynamic_amm_sd.Prelude.{
  ℕ, zero, suc, ◌+◌, ◌-◌, ◌*◌, ◌/◌, ◌%◌, ◌^◌, max, ℤ, pos, Bool, true, false, List, [], ◌∷◌, ◌++◌,
  Result, ok, err, ◌>>=◌, ◌==◌, ltb, if◌then◌else◌, unsafe_number, byte_overflow,
}
use mercurial_dynamic_amm_sd.Types.{
  PublicKey, TokenMultiplier, CurveType, constant_product, stable, no_depeg,
}
use mercurial_dynamic_amm_sd.Constants.{
  permissionless_amp, stable_swap_default_trade_fee_bps, constant_product_default_trade_fee_bps,
  metaplex_program,
}

abbrev pub Bytes : Type 0
Bytes = List ℕ

-- The lowest `count` bytes of a number, the lowest first.
unfoldable pub le_bytes : (count n : ℕ) → Bytes
le_bytes zero n = []
le_bytes (suc count) n = (n % 256) ∷ le_bytes count (n / 256)

-- The same, the highest first.
be_bytes : (count n : ℕ) → Bytes
be_bytes zero n = []
be_bytes (suc count) n = be_bytes count (n / 256) ++ ((n % 256) ∷ [])

-- `key.toBuffer()`.
pub key_bytes : PublicKey → Bytes
key_bytes = be_bytes 32

-- `Buffer.compare(x, y) === 1`.
pub is_after : Bytes → Bytes → Bool
is_after [] ys = false
is_after (x ∷ xs) [] = true
is_after (x ∷ xs) (y ∷ ys) = if ltb y x then true else if ltb x y then false else is_after xs ys

unfoldable pub get_first_key : PublicKey → PublicKey → Bytes
get_first_key key1 key2 =
    if is_after (key_bytes key1) (key_bytes key2) then key_bytes key1 else key_bytes key2

unfoldable pub get_second_key : PublicKey → PublicKey → Bytes
get_second_key key1 key2 =
    if is_after (key_bytes key1) (key_bytes key2) then key_bytes key2 else key_bytes key1

unfoldable pub encode_curve_type : CurveType → ℕ
encode_curve_type constant_product = 0
encode_curve_type (stable amp multiplier depeg updated) = 1

-- `n.toBuffer('le', 8)`, which throws if the number needs more bytes.
unfoldable pub to_buffer_le_8 : ℕ → Result Bytes
to_buffer_le_8 n = if ltb n (2 ^ 64) then ok (le_bytes 8 n) else err byte_overflow

abbrev pub default_trade_fee_bps : CurveType → ℕ
default_trade_fee_bps constant_product = constant_product_default_trade_fee_bps
default_trade_fee_bps (stable amp multiplier depeg updated) = stable_swap_default_trade_fee_bps

-- A fee is not negative.
unfoldable pub get_trade_fee_bps_buffer : CurveType → ℕ → Result Bytes
unfolding to_buffer_le_8
get_trade_fee_bps_buffer curve trade_fee_bps =
    if trade_fee_bps == default_trade_fee_bps curve then ok [] else to_buffer_le_8 trade_fee_bps

-- `new BN(10 ** k)`, which throws above 2 ^ 53.
unfoldable pub power_of_ten : ℕ → Result ℤ
power_of_ten k = if ltb (2 ^ 53) (10 ^ k) then err unsafe_number else ok (pos (10 ^ k))

unfoldable pub compute_token_multiplier : (decimal_a decimal_b : ℕ) → Result TokenMultiplier
unfolding power_of_ten
compute_token_multiplier decimal_a decimal_b = do
  let precision_factor = max decimal_a decimal_b
  token_a_multiplier ← power_of_ten (precision_factor - decimal_a)
  token_b_multiplier ← power_of_ten (precision_factor - decimal_b)
  ok (record {
    token_a_multiplier = token_a_multiplier;
    token_b_multiplier = token_b_multiplier;
    precision_factor = precision_factor;
  })

pub record TokenInfo : Type 0 where
  pub address : PublicKey
  pub decimals : ℕ

unfoldable pub generate_curve_type : TokenInfo → TokenInfo → Bool → Result CurveType
unfolding compute_token_multiplier
generate_curve_type token_info_a token_info_b true = do
  token_multiplier ← compute_token_multiplier token_info_a.decimals token_info_b.decimals
  ok (
      stable permissionless_amp token_multiplier
        (record { base_virtual_price = pos 0; base_cache_updated = pos 0; depeg_type = no_depeg })
        (pos 0))
generate_curve_type token_info_a token_info_b false = ok constant_product

-- `PublicKey.findProgramAddressSync(seeds, programId)`: the address, and its bump.
module _ (find_program_address : List Bytes → PublicKey → PublicKey × ℕ) where
  unfoldable pub derive_lock_escrow_pda : (pool owner amm_program : PublicKey) → PublicKey × ℕ
  derive_lock_escrow_pda pool owner amm_program =
      find_program_address (lock_escrow_seed ∷ key_bytes pool ∷ key_bytes owner ∷ []) amm_program
    where
      -- "lock_escrow"
      lock_escrow_seed : Bytes
      lock_escrow_seed =
          b'l' ∷ b'o' ∷ b'c' ∷ b'k' ∷ b'_' ∷ b'e' ∷ b's' ∷ b'c' ∷ b'r' ∷ b'o' ∷ b'w' ∷ []

  unfoldable pub derive_mint_metadata : PublicKey → PublicKey × ℕ
  derive_mint_metadata lp_mint =
      find_program_address (metadata_seed ∷ key_bytes metaplex_program ∷ key_bytes lp_mint ∷ [])
        metaplex_program
    where
      -- "metadata"
      metadata_seed : Bytes
      metadata_seed = b'm' ∷ b'e' ∷ b't' ∷ b'a' ∷ b'd' ∷ b'a' ∷ b't' ∷ b'a' ∷ []

  unfoldable pub derive_pool_address_with_config :
      (token_a token_b config program_id : PublicKey) → PublicKey
  derive_pool_address_with_config token_a token_b config program_id =
      (find_program_address
        (get_first_key token_a token_b ∷ get_second_key token_a token_b ∷ key_bytes config ∷ [])
        program_id).0

  unfoldable pub derive_config_pda : (index : ℕ) → (program_id : PublicKey) → Result PublicKey
  unfolding to_buffer_le_8
  derive_config_pda index program_id = do
    bytes ← to_buffer_le_8 index
    ok
        (find_program_address ((b'c' ∷ b'o' ∷ b'n' ∷ b'f' ∷ b'i' ∷ b'g' ∷ []) ∷ bytes ∷ [])
          program_id).0

  unfoldable pub derive_protocol_token_fee :
      (pool_address token_mint program_id : PublicKey) → PublicKey
  derive_protocol_token_fee pool_address token_mint program_id =
      (find_program_address
        ((b'f' ∷ b'e' ∷ b'e' ∷ []) ∷ key_bytes token_mint ∷ key_bytes pool_address ∷ [])
        program_id).0

  unfoldable pub derive_pool_address :
      (token_info_a token_info_b : TokenInfo) → Bool → ℕ → PublicKey → Result PublicKey
  derive_pool_address token_info_a token_info_b is_stable trade_fee_bps program_id = do
    curve_type ← generate_curve_type token_info_a token_info_b is_stable
    fee_bytes ← get_trade_fee_bps_buffer curve_type trade_fee_bps
    ok
        (find_program_address
          ((encode_curve_type curve_type ∷ [])
            ∷ get_first_key token_info_a.address token_info_b.address
            ∷ get_second_key token_info_a.address token_info_b.address
            ∷ fee_bytes
            ∷ [])
          program_id).0
