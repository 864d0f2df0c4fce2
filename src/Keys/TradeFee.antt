-- ===== src/Keys/TradeFee.antt =====
-- The seed of a trade fee, `getTradeFeeBpsBuffer` of ts-client/src/amm/utils.ts.
use native.Mathlib.Nat.{pow-suc}
use mercurial_dynamic_amm_sd.Prelude.{
  ℕ, zero, suc, ◌+◌, ◌*◌, ◌/◌, ◌^◌, ◌<◌, ◌≡◌, ◌≢◌, arith, ok, [], ◌∷◌,
}
use mercurial_dynamic_amm_sd.Types.{CurveType}
use mercurial_dynamic_amm_sd.Keys.{Bytes, le_bytes, get_trade_fee_bps_buffer}

-- The number that little-endian bytes stand for.
pub le_value : Bytes → ℕ
le_value [] = 0
le_value (b ∷ bs) = b + 256 * le_value bs

le_value-le_bytes : (count n : ℕ) → n < 256 ^ count → le_value (le_bytes count n) ≡ n
unfolding le_value le_bytes
le_value-le_bytes zero n h = omega arith
le_value-le_bytes (suc count) n h =
    let h' : n < 256 ^ count * 256 = rw pow-suc at h in
    omega (arith, le_value-le_bytes count (n / 256) (omega arith))

le_bytes_8-ne-nil : (n : ℕ) → le_bytes 8 n ≢ []
unfolding le_bytes
le_bytes_8-ne-nil n e = cc

-- Two fees that have the same seed in pools of one curve type are equal.
pub get_trade_fee_bps_buffer_injective :
    (curve : CurveType) (fee fee' : ℕ) {bytes : Bytes}
    → get_trade_fee_bps_buffer curve fee ≡ ok bytes
    → get_trade_fee_bps_buffer curve fee' ≡ ok bytes
    → fee ≡ fee'
unfolding get_trade_fee_bps_buffer
get_trade_fee_bps_buffer_injective curve fee fee' h k = ground (
  arith,
  le_value-le_bytes 8 fee,
  le_value-le_bytes 8 fee',
  le_bytes_8-ne-nil fee,
  le_bytes_8-ne-nil fee',
)
