-- ===== src/Utils/Fees.antt =====
-- The fees of ts-client/src/amm/utils.ts.
use native.Mathlib.Nat.{div-le_of_le-mul, mul-le-mul_left}
use mercurial_dynamic_amm_sd.Prelude.{
  ℕ, zero, suc, ◌+◌, ◌-◌, ◌*◌, ◌/◌, ◌≤◌, ◌<◌, ◌≡◌, refl, arith, pos, ok, tdiv-pos, sub_ℕ-of_le,
}
use mercurial_dynamic_amm_sd.Types.{PoolFees}
use mercurial_dynamic_amm_sd.Utils.{
  calculate_trading_fee, calculate_protocol_trading_fee, calculate_unclaimed_lock_escrow_fee,
}

-- A pool's fees are two fractions that are not above one.
pub record IsFees (fees : PoolFees) (tn td pn pd : ℕ) : Type 0 where
  pub trade_numerator : fees.trade_fee_numerator ≡ pos tn
  pub trade_denominator : fees.trade_fee_denominator ≡ pos td
  pub protocol_numerator : fees.protocol_trade_fee_numerator ≡ pos pn
  pub protocol_denominator : fees.protocol_trade_fee_denominator ≡ pos pd
  pub trade_le : tn ≤ td
  pub trade_pos : 0 < td
  pub protocol_le : pn ≤ pd
  pub protocol_pos : 0 < pd

pub part-le : (x n d : ℕ) → n ≤ d → x * n / d ≤ x
part-le x n d le = div-le_of_le-mul d (omega (arith, mul-le-mul_left x le))

module _ (fees : PoolFees) {tn td pn pd : ℕ} (h : IsFees fees tn td pn pd) where
  pub calculate_trading_fee-pos :
      (x : ℕ) → calculate_trading_fee (pos x) fees ≡ ok (pos (x * tn / td))
  unfolding calculate_trading_fee
  calculate_trading_fee-pos x =
      rw (h.trade_numerator, h.trade_denominator) (tdiv-pos (x * tn) td h.trade_pos)

  pub calculate_protocol_trading_fee-pos :
      (x : ℕ) → calculate_protocol_trading_fee (pos x) fees ≡ ok (pos (x * pn / pd))
  unfolding calculate_protocol_trading_fee
  calculate_protocol_trading_fee-pos x =
      rw (h.protocol_numerator, h.protocol_denominator) (tdiv-pos (x * pn) pd h.protocol_pos)

  -- If both of a pool's fees are fractions that are not above one, the trading fee of an amount is at most
  -- the amount, and the protocol's part of it at most the trading fee.
  pub fees-le :
      (x : ℕ)
      → (t : ℕ) × (p : ℕ) × (calculate_trading_fee (pos x) fees ≡ ok (pos t))
        × (calculate_protocol_trading_fee (pos t) fees ≡ ok (pos p))
        × (t ≤ x)
        × (p ≤ t)
  fees-le x =
      let t = x * tn / td in
      (
        t,
        t * pn / pd,
        calculate_trading_fee-pos x,
        calculate_protocol_trading_fee-pos t,
        part-le x tn td h.trade_le,
        part-le t pn pd h.protocol_le,
      )

-- A locked position whose price did not fall is owed what was pending and a part of what it locked:
-- at least the pending fee, and at most that and the whole amount locked. At a price of zero it is owed nothing.
pub calculate_unclaimed_lock_escrow_fee_bounds :
    (locked lp pending price : ℕ)
    → lp ≤ price
    → (fee : ℕ) × (calculate_unclaimed_lock_escrow_fee
          (pos locked)
          (pos lp)
          (pos pending)
          (pos price)
        ≡ ok (pos fee))
      × (0 < price → (pending ≤ fee) × (fee ≤ pending + locked))
      × (price ≡ 0 → fee ≡ 0)
unfolding calculate_unclaimed_lock_escrow_fee
calculate_unclaimed_lock_escrow_fee_bounds locked lp pending zero le =
    (0, refl, λ p. absurd (omega arith), λ _. refl)
calculate_unclaimed_lock_escrow_fee_bounds locked lp pending (suc p) le =
    let gain = suc p - lp in
    (
      locked * gain / suc p + pending,
      rw (sub_ℕ-of_le (suc p) lp le),
      λ _. (omega arith, omega (arith, part-le locked gain (suc p) (omega arith))),
      λ e. absurd (omega arith),
    )
