-- ===== src/Utils/Slippage.antt =====
-- The slippage bounds of ts-client/src/amm/utils.ts.
use native.Mathlib.Nat.{mul-le-mul_left}
use mercurial_dynamic_amm_sd.Prelude.{ℕ, ◌+◌, ◌*◌, ◌/◌, ◌≤◌, ◌<◌, ◌≡◌, arith, pos, ok}
use mercurial_dynamic_amm_sd.Utils.{
  Numbers, max_slippage, min_slippage, get_max_amount_with_slippage, get_min_amount_with_slippage,
}

pub get_min_amount_with_slippage-pos :
    (num : Numbers) (rate : num.Number) (amount f : ℕ)
    → min_slippage num rate ≡ pos f
    → get_min_amount_with_slippage num (pos amount) rate ≡ ok (pos (amount * f / 10000))
unfolding get_min_amount_with_slippage
get_min_amount_with_slippage-pos num rate amount f e = rw e

pub part_of_amount : (amount f : ℕ) → f ≤ 10000 → amount * f / 10000 ≤ amount
part_of_amount amount f le = omega (arith, mul-le-mul_left amount le)

-- If the rate comes out as f/10000 with f at most 10000, the minimum after slippage is the amount
-- times that, rounded down, and never above the amount; if the rate of the maximum comes out as g/10000 with g at
-- least 10000, the maximum is the amount times that, rounded down, and never below the amount.
pub slippage_bounds :
    (num : Numbers) (rate : num.Number) (amount f g : ℕ)
    → min_slippage num rate ≡ pos f
    → f ≤ 10000
    → max_slippage num rate ≡ pos g
    → 10000 ≤ g
    → (lo : ℕ) × (hi : ℕ) × (get_min_amount_with_slippage num (pos amount) rate ≡ ok (pos lo))
      × (lo * 10000 ≤ amount * f)
      × (amount * f < (lo + 1) * 10000)
      × (lo ≤ amount)
      × (get_max_amount_with_slippage num (pos amount) rate ≡ ok (pos hi))
      × (hi * 10000 ≤ amount * g)
      × (amount * g < (hi + 1) * 10000)
      × (amount ≤ hi)
unfolding get_min_amount_with_slippage get_max_amount_with_slippage
slippage_bounds num rate amount f g e le e' ge = (
  amount * f / 10000,
  amount * g / 10000,
  rw e,
  omega arith,
  omega arith,
  omega (arith, mul-le-mul_left amount le),
  rw e',
  omega arith,
  omega arith,
  omega (arith, mul-le-mul_left amount ge),
)
