-- ===== src/Utils/Deposit.antt =====
-- `computeActualDepositAmount` of ts-client/src/amm/utils.ts.
use native.Mathlib.Decide.{dec_lt}
use native.Mathlib.Nat.{
  div-le_of_le-mul, mul-le-mul_right, div-mul-le_self, lt-div-mul-add, lt_of_mul-lt-mul_left,
  div-lt_iff_lt-mul, le-div_iff_mul-le, mul-lt-mul_of_pos_left, lt_of_le_of_lt,
}
use mercurial_dynamic_amm_sd.Prelude.{
  ℕ, ◌+◌, ◌-◌, ◌*◌, ◌/◌, ◌≤◌, ◌<◌, ◌≡◌, ap, arith, pos, ok, tdiv-pos, sub_ℕ-of_le, is_zero-pos,
}
use mercurial_dynamic_amm_sd.Utils.{compute_actual_deposit_amount}

-- With e = S - L and f = x * S - m * T the two sides differ by e * f.
shares_le :
    (l s t x m e f : ℕ)
    → s ≡ l + e
    → x * s ≡ m * t + f
    → s * ((l + m) * (t + x)) ≤ (s + m) * (x * s + l * t)
shares_le l s t x m e f se xe =
    omega
      (arith, ap (λ (k : ℕ). x * s * k) se, ap (λ (k : ℕ). m * t * k) se, ap (λ (k : ℕ). e * k) xe)

after-le :
    (l s t x m : ℕ) → 0 < s → l ≤ s → m * t ≤ x * s → (l + m) * (t + x) / (s + m) ≤ l * t / s + x
after-le l s t x m hs le minted =
    let q = l * t / s in
    let up : l * t < q * s + s = lt-div-mul-add hs in
    let left = shares_le l s t x m (s - l) (x * s - m * t) (omega arith) (omega arith) in
    let right : (s + m) * (x * s + l * t) < (s + m) * (x * s + (q * s + s)) =
      mul-lt-mul_of_pos_left (omega arith) (omega arith) in
    let both : s * ((l + m) * (t + x)) < s * ((q + x + 1) * (s + m)) =
      lt_of_le_of_lt left (omega (arith, right)) in
    let fits : (l + m) * (t + x) < (q + x + 1) * (s + m) = lt_of_mul-lt-mul_left s both in
    let some_shares : 0 < s + m = omega arith in
    let under : (l + m) * (t + x) / (s + m) < q + x + 1 = (div-lt_iff_lt-mul some_shares).1 fits in
    omega arith

le-after : (l s t x m : ℕ) → 0 < s → l ≤ s → l * t / s ≤ (l + m) * (t + x) / (s + m)
le-after l s t x m hs le =
    let q = l * t / s in
    let low : q * s ≤ l * t = div-mul-le_self (l * t) s in
    let under : q ≤ t = div-le_of_le-mul s (mul-le-mul_right t le) in
    (le-div_iff_mul-le (omega arith)).1 (omega (arith, low, mul-le-mul_right m under))

-- When the vault holds some amount and the pool holds no more of its shares than there are, the
-- deposit is counted, and by what the pool's share of the vault grows: no less than nothing and no
-- more than what was deposited.
pub compute_actual_deposit_amount_bounds :
    (x l s t : ℕ)
    → 0 < s
    → 0 < t
    → l ≤ s
    → (a : ℕ) × (compute_actual_deposit_amount (pos x) (pos (l * t / s)) (pos l) (pos s) (pos t)
        ≡ ok (pos a))
      × (a ≤ x)
unfolding compute_actual_deposit_amount
compute_actual_deposit_amount_bounds x l s t hs ht le = elim (dec_lt 0 x) [
  | yes some_in ↦
      let m = x * s / t in
      let after = (l + m) * (t + x) / (s + m) in
      let up : after ≤ l * t / s + x = after-le l s t x m hs le (div-mul-le_self (x * s) t) in
      (
        after - l * t / s,
        rw
            (
              is_zero-pos x some_in,
              tdiv-pos (x * s) t ht,
              tdiv-pos ((l + m) * (t + x)) (s + m) (omega arith),
            )
            (ap ok (sub_ℕ-of_le after (l * t / s) (le-after l s t x m hs le))),
        omega arith,
      )
  | no nothing ↦ let e : x ≡ 0 = omega arith in (0, rw e, omega arith)
]
