-- ===== src/ConstantProduct/CeilDiv.antt =====
-- `ceilDiv` of ts-client/src/amm/curve/constant-product.ts on numbers that are not negative.
use native.Mathlib.Nat.{div-add-mod}
use mercurial_dynamic_amm_sd.Prelude.{
  ℕ, zero, suc, ◌+◌, ◌*◌, ◌/◌, ◌%◌, ◌≤◌, ◌<◌, ◌≡◌, Bool-cases, inl, inr, arith, quotients, pos,
  div_pos, div_zero, ok, err, ceil_div_zero, ltb, if◌then◌else◌,
}
use mercurial_dynamic_amm_sd.ConstantProduct.{ceil_div}

-- The ceiling of m / n.
pub ceil_quot : ℕ → ℕ → ℕ
ceil_quot m n = if ltb 0 (m % n) then m / n + 1 else m / n

pub ceil_quot_lem : (m n : ℕ) → 0 < n → (m ≤ ceil_quot m n * n) × (ceil_quot m n * n < m + n)
unfolding ceil_quot
ceil_quot_lem m n h = grind (arith, div-add-mod m n)

-- It is the least k with m ≤ k * n.
pub ceil_quot-least : (m n k : ℕ) → 0 < n → m ≤ k * n → ceil_quot m n ≤ k
ceil_quot-least m n k h le = grind (arith, ceil_quot_lem m n h)

pub ceil_quot_pos : (m n : ℕ) → 0 < n → 0 < m → 0 < ceil_quot m n
ceil_quot_pos m n h le = grind (arith, ceil_quot_lem m n h)

-- The divisor that `ceilDiv` returns.
pub ceil_rest : ℕ → ℕ → ℕ
ceil_rest m n = if ltb 0 (m % n) then ceil_quot m (m / n + 1) else n

ceil_rest_lem :
    (m n : ℕ)
    → 0 < n
    → n ≤ m
    → (m ≤ ceil_quot m n * ceil_rest m n)
      × (ceil_quot m n * ceil_rest m n < m + ceil_quot m n)
      × (ceil_rest m n ≤ n)
ceil_rest_lem m n h le = elim (Bool-cases (ltb 0 (m % n))) [
  | inl e ↦
      let q : ceil_quot m n ≡ m / n + 1 = unfold ceil_quot in (rw e) in
      let r : ceil_rest m n ≡ ceil_quot m (m / n + 1) = unfold ceil_rest in (rw e) in
      let up : m ≤ (m / n + 1) * n = rw q at (ceil_quot_lem m n h).0 in
      let (up', low') = ceil_quot_lem m (m / n + 1) (omega arith) in
      rw (r, q)
        (omega arith, omega arith, ceil_quot-least m (m / n + 1) n (omega arith) (omega arith))
  | inr e ↦
      let r : ceil_rest m n ≡ n = unfold ceil_rest in (rw e) in
      let q : 0 < ceil_quot m n = ceil_quot_pos m n h (omega arith) in
      let (up, low) = ceil_quot_lem m n h in
      let exact : ceil_quot m n ≡ m / n = unfold ceil_quot in (rw e) in
      let whole : m % n ≡ 0 = ground arith in
      rw (r, exact)
        (
          omega (arith, div-add-mod m n),
          grind (arith, div-add-mod m n, div_pos m n h le),
          omega arith,
        )
]

pub ceil_div-pos :
    (m n : ℕ)
    → 0 < n
    → n ≤ m
    → ceil_div (pos m) (pos n) ≡ ok (pos (ceil_quot m n), pos (ceil_rest m n))
unfolding ceil_div ceil_quot ceil_rest
ceil_div-pos m zero h le = absurd (omega arith)
ceil_div-pos m (suc n) h le = grind quotients

pub ceil_div-small : (m n : ℕ) → m < n → ceil_div (pos m) (pos n) ≡ err ceil_div_zero
unfolding ceil_div
ceil_div-small m zero h = absurd (omega arith)
ceil_div-small m (suc n) h = rw (div_zero m (suc n) h)

-- When the divisor is positive and not above the dividend, `ceilDiv` returns the least quotient q
-- with lhs ≤ q * rhs, and the least divisor r with lhs ≤ q * r, which is not above rhs.
pub ceil_div_lem :
    (m n : ℕ)
    → 0 < n
    → n ≤ m
    → (q r : ℕ) × (ceil_div (pos m) (pos n) ≡ ok (pos q, pos r))
      × (m ≤ q * n)
      × (q * n < m + n)
      × (m ≤ q * r)
      × (q * r < m + q)
      × (r ≤ n)
ceil_div_lem m n h le =
    let (up, low) = ceil_quot_lem m n h in
    let (up', low', le') = ceil_rest_lem m n h le in
    (ceil_quot m n, ceil_rest m n, ceil_div-pos m n h le, up, low, up', low', le')
