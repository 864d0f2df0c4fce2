-- ===== src/Calculator/Invariant.antt =====
-- `computeD` of ts-client/src/amm/curve/stable-swap-math/calculator.ts on amounts that are not negative.
use native.Mathlib.Nat.{
  mul-div_left, zero-add, add-zero, mul-le-mul_left, mul-le-mul_right, div-le_of_le-mul,
}
use native.Mathlib.Decide.{dec_lt}
use mercurial_dynamic_amm_sd.Prelude.{
  ℕ, zero, suc, ◌+◌, ◌-◌, ◌*◌, ◌/◌, ◌≤◌, ◌<◌, ◌≡◌, refl, ap, ◌∙◌, arith, ℤ, pos, Error, err, true,
  false, division_by_zero, is_zero-pos, ok, inl, inr, tdiv-pos, div_zero, div_pos, Bool-cases,
  sub_ℕ-of_le, ltb_ℤ, ◌-ℤ◌,
}
use mercurial_dynamic_amm_sd.Calculator.{max_iters, d_step, d_loop, compute_d, abs}

-- The values that one round computes.
power : (a b d : ℕ) → ℕ
power a b d = d * d / (a * 2) * d / (b * 2)

numerator : (n s p d : ℕ) → ℕ
numerator n s p d = d * (n * s + p * 2)

denominator : (n p d : ℕ) → ℕ
denominator n p d = d * (n - 1) + p * 3

denominator_pos : (n p d : ℕ) → 2 ≤ n → 0 < d → 0 < denominator n p d
unfolding denominator
denominator_pos n p d h k = grind arith

d_step-pos :
    (n s a b d : ℕ)
    → 2 ≤ n
    → 0 < a
    → 0 < b
    → 0 < d
    → d_step (pos n) (pos s) (pos a) (pos b) (pos d)
      ≡ ok (pos (numerator n s (power a b d) d / denominator n (power a b d) d))
unfolding d_step power numerator denominator
d_step-pos n s a b d hn ha hb hd =
    rw
      (
        tdiv-pos (d * d) (a * 2) (omega arith),
        tdiv-pos (d * d / (a * 2) * d) (b * 2) (omega arith),
        sub_ℕ-of_le n 1 (omega arith),
      )
      (tdiv-pos (numerator n s (power a b d) d) (denominator n (power a b d) d)
        (denominator_pos n (power a b d) d hn hd))

power-one : (a b : ℕ) → 0 < a → 0 < b → power a b 1 ≡ 0
unfolding power
power-one a b h k = ground (arith, div_zero 1 (a * 2) (omega arith), div_zero 0 (b * 2))

pred_le : (n : ℕ) → n - 1 ≤ n
pred_le n = omega arith

-- next ≥ 1
le-numerator :
    (n s a b d : ℕ)
    → 2 ≤ n
    → 2 ≤ s
    → 0 < a
    → 0 < b
    → 0 < d
    → denominator n (power a b d) d ≤ numerator n s (power a b d) d
le-numerator n s a b d hn hs ha hb hd = elim (dec_lt 1 d) [
  | yes two ↦
      unfold numerator denominator in
      omega (
        arith,
        mul-le-mul_left (power a b d) two,
        mul-le-mul_left (d * n) hs,
        mul-le-mul_left d (pred_le n),
      )
  | no one ↦
      let e : d ≡ 1 = omega arith in
      rw (e, power-one a b ha hb)
        (unfold numerator denominator in omega (arith, mul-le-mul_left n hs))
]

-- next ≤ 2 s
numerator-lt :
    (n s p d : ℕ) → 2 ≤ n → d ≤ 2 * s → 0 < d → numerator n s p d ≤ 2 * s * denominator n p d
unfolding numerator denominator
numerator-lt n s p d hn hd h =
    let e : n ≡ n - 2 + 2 = omega arith in
    omega
      (arith, mul-le-mul_right p hd, ap (λ (t : ℕ). d * s * t) e, ap (λ (t : ℕ). d * s * t) pred_eq)
  where
    pred_eq : n - 1 ≡ n - 2 + 1
    pred_eq = omega arith

d_loop_more :
    (rounds : ℕ) (n s a b p d e : ℤ)
    → ltb_ℤ (pos 1) (abs (d -ℤ p)) ≡ true
    → d_step n s a b d ≡ ok e
    → d_loop (suc rounds) n s a b p d ≡ d_loop rounds n s a b d e
unfolding d_loop
d_loop_more rounds n s a b p d e more step = rw (d_loop, more, step)

d_loop_throw :
    (rounds : ℕ) (n s a b p d : ℤ) (e : Error)
    → ltb_ℤ (pos 1) (abs (d -ℤ p)) ≡ true
    → d_step n s a b d ≡ err e
    → d_loop (suc rounds) n s a b p d ≡ err e
unfolding d_loop
d_loop_throw rounds n s a b p d e more step = rw (d_loop, more, step)

d_loop_stop :
    (rounds : ℕ) (n s a b p d : ℤ)
    → ltb_ℤ (pos 1) (abs (d -ℤ p)) ≡ false
    → d_loop (suc rounds) n s a b p d ≡ ok (p, d)
unfolding d_loop
d_loop_stop rounds n s a b p d stop = rw (d_loop, stop)

module _ (n s a b : ℕ) (hn : 2 ≤ n) (hs : 2 ≤ s) (ha : 0 < a) (hb : 0 < b) where
  d_step_bounds :
      (d : ℕ)
      → 0 < d
      → d ≤ 2 * s
      → (e : ℕ) × (d_step (pos n) (pos s) (pos a) (pos b) (pos d) ≡ ok (pos e))
        × (0 < e)
        × (e ≤ 2 * s)
  d_step_bounds d h le =
      let p = power a b d in
      let down = denominator_pos n p d hn h in
      (
        numerator n s p d / denominator n p d,
        d_step-pos n s a b d hn ha hb h,
        div_pos (numerator n s p d) (denominator n p d) down (le-numerator n s a b d hn hs ha hb h),
        div-le_of_le-mul (denominator n p d) (omega (arith, numerator-lt n s p d hn le h)),
      )

  d_loop_bounds :
      (rounds p d : ℕ)
      → 0 < d
      → d ≤ 2 * s
      → (q e : ℕ) × (d_loop rounds (pos n) (pos s) (pos a) (pos b) (pos p) (pos d)
          ≡ ok (pos q, pos e))
        × (0 < e)
        × (e ≤ 2 * s)
  unfolding d_loop
  d_loop_bounds zero p d h le = (p, d, refl, h, le)
  d_loop_bounds (suc rounds) p d h le = elim (Bool-cases (ltb_ℤ (pos 1) (abs (pos d -ℤ pos p)))) [
    | inr stop ↦ (p, d, d_loop_stop rounds _ _ _ _ (pos p) (pos d) stop, h, le)
    | inl more ↦
        let (e, step, pos_e, le_e) = d_step_bounds d h le in
        let (q, f, run, pos_f, le_f) = d_loop_bounds rounds d e pos_e le_e in
        (q, f, d_loop_more rounds _ _ _ _ (pos p) (pos d) (pos e) more step ∙ run, pos_f, le_f)
  ]

-- With an amplification of at least 1 and two positive reserves, `computeD` never divides by zero,
-- and the invariant is positive and at most twice the sum of the reserves.
pub compute_d_bounds :
    (amp a b : ℕ)
    → 0 < amp
    → 0 < a
    → 0 < b
    → (d : ℕ) × (compute_d (pos amp) (pos a) (pos b) ≡ ok (pos d)) × (0 < d) × (d ≤ 2 * (a + b))
unfolding compute_d
compute_d_bounds amp a b h ha hb =
    let (q, d, run, pos_d, le_d) =
      d_loop_bounds (amp * 2) (a + b) a b (omega arith) (omega arith) ha hb max_iters 0 (a + b)
        (omega arith) (omega arith) in
    (d, rw (is_zero-pos (a + b) (omega arith)) (rw run), pos_d, le_d)

wide : (d : ℕ) → 1 < d → ltb_ℤ (pos 1) (abs (pos d -ℤ pos 0)) ≡ true
wide d h = ground arith

narrow : (d : ℕ) → ltb_ℤ (pos 1) (abs (pos d -ℤ pos d)) ≡ false
narrow d = ground arith

power_balanced : (a : ℕ) → 0 < a → power a a (a + a) ≡ a + a
unfolding power
power_balanced a h =
    let e : a + a ≡ a * 2 = omega arith in
    rw (
      e,
      mul-div_left (a * 2) {n = a * 2} (omega arith),
      mul-div_left (a * 2) {n = a * 2} (omega arith),
    )

scaled : (n d : ℕ) → 2 ≤ n → numerator n d d d ≡ d * denominator n d d
unfolding numerator denominator
scaled n d hn = let e : n ≡ n - 1 + 1 = omega arith in omega (arith, ap (λ (t : ℕ). d * d * t) e)

numerator-div : (n d : ℕ) → 2 ≤ n → 0 < d → numerator n d d d / denominator n d d ≡ d
numerator-div n d hn h =
    let e : numerator n d d d ≡ d * denominator n d d = scaled n d hn in
    rw (e, mul-div_left d (denominator_pos n d d hn h))

d_step_balanced :
    (n a : ℕ)
    → 2 ≤ n
    → 0 < a
    → d_step (pos n) (pos (a + a)) (pos a) (pos a) (pos (a + a)) ≡ ok (pos (a + a))
d_step_balanced n a hn ha =
    rw (d_step-pos n (a + a) a a (a + a) hn ha ha (omega arith), power_balanced a ha)
      (ap (λ k. ok (pos k)) (numerator-div n (a + a) hn (omega arith)))

-- On a pool with equal positive reserves the invariant is exactly their sum, whatever the amplification,
-- if it is at least 1.
pub compute_d_balanced :
    (amp a : ℕ) → 0 < amp → 0 < a → compute_d (pos amp) (pos a) (pos a) ≡ ok (pos (a + a))
unfolding compute_d
compute_d_balanced amp a h ha = rw (
  is_zero-pos (a + a) (omega arith),
  d_loop_more 19 (pos (amp * 2)) (pos (a + a)) (pos a) (pos a) (pos 0) (pos (a + a)) (pos (a + a))
      (wide (a + a) (omega arith)) (d_step_balanced (amp * 2) a (omega arith) ha),
  d_loop_stop 18 (pos (amp * 2)) (pos (a + a)) (pos a) (pos a) (pos (a + a)) (pos (a + a))
      (narrow (a + a)),
)

-- An empty reserve beside one that is above 1 makes `computeD` divide by zero.
pub compute_d_one_empty :
    (amp a : ℕ)
    → 1 < a
    → (compute_d (pos amp) (pos 0) (pos a) ≡ err division_by_zero)
      × (compute_d (pos amp) (pos a) (pos 0) ≡ err division_by_zero)
unfolding compute_d d_step
compute_d_one_empty amp a h = (
  rw (
    zero-add,
    is_zero-pos a (omega arith),
    d_loop_throw 19 (pos (amp * 2)) (pos a) (pos 0) (pos a) (pos 0) (pos a) division_by_zero
        (wide a h) refl,
  ),
  rw (
    add-zero,
    is_zero-pos a (omega arith),
    d_loop_throw 19 (pos (amp * 2)) (pos a) (pos a) (pos 0) (pos 0) (pos a) division_by_zero
        (wide a h) (rw (tdiv-pos (a * a) (a * 2) (omega arith))),
  ),
)
