-- ===== src/Calculator/Reserve.antt =====
-- `computeY` of ts-client/src/amm/curve/stable-swap-math/calculator.ts on numbers that are not
-- negative. Below, u - d is the coefficient b of the code: u is x + D / Ann.
use native.Mathlib.Nat.{
  lt_of_mul-lt-mul_right, lt_of_mul-lt-mul_left, div-mul-le_self, lt-div-mul-add,
}
use native.Mathlib.Decide.{dec_lt}
use mercurial_dynamic_amm_sd.Prelude.{
  ℕ, zero, suc, ◌+◌, ◌-◌, ◌*◌, ◌/◌, ◌≤◌, ◌<◌, ◌≡◌, refl, ap, ◌∙◌, arith, ℤ, pos, ok, inl, inr, ◌⊎◌,
  true, false, tdiv-pos, Bool-cases, sub_ℕ, ltb_ℤ, ◌-ℤ◌, ◌+ℤ◌,
}
use mercurial_dynamic_amm_sd.Calculator.{y_step, y_loop, y_run, abs}

+ℤ-sub_ℕ : (m u d : ℕ) → d ≤ m + u → pos m +ℤ sub_ℕ u d ≡ pos (m + u - d)
+ℤ-sub_ℕ m u d h = ground arith

next : (u d c y : ℕ) → ℕ
next u d c y = (y * y + c) / (2 * y + u - d)

y_step-pos :
    (u d c y : ℕ) → d < 2 * y + u → y_step (sub_ℕ u d) (pos c) (pos y) ≡ ok (pos (next u d c y))
unfolding y_step next
y_step-pos u d c y h =
    rw (+ℤ-sub_ℕ (2 * y) u d (omega arith), tdiv-pos (y * y + c) (2 * y + u - d) (omega arith))

next_lem :
    (u d c y : ℕ)
    → d < 2 * y + u
    → (next u d c y * (2 * y + u) ≤ y * y + c + next u d c y * d)
      × (y * y + c + (next u d c y + 1) * d < (next u d c y + 1) * (2 * y + u))
unfolding next
next_lem u d c y h =
    let k = 2 * y + u - d in
    let q = (y * y + c) / k in
    let e : 2 * y + u ≡ k + d = omega arith in
    let low : q * k ≤ y * y + c = div-mul-le_self (y * y + c) k in
    let up : y * y + c < q * k + k = lt-div-mul-add (omega arith) in
    (omega (arith, ap (λ (t : ℕ). q * t) e), omega (arith, ap (λ (t : ℕ). q * t) e))

-- The loop stops here, or its next division is by a positive number.
abbrev IsReady : (u d p y : ℕ) → Type 0
IsReady u d p y = (ltb_ℤ (pos 1) (abs (pos y -ℤ pos p)) ≡ false) ⊎ (d < 2 * y + u)

two_mul-le : (a b : ℕ) → 2 * (a * b) ≤ a * a + b * b
two_mul-le a b = elim (dec_lt a b) [
  | yes h ↦ shifted a (b - a) b (omega arith)
  | no h ↦ omega (arith, shifted b (a - b) a (omega arith))
]
  where
    shifted : (x k z : ℕ) → x + k ≡ z → 2 * (x * z) ≤ x * x + z * z
    shifted x k z e = rw (← e) (omega arith)

stops : (y n : ℕ) → (n ≡ 0) × (y ≡ 1) → ltb_ℤ (pos 1) (abs (pos n -ℤ pos y)) ≡ false
stops y n (e, f) = rw (e, f)

settled_gap :
    (y n b : ℕ)
    → y * y + (n + 1) * b < (n + 1) * (2 * y)
    → 2 * n ≤ b
    → b < 2 * y
    → (n ≡ 0) × (y ≡ 1)
settled_gap y n b up late ready =
    let less : (n + 1) * b < (n + 1) * (n + 1) = omega (arith, two_mul-le y (n + 1)) in
    let b-lt : b < n + 1 = lt_of_mul-lt-mul_left (n + 1) less in
    let n0 : n ≡ 0 = omega arith in
    let first : y * y + (0 + 1) * b < (0 + 1) * (2 * y) = rw n0 at up in
    let small : y * y < 2 * y = omega arith in
    let y-lt : y < 2 = lt_of_mul-lt-mul_right y small in (n0, omega arith)

-- A step cannot overshoot below the larger of 0 and -b, but to 0 from 1.
settled :
    (u d c y n : ℕ)
    → d < 2 * y + u
    → 2 * n + u ≤ d
    → y * y + c + (n + 1) * d < (n + 1) * (2 * y + u)
    → (n ≡ 0) × (y ≡ 1)
settled u d c y n h late up =
    let e : d ≡ u + (d - u) = omega arith in
    settled_gap y n (d - u) (omega (arith, ap (λ (t : ℕ). n * t) e)) (omega arith) (omega arith)

next-IsReady : (u d c y : ℕ) → d < 2 * y + u → IsReady u d y (next u d c y)
next-IsReady u d c y h = elim (dec_lt d (2 * next u d c y + u)) [
  | yes ready ↦ inr ready
  | no late ↦ inl (
      stops y (next u d c y)
        (settled u d c y (next u d c y) h (omega arith) (next_lem u d c y h).1))
]

far : (d : ℕ) → 1 < d → ltb_ℤ (pos 1) (abs (pos d -ℤ pos 0)) ≡ true
far d h = ground arith

y_loop_more :
    (rounds : ℕ) (b c p y e : ℤ)
    → ltb_ℤ (pos 1) (abs (y -ℤ p)) ≡ true
    → y_step b c y ≡ ok e
    → y_loop (suc rounds) b c p y ≡ y_loop rounds b c y e
unfolding y_loop
y_loop_more rounds b c p y e more step = rw (y_loop, more, step)

pub y_loop_stop :
    (rounds : ℕ) (b c p y : ℤ)
    → ltb_ℤ (pos 1) (abs (y -ℤ p)) ≡ false
    → y_loop (suc rounds) b c p y ≡ ok (p, y)
unfolding y_loop
y_loop_stop rounds b c p y stop = rw (y_loop, stop)

-- The root of y² + (u - d) y = c, within one.
pub record IsRoot (u d c y : ℕ) : Type 0 where
  pub lower : y * y + u * y ≤ c + 1 + d * y
  pub upper : c + d * (y + 1) < (y + 1) * (y + 1) + u * (y + 1)

abbrev pub IsClose : ℕ → ℕ → Type 0
IsClose p y = (p ≤ y + 1) × (y ≤ p + 1)

-- `y` is what a round makes of `p`.
abbrev pub IsStep : (u d c p y : ℕ) → Type 0
IsStep u d c p y =
    (y * (2 * p + u) ≤ p * p + c + y * d) × (p * p + c + (y + 1) * d < (y + 1) * (2 * p + u))

pub IsStep-IsRoot : (u d c p y : ℕ) → IsStep u d c p y → IsClose p y → IsRoot u d c y
IsStep-IsRoot u d c p y st close = elim (dec_lt p y) [
  | yes h ↦ above u d c p y (omega arith) st
  | no h ↦ elim (dec_lt y p) [
    | yes k ↦ below u d c p y (omega arith) st
    | no k ↦ level u d c p y (omega arith) st
  ]
]
  where
    above : (u d c p y : ℕ) → y ≡ p + 1 → IsStep u d c p y → IsRoot u d c y
    above u d c p y e st = let st' : IsStep u d c p (p + 1) = rw e at st in rw e (omega arith)

    below : (u d c p y : ℕ) → p ≡ y + 1 → IsStep u d c p y → IsRoot u d c y
    below u d c p y e st = let st' : IsStep u d c (y + 1) y = rw e at st in omega arith

    level : (u d c p y : ℕ) → p ≡ y → IsStep u d c p y → IsRoot u d c y
    level u d c p y e st = let st' : IsStep u d c y y = rw e at st in omega arith

-- The loop ends in a value and the one before it, from which the last round made it.
y_loop_total :
    (u d c rounds p y : ℕ)
    → IsReady u d p y
    → IsStep u d c p y
    → (q : ℕ) × (r : ℕ) × (y_loop rounds (sub_ℕ u d) (pos c) (pos p) (pos y) ≡ ok (pos q, pos r))
      × IsStep u d c q r
y_loop_total u d c zero p y h st = (p, y, unfold y_loop in refl, st)
y_loop_total u d c (suc rounds) p y h st =
    elim (Bool-cases (ltb_ℤ (pos 1) (abs (pos y -ℤ pos p)))) [
      | inr stop ↦ (p, y, y_loop_stop rounds (sub_ℕ u d) (pos c) (pos p) (pos y) stop, st)
      | inl more ↦
          let step : d < 2 * y + u = ground arith in
          let (q, r, run, last) =
            y_loop_total u d c rounds y (next u d c y) (next-IsReady u d c y step)
              (next_lem u d c y step) in
          (
            q,
            r,
            y_loop_more rounds (sub_ℕ u d) (pos c) (pos p) (pos y) (pos (next u d c y)) more
                  (y_step-pos u d c y step)
                ∙ run,
            last,
          )
    ]

-- The loop of `computeY`, started at `d` with at least one round to make.
pub y_run_lem :
    (amp x d : ℕ)
    → 0 < amp
    → 0 < x
    → 1 < d
    → let c = d * d * d / (2 * (2 * (x * (amp * 2)))) in
      (q : ℕ) × (r : ℕ) × (y_run (pos amp) (pos x) (pos d) ≡ ok (pos q, pos r))
      × IsStep (x + d / (amp * 2)) d c q r
unfolding y_run
y_run_lem amp x d ha hx hd =
    let u = x + d / (amp * 2) in
    let c = d * d * d / (2 * (2 * (x * (amp * 2)))) in
    let ready : d < 2 * d + u = omega arith in
    let wide : 0 < 2 * (2 * (x * (amp * 2))) = grind arith in
    let (q, r, run, last) =
      y_loop_total u d c 19 d (next u d c d) (next-IsReady u d c d ready)
        (next_lem u d c d ready) in
    (
      q,
      r,
      rw (tdiv-pos d (amp * 2) (omega arith), tdiv-pos (d * d * d) (2 * (2 * (x * (amp * 2)))) wide)
          (y_loop_more 19 (sub_ℕ u d) (pos c) (pos 0) (pos d) (pos (next u d c d)) (far d hd)
              (y_step-pos u d c d ready)
            ∙ run),
      last,
    )
