-- ===== src/Calculator.antt =====
-- ts-client/src/amm/curve/stable-swap-math/calculator.ts: the two Newton iterations of the stable
-- curve, and the fee of a deposit or withdrawal that is not balanced.
pub mod Invariant
pub mod Reserve
pub mod Root
use mercurial_dynamic_amm_sd.Prelude.{
  ℕ, zero, suc, ℤ, pos, neg_ℤ, ◌+ℤ◌, ◌-ℤ◌, ◌*ℤ◌, ltb_ℤ, is_zero, tdiv, Bool, true, false, Result,
  ok, ◌>>=◌, if◌then◌else◌,
}

abbrev pub n_coins : ℤ
n_coins = pos 2

abbrev pub max_iters : ℕ
max_iters = 20

abbrev pub abs : ℤ → ℤ
abs a = if ltb_ℤ (pos 0) a then a else neg_ℤ a

-- The body of the loop of `computeD`.
unfoldable pub d_step : (ann s amount_a amount_b d : ℤ) → Result ℤ
d_step ann s amount_a amount_b d = do
  half_power ← tdiv (d *ℤ d) (amount_a *ℤ n_coins)
  power ← tdiv (half_power *ℤ d) (amount_b *ℤ n_coins)
  let numerator = d *ℤ (ann *ℤ s +ℤ power *ℤ n_coins)
  let denominator = d *ℤ (ann -ℤ pos 1) +ℤ power *ℤ (n_coins +ℤ pos 1)
  tdiv numerator denominator

-- The loop of `computeD` with the rounds that are left. It returns the last values of `dPrev` and `d`.
unfoldable pub d_loop : ℕ → (ann s amount_a amount_b d_prev d : ℤ) → Result (ℤ × ℤ)
d_loop zero ann s amount_a amount_b d_prev d = ok (d_prev, d)
d_loop (suc rounds) ann s amount_a amount_b d_prev d = elim (ltb_ℤ (pos 1) (abs (d -ℤ d_prev))) [
  | true ↦ d_step ann s amount_a amount_b d >>= λ d'. d_loop rounds ann s amount_a amount_b d d'
  | false ↦ ok (d_prev, d)
]

unfoldable pub compute_d : (amp_factor amount_a amount_b : ℤ) → Result ℤ
compute_d amp_factor amount_a amount_b = do
  let ann = amp_factor *ℤ n_coins
  let s = amount_a +ℤ amount_b
  if is_zero s
      then ok (pos 0)
      else (do (d_prev, d) ← d_loop max_iters ann s amount_a amount_b (pos 0) s; ok d)

-- The body of the loop of `computeY`.
unfoldable pub y_step : (b c y : ℤ) → Result ℤ
y_step b c y = tdiv (y *ℤ y +ℤ c) (n_coins *ℤ y +ℤ b)

-- The loop of `computeY`, likewise with the last values of `yPrev` and `y`.
unfoldable pub y_loop : ℕ → (b c y_prev y : ℤ) → Result (ℤ × ℤ)
y_loop zero b c y_prev y = ok (y_prev, y)
y_loop (suc rounds) b c y_prev y = elim (ltb_ℤ (pos 1) (abs (y -ℤ y_prev))) [
  | true ↦ y_step b c y >>= λ y'. y_loop rounds b c y y'
  | false ↦ ok (y_prev, y)
]

-- `computeY` up to the end of its loop.
unfoldable pub y_run : (amp_factor x d : ℤ) → Result (ℤ × ℤ)
y_run amp_factor x d = do
  let ann = amp_factor *ℤ n_coins
  share ← tdiv d ann
  let b = x +ℤ share -ℤ d
  c ← tdiv (d *ℤ d *ℤ d) (n_coins *ℤ (n_coins *ℤ (x *ℤ ann)))
  y_loop max_iters b c (pos 0) d

unfoldable pub compute_y : (amp_factor x d : ℤ) → Result ℤ
compute_y amp_factor x d = do (y_prev, y) ← y_run amp_factor x d; ok y

-- What the client uses of the package @mercurial-finance/token-math. `toFixed(0)` may throw, at a zero
-- denominator; a `Percent` that is passed as a `Fraction` is taken through `as_fraction`.
pub record TokenMath : Type 1 where
  pub Fraction : Type 0
  pub fraction : (numerator denominator : ℤ) → Fraction
  pub Percent : Type 0
  pub percent : (numerator denominator : ℤ) → Percent
  pub as_fraction : Percent → Fraction
  pub multiply : Fraction → Fraction → Fraction
  pub subtract : Fraction → Fraction → Fraction
  pub is_positive : Fraction → Bool
  pub to_fixed_0 : Fraction → Result ℤ

module _ (tm : TokenMath) where
  open tm use {Fraction, Percent, fraction, multiply, as_fraction}

  pub record Fees : Type 0 where
    pub trade : Percent
    pub withdraw : Percent
    pub admin_trade : Percent
    pub admin_withdraw : Percent

  unfoldable pub normalized_trade_fee : Fees → (coins amount : ℤ) → Fraction
  normalized_trade_fee fees coins amount =
      let adjusted = fraction coins ((coins -ℤ pos 1) *ℤ pos 4) in
      multiply (multiply (fraction amount (pos 1)) (as_fraction fees.trade)) adjusted
