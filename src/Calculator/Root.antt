-- ===== src/Calculator/Root.antt =====
-- What `computeY` of ts-client/src/amm/curve/stable-swap-math/calculator.ts returns.
use mercurial_dynamic_amm_sd.Prelude.{
  ℕ, ◌+◌, ◌*◌, ◌/◌, ◌≤◌, ◌<◌, ◌≡◌, sym, ◌∙◌, arith, ℤ, pos, Result, ok, sub_ℕ, tdiv-pos,
}
use native.Mathlib.Decide.{dec_lt}
use mercurial_dynamic_amm_sd.Calculator.{y_run, compute_y}
use mercurial_dynamic_amm_sd.Calculator.Reserve.{y_run_lem, y_loop_stop, IsStep-IsRoot, IsRoot}

few_rounds :
    (amp x d : ℕ) → 0 < amp → 0 < x → d ≤ 1 → compute_y (pos amp) (pos x) (pos d) ≡ ok (pos d)
unfolding compute_y y_run
few_rounds amp x d ha hx h = rw (
  tdiv-pos d (amp * 2) (omega arith),
  tdiv-pos (d * d * d) (2 * (2 * (x * (amp * 2)))) (grind arith),
  y_loop_stop 19 (sub_ℕ (x + d / (amp * 2)) d) (pos (d * d * d / (2 * (2 * (x * (amp * 2))))))
      (pos 0) (pos d) (ground arith),
)

-- With an amplification of at least 1 and a positive amount x, `computeY` never divides by zero and
-- never returns a negative number.
pub compute_y_total :
    (amp x d : ℕ) → 0 < amp → 0 < x → (y : ℕ) × (compute_y (pos amp) (pos x) (pos d) ≡ ok (pos y))
unfolding compute_y
compute_y_total amp x d ha hx = elim (dec_lt 1 d) [
  | yes more ↦ let (q, r, run, _) = y_run_lem amp x d ha hx more in (r, rw run)
  | no few ↦ (d, few_rounds amp x d ha hx (omega arith))
]

-- With an amplification of at least 1 and a positive amount x, if the loop of `computeY` for an invariant
-- d above 1 ends with values p and y of `yPrev` and `y`
-- that differ by at most one, then y is what `computeY` returns, and it is within one of the root of
-- y² + b y = c for the b and c of the code, written with the negative part d of b on the other side:
-- y² + (x + d / Ann) y ≤ c + 1 + d y, and the strict opposite without the 1 at y + 1.
pub compute_y-IsRoot :
    (amp x d p y : ℕ)
    → 0 < amp
    → 0 < x
    → 1 < d
    → y_run (pos amp) (pos x) (pos d) ≡ ok (pos p, pos y)
    → p ≤ y + 1
    → y ≤ p + 1
    → (compute_y (pos amp) (pos x) (pos d) ≡ ok (pos y))
      × IsRoot (x + d / (amp * 2)) d (d * d * d / (2 * (2 * (x * (amp * 2))))) y
unfolding compute_y
compute_y-IsRoot amp x d p y ha hx hd run le le' =
    let (q, r, run', step) = y_run_lem amp x d ha hx hd in
    let same : ◌≡◌ {A = Result (ℤ × ℤ)} (ok (pos q, pos r)) (ok (pos p, pos y)) = sym run' ∙ run in
    let q-eq : q ≡ p = ground arith in
    let r-eq : r ≡ y = ground arith in
    (
      rw run,
      IsStep-IsRoot (x + d / (amp * 2)) d (d * d * d / (2 * (2 * (x * (amp * 2))))) p y
          (rw (q-eq, r-eq) at step) (le, le'),
    )
