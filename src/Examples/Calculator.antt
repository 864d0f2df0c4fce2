-- ===== src/Examples/Calculator.antt =====
-- Examples for curve/stable-swap-math/calculator.ts: an amplification of 100, reserves of 1000 and 2000.
use mercurial_dynamic_amm_sd.Prelude.{ℕ, ◌+◌, ◌*◌, ◌/◌, ◌≤◌, ◌<◌, ◌≡◌, refl, arith, pos, ok}
use mercurial_dynamic_amm_sd.Calculator.{compute_d, compute_y, y_run, y_loop, y_step}
use mercurial_dynamic_amm_sd.Calculator.Invariant.{compute_d_bounds}
use mercurial_dynamic_amm_sd.Calculator.Reserve.{IsRoot}
use mercurial_dynamic_amm_sd.Calculator.Root.{compute_y_total, compute_y-IsRoot}

compute_d_bounds_example :
    (d : ℕ) × (compute_d (pos 100) (pos 1000) (pos 2000) ≡ ok (pos d))
    × (0 < d)
    × (d ≤ 2 * (1000 + 2000))
compute_d_bounds_example = compute_d_bounds 100 1000 2000 (omega arith) (omega arith) (omega arith)

compute_y_total_example : (y : ℕ) × (compute_y (pos 100) (pos 1010) (pos 2998) ≡ ok (pos y))
compute_y_total_example = compute_y_total 100 1010 2998 (omega arith) (omega arith)

run : y_run (pos 100) (pos 1010) (pos 2998) ≡ ok (pos 1991, pos 1990)
unfolding y_run y_loop y_step
run = refl

compute_y-IsRoot_example :
    (compute_y (pos 100) (pos 1010) (pos 2998) ≡ ok (pos 1990))
    × IsRoot
        (1010 + 2998 / (100 * 2))
        2998
        (2998 * 2998 * 2998 / (2 * (2 * (1010 * (100 * 2)))))
        1990
compute_y-IsRoot_example =
    compute_y-IsRoot 100 1010 2998 1991 1990 (omega arith) (omega arith) (omega arith) run
      (omega arith) (omega arith)
