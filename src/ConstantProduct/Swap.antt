-- ===== src/ConstantProduct/Swap.antt =====
-- `computeOutAmount` of the class `ConstantProductSwap`, on reserves and amounts that are not negative.
use native.Mathlib.Nat.{le_trans, mul-le-mul_right, le_of_mul-le-mul_left}
use native.Mathlib.Decide.{dec_lt}
use mercurial_dynamic_amm_sd.Prelude.{
  ℕ, ◌+◌, ◌-◌, ◌*◌, ◌/◌, ◌≤◌, ◌<◌, ◌≡◌, refl, sym, ◌∙◌, arith, pos, tdiv-pos, ok, inl, inr, err,
  ceil_div_zero, division_by_zero, ltb, ◌==◌, if◌then◌else◌, sub_ℕ-of_le, swap_result_zero,
  Bool-cases,
}
use mercurial_dynamic_amm_sd.Curve.{DecimalJs, TradeDirection, OutResult, get_price_impact}
use mercurial_dynamic_amm_sd.ConstantProduct.{
  ceil_div, compute_out_amount, compute_out_amount_without_slippage,
}
use mercurial_dynamic_amm_sd.ConstantProduct.CeilDiv.{
  ceil_quot, ceil_quot_lem, ceil_quot-least, ceil_div-pos, ceil_div-small,
}

-- The amount out: what the ceiling of s * d / (s + x) leaves of d.
pub out_of : (x s d : ℕ) → ℕ
out_of x s d = d - ceil_quot (s * d) (s + x)

ceil_quot-le : (x s d : ℕ) → 0 < s + x → ceil_quot (s * d) (s + x) ≤ d
ceil_quot-le x s d h = ceil_quot-least (s * d) (s + x) d h (omega arith)

-- The reserves after the swap have at least the product of those before it.
pub out_of-keeps_product :
    (x s d : ℕ) → 0 < s + x → (out_of x s d ≤ d) × (s * d ≤ (s + x) * (d - out_of x s d))
unfolding out_of
out_of-keeps_product x s d h =
    let le = ceil_quot-le x s d h in
    let back : d - (d - ceil_quot (s * d) (s + x)) ≡ ceil_quot (s * d) (s + x) = omega arith in
    (omega arith, rw back (omega (arith, (ceil_quot_lem (s * d) (s + x) h).0)))

-- No larger amount out does so.
pub out_of-largest :
    (x s d p : ℕ) → 0 < s + x → p ≤ d → s * d ≤ (s + x) * (d - p) → p ≤ out_of x s d
unfolding out_of
out_of-largest x s d p h le keeps =
    let least = ceil_quot-least (s * d) (s + x) (d - p) h (omega (arith, keeps)) in omega arith

lt_of_keeps :
    (x s d : ℕ)
    → 0 < s + x
    → s + x ≤ s * d
    → out_of x s d ≤ d
    → s * d ≤ (s + x) * (d - out_of x s d)
    → out_of x s d < d
lt_of_keeps x s d total enough le keeps = elim (dec_lt (out_of x s d) d) [
  | yes h ↦ h
  | no h ↦
      let all : d - out_of x s d ≡ 0 = omega arith in
      let none_left : s * d ≤ (s + x) * 0 = rw all at keeps in absurd (omega arith)
]

-- A larger amount in never pays less.
pub out_of_mono : (x y s d : ℕ) → 0 < s + x → x ≤ y → out_of x s d ≤ out_of y s d
out_of_mono x y s d total le =
    let (fits, keeps) = out_of-keeps_product x s d total in
    out_of-largest y s d (out_of x s d) (omega arith) fits
      (le_trans keeps (mul-le-mul_right (d - out_of x s d) (omega arith)))

-- Two swaps one after the other pay no more than one swap of both amounts.
pub out_of_split :
    (x y s d : ℕ)
    → 0 < s + x
    → out_of x s d + out_of y (s + x) (d - out_of x s d) ≤ out_of (x + y) s d
out_of_split x y s d total =
    let (fits, keeps) = out_of-keeps_product x s d total in
    let (fits', keeps') = out_of-keeps_product y (s + x) (d - out_of x s d) (omega arith) in
    let o = out_of x s d in
    let o' = out_of y (s + x) (d - o) in
    let left : d - o - o' ≡ d - (o + o') = omega arith in
    let sum : s + x + y ≡ s + (x + y) = omega arith in
    out_of-largest (x + y) s d (o + o') (omega arith) (omega arith)
      (le_trans keeps (rw (left, sum) at keeps'))

-- Swapping the amount out back again returns no more than was paid in.
pub out_of_back :
    (x s d : ℕ) → 0 < s + x → 0 < d → out_of (out_of x s d) (d - out_of x s d) (s + x) ≤ x
out_of_back x s d total h =
    let (fits, keeps) = out_of-keeps_product x s d total in
    let o = out_of x s d in
    let (fits', keeps') = out_of-keeps_product o (d - o) (s + x) (omega arith) in
    let back = out_of o (d - o) (s + x) in
    let whole : d - o + o ≡ d = omega arith in
    let step : d * s ≤ (d - o + o) * (s + x - back) = le_trans (omega (arith, keeps)) keeps' in
    let grown : d * s ≤ d * (s + x - back) = rw whole at step in
    let reserve : s ≤ s + x - back = le_of_mul-le-mul_left grown h in omega arith

module _ (js : DecimalJs) where
  -- What a swap that goes through returns.
  unfoldable pub out_result : (x s d : ℕ) → OutResult js
  out_result x s d = record {
    out_amount = pos (out_of x s d);
    price_impact = get_price_impact js (pos (out_of x s d)) (pos (x * d / s));
  }

  compute_out_amount-pos :
      (x s d : ℕ) (dir : TradeDirection)
      → 0 < s
      → s + x ≤ s * d
      → compute_out_amount js (pos x) (pos s) (pos d) dir
        ≡ (if out_of x s d == 0 then err swap_result_zero else ok (out_result x s d))
  unfolding compute_out_amount compute_out_amount_without_slippage out_of out_result
  compute_out_amount-pos x s d dir h le = rw (ceil_div-pos (s * d) (s + x) (omega arith) le) (
      rw (sub_ℕ-of_le d (ceil_quot (s * d) (s + x)) (ceil_quot-le x s d (omega arith)))
        (rw (tdiv-pos (x * d) s h) (ground arith)))

  -- Every outcome of `computeOutAmount` on an amount and reserves that are not negative: a division by zero if
  -- the amount in and its reserve are 0, the error of `ceilDiv` if the product of the reserves is below their
  -- sum, the error of an empty swap if the ceiling of the quotient leaves nothing of the reserve out, and
  -- otherwise what it leaves, with its price impact.
  pub compute_out_amount_outcome :
      (x s d : ℕ) (dir : TradeDirection)
      → compute_out_amount js (pos x) (pos s) (pos d) dir ≡ (
          if s + x == 0
          then err division_by_zero
          else if ltb (s * d) (s + x)
          then err ceil_div_zero
          else if out_of x s d == 0
          then err swap_result_zero
          else ok (out_result x s d))
  compute_out_amount_outcome x s d dir = elim (Bool-cases (s + x == 0)) [
    | inl e ↦
        let x0 : x ≡ 0 = ground arith in
        let s0 : s ≡ 0 = ground arith in rw (x0, s0) (unfold compute_out_amount ceil_div in refl)
    | inr e ↦ elim (Bool-cases (ltb (s * d) (s + x))) [
      | inl small ↦
          rw (e, small)
            (unfold compute_out_amount in (rw (ceil_div-small (s * d) (s + x) (ground arith))))
      | inr large ↦ rw (e, large) (compute_out_amount-pos x s d dir (grind arith) (ground arith))
    ]
  ]

  -- Inversion of a successful call.
  pub compute_out_amount-ok :
      (x s d : ℕ) (dir : TradeDirection) {r : OutResult js}
      → compute_out_amount js (pos x) (pos s) (pos d) dir ≡ ok r
      → (0 < s + x) × (s + x ≤ s * d) × (0 < out_of x s d) × (r.out_amount ≡ pos (out_of x s d))
  unfolding out_result
  compute_out_amount-ok x s d dir h =
      let outcome = sym (compute_out_amount_outcome x s d dir) ∙ h in
      (ground arith, ground arith, ground arith, ground arith)

  -- If `computeOutAmount` returns, it pays the largest amount that leaves the product of the
  -- reserves at least as large as before: the amount is positive and below the reserve, the product
  -- does not fall, and any amount p for which it does not fall is at most the one paid.
  pub compute_out_amount-largest :
      (x s d : ℕ) (dir : TradeDirection) {r : OutResult js}
      → compute_out_amount js (pos x) (pos s) (pos d) dir ≡ ok r
      → (o : ℕ) × (r.out_amount ≡ pos o)
        × (0 < o)
        × (o < d)
        × (s * d ≤ (s + x) * (d - o))
        × ((p : ℕ) → p ≤ d → s * d ≤ (s + x) * (d - p) → p ≤ o)
  compute_out_amount-largest x s d dir h =
      let (total, enough, paid, e) = compute_out_amount-ok x s d dir h in
      let (le, keeps) = out_of-keeps_product x s d total in
      (
        out_of x s d,
        e,
        paid,
        lt_of_keeps x s d total enough le keeps,
        keeps,
        λ p. out_of-largest x s d p total,
      )
