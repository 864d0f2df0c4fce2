-- ===== src/ConstantProduct/Inverse.antt =====
-- `computeInAmount` of the class `ConstantProductSwap`: the amount in for a wanted amount out.
use native.Mathlib.Nat.{mul-le-mul_left}
use mercurial_dynamic_amm_sd.Prelude.{
  ℕ, ◌+◌, ◌-◌, ◌*◌, ◌≤◌, ◌<◌, ◌≡◌, refl, sym, ◌∙◌, arith, ℤ, pos, ok, inl, inr, pos_injective, err,
  ceil_div_zero, ltb, ◌==◌, if◌then◌else◌, sub_ℕ-of_le, swap_result_zero, Bool-cases,
}
use mercurial_dynamic_amm_sd.Curve.{DecimalJs, TradeDirection, OutResult}
use mercurial_dynamic_amm_sd.ConstantProduct.{compute_in_amount, compute_out_amount}
use mercurial_dynamic_amm_sd.ConstantProduct.CeilDiv.{
  ceil_quot, ceil_quot_lem, ceil_quot-least, ceil_div-pos, ceil_div-small,
}
use mercurial_dynamic_amm_sd.ConstantProduct.Swap.{
  out_of, out_of-largest, compute_out_amount_outcome, out_result,
}

-- The amount in: what the ceiling of s * d / (d - o) adds to s.
pub in_for : (o s d : ℕ) → ℕ
in_for o s d = ceil_quot (s * d) (d - o) - s

in_for_lem : (o s d : ℕ) → o < d → s + in_for o s d ≡ ceil_quot (s * d) (d - o)
unfolding in_for
in_for_lem o s d h = grind (arith, ceil_quot_lem (s * d) (d - o))

in_for-keeps_product : (o s d : ℕ) → o < d → s * d ≤ (s + in_for o s d) * (d - o)
in_for-keeps_product o s d h =
    rw (in_for_lem o s d h) (ceil_quot_lem (s * d) (d - o) (omega arith)).0

in_for-least : (o s d y : ℕ) → o < d → s * d ≤ (s + y) * (d - o) → in_for o s d ≤ y
in_for-least o s d y h keeps =
    let least = ceil_quot-least (s * d) (d - o) (s + y) (omega arith) keeps in
    omega (arith, in_for_lem o s d h)

-- Every outcome of `computeInAmount` for an amount out below the reserve: the error of `ceilDiv` if the product
-- of the reserves is below the reserve that stays, the error of an empty swap if the ceiling of the quotient
-- adds nothing to the reserve in, and otherwise what it adds.
pub compute_in_amount_outcome :
    (o s d : ℕ) (dir : TradeDirection)
    → o < d
    → compute_in_amount (pos o) (pos s) (pos d) dir ≡ (
        if ltb (s * d) (d - o)
        then err ceil_div_zero
        else if in_for o s d == 0
        then err swap_result_zero
        else ok (pos (in_for o s d)))
unfolding compute_in_amount in_for
compute_in_amount_outcome o s d dir h =
    rw (sub_ℕ-of_le d o (omega arith)) (elim (Bool-cases (ltb (s * d) (d - o))) [
      | inl small ↦ rw (small) (rw (ceil_div-small (s * d) (d - o) (ground arith)))
      | inr large ↦
          rw
            (
              large,
              ceil_div-pos (s * d) (d - o) (omega arith) (ground arith),
              sub_ℕ-of_le (ceil_quot (s * d) (d - o)) s (omega (arith, in_for_lem o s d h)),
            )
            (ground arith)
    ])

-- If `computeInAmount` returns for an amount out below the reserve, it asks for the least amount in
-- that lets that much go out without the product of the reserves falling: the amount is positive, it
-- suffices, and any other amount y that suffices is at least as large.
pub compute_in_amount-least :
    (o s d : ℕ) (dir : TradeDirection) {v : ℤ}
    → o < d
    → compute_in_amount (pos o) (pos s) (pos d) dir ≡ ok v
    → (x : ℕ) × (v ≡ pos x)
      × (0 < x)
      × (s * d ≤ (s + x) * (d - o))
      × ((y : ℕ) → s * d ≤ (s + y) * (d - o) → x ≤ y)
compute_in_amount-least o s d dir h e =
    let outcome = sym (compute_in_amount_outcome o s d dir h) ∙ e in
    (
      in_for o s d,
      ground arith,
      ground arith,
      in_for-keeps_product o s d h,
      λ y. in_for-least o s d y h,
    )

-- If `computeInAmount` asks for x to get a positive amount o below the reserve out, then a swap of x
-- is accepted and pays at least o.
pub compute_out-compute_in :
    (js : DecimalJs) (o s d x : ℕ) (dir dir' : TradeDirection)
    → 0 < o
    → o < d
    → compute_in_amount (pos o) (pos s) (pos d) dir ≡ ok (pos x)
    → (p : ℕ) × (r : OutResult js) × (compute_out_amount js (pos x) (pos s) (pos d) dir' ≡ ok r)
      × (r.out_amount ≡ pos p)
      × (o ≤ p)
unfolding out_result
compute_out-compute_in js o s d x dir dir' h lt e =
    let (x', same, gain, keeps, least) = compute_in_amount-least o s d dir lt e in
    let x-eq : x ≡ x' = pos_injective same in
    let pays : o ≤ out_of x s d =
      out_of-largest x s d o (omega arith) (omega arith) (rw x-eq keeps) in
    let enough : s + x ≤ s * d =
      let at_least : s * 1 ≤ s * d = mul-le-mul_left s (omega arith) in
      let all : s + (s * d - s) ≡ s * d = omega arith in
      let covers : s * d * 1 ≤ s * d * (d - o) = mul-le-mul_left (s * d) (omega arith) in
      omega (arith, least (s * d - s) (rw all (omega (arith, covers)))) in
    (
      out_of x s d,
      out_result js x s d,
      rw (compute_out_amount_outcome js x s d dir') (ground arith),
      refl,
      pays,
    )
