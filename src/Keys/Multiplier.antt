-- ===== src/Keys/Multiplier.antt =====
-- `computeTokenMultiplier` of ts-client/src/amm/utils.ts.
use native.Mathlib.Nat
use native.Mathlib.Decide.{dec_le}
use mercurial_dynamic_amm_sd.Prelude.{
  ℕ, zero, suc, ◌+◌, ◌-◌, ◌*◌, ◌^◌, ◌≤◌, max, ◌≡◌, refl, ap, ◌∙◌, arith, ok, inl, inr, pos, ◌⊎◌,
}
use mercurial_dynamic_amm_sd.Types.{TokenMultiplier}
use mercurial_dynamic_amm_sd.Keys.{power_of_ten, compute_token_multiplier}

power_small : (k : ℕ) → k ≤ 15 → power_of_ten k ≡ ok (pos (10 ^ k))
unfolding power_of_ten
power_small k h =
    let small : 10 ^ k ≤ 10 ^ 15 = Nat.pow-le-pow_right {n = 10} (omega arith) h in ground arith

-- 10 ^ a * 10 ^ (b - a)
pow_gap : (a k : ℕ) → 10 ^ a * 10 ^ k ≡ 10 ^ (a + k)
pow_gap a zero = rw Nat.add-zero (omega arith)
pow_gap a (suc k) =
    rw (Nat.pow-suc 10 k, Nat.add-suc a k, Nat.pow-suc 10 (a + k), ← pow_gap a k) (omega arith)

one_is_one : (a b : ℕ) → (10 ^ (max a b - a) ≡ 1) ⊎ (10 ^ (max a b - b) ≡ 1)
one_is_one a b = elim (dec_le a b) [
  | yes h ↦ let e : max a b - b ≡ 0 = omega arith in inr (rw e)
  | no h ↦ let e : max a b - a ≡ 0 = omega arith in inl (rw e)
]

-- For two tokens whose decimals differ by at most 15, the multipliers bring both to the larger number
-- of decimals, the precision factor, and one of them is 1.
pub compute_token_multiplier_lem :
    (a b : ℕ)
    → a ≤ b + 15
    → b ≤ a + 15
    → (m : TokenMultiplier) × (ma : ℕ) × (mb : ℕ) × (compute_token_multiplier a b ≡ ok m)
      × (m.token_a_multiplier ≡ pos ma)
      × (m.token_b_multiplier ≡ pos mb)
      × (m.precision_factor ≡ max a b)
      × (10 ^ a * ma ≡ 10 ^ m.precision_factor)
      × (10 ^ b * mb ≡ 10 ^ m.precision_factor)
      × ((ma ≡ 1) ⊎ (mb ≡ 1))
unfolding compute_token_multiplier
compute_token_multiplier_lem a b h k = (
  record {
    token_a_multiplier = pos (10 ^ (max a b - a));
    token_b_multiplier = pos (10 ^ (max a b - b));
    precision_factor = max a b;
  },
  10 ^ (max a b - a),
  10 ^ (max a b - b),
  rw (power_small (max a b - a) (omega arith), power_small (max a b - b) (omega arith)),
  refl,
  refl,
  refl,
  pow_gap a (max a b - a) ∙ ap (λ n. 10 ^ n) (omega arith),
  pow_gap b (max a b - b) ∙ ap (λ n. 10 ^ n) (omega arith),
  one_is_one a b,
)
