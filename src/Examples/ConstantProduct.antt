-- ===== src/Examples/ConstantProduct.antt =====
-- Examples for curve/constant-product.ts: reserves of 1000 and 2000.
use mercurial_dynamic_amm_sd.Prelude.{ℕ, ◌+◌, ◌-◌, ◌*◌, ◌≤◌, ◌<◌, ◌≡◌, refl, arith, ℤ, pos, ok}
use mercurial_dynamic_amm_sd.Curve.{a_to_b, b_to_a, OutResult, get_price_impact}
use mercurial_dynamic_amm_sd.ConstantProduct.{compute_out_amount, compute_in_amount}
use mercurial_dynamic_amm_sd.ConstantProduct.Swap.{compute_out_amount-largest}
use mercurial_dynamic_amm_sd.ConstantProduct.Trades.{
  compute_out_amount_split, compute_out_amount_back,
}
use mercurial_dynamic_amm_sd.ConstantProduct.Inverse.{
  compute_in_amount-least, compute_out-compute_in,
}
use mercurial_dynamic_amm_sd.Examples.{exact}

abbrev paid : ℤ → (less most : ℕ) → OutResult exact
paid out less most = record { out_amount = out; price_impact = (pos less, pos most) }

swap_10 : compute_out_amount exact (pos 10) (pos 1000) (pos 2000) a_to_b ≡ ok (paid (pos 19) 1 20)
unfolding compute_out_amount get_price_impact
swap_10 = refl

swap_30 : compute_out_amount exact (pos 30) (pos 1000) (pos 2000) a_to_b ≡ ok (paid (pos 58) 2 60)
unfolding compute_out_amount get_price_impact
swap_30 = refl

swap_20_more :
    compute_out_amount exact (pos 20) (pos (1000 + 10)) (pos (2000 - 19)) a_to_b
    ≡ ok (paid (pos 38) 1 39)
unfolding compute_out_amount get_price_impact
swap_20_more = refl

swap_back :
    compute_out_amount exact (pos 19) (pos (2000 - 19)) (pos (1000 + 10)) b_to_a
    ≡ ok (paid (pos 9) 0 9)
unfolding compute_out_amount get_price_impact
swap_back = refl

ask_19 : compute_in_amount (pos 19) (pos 1000) (pos 2000) a_to_b ≡ ok (pos 10)
unfolding compute_in_amount
ask_19 = refl

compute_out_amount-largest_example :
    (o : ℕ) × (pos 19 ≡ pos o)
    × (0 < o)
    × (o < 2000)
    × (1000 * 2000 ≤ (1000 + 10) * (2000 - o))
    × ((p : ℕ) → p ≤ 2000 → 1000 * 2000 ≤ (1000 + 10) * (2000 - p) → p ≤ o)
compute_out_amount-largest_example = compute_out_amount-largest exact 10 1000 2000 a_to_b swap_10

compute_out_amount_split_example : (c : ℕ) × (pos 58 ≡ pos c) × (19 + 38 ≤ c)
compute_out_amount_split_example =
    compute_out_amount_split exact 10 20 1000 2000 19 38 a_to_b swap_10 refl swap_20_more refl
      swap_30

compute_out_amount_back_example : (b : ℕ) × (pos 9 ≡ pos b) × (b ≤ 10)
compute_out_amount_back_example =
    compute_out_amount_back exact 10 1000 2000 19 a_to_b b_to_a swap_10 refl swap_back

compute_in_amount-least_example :
    (x : ℕ) × (pos 10 ≡ pos x)
    × (0 < x)
    × (1000 * 2000 ≤ (1000 + x) * (2000 - 19))
    × ((y : ℕ) → 1000 * 2000 ≤ (1000 + y) * (2000 - 19) → x ≤ y)
compute_in_amount-least_example = compute_in_amount-least 19 1000 2000 a_to_b (omega arith) ask_19

compute_out-compute_in_example :
    (p : ℕ) × (r : OutResult exact) × (compute_out_amount exact
        (pos 10)
        (pos 1000)
        (pos 2000)
        a_to_b
      ≡ ok r)
    × (r.out_amount ≡ pos p)
    × (19 ≤ p)
compute_out-compute_in_example =
    compute_out-compute_in exact 19 1000 2000 10 a_to_b a_to_b (omega arith) (omega arith) ask_19
