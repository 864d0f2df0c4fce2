-- ===== src/ConstantProduct/Trades.antt =====
-- Sequences of swaps through `computeOutAmount` of the class `ConstantProductSwap`: what a trader can
-- gain by splitting, enlarging or reversing a trade.
use mercurial_dynamic_amm_sd.Prelude.{
  ℕ, ◌+◌, ◌-◌, ◌≤◌, ◌≡◌, sym, ◌∙◌, arith, pos, pos_injective, ok,
}
use mercurial_dynamic_amm_sd.Curve.{DecimalJs, TradeDirection, OutResult}
use mercurial_dynamic_amm_sd.ConstantProduct.{compute_out_amount}
use mercurial_dynamic_amm_sd.ConstantProduct.Swap.{
  out_of, out_of_mono, out_of_split, out_of_back, compute_out_amount-ok,
}

module _ (js : DecimalJs) where
  -- If two amounts in are both accepted at the same reserves, the larger one is paid at least as
  -- much as the smaller one.
  pub compute_out_amount_mono :
      (x y s d : ℕ) (dir : TradeDirection) {r t : OutResult js}
      → x ≤ y
      → compute_out_amount js (pos x) (pos s) (pos d) dir ≡ ok r
      → compute_out_amount js (pos y) (pos s) (pos d) dir ≡ ok t
      → (a b : ℕ) × (r.out_amount ≡ pos a) × (t.out_amount ≡ pos b) × (a ≤ b)
  compute_out_amount_mono x y s d dir le h k =
      let (total, _, _, e) = compute_out_amount-ok js x s d dir h in
      let (_, _, _, f) = compute_out_amount-ok js y s d dir k in
      (out_of x s d, out_of y s d, e, f, out_of_mono x y s d total le)

  -- If an amount x is swapped for a, and then y for b at the reserves that the first swap leaves,
  -- and a swap of x + y at the first reserves is accepted too, the single swap pays at least a + b.
  pub compute_out_amount_split :
      (x y s d a b : ℕ) (dir : TradeDirection) {r t u : OutResult js}
      → compute_out_amount js (pos x) (pos s) (pos d) dir ≡ ok r
      → r.out_amount ≡ pos a
      → compute_out_amount js (pos y) (pos (s + x)) (pos (d - a)) dir ≡ ok t
      → t.out_amount ≡ pos b
      → compute_out_amount js (pos (x + y)) (pos s) (pos d) dir ≡ ok u
      → (c : ℕ) × (u.out_amount ≡ pos c) × (a + b ≤ c)
  compute_out_amount_split x y s d a b dir h p k q l =
      let (total, _, _, e) = compute_out_amount-ok js x s d dir h in
      let (_, _, _, f) = compute_out_amount-ok js y (s + x) (d - a) dir k in
      let (_, _, _, g) = compute_out_amount-ok js (x + y) s d dir l in
      let first : a ≡ out_of x s d = pos_injective (sym p ∙ e) in
      let second : b ≡ out_of y (s + x) (d - a) = pos_injective (sym q ∙ f) in
      (out_of (x + y) s d, g, rw (second, first) (out_of_split x y s d total))

  -- If x is swapped for a, and a is swapped back at the reserves that this leaves, the trader gets
  -- no more than x back.
  pub compute_out_amount_back :
      (x s d a : ℕ) (dir dir' : TradeDirection) {r t : OutResult js}
      → compute_out_amount js (pos x) (pos s) (pos d) dir ≡ ok r
      → r.out_amount ≡ pos a
      → compute_out_amount js (pos a) (pos (d - a)) (pos (s + x)) dir' ≡ ok t
      → (b : ℕ) × (t.out_amount ≡ pos b) × (b ≤ x)
  compute_out_amount_back x s d a dir dir' h p k =
      let (total, enough, _, e) = compute_out_amount-ok js x s d dir h in
      let (_, _, _, f) = compute_out_amount-ok js a (d - a) (s + x) dir' k in
      let first : a ≡ out_of x s d = pos_injective (sym p ∙ e) in
      (out_of a (d - a) (s + x), f, rw first (out_of_back x s d total (grind arith)))
