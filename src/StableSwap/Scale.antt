-- ===== src/StableSwap/Scale.antt =====
-- The scaling of the class `StableSwap` of ts-client/src/amm/curve/stable-swap.ts: both directions for
-- both tokens, with positive multipliers and a positive price of the base pool.
use native.Mathlib.Nat.{
  mul-div_left, div-mul-le_self, lt-div-mul-add, div-div-eq-div-mul, mul_assoc, mul-pos,
}
use mercurial_dynamic_amm_sd.Prelude.{
  ℕ, ◌+◌, ◌*◌, ◌/◌, ◌≤◌, ◌<◌, ◌≡◌, arith, Bool-cases, inl, inr, pos, neg_ℤ, tdiv-neg_ℤ, ok,
  tdiv-pos, if◌then◌else◌,
}
use mercurial_dynamic_amm_sd.Types.{AccountData, DepegType}
use mercurial_dynamic_amm_sd.Curve.{TradeDirection, a_to_b, b_to_a}
use mercurial_dynamic_amm_sd.StableSwap.{
  StableSwap, is_none, upscale_token_a, downscale_token_a, upscale_token_b, downscale_token_b,
}
use mercurial_dynamic_amm_sd.StableSwap.Amounts.{
  upscale_source, upscale_destination, downscale_destination,
}

-- The multipliers and the cached price of a curve, all positive.
pub record IsScaled {acc : AccountData} (s : StableSwap acc) (ma mb price : ℕ) : Type 0 where
  pub multiplier_a : s.token_multiplier.token_a_multiplier ≡ pos ma
  pub multiplier_b : s.token_multiplier.token_b_multiplier ≡ pos mb
  pub virtual_price : s.depeg.base_virtual_price ≡ pos price
  pub multiplier_a_pos : 0 < ma
  pub multiplier_b_pos : 0 < mb
  pub price_pos : 0 < price

-- How many units of the curve one unit of a token is.
abbrev pub scale_a : DepegType → ℕ → ℕ
scale_a kind ma = if is_none kind then ma else ma * 1_000_000

abbrev pub scale_b : DepegType → ℕ → ℕ → ℕ
scale_b kind mb price = if is_none kind then mb else mb * price

module _ (acc : AccountData) (s : StableSwap acc) {ma mb price : ℕ}
    (sc : IsScaled s ma mb price) where
  pub scale_a_pos : 0 < scale_a s.depeg.depeg_type ma
  scale_a_pos = ground (arith, sc.multiplier_a_pos)

  pub scale_b_pos : 0 < scale_b s.depeg.depeg_type mb price
  scale_b_pos = ground (arith, mul-pos sc.multiplier_b_pos sc.price_pos, sc.multiplier_b_pos)

  pub upscale_token_a-pos :
      (x : ℕ) → upscale_token_a acc s (pos x) ≡ pos (x * scale_a s.depeg.depeg_type ma)
  unfolding upscale_token_a
  upscale_token_a-pos x = rw sc.multiplier_a (ground (arith, mul_assoc x ma 1_000_000))

  pub upscale_token_b-pos :
      (x : ℕ) → upscale_token_b acc s (pos x) ≡ pos (x * scale_b s.depeg.depeg_type mb price)
  unfolding upscale_token_b
  upscale_token_b-pos x =
      rw (sc.multiplier_b, sc.virtual_price) (ground (arith, mul_assoc x mb price))

  pub downscale_token_a-pos :
      (y : ℕ) → downscale_token_a acc s (pos y) ≡ ok (pos (y / scale_a s.depeg.depeg_type ma))
  unfolding downscale_token_a
  downscale_token_a-pos y =
      rw (sc.multiplier_a, tdiv-pos y ma sc.multiplier_a_pos)
        (ground (arith, div-div-eq-div-mul y ma 1_000_000))

  pub downscale_token_b-pos :
      (y : ℕ) → downscale_token_b acc s (pos y) ≡ ok (pos (y / scale_b s.depeg.depeg_type mb price))
  unfolding downscale_token_b
  downscale_token_b-pos y =
      rw (sc.multiplier_b, sc.virtual_price, tdiv-pos y mb sc.multiplier_b_pos)
        (ground (arith, tdiv-pos (y / mb) price sc.price_pos, div-div-eq-div-mul y mb price))

  -- With positive multipliers and a positive price of the base pool, scaling an amount of either token up
  -- and down again gives the amount back.
  pub downscale-upscale :
      (x : ℕ)
      → (downscale_token_a acc s (upscale_token_a acc s (pos x)) ≡ ok (pos x))
        × (downscale_token_b acc s (upscale_token_b acc s (pos x)) ≡ ok (pos x))
  downscale-upscale x = (
    rw (
      upscale_token_a-pos x,
      downscale_token_a-pos (x * scale_a s.depeg.depeg_type ma),
      mul-div_left x {n = scale_a s.depeg.depeg_type ma} scale_a_pos,
    ),
    rw (
      upscale_token_b-pos x,
      downscale_token_b-pos (x * scale_b s.depeg.depeg_type mb price),
      mul-div_left x {n = scale_b s.depeg.depeg_type mb price} scale_b_pos,
    ),
  )

  -- With positive multipliers and a positive price of the base pool, an amount y of the curve, scaled down
  -- to either token, gives the largest amount of the token that is worth no more than y.
  pub upscale-downscale :
      (y : ℕ)
      → (a : ℕ) × (b : ℕ) × (u : ℕ) × (u' : ℕ) × (v : ℕ) × (v' : ℕ) × (downscale_token_a acc s
            (pos y)
          ≡ ok (pos a))
        × (downscale_token_b acc s (pos y) ≡ ok (pos b))
        × (upscale_token_a acc s (pos a) ≡ pos u)
        × (upscale_token_a acc s (pos (a + 1)) ≡ pos u')
        × (upscale_token_b acc s (pos b) ≡ pos v)
        × (upscale_token_b acc s (pos (b + 1)) ≡ pos v')
        × (u ≤ y)
        × (y < u')
        × (v ≤ y)
        × (y < v')
  upscale-downscale y =
      let ka = scale_a s.depeg.depeg_type ma in
      let kb = scale_b s.depeg.depeg_type mb price in
      (
        y / ka,
        y / kb,
        y / ka * ka,
        (y / ka + 1) * ka,
        y / kb * kb,
        (y / kb + 1) * kb,
        downscale_token_a-pos y,
        downscale_token_b-pos y,
        upscale_token_a-pos (y / ka),
        upscale_token_a-pos (y / ka + 1),
        upscale_token_b-pos (y / kb),
        upscale_token_b-pos (y / kb + 1),
        div-mul-le_self y ka,
        omega (arith, lt-div-mul-add {a = y} scale_a_pos),
        div-mul-le_self y kb,
        omega (arith, lt-div-mul-add {a = y} scale_b_pos),
      )

-- The scales of the token paid in and of the token paid out.
abbrev pub scale_source : TradeDirection → DepegType → (ma mb price : ℕ) → ℕ
scale_source a_to_b kind ma mb price = scale_a kind ma
scale_source b_to_a kind ma mb price = scale_b kind mb price

abbrev pub scale_destination : TradeDirection → DepegType → (ma mb price : ℕ) → ℕ
scale_destination a_to_b kind ma mb price = scale_b kind mb price
scale_destination b_to_a kind ma mb price = scale_a kind ma

module _ (acc : AccountData) (s : StableSwap acc) {ma mb price : ℕ}
    (sc : IsScaled s ma mb price) where
  pub upscale_source-pos :
      (dir : TradeDirection) (x : ℕ)
      → upscale_source acc s dir (pos x) ≡ pos (x * scale_source dir s.depeg.depeg_type ma mb price)
  unfolding upscale_source
  upscale_source-pos a_to_b x = upscale_token_a-pos acc s sc x
  upscale_source-pos b_to_a x = upscale_token_b-pos acc s sc x

  pub upscale_destination-pos :
      (dir : TradeDirection) (x : ℕ)
      → upscale_destination acc s dir (pos x)
        ≡ pos (x * scale_destination dir s.depeg.depeg_type ma mb price)
  unfolding upscale_destination
  upscale_destination-pos a_to_b x = upscale_token_b-pos acc s sc x
  upscale_destination-pos b_to_a x = upscale_token_a-pos acc s sc x

  pub downscale_destination-pos :
      (dir : TradeDirection) (x : ℕ)
      → downscale_destination acc s dir (pos x)
        ≡ ok (pos (x / scale_destination dir s.depeg.depeg_type ma mb price))
  unfolding downscale_destination
  downscale_destination-pos a_to_b x = downscale_token_b-pos acc s sc x
  downscale_destination-pos b_to_a x = downscale_token_a-pos acc s sc x

  pub scale_source_pos :
      (dir : TradeDirection) → 0 < scale_source dir s.depeg.depeg_type ma mb price
  scale_source_pos a_to_b = scale_a_pos acc s sc
  scale_source_pos b_to_a = scale_b_pos acc s sc

  pub scale_destination_pos :
      (dir : TradeDirection) → 0 < scale_destination dir s.depeg.depeg_type ma mb price
  scale_destination_pos a_to_b = scale_b_pos acc s sc
  scale_destination_pos b_to_a = scale_a_pos acc s sc

  downscale_token_a-neg :
      (x : ℕ) → (n : ℕ) × (downscale_token_a acc s (neg_ℤ (pos x)) ≡ ok (neg_ℤ (pos n)))
  unfolding downscale_token_a
  downscale_token_a-neg x = elim (Bool-cases (is_none s.depeg.depeg_type)) [
    | inl e ↦ (x / ma, rw (e, sc.multiplier_a, tdiv-neg_ℤ x ma sc.multiplier_a_pos))
    | inr e ↦ (
      x / ma / 1_000_000,
      rw (e, sc.multiplier_a, tdiv-neg_ℤ x ma sc.multiplier_a_pos)
          (tdiv-neg_ℤ (x / ma) 1_000_000 (omega arith)),
    )
  ]

  downscale_token_b-neg :
      (x : ℕ) → (n : ℕ) × (downscale_token_b acc s (neg_ℤ (pos x)) ≡ ok (neg_ℤ (pos n)))
  unfolding downscale_token_b
  downscale_token_b-neg x = elim (Bool-cases (is_none s.depeg.depeg_type)) [
    | inl e ↦ (x / mb, rw (e, sc.multiplier_b, tdiv-neg_ℤ x mb sc.multiplier_b_pos))
    | inr e ↦ (
      x / mb / price,
      rw (e, sc.multiplier_b, sc.virtual_price, tdiv-neg_ℤ x mb sc.multiplier_b_pos)
          (tdiv-neg_ℤ (x / mb) price sc.price_pos),
    )
  ]

  -- A negative amount of the curve scales down to no positive amount of a token.
  pub downscale_destination-neg :
      (dir : TradeDirection) (x : ℕ)
      → (n : ℕ) × (downscale_destination acc s dir (neg_ℤ (pos x)) ≡ ok (neg_ℤ (pos n)))
  unfolding downscale_destination
  downscale_destination-neg a_to_b x = downscale_token_b-neg x
  downscale_destination-neg b_to_a x = downscale_token_a-neg x
