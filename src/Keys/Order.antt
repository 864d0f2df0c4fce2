-- ===== src/Keys/Order.antt =====
-- The order of the two token keys of ts-client/src/amm/utils.ts in a pool's seeds.
use mercurial_dynamic_amm_sd.Prelude.{
  ℕ, ◌≡◌, refl, sym, arith, Bool, true, false, List, [], ◌∷◌, Bool-cases, inl, inr,
}
use native.Mathlib.Nat.{max_comm}
use mathlib.Core.Path.{ap₂}
use mercurial_dynamic_amm_sd.Types.{PublicKey}
use mercurial_dynamic_amm_sd.Keys.{
  Bytes, is_after, key_bytes, get_first_key, get_second_key, derive_pool_address_with_config,
  derive_pool_address, TokenInfo, generate_curve_type, encode_curve_type, get_trade_fee_bps_buffer,
}

is_after_asymm : (xs ys : Bytes) → is_after xs ys ≡ true → is_after ys xs ≡ false
unfolding is_after
is_after_asymm [] ys h = cc
is_after_asymm (x ∷ xs) [] h = refl
is_after_asymm (x ∷ xs) (y ∷ ys) h = ground (arith, is_after_asymm xs ys)

is_after_total : (xs ys : Bytes) → is_after xs ys ≡ false → is_after ys xs ≡ false → xs ≡ ys
unfolding is_after
is_after_total [] [] h k = refl
is_after_total [] (y ∷ ys) h k = cc
is_after_total (x ∷ xs) [] h k = cc
is_after_total (x ∷ xs) (y ∷ ys) h k = ground (arith, is_after_total xs ys)

-- The first and the second key do not depend on the order in which two keys are given.
pub first_second_comm :
    (key1 key2 : PublicKey)
    → (get_first_key key1 key2 ≡ get_first_key key2 key1)
      × (get_second_key key1 key2 ≡ get_second_key key2 key1)
unfolding get_first_key get_second_key
first_second_comm key1 key2 =
    let a = key_bytes key1 in
    let b = key_bytes key2 in
    elim (Bool-cases (is_after a b)) [
      | inl h ↦ rw (h, is_after_asymm a b h) (refl, refl)
      | inr h ↦ elim (Bool-cases (is_after b a)) [
        | inl k ↦ rw (h, k) (refl, refl)
        | inr k ↦ rw (h, k) (sym (is_after_total a b h k), is_after_total a b h k)
      ]
    ]

-- The address of a pool with a config does not depend on the order of its tokens.
pub derive_pool_address_with_config_comm :
    (find : List Bytes → PublicKey → PublicKey × ℕ) (token_a token_b config program_id : PublicKey)
    → derive_pool_address_with_config find token_a token_b config program_id
      ≡ derive_pool_address_with_config find token_b token_a config program_id
unfolding derive_pool_address_with_config
derive_pool_address_with_config_comm find token_a token_b config program_id =
    let (first, second) = first_second_comm token_a token_b in
    ap₂ (λ x y. (find (x ∷ y ∷ key_bytes config ∷ []) program_id).0) first second

-- The address of a pool without a config, and whether it can be derived at all, do not depend on the
-- order of its tokens.
pub derive_pool_address_comm :
    (find : List Bytes → PublicKey → PublicKey × ℕ) (a b : TokenInfo) (is_stable : Bool) (fee : ℕ)
    (program_id : PublicKey)
    → derive_pool_address find a b is_stable fee program_id
      ≡ derive_pool_address find b a is_stable fee program_id
unfolding derive_pool_address generate_curve_type encode_curve_type get_trade_fee_bps_buffer
derive_pool_address_comm find a b false fee program_id =
    let (first, second) = first_second_comm a.address b.address in rw (first, second)
derive_pool_address_comm find a b true fee program_id =
    let (first, second) = first_second_comm a.address b.address in
    rw (first, second, max_comm b.decimals a.decimals) (ground arith)
