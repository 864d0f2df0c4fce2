-- ===== src/Pool/Depeg.antt =====
-- `depegToken` of ts-client/src/amm/index.ts.
use mathlib.Core.Option.{none}
use mercurial_dynamic_amm_sd.Prelude.{
  ℕ, ℤ, pos, ◌+◌, ◌*◌, ◌/◌, ◌<◌, ◌≡◌, leb, ltb, some, ok, if◌then◌else◌, arith, tdiv-pos,
  is_zero-pos, div_pos, div_zero, Bool-cases, inl, inr,
}
use mercurial_dynamic_amm_sd.Types.{CurveType, TokenMultiplier, Depeg}
use mercurial_dynamic_amm_sd.SwapCurve.{Packages}
use mercurial_dynamic_amm_sd.Utils.{Numbers}
use mercurial_dynamic_amm_sd.Vault.{VaultSdk}
use mercurial_dynamic_amm_sd.Pool.{AmmImpl, depeg_token}

-- The quotient, a whole number, is compared after it is multiplied by 100.
threshold : (x t : ℕ) → 0 < t → ltb 95 (x / t * 100) ≡ leb t x
threshold x t h = elim (Bool-cases (leb t x)) [
  | inl e ↦ let q = div_pos x t h (ground arith) in rw e (ground arith)
  | inr e ↦ let q = div_zero x t (ground arith) in rw (e, q)
]

module _ (pk : Packages) (vault : VaultSdk) (num : Numbers) where
  -- In a stable pool that is not empty, `depegToken` is token A when twice its amount reaches the total
  -- of the two scaled amounts, otherwise token B when twice its amount does, otherwise null: the
  -- amounts compared are not scaled, and the threshold is one half of the total.
  pub depeg_token_lem :
      (amm : AmmImpl pk vault num) (amp updated : ℤ) (m : TokenMultiplier) (depeg : Depeg)
      (ma mb a b : ℕ)
      → amm.pool_state.curve_type ≡ CurveType.stable amp m depeg updated
      → m.token_a_multiplier ≡ pos ma
      → m.token_b_multiplier ≡ pos mb
      → amm.pool_info.token_a_amount ≡ pos a
      → amm.pool_info.token_b_amount ≡ pos b
      → 0 < a * ma + b * mb
      → depeg_token pk vault num amm
        ≡ ok (
            if leb (a * ma + b * mb) (a * 2)
            then some amm.token_a_mint_address
            else if leb (a * ma + b * mb) (b * 2)
            then some amm.token_b_mint_address
            else none)
  unfolding depeg_token
  depeg_token_lem amm amp updated m depeg ma mb a b curve ea eb ha hb h =
      let t = a * ma + b * mb in
      rw (curve, ha, hb, ea, eb)
        (rw (
          is_zero-pos t h,
          tdiv-pos (a * 2) t h,
          tdiv-pos (b * 2) t h,
          threshold (a * 2) t h,
          threshold (b * 2) t h,
        ))
