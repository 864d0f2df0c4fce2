-- ===== src/Quote/Info.antt =====
-- `calculatePoolInfo` of ts-client/src/amm/utils.ts: what goes into the information that it gives.
use mercurial_dynamic_amm_sd.Prelude.{
  ℤ, pos, ◌*ℤ◌, ◌^◌, ◌≡◌, sym, ap, ◌∙◌, ok, >>=-elim, ok_injective, is_zero, tdiv, to_number,
  if◌then◌else◌,
}
use mercurial_dynamic_amm_sd.Constants.{virtual_price_precision}
use mercurial_dynamic_amm_sd.SwapCurve.{Packages, SwapCurve, compute_d}
use mercurial_dynamic_amm_sd.Vault.{VaultSdk}
use mercurial_dynamic_amm_sd.Quote.{PoolInformation, pool_amounts, calculate_pool_info}

module _ (pk : Packages) (vault : VaultSdk) where
  open vault use {VaultState}

  -- The parts of the information about a pool: its amounts, and the invariant that its raw virtual price is
  -- computed from, with the object that is left of the curve.
  pub record IsInformed (t lp_a lp_b supply_a supply_b pool_supply : ℤ) (curve : SwapCurve pk)
      (vault_a vault_b : VaultState) (r : SwapCurve pk × PoolInformation pk vault) : Type 0 where
    pub time : ℤ
    pub invariant_d : ℤ
    pub time_eq : to_number t ≡ ok time
    pub amounts_eq :
        pool_amounts pk vault time vault_a vault_b lp_a lp_b supply_a supply_b
        ≡ ok (r.1.token_a_amount, r.1.token_b_amount)
    pub invariant_eq :
        compute_d pk curve r.1.token_a_amount r.1.token_b_amount ≡ ok (r.0, invariant_d)
    pub raw_eq :
        (if is_zero pool_supply then ok (pos 0) else tdiv (pos (2 ^ 64) *ℤ invariant_d) pool_supply)
        ≡ ok r.1.virtual_price_raw

  pub calculate_pool_info-IsInformed :
      (t lp_a lp_b supply_a supply_b pool_supply : ℤ) (curve : SwapCurve pk)
      (vault_a vault_b : VaultState) {r : SwapCurve pk × PoolInformation pk vault}
      → calculate_pool_info pk vault t lp_a lp_b supply_a supply_b pool_supply curve vault_a vault_b
        ≡ ok r
      → IsInformed t lp_a lp_b supply_a supply_b pool_supply curve vault_a vault_b r
  unfolding calculate_pool_info
  calculate_pool_info-IsInformed t lp_a lp_b supply_a supply_b pool_supply curve vault_a vault_b h =
      >>=-elim (to_number t) h (λ time e1 h1.
        >>=-elim (pool_amounts pk vault time vault_a vault_b lp_a lp_b supply_a supply_b) h1
          (λ amounts e2 h2. >>=-elim (compute_d pk curve amounts.0 amounts.1) h2 (λ d e3 h3.
            >>=-elim
              (if is_zero pool_supply
                then ok (pos 0)
                else tdiv (d.1 *ℤ virtual_price_precision) pool_supply)
              h3
              (λ _ _ h4.
                >>=-elim
                  (if is_zero pool_supply
                    then ok (pos 0)
                    else tdiv (pos (2 ^ 64) *ℤ d.1) pool_supply)
                  h4
                  (λ _ e5 h5.
                    let same = ok_injective h5 in
                    record {
                      time = time;
                      invariant_d = d.1;
                      time_eq = e1;
                      amounts_eq = e2 ∙ ap (λ o. ok (o.1.token_a_amount, o.1.token_b_amount)) same;
                      invariant_eq =
                          ap (λ o. compute_d pk curve o.1.token_a_amount o.1.token_b_amount)
                            (sym same)
                          ∙ (e3 ∙ ap (λ o. ok (o.0, d.1)) same);
                      raw_eq = e5 ∙ ap (λ o. ok o.1.virtual_price_raw) same;
                    })))))
