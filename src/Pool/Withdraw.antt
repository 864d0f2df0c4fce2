-- ===== src/Pool/Withdraw.antt =====
-- `getWithdrawQuote` and `getUserLockEscrow` of ts-client/src/amm/index.ts.
use mathlib.Core.Option.{none}
use native.Mathlib.Nat.{div-mul-le_self, mul-le-mul_right, mul-div_left, mul_comm}
use mercurial_dynamic_amm_sd.Prelude.{
  ℕ, ℤ, pos, ◌+◌, ◌*◌, ◌/◌, ◌<◌, ◌≤◌, ◌≡◌, sym, ap, ◌∙◌, false, ok, >>=-elim, ok_injective,
  if◌then◌else◌, arith, tdiv-pos, is_zero-pos, ltb_ℤ, to_number, min,
}
use mercurial_dynamic_amm_sd.SwapCurve.{Packages}
use mercurial_dynamic_amm_sd.Utils.{
  Numbers, calculate_unclaimed_lock_escrow_fee, get_min_amount_with_slippage,
}
use mercurial_dynamic_amm_sd.Vault.{VaultSdk}
use native.Mathlib.Decide.{dec_lt}
use mercurial_dynamic_amm_sd.Utils.Fees.{calculate_unclaimed_lock_escrow_fee_bounds}
use mercurial_dynamic_amm_sd.Pool.{AmmImpl, WithdrawQuote, get_share_by_amount, get_amount_by_share}
use mercurial_dynamic_amm_sd.Pool.Liquidity.{
  get_withdraw_quote, UnclaimedFee, get_unclaimed_fee, balanced_withdraw,
}

-- Two proportions, each rounded down.
part_of : (x la l wa sa : ℕ) → x * la / l * wa / sa * (l * sa) ≤ x * la * wa
part_of x la l wa sa =
    let outer : x * la / l * wa / sa * sa ≤ x * la / l * wa =
      div-mul-le_self (x * la / l * wa) sa in
    let inner : x * la / l * l ≤ x * la = div-mul-le_self (x * la) l in
    omega (arith, mul-le-mul_right l outer, mul-le-mul_right wa inner)

whole : (x la l wa sa : ℕ) → 0 < l → x ≡ l → x * la / l * wa / sa ≡ la * wa / sa
whole x la l wa sa h e =
    let all : l * la / l ≡ la = ap (λ k. k / l) (mul_comm l la) ∙ mul-div_left la {n = l} h in
    rw (e, all)

module _ (pk : Packages) (vault : VaultSdk) (num : Numbers) where
  open num use {Number, literal}
  open vault use {calculate_withdrawable_amount}

  get_share_by_amount-pos :
      (x t s : ℕ)
      → 0 < t
      → get_share_by_amount pk vault num (pos x) (pos t) (pos s) false ≡ ok (pos (x * s / t))
  unfolding get_share_by_amount
  get_share_by_amount-pos x t s h = rw (is_zero-pos t h) (tdiv-pos (x * s) t h)

  get_amount_by_share-pos :
      (x t s : ℕ)
      → 0 < s
      → get_amount_by_share pk vault num (pos x) (pos t) (pos s) false ≡ ok (pos (x * t / s))
  unfolding get_amount_by_share
  get_amount_by_share-pos x t s h = rw (is_zero-pos s h) (tdiv-pos (x * t) s h)

  share_known :
      (x t s : ℕ) (tz sz : ℤ) {r : ℤ}
      → 0 < t
      → tz ≡ pos t
      → sz ≡ pos s
      → get_share_by_amount pk vault num (pos x) tz sz false ≡ ok r
      → r ≡ pos (x * s / t)
  share_known x t s tz sz h e1 e2 k =
      ok_injective (sym (rw (e1, e2) at k) ∙ get_share_by_amount-pos x t s h)

  amount_known :
      (x t s : ℕ) (xz sz : ℤ) {r : ℤ}
      → 0 < s
      → xz ≡ pos x
      → sz ≡ pos s
      → get_amount_by_share pk vault num xz (pos t) sz false ≡ ok r
      → r ≡ pos (x * t / s)
  amount_known x t s xz sz h e1 e2 k =
      ok_injective (sym (rw (e1, e2) at k) ∙ get_amount_by_share-pos x t s h)

  -- A pool with `l` pool tokens, shares la and lb of vaults that hold wa and wb for sa and sb shares.
  pub record IsPooled (amm : AmmImpl pk vault num) (l la lb wa wb sa sb : ℕ) : Type 0 where
    pub time_eq : to_number amm.accounts_info.current_time ≡ ok amm.accounts_info.current_time
    pub supply_eq : amm.accounts_info.pool_lp_supply ≡ pos l
    pub lp_a_eq : amm.accounts_info.pool_vault_a_lp ≡ pos la
    pub lp_b_eq : amm.accounts_info.pool_vault_b_lp ≡ pos lb
    pub supply_a_eq : amm.accounts_info.vault_a_lp_supply ≡ pos sa
    pub supply_b_eq : amm.accounts_info.vault_b_lp_supply ≡ pos sb
    pub withdrawable_a_eq :
        calculate_withdrawable_amount amm.accounts_info.current_time amm.vault_a ≡ pos wa
    pub withdrawable_b_eq :
        calculate_withdrawable_amount amm.accounts_info.current_time amm.vault_b ≡ pos wb
    pub supply_pos : 0 < l
    pub supply_a_pos : 0 < sa
    pub supply_b_pos : 0 < sb

  balanced_withdraw-pos :
      (amm : AmmImpl pk vault num) (l la lb wa wb sa sb x : ℕ) (slippage : Number)
      {q : WithdrawQuote pk vault num}
      → IsPooled amm l la lb wa wb sa sb
      → balanced_withdraw pk vault num amm (pos x) (pos wa) (pos wb) slippage ≡ ok q
      → (q.token_a_out_amount ≡ pos (x * la / l * wa / sa))
        × (q.token_b_out_amount ≡ pos (x * lb / l * wb / sb))
  unfolding balanced_withdraw
  balanced_withdraw-pos amm l la lb wa wb sa sb x slippage h e =
      let info = amm.accounts_info in
      >>=-elim
        (get_share_by_amount pk vault num (pos x) info.pool_lp_supply info.pool_vault_a_lp false) e
        (λ ba b1 e1.
          >>=-elim
            (get_share_by_amount pk vault num (pos x) info.pool_lp_supply info.pool_vault_b_lp
              false)
            e1
            (λ bb b2 e2.
              >>=-elim (get_amount_by_share pk vault num ba (pos wa) info.vault_a_lp_supply false)
                e2
                (λ oa b3 e3.
                  >>=-elim
                    (get_amount_by_share pk vault num bb (pos wb) info.vault_b_lp_supply false) e3
                    (λ ob b4 e4.
                      >>=-elim (get_min_amount_with_slippage num oa slippage) e4 (λ ma b5 e5.
                        >>=-elim (get_min_amount_with_slippage num ob slippage) e5 (λ mb b6 e6.
                          let ba_eq =
                            share_known x l la info.pool_lp_supply info.pool_vault_a_lp h.supply_pos
                              h.supply_eq h.lp_a_eq b1 in
                          let bb_eq =
                            share_known x l lb info.pool_lp_supply info.pool_vault_b_lp h.supply_pos
                              h.supply_eq h.lp_b_eq b2 in
                          let oa_eq =
                            amount_known (x * la / l) wa sa ba info.vault_a_lp_supply h.supply_a_pos
                              ba_eq h.supply_a_eq b3 in
                          let ob_eq =
                            amount_known (x * lb / l) wb sb bb info.vault_b_lp_supply h.supply_b_pos
                              bb_eq h.supply_b_eq b4 in
                          (
                            ap (λ r. r.token_a_out_amount) (sym (ok_injective e6)) ∙ oa_eq,
                            ap (λ r. r.token_b_out_amount) (sym (ok_injective e6)) ∙ ob_eq,
                          )))))))

  get_withdraw_quote-pos :
      (amm : AmmImpl pk vault num) (l la lb wa wb sa sb x : ℕ) (slippage : Number)
      {amm' : AmmImpl pk vault num} {q : WithdrawQuote pk vault num}
      → IsPooled amm l la lb wa wb sa sb
      → get_withdraw_quote pk vault num amm (pos x) slippage none ≡ ok (amm', q)
      → (q.token_a_out_amount ≡ pos (x * la / l * wa / sa))
        × (q.token_b_out_amount ≡ pos (x * lb / l * wb / sb))
  unfolding get_withdraw_quote
  get_withdraw_quote-pos amm l la lb wa wb sa sb x slippage {amm'} {q} h e =
      let info = amm.accounts_info in
      >>=-elim (to_number info.current_time) e (λ time te e1.
        let now : time ≡ info.current_time = ok_injective (sym te ∙ h.time_eq) in
        let in_a =
          ap (λ z. calculate_withdrawable_amount z amm.vault_a) now ∙ h.withdrawable_a_eq in
        let in_b =
          ap (λ z. calculate_withdrawable_amount z amm.vault_b) now ∙ h.withdrawable_b_eq in
        >>=-elim
          (balanced_withdraw pk vault num amm (pos x)
            (calculate_withdrawable_amount time amm.vault_a)
            (calculate_withdrawable_amount time amm.vault_b) slippage)
          e1
          (λ q' b e2.
            let same : q' ≡ q = ap (λ z. z.1) (ok_injective e2) in
            let (a_eq, b_eq) =
              balanced_withdraw-pos amm l la lb wa wb sa sb x slippage h (rw (in_a, in_b) at b) in
            (
              ap (λ r. r.token_a_out_amount) (sym same) ∙ a_eq,
              ap (λ r. r.token_b_out_amount) (sym same) ∙ b_eq,
            )))

  -- In a pool that has pool tokens, on vaults that have shares, a withdrawal of both tokens, of x of the l pool tokens, is quoted no more of each token than the part
  -- x / l of what the pool's shares of the vault stand for; and, if x is l, all that they stand for.
  pub get_withdraw_quote-share :
      (amm : AmmImpl pk vault num) (l la lb wa wb sa sb x : ℕ) (slippage : Number)
      {amm' : AmmImpl pk vault num} {q : WithdrawQuote pk vault num}
      → IsPooled amm l la lb wa wb sa sb
      → get_withdraw_quote pk vault num amm (pos x) slippage none ≡ ok (amm', q)
      → (a : ℕ) × (b : ℕ) × (q.token_a_out_amount ≡ pos a)
        × (q.token_b_out_amount ≡ pos b)
        × (a * (l * sa) ≤ x * la * wa)
        × (b * (l * sb) ≤ x * lb * wb)
        × (x ≡ l → (a ≡ la * wa / sa) × (b ≡ lb * wb / sb))
  get_withdraw_quote-share amm l la lb wa wb sa sb x slippage h e =
      let (a_eq, b_eq) = get_withdraw_quote-pos amm l la lb wa wb sa sb x slippage h e in
      (
        x * la / l * wa / sa,
        x * lb / l * wb / sb,
        a_eq,
        b_eq,
        part_of x la l wa sa,
        part_of x lb l wb sb,
        λ all. (whole x la l wa sa h.supply_pos all, whole x lb l wb sb h.supply_pos all),
      )

  -- In a pool that has pool tokens, on vaults that have shares, the unclaimed fee of a locked position whose price did not fall is quoted as no more pool tokens than
  -- the escrow's vault holds, nor than what was pending and the whole amount locked, and as no more
  -- of each token than the part of the pool's shares that these pool tokens stand for.
  pub get_unclaimed_fee_bounds :
      (amm : AmmImpl pk vault num) (l la lb wa wb sa sb locked lp pending price escrow : ℕ)
      {u : UnclaimedFee pk vault num}
      → IsPooled amm l la lb wa wb sa sb
      → amm.pool_info.virtual_price_raw ≡ pos price
      → lp ≤ price
      → get_unclaimed_fee pk vault num amm (pos locked) (pos lp) (pos pending) (pos escrow) ≡ ok u
      → (n : ℕ) × (a : ℕ) × (b : ℕ) × (u.lp ≡ pos n)
        × (u.token_a ≡ pos a)
        × (u.token_b ≡ pos b)
        × (n ≤ escrow)
        × (n ≤ pending + locked)
        × (a * (l * sa) ≤ n * la * wa)
        × (b * (l * sb) ≤ n * lb * wb)
  unfolding get_unclaimed_fee
  get_unclaimed_fee_bounds amm l la lb wa wb sa sb locked lp pending price escrow {u} h raw le e =
      >>=-elim
        (calculate_unclaimed_lock_escrow_fee (pos locked) (pos lp) (pos pending)
          amm.pool_info.virtual_price_raw)
        e
        (λ fz fe e1.
          let (fee, fee_eq, paid, unpaid) =
            calculate_unclaimed_lock_escrow_fee_bounds locked lp pending price le in
          let known : fz ≡ pos fee = ok_injective (sym fe ∙ (rw raw fee_eq)) in
          let cap_eq : (if ltb_ℤ (pos escrow) fz then pos escrow else fz) ≡ pos (min escrow fee) =
            rw known (ground arith) in
          let fee_le : fee ≤ pending + locked = elim (dec_lt 0 price) [
            | yes some_price ↦ (paid some_price).1
            | no free ↦ let z : fee ≡ 0 = unpaid (omega arith) in omega arith
          ] in
          >>=-elim
            (get_withdraw_quote pk vault num amm (if ltb_ℤ (pos escrow) fz then pos escrow else fz)
              (literal 0 0) none)
            e1
            (λ q qe e2.
              let (a, b, a_eq, b_eq, a_le, b_le, _) =
                get_withdraw_quote-share amm l la lb wa wb sa sb (min escrow fee) (literal 0 0) h
                  (rw cap_eq at qe) in
              let same = sym (ok_injective e2) in
              (
                min escrow fee,
                a,
                b,
                ap (λ r. r.lp) same ∙ cap_eq,
                ap (λ r. r.token_a) same ∙ a_eq,
                ap (λ r. r.token_b) same ∙ b_eq,
                omega arith,
                omega arith,
                a_le,
                b_le,
              )))
