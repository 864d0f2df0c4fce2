-- ===== src/StableSwap/Cache.antt =====
-- `updateDepegInfoIfExpired` of ts-client/src/amm/curve/stable-swap.ts.
use mathlib.Core.Option.{none}
use mathlib.Core.Path.{subst}
use mercurial_dynamic_amm_sd.Prelude.{
  ℕ, ◌+◌, ◌^◌, ◌≤◌, ◌<◌, ◌≡◌, sym, ap, le→ltb, ◌∙◌, arith, ℤ, pos, ok, if◌then◌else◌, to_number,
  ◌⊎◌, ◌*ℤ◌, tdiv, some, Option, err, missing_account, Bool-cases, ltb, true, false, >>=-eq-ok,
  ok_injective, ◌>>=◌, inl, inr, >>=-elim, refl, ltb_ℤ, ◌+ℤ◌,
}
use mercurial_dynamic_amm_sd.Types.{
  AccountData, DepegType, no_depeg, marinade, lido, spl_stake, get, PublicKey,
}
use mercurial_dynamic_amm_sd.Constants.{marinade_account, lido_account}
use mercurial_dynamic_amm_sd.StableSwap.{
  StableSwap, is_none, base_cache_expire, update_depeg_info_if_expired, get_base_pool_virtual_price,
  account_data,
}

to_number-pos : (n : ℕ) → n < 2 ^ 53 → to_number (pos n) ≡ ok (pos n)
to_number-pos n h = ground arith

module _ (acc : AccountData) where
  open acc use {Buffer, msol_price, read_big_int_64_le, decode_stake_pool}

  -- The object with a new price, found at its own time.
  abbrev refreshed : StableSwap acc → ℤ → StableSwap acc
  refreshed s price = record s {
    depeg = record s.depeg { base_virtual_price = price; base_cache_updated = s.on_chain_time };
  }

  -- The price of a base pool, as its account gives it: of Marinade the price of mSOL as a fraction of 2^32, of Lido
  -- and of a stake pool the lamports per token, all in millionths.
  abbrev pub IsPrice : StableSwap acc → DepegType → ℤ → Type 0
  IsPrice s no_depeg price = ⊥
  IsPrice s marinade price =
      (b : Buffer) × (get s.extra_accounts marinade_account ≡ some b)
      × (tdiv (msol_price b *ℤ pos 1_000_000) (pos 4_294_967_296) ≡ ok price)
  IsPrice s lido price =
      (b : Buffer) × (get s.extra_accounts lido_account ≡ some b)
      × (tdiv (read_big_int_64_le b 81 *ℤ pos 1_000_000) (read_big_int_64_le b 73) ≡ ok price)
  IsPrice s spl_stake price =
      (b : Buffer) × (get s.extra_accounts s.stake_pool_pubkey ≡ some b)
      × (tdiv ((decode_stake_pool b).total_lamports *ℤ pos 1_000_000)
            (decode_stake_pool b).pool_token_supply
          ≡ ok price)

  account_data-get :
      (s : StableSwap acc) (key : PublicKey) {b : Buffer}
      → account_data acc s key ≡ ok b
      → get s.extra_accounts key ≡ some b
  unfolding account_data
  account_data-get s key h = present (get s.extra_accounts key) h
    where
      present :
          (o : Option Buffer) {b : Buffer}
          → elim o [ none ↦ err missing_account | some buffer ↦ ok buffer ] ≡ ok b
          → o ≡ some b
      present none h = cc
      present (some buffer) h = ap some (ok_injective h)

  get_base_pool_virtual_price-IsPrice :
      (s : StableSwap acc) (t : DepegType) {price : ℤ}
      → get_base_pool_virtual_price acc s t ≡ ok price
      → IsPrice s t price
  unfolding get_base_pool_virtual_price
  get_base_pool_virtual_price-IsPrice s no_depeg h = cc
  get_base_pool_virtual_price-IsPrice s marinade h =
      >>=-elim (account_data acc s marinade_account) h
        (λ b e h1. (b, account_data-get s marinade_account e, h1))
  get_base_pool_virtual_price-IsPrice s lido h =
      >>=-elim (account_data acc s lido_account) h
        (λ b e h1. (b, account_data-get s lido_account e, h1))
  get_base_pool_virtual_price-IsPrice s spl_stake h =
      >>=-elim (account_data acc s s.stake_pool_pubkey) h
        (λ b e h1. (b, account_data-get s s.stake_pool_pubkey e, h1))

  -- The price is one that was read from the accounts, at the time of the object.
  abbrev pub IsReadNow : StableSwap acc → StableSwap acc → Type 0
  IsReadNow s s' =
      IsPrice s s.depeg.depeg_type s'.depeg.base_virtual_price
      × (s'.depeg.base_cache_updated ≡ s.on_chain_time)

  pub update_none :
      (s : StableSwap acc)
      → is_none s.depeg.depeg_type ≡ true
      → update_depeg_info_if_expired acc s ≡ ok s
  unfolding update_depeg_info_if_expired
  update_none s unbased = rw unbased

  -- Bringing the price up to date changes the price and its time, and nothing else.
  pub update_keeps :
      (s : StableSwap acc) {s' : StableSwap acc}
      → update_depeg_info_if_expired acc s ≡ ok s'
      → (s' ≡ record s { depeg = s'.depeg }) × (s'.depeg.depeg_type ≡ s.depeg.depeg_type)
  unfolding update_depeg_info_if_expired
  update_keeps s h = elim (Bool-cases (is_none s.depeg.depeg_type)) [
    | inl unbased ↦ kept s (ok_injective (rw unbased at h))
    | inr based ↦ >>=-elim (to_number s.on_chain_time) (rw based at h) (λ now _ h1.
        >>=-elim (to_number (s.depeg.base_cache_updated +ℤ base_cache_expire)) h1 (λ limit _ h2.
          elim (Bool-cases (ltb_ℤ limit now)) [
            | inr fresh ↦ kept s (ok_injective (rw fresh at h2))
            | inl old ↦
                >>=-elim (get_base_pool_virtual_price acc s s.depeg.depeg_type) (rw old at h2)
                  (λ price _ h3. priced s price (ok_injective h3))
          ]))
  ]
    where
      kept :
          (s : StableSwap acc) {s' : StableSwap acc}
          → s ≡ s'
          → (s' ≡ record s { depeg = s'.depeg }) × (s'.depeg.depeg_type ≡ s.depeg.depeg_type)
      kept s e =
          subst
            (λ o. (o ≡ record s { depeg = o.depeg }) × (o.depeg.depeg_type ≡ s.depeg.depeg_type)) e
            (refl, refl)

      priced :
          (s : StableSwap acc) (price : ℤ) {s' : StableSwap acc}
          → refreshed s price ≡ s'
          → (s' ≡ record s { depeg = s'.depeg }) × (s'.depeg.depeg_type ≡ s.depeg.depeg_type)
      priced s price e =
          subst
            (λ o. (o ≡ record s { depeg = o.depeg }) × (o.depeg.depeg_type ≡ s.depeg.depeg_type)) e
            (refl, refl)

  -- The price is then as it was, or was read from the accounts.
  pub update_reads :
      (s : StableSwap acc) {s' : StableSwap acc}
      → update_depeg_info_if_expired acc s ≡ ok s'
      → (s'.depeg ≡ s.depeg) ⊎ IsReadNow s s'
  unfolding update_depeg_info_if_expired
  update_reads s {s'} h = elim (Bool-cases (is_none s.depeg.depeg_type)) [
    | inl unbased ↦ inl (ap (λ o. o.depeg) (sym (ok_injective (rw unbased at h))))
    | inr based ↦ >>=-elim (to_number s.on_chain_time) (rw based at h) (λ now _ h1.
        >>=-elim (to_number (s.depeg.base_cache_updated +ℤ base_cache_expire)) h1 (λ limit _ h2.
          elim (Bool-cases (ltb_ℤ limit now)) [
            | inr fresh ↦ inl (ap (λ o. o.depeg) (sym (ok_injective (rw fresh at h2))))
            | inl old ↦
                >>=-elim (get_base_pool_virtual_price acc s s.depeg.depeg_type) (rw old at h2)
                  (λ price read h3. inr (
                    subst (IsReadNow s) (ok_injective h3)
                      (get_base_pool_virtual_price-IsPrice s s.depeg.depeg_type read, refl)))
          ]))
  ]

  module _ (s : StableSwap acc) (t u : ℕ) (now : s.on_chain_time ≡ pos t)
      (cached : s.depeg.base_cache_updated ≡ pos u) (safe : t < 2 ^ 53) (safe' : u + 600 < 2 ^ 53)
      (based : is_none s.depeg.depeg_type ≡ false) where
    -- For a pool on a base pool, with times that a JavaScript number holds: while the cached price is
    -- at most 600 seconds old the object stays as it is, and otherwise the price is read again.
    pub update_outcome : update_depeg_info_if_expired acc s ≡ (
        if ltb (u + 600) t
        then get_base_pool_virtual_price acc s s.depeg.depeg_type
          >>= (λ price. ok (refreshed s price))
        else ok s)
    unfolding update_depeg_info_if_expired
    update_outcome =
        rw (based, now, cached, to_number-pos t safe, to_number-pos (u + 600) safe')
          (elim (Bool-cases (ltb (u + 600) t)) [ inl old ↦ rw old | inr fresh ↦ rw fresh ])

-- If a pool on a base pool is brought up to date, with times that a JavaScript number holds, then either its
-- price was at most 600 seconds old and it stays as it is, or its price was older, is now the one that the base pool's account
-- gives and has the present time; in both cases the price is then at most 600 seconds old, and
-- bringing it up to date once more changes nothing.
pub update_fresh :
    (acc : AccountData) (s s' : StableSwap acc) (t u : ℕ)
    → s.on_chain_time ≡ pos t
    → s.depeg.base_cache_updated ≡ pos u
    → t + 600 < 2 ^ 53
    → u + 600 < 2 ^ 53
    → is_none s.depeg.depeg_type ≡ false
    → update_depeg_info_if_expired acc s ≡ ok s'
    → (w : ℕ) × (s'.depeg.base_cache_updated ≡ pos w)
      × (t ≤ w + 600)
      × (((t ≤ u + 600) × (s' ≡ s)) ⊎ ((u + 600 < t) × IsReadNow acc s s'))
      × (update_depeg_info_if_expired acc s' ≡ ok s')
update_fresh acc s s' t u now cached late safe' based h = elim (Bool-cases (ltb (u + 600) t)) [
  | inr fresh ↦
      let same : s ≡ s' = ok_injective (sym (outcome ∙ (rw fresh)) ∙ h) in
      (
        u,
        rw same at cached,
        ground arith,
        inl (ground arith, sym same),
        subst (λ o. update_depeg_info_if_expired acc o ≡ ok o) same (outcome ∙ rw fresh),
      )
  | inl old ↦
      let (price, read, same) =
        >>=-eq-ok (get_base_pool_virtual_price acc s s.depeg.depeg_type)
          (λ p. ok (refreshed acc s p)) (sym (outcome ∙ (rw old)) ∙ h) in
      let same' : refreshed acc s price ≡ s' = ok_injective same in
      subst
        (λ o.
          (w : ℕ) × (o.depeg.base_cache_updated ≡ pos w)
          × (t ≤ w + 600)
          × (((t ≤ u + 600) × (o ≡ s)) ⊎ ((u + 600 < t) × IsReadNow acc s o))
          × (update_depeg_info_if_expired acc o ≡ ok o))
        same'
        (
          t,
          now,
          omega arith,
          inr (
            ground arith,
            (get_base_pool_virtual_price-IsPrice acc s s.depeg.depeg_type read, refl),
          ),
          update_outcome acc (refreshed acc s price) t t now now (omega arith) late based
              ∙ rw (le→ltb (t + 600) t (omega arith)),
        )
]
  where
    outcome : update_depeg_info_if_expired acc s ≡ (
        if ltb (u + 600) t
        then get_base_pool_virtual_price acc s s.depeg.depeg_type
          >>= (λ price. ok (refreshed acc s price))
        else ok s)
    outcome = update_outcome acc s t u now cached (omega arith) safe' based
