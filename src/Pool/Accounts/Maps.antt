-- ===== src/Pool/Accounts/Maps.antt =====
-- What `getAccountsBuffer` and `deserializeAccountsBuffer` of ts-client/src/amm/index.ts leave in their maps.
use mathlib.Core.Option.{none}
use mercurial_dynamic_amm_sd.Prelude.{
  ℤ, ◌≡◌, refl, sym, ap, ◌∙◌, arith, Bool, true, false, ◌||◌, List, [], ◌∷◌, map, Option, some, ok,
  err, >>=-elim, ok_injective, ◌==◌, if◌then◌else◌, Bool-cases, inl, inr, account_info_not_found,
}
use mercurial_dynamic_amm_sd.Types.{PublicKey, AccountType, get, set}
use mercurial_dynamic_amm_sd.Types.Maps.{get-set, IsMap, set-IsMap}
use mercurial_dynamic_amm_sd.Chunks.Requests.{All}
use mercurial_dynamic_amm_sd.SwapCurve.{Packages}
use mercurial_dynamic_amm_sd.Utils.{Numbers}
use mercurial_dynamic_amm_sd.Vault.{VaultSdk}
use mercurial_dynamic_amm_sd.Pool.Accounts.{set_accounts, decode_entry, decode_all, found}

module _ (pk : Packages) (vault : VaultSdk) (num : Numbers) where
  open pk use {acc}
  open acc use {Buffer, decode_clock, token_amount, mint_supply}
  open vault use {VaultState, token_vault, lp_mint}

  abbrev pub key : PublicKey × AccountType → PublicKey
  key account = account.0

  -- The type under which a key is fetched: that of its last entry.
  pub type_of : List (PublicKey × AccountType) → PublicKey → Option AccountType
  type_of [] k = none
  type_of ((j, t) ∷ rest) k =
      let later = type_of rest k in
      elim later [ none ↦ if j == k then some t else none | some t' ↦ some t' ]

  -- What the map has at a key, over what it had before.
  abbrev entry :
      Option AccountType
      → (account : Option Buffer) (before : Option (AccountType × Option Buffer))
      → Option (AccountType × Option Buffer)
  entry none account before = before
  entry (some t) account before = some (t, account)

  same_key : (j k : PublicKey) → (j == k) ≡ true → j ≡ k
  same_key j k e = ground arith

  entry-set :
      (later : Option AccountType) (f : PublicKey → Option Buffer)
      (m : List (PublicKey × (AccountType × Option Buffer))) (j : PublicKey) (t : AccountType)
      (k : PublicKey)
      → entry later (f k) (get (set m j (t, f j)) k)
        ≡ entry
            (elim later [ none ↦ if j == k then some t else none | some t' ↦ some t' ])
            (f k)
            (get m k)
  entry-set (some t') f m j t k = refl
  entry-set none f m j t k = elim (Bool-cases (j == k)) [
    | inl e ↦ rw (get-set m j (t, f j) k, e) (ap (λ x. some (t, f x)) (same_key j k e))
    | inr e ↦ rw (get-set m j (t, f j) k, e)
  ]

  pub set_accounts-get :
      (accounts : List (PublicKey × AccountType)) (f : PublicKey → Option Buffer)
      (m : List (PublicKey × (AccountType × Option Buffer))) (k : PublicKey)
      → get (set_accounts pk vault num accounts (map f (map key accounts)) m) k
        ≡ entry (type_of accounts k) (f k) (get m k)
  unfolding set_accounts type_of
  set_accounts-get [] f m k = refl
  set_accounts-get ((j, t) ∷ rest) f m k =
      set_accounts-get rest f (set m j (t, f j)) k ∙ entry-set (type_of rest k) f m j t k

  set_accounts-IsMap :
      (accounts : List (PublicKey × AccountType)) (buffers : List (Option Buffer))
      (m : List (PublicKey × (AccountType × Option Buffer)))
      → IsMap m
      → IsMap (set_accounts pk vault num accounts buffers m)
  unfolding set_accounts
  set_accounts-IsMap [] buffers m h = h
  set_accounts-IsMap ((j, t) ∷ rest) [] m h =
      set_accounts-IsMap rest [] (set m j (t, none)) (set-IsMap m j (t, none) h)
  set_accounts-IsMap ((j, t) ∷ rest) (b ∷ bs) m h =
      set_accounts-IsMap rest bs (set m j (t, b)) (set-IsMap m j (t, b) h)

  -- What the decoded map has at a key, for the entry that the fetched map has there.
  abbrev IsDecoded : Option (AccountType × Option Buffer) → (before after : Option ℤ) → Type 0
  IsDecoded none before after = after ≡ before
  IsDecoded (some (t, account)) before after =
      (v : ℤ) × (decode_entry pk vault num t account ≡ ok v) × (after ≡ some v)

  decode_all-get :
      (m : List (PublicKey × (AccountType × Option Buffer))) (before : List (PublicKey × ℤ))
      {after : List (PublicKey × ℤ)} (k : PublicKey)
      → IsMap m
      → decode_all pk vault num m before ≡ ok after
      → IsDecoded (get m k) (get before k) (get after k)
  unfolding decode_all get
  decode_all-get [] before k h e = ap (λ m. get m k) (sym (ok_injective e))
  decode_all-get ((j, (t, a)) ∷ rest) before {after} k (fresh, h) e =
      >>=-elim (decode_entry pk vault num t a) e (λ v decoded more.
        let later = decode_all-get rest (set before j v) k h more in
        elim (Bool-cases (j == k)) [
          | inl same ↦ rw same (
              let here : get rest k ≡ none = (rw (same_key j k same) at fresh) in
              (v, decoded, (rw (here, get-set before j v k, same) at later)))
          | inr other ↦ rw other (rw (get-set before j v k, other) at later)
        ])

  abbrev among : PublicKey → List PublicKey → Bool
  among k [] = false
  among k (j ∷ ks) = j == k || among k ks

  -- No two of the accounts have one address.
  abbrev pub IsNodup : List PublicKey → Type 0
  IsNodup [] = Unit
  IsNodup (k ∷ ks) = (among k ks ≡ false) × IsNodup ks

  type_of_fresh :
      (accounts : List (PublicKey × AccountType)) (k : PublicKey)
      → among k (map key accounts) ≡ false
      → type_of accounts k ≡ none
  unfolding type_of
  type_of_fresh [] k h = refl
  type_of_fresh ((j, t) ∷ rest) k h = elim (Bool-cases (j == k)) [
    | inl e ↦ cc (rw e at h)
    | inr e ↦ rw (type_of_fresh rest k (rw e at h), e)
  ]

  All-later :
      (j : PublicKey) (t : AccountType) (rest accounts : List (PublicKey × AccountType))
      → All (λ (a : PublicKey × AccountType). type_of rest a.0 ≡ some a.1) accounts
      → All (λ (a : PublicKey × AccountType). type_of ((j, t) ∷ rest) a.0 ≡ some a.1) accounts
  unfolding type_of
  All-later j t rest [] h = tt
  All-later j t rest (a ∷ accounts) (h, hs) = (rw h, All-later j t rest accounts hs)

  pub types_known :
      (accounts : List (PublicKey × AccountType))
      → IsNodup (map key accounts)
      → All (λ (a : PublicKey × AccountType). type_of accounts a.0 ≡ some a.1) accounts
  types_known [] h = tt
  types_known ((j, t) ∷ rest) (fresh, h) = (
    unfold type_of in (rw (type_of_fresh rest j fresh) (rw (same j))),
    All-later j t rest rest (types_known rest h),
  )
    where
      same : (j : PublicKey) → (j == j) ≡ true
      same j = ground arith

  -- What is found at a key is what its account decodes to.
  pub found_decoded :
      (accounts : List (PublicKey × AccountType)) (f : PublicKey → Option Buffer)
      {after : List (PublicKey × ℤ)} (k : PublicKey) (t : AccountType) {x : ℤ}
      → decode_all pk vault num
          (set_accounts pk vault num accounts (map f (map key accounts)) [])
          []
        ≡ ok after
      → type_of accounts k ≡ some t
      → found pk vault num after k ≡ ok x
      → decode_entry pk vault num t (f k) ≡ ok x
  unfolding found
  found_decoded accounts f {after} k t decoded known here =
      let there = set_accounts-get accounts f [] k in
      let is =
        decode_all-get (set_accounts pk vault num accounts (map f (map key accounts)) []) [] k
          (set_accounts-IsMap accounts (map f (map key accounts)) [] tt) decoded in
      let (v, eq, at_k) = rw (there, known) at is in
      eq
      ∙ (ap (λ o. elim o [ none ↦ err account_info_not_found | some value ↦ ok value ]) (sym at_k)
          ∙ here)
