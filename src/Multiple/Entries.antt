-- ===== src/Multiple/Entries.antt =====
-- What `createMultiple` of ts-client/src/amm/index.ts keeps of each pool in `poolInfoMap`.
use mathlib.Core.Option.{none}
use mathlib.Core.Path.{subst}
use mercurial_dynamic_amm_sd.Prelude.{
  ℕ, suc, Bool, ℤ, ◌≡◌, refl, sym, ap, ◌∙◌, arith, true, false, List, [], ◌∷◌, map, length, Option,
  some, ok, >>=-elim, ok_injective, ◌==◌, Bool-cases, inl, inr, invariant, pool_state_not_found,
}
use mercurial_dynamic_amm_sd.Types.{PublicKey, PoolState, get, set}
use mercurial_dynamic_amm_sd.Types.Maps.{get-set}
use mercurial_dynamic_amm_sd.Chunks.Requests.{All}
use mercurial_dynamic_amm_sd.SwapCurve.{Packages}
use mercurial_dynamic_amm_sd.Utils.{Numbers}
use mercurial_dynamic_amm_sd.Vault.{VaultSdk}
use mercurial_dynamic_amm_sd.Pool.Accounts.{VaultImpl}
use mercurial_dynamic_amm_sd.Queries.{get_all_pool_state, with_supplies}
use mercurial_dynamic_amm_sd.Chunks.{chunked_fetch_multiple_pool_account}
use mercurial_dynamic_amm_sd.Multiple.{
  PoolInfo, find_vault, pool_info_entry, pool_infos, pool_info_map,
}

-- No two keys are equal.
abbrev pub Distinct : List PublicKey → Type 0
Distinct [] = Unit
Distinct (k ∷ ks) = All (λ j. (j == k) ≡ false) ks × Distinct ks

module _ (pk : Packages) (vault : VaultSdk) (num : Numbers) where
  open pk use {acc}
  open acc use {Buffer}

  pub lp_of : PoolInfo pk vault num → PublicKey
  lp_of e = e.pool_state.lp_mint

  untouched :
      (es : List (PoolInfo pk vault num)) (m : List (PublicKey × PoolInfo pk vault num))
      (k : PublicKey)
      → All (λ j. (j == k) ≡ false) (map lp_of es)
      → get (pool_info_map pk vault num es m) k ≡ get m k
  unfolding pool_info_map lp_of
  untouched [] m k h = refl
  untouched (e ∷ es) m k (other, h) =
      untouched es (set m e.pool_state.lp_mint e) k h
      ∙ (get-set m e.pool_state.lp_mint e k ∙ rw other refl)

  same_key : (k : PublicKey) → (k == k) ≡ true
  same_key k = ground arith

  pub own_entry :
      (es : List (PoolInfo pk vault num)) (m : List (PublicKey × PoolInfo pk vault num))
      → Distinct (map lp_of es)
      → All (λ e. get (pool_info_map pk vault num es m) e.pool_state.lp_mint ≡ some e) es
  unfolding pool_info_map lp_of
  own_entry [] m h = tt
  own_entry (e ∷ es) m (fresh, h) =
      let k = e.pool_state.lp_mint in
      (
        untouched es (set m k e) k fresh ∙ (get-set m k e k ∙ rw (same_key k) refl),
        own_entry es (set m k e) h,
      )

  -- An entry is of a pool and of its state, and has its vaults.
  pub record IsEntry (pool : PublicKey) (state : PoolState × ℤ) (e : PoolInfo pk vault num)
      : Type 0 where
    pub pool_eq : e.pool ≡ pool
    pub state_eq : e.pool_state ≡ state.0
    pub supply_eq : e.lp_supply ≡ state.1
    pub a_eq : e.vault_a.vault_pda ≡ e.pool_state.a_vault
    pub b_eq : e.vault_b.vault_pda ≡ e.pool_state.b_vault

  find_vault_lem :
      (vs : List (VaultImpl pk vault num)) (key : PublicKey) {v : VaultImpl pk vault num}
      → find_vault pk vault num vs key ≡ ok v
      → v.vault_pda ≡ key
  unfolding find_vault
  find_vault_lem [] key h = cc
  find_vault_lem (w ∷ vs) key h = elim (Bool-cases (w.vault_pda == key)) [
    | inl e ↦ ap (λ v. v.vault_pda) (sym (ok_injective (rw e at h))) ∙ ground arith
    | inr e ↦ find_vault_lem vs key (rw e at h)
  ]

  pool_info_entry-IsEntry :
      (vs : List (VaultImpl pk vault num)) (pool : PublicKey) (state : PoolState × ℤ)
      {e : PoolInfo pk vault num}
      → pool_info_entry pk vault num vs pool state ≡ ok e
      → IsEntry pool state e
  unfolding pool_info_entry
  pool_info_entry-IsEntry vs pool (p, supply) h =
      >>=-elim (find_vault pk vault num vs p.a_vault) h (λ a ea h1.
        >>=-elim (find_vault pk vault num vs p.b_vault) h1 (λ b eb h2.
          subst (IsEntry pool (p, supply)) (ok_injective h2) (record {
            pool_eq = refl;
            state_eq = refl;
            supply_eq = refl;
            a_eq = find_vault_lem vs p.a_vault ea;
            b_eq = find_vault_lem vs p.b_vault eb;
          })))

  abbrev pub Entries : List PublicKey → List (PoolState × ℤ) → List (PoolInfo pk vault num) → Type 0
  Entries [] [] [] = Unit
  Entries (p ∷ ps) (s ∷ ss) (e ∷ es) = IsEntry p s e × Entries ps ss es
  Entries ps ss es = ⊥

  no_length : (n : ℕ) → 0 ≡ suc n → ⊥
  no_length n h = omega (arith, h)

  pub pool_infos-Entries :
      (vs : List (VaultImpl pk vault num)) (pools : List PublicKey) (states : List (PoolState × ℤ))
      {es : List (PoolInfo pk vault num)}
      → length states ≡ length pools
      → pool_infos pk vault num vs pools states ≡ ok es
      → Entries pools states es
  unfolding pool_infos
  pool_infos-Entries vs [] [] l h = subst (Entries [] []) (ok_injective h) tt
  pool_infos-Entries vs [] (s ∷ ss) l h = absurd (no_length (length ss) (sym l))
  pool_infos-Entries vs (p ∷ ps) [] l h = absurd (no_length (length ps) l)
  pool_infos-Entries vs (p ∷ ps) (s ∷ ss) l h =
      >>=-elim (pool_info_entry pk vault num vs p s) h (λ e e1 h1.
        >>=-elim (pool_infos pk vault num vs ps ss) h1 (λ es e2 h2.
          subst (Entries (p ∷ ps) (s ∷ ss)) (ok_injective h2)
            (pool_info_entry-IsEntry vs p s e1, pool_infos-Entries vs ps ss (omega (arith, l)) e2)))

  -- The keys of the states are the keys of the entries.
  pub lps_of :
      (pools : List PublicKey) (states : List (PoolState × ℤ)) (es : List (PoolInfo pk vault num))
      → Entries pools states es
      → map (λ (s : PoolState × ℤ). s.0.lp_mint) states ≡ map lp_of es
  unfolding lp_of
  lps_of [] [] [] h = refl
  lps_of (p ∷ ps) (s ∷ ss) (e ∷ es) (h, hs) =
      rw (ap (λ state. state.lp_mint) h.state_eq, lps_of ps ss es hs) refl
  lps_of [] [] (e ∷ es) h = elim h [ ]
  lps_of [] (s ∷ ss) es h = elim h [ ]
  lps_of (p ∷ ps) [] es h = elim h [ ]
  lps_of (p ∷ ps) (s ∷ ss) [] h = elim h [ ]

  length-with_supplies :
      (ps : List PoolState) (accounts : List (Option Buffer)) {states : List (PoolState × ℤ)}
      → with_supplies acc ps accounts ≡ ok states
      → length states ≡ length ps
  unfolding with_supplies
  length-with_supplies [] accounts h = ap length (sym (ok_injective h))
  length-with_supplies (p ∷ ps) [] h = cc
  length-with_supplies (p ∷ ps) (none ∷ accounts) h = cc
  length-with_supplies (p ∷ ps) (some buffer ∷ accounts) h =
      >>=-elim (acc.mint_supply buffer) h (λ supply e1 h1.
        >>=-elim (with_supplies acc ps accounts) h1 (λ rest e2 h2.
          ap length (sym (ok_injective h2)) ∙ ap suc (length-with_supplies ps accounts e2)))

  equal_length :
      (m n : ℕ) {done : Unit {0}} → invariant (m == n) pool_state_not_found ≡ ok done → m ≡ n
  equal_length m n h = elim (Bool-cases (m == n)) [
    | inl e ↦ ground arith
    | inr e ↦ absurd (failed (m == n) e h)
  ]
    where
      failed :
          (b : Bool) {done : Unit {0}} → b ≡ false → invariant b pool_state_not_found ≡ ok done → ⊥
      failed true e h = cc
      failed false e h = cc

  pub length-get_all_pool_state :
      (fetch_multiple : List PublicKey → List (Option PoolState))
      (request : List PublicKey → List (Option Buffer)) (pools : List PublicKey)
      {states : List (PoolState × ℤ)}
      → get_all_pool_state acc fetch_multiple request pools ≡ ok states
      → length states ≡ length pools
  unfolding get_all_pool_state
  length-get_all_pool_state fetch_multiple request pools h =
      let found = chunked_fetch_multiple_pool_account fetch_multiple pools 100 in
      >>=-elim (invariant (length found == length pools) pool_state_not_found) h (λ done e1 h1.
        length-with_supplies found _ h1 ∙ equal_length (length found) (length pools) e1)
