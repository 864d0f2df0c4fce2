-- ===== src/Pool/Accounts/Loads.antt =====
-- What `create` and `updateState` of ts-client/src/amm/index.ts read in the maps of `getAccountsBuffer` and
-- `deserializeAccountsBuffer`.
use mathlib.Core.Option.{none}
use mercurial_dynamic_amm_sd.Prelude.{
  ℤ, ◌≡◌, refl, sym, ap, ◌∙◌, arith, List, [], ◌∷◌, ◌++◌, map, Option, some, ok, >>=-elim,
  ok_injective, inl, inr, Option-cases,
}
use mercurial_dynamic_amm_sd.Types.{
  PublicKey, PoolState, Clock, AccountType, vault_a_reserve, vault_b_reserve, vault_a_lp,
  vault_b_lp, pool_vault_a_lp, pool_vault_b_lp, pool_lp_mint, sysvar_clock,
}
use mercurial_dynamic_amm_sd.Chunks.Requests.{Answers, chunked_get_multiple_account_infos_lem}
use mercurial_dynamic_amm_sd.SwapCurve.{Packages}
use mercurial_dynamic_amm_sd.Utils.{Numbers}
use mercurial_dynamic_amm_sd.Vault.{VaultSdk}
use mercurial_dynamic_amm_sd.Pool.{AccountsInfo}
use mercurial_dynamic_amm_sd.Pool.Accounts.{
  Rpc, set_accounts, decode_entry, decode_account_type, decode_all, get_accounts_buffer,
  deserialize_accounts_buffer, pool_accounts, found, read_accounts_info, read_clock,
  load_accounts_info, decode_clock_entry,
}
use mercurial_dynamic_amm_sd.Pool.Accounts.Maps.{
  key, type_of, IsNodup, types_known, found_decoded, set_accounts-get,
}

module _ (pk : Packages) (vault : VaultSdk) (num : Numbers) where
  open pk use {acc}
  open acc use {Buffer, decode_clock, token_amount, mint_supply}
  open vault use {VaultState, token_vault, lp_mint}

  -- A token account with this amount is at an address.
  abbrev pub HoldsAmount : (PublicKey → Option Buffer) → PublicKey → ℤ → Type 0
  HoldsAmount f k amount = (b : Buffer) × (f k ≡ some b) × (token_amount b ≡ ok amount)

  -- A mint with this supply is at an address.
  abbrev pub HoldsSupply : (PublicKey → Option Buffer) → PublicKey → ℤ → Type 0
  HoldsSupply f k supply = (b : Buffer) × (f k ≡ some b) × (mint_supply b ≡ ok supply)

  -- An entry that decodes has an account, and its type's decoder.
  decode_entry-account :
      (t : AccountType) (account : Option Buffer) {x : ℤ}
      → decode_entry pk vault num t account ≡ ok x
      → (b : Buffer) × (account ≡ some b) × (decode_account_type pk vault num t b ≡ ok x)
  unfolding decode_entry
  decode_entry-account t none h = cc
  decode_entry-account t (some b) h = (b, refl, h)

  -- What each number of the information is, where `f` has the accounts.
  pub record IsLoaded (f : PublicKey → Option Buffer) (clock_key : PublicKey)
      (vault_a vault_b : VaultState) (pool : PoolState) (info : AccountsInfo pk vault num)
      : Type 0 where
    pub reserve_a_eq : HoldsAmount f (token_vault vault_a) info.vault_a_reserve
    pub reserve_b_eq : HoldsAmount f (token_vault vault_b) info.vault_b_reserve
    pub supply_a_eq : HoldsSupply f (lp_mint vault_a) info.vault_a_lp_supply
    pub supply_b_eq : HoldsSupply f (lp_mint vault_b) info.vault_b_lp_supply
    pub pool_a_eq : HoldsAmount f pool.a_vault_lp info.pool_vault_a_lp
    pub pool_b_eq : HoldsAmount f pool.b_vault_lp info.pool_vault_b_lp
    pub pool_supply_eq : HoldsSupply f pool.lp_mint info.pool_lp_supply
    pub buffer : Buffer
    pub clock : Clock
    pub buffer_eq : f clock_key ≡ some buffer
    pub clock_eq : decode_clock buffer ≡ ok clock
    pub time_eq : info.current_time ≡ clock.unix_timestamp
    pub slot_eq : info.current_slot ≡ clock.slot

  -- The accounts that `create` and `updateState` fetch.
  abbrev pub fetched :
      Rpc pk vault num → (vault_a vault_b : VaultState) → PoolState → List (PublicKey × AccountType)
  fetched rpc vault_a vault_b pool =
      pool_accounts pk vault num vault_a vault_b pool
      ++ ((rpc.sysvar_clock_pubkey, sysvar_clock) ∷ [])

  get_accounts_buffer_lem :
      (rpc : Rpc pk vault num) (accounts : List (PublicKey × AccountType))
      (f : PublicKey → Option Buffer)
      → Answers rpc.get_multiple_accounts_info 100 f
      → get_accounts_buffer pk vault num rpc accounts
        ≡ set_accounts pk vault num accounts (map f (map (key pk vault num) accounts)) []
  unfolding get_accounts_buffer
  get_accounts_buffer_lem rpc accounts f answers =
      ap (λ bs. set_accounts pk vault num accounts bs [])
        (chunked_get_multiple_account_infos_lem rpc.get_multiple_accounts_info f
          (map (key pk vault num) accounts) 100 (omega arith) answers)

  read_clock_lem :
      (rpc : Rpc pk vault num) (accounts : List (PublicKey × AccountType))
      (f : PublicKey → Option Buffer) {clock : Clock}
      → type_of pk vault num accounts rpc.sysvar_clock_pubkey ≡ some sysvar_clock
      → read_clock pk vault num rpc
          (set_accounts pk vault num accounts (map f (map (key pk vault num) accounts)) [])
        ≡ ok clock
      → (buffer : Buffer) × (f rpc.sysvar_clock_pubkey ≡ some buffer)
        × (decode_clock buffer ≡ ok clock)
  unfolding read_clock decode_clock_entry
  read_clock_lem rpc accounts f known h =
      let there = set_accounts-get pk vault num accounts f [] rpc.sysvar_clock_pubkey in
      elim (Option-cases (f rpc.sysvar_clock_pubkey)) [
        | inl e ↦ cc (rw (there, known, e) at h)
        | inr (b, e) ↦ (b, e, (rw (there, known, e) at h))
      ]

  -- What the seven amounts and the clock were read from.
  record IsRead (m : List (PublicKey × ℤ)) (vault_a vault_b : VaultState) (pool : PoolState)
      (clock : Clock) (info : AccountsInfo pk vault num) : Type 0 where
    reserve_a : found pk vault num m (token_vault vault_a) ≡ ok info.vault_a_reserve
    reserve_b : found pk vault num m (token_vault vault_b) ≡ ok info.vault_b_reserve
    supply_a : found pk vault num m (lp_mint vault_a) ≡ ok info.vault_a_lp_supply
    supply_b : found pk vault num m (lp_mint vault_b) ≡ ok info.vault_b_lp_supply
    pool_a : found pk vault num m pool.a_vault_lp ≡ ok info.pool_vault_a_lp
    pool_b : found pk vault num m pool.b_vault_lp ≡ ok info.pool_vault_b_lp
    supply : found pk vault num m pool.lp_mint ≡ ok info.pool_lp_supply
    time : info.current_time ≡ clock.unix_timestamp
    slot : info.current_slot ≡ clock.slot

  read_accounts_info-IsRead :
      (m : List (PublicKey × ℤ)) (vault_a vault_b : VaultState) (pool : PoolState) (clock : Clock)
      {info : AccountsInfo pk vault num}
      → read_accounts_info pk vault num m vault_a vault_b pool clock ≡ ok info
      → IsRead m vault_a vault_b pool clock info
  unfolding read_accounts_info
  read_accounts_info-IsRead m vault_a vault_b pool clock h =
      let at = found pk vault num m in
      >>=-elim (at pool.a_vault_lp) h (λ pa e1 h1. >>=-elim (at pool.b_vault_lp) h1 (λ pb e2 h2.
        >>=-elim (at (lp_mint vault_a)) h2 (λ sa e3 h3.
          >>=-elim (at (lp_mint vault_b)) h3 (λ sb e4 h4.
            >>=-elim (at (token_vault vault_a)) h4 (λ ra e5 h5.
              >>=-elim (at (token_vault vault_b)) h5 (λ rb e6 h6.
                >>=-elim (at pool.lp_mint) h6 (λ s e7 h7.
                  let same = ok_injective h7 in
                  record {
                    reserve_a = e5 ∙ ap (λ i. ok i.vault_a_reserve) same;
                    reserve_b = e6 ∙ ap (λ i. ok i.vault_b_reserve) same;
                    supply_a = e3 ∙ ap (λ i. ok i.vault_a_lp_supply) same;
                    supply_b = e4 ∙ ap (λ i. ok i.vault_b_lp_supply) same;
                    pool_a = e1 ∙ ap (λ i. ok i.pool_vault_a_lp) same;
                    pool_b = e2 ∙ ap (λ i. ok i.pool_vault_b_lp) same;
                    supply = e7 ∙ ap (λ i. ok i.pool_lp_supply) same;
                    time = sym (ap (λ i. i.current_time) same);
                    slot = sym (ap (λ i. i.current_slot) same);
                  })))))))

  -- If a request answers each of at most 100 keys in order, with the account or null, and no two of the eight accounts have one
  -- address, then accounts that load give each amount as the token account at its address has it, each
  -- supply as the mint at its address has it, and the time and the slot of the clock.
  pub load_accounts_info-IsLoaded :
      (rpc : Rpc pk vault num) (vault_a vault_b : VaultState) (pool : PoolState)
      (f : PublicKey → Option Buffer) {info : AccountsInfo pk vault num}
      → Answers rpc.get_multiple_accounts_info 100 f
      → IsNodup pk vault num (map (key pk vault num) (fetched rpc vault_a vault_b pool))
      → load_accounts_info pk vault num rpc vault_a vault_b pool ≡ ok info
      → IsLoaded f rpc.sysvar_clock_pubkey vault_a vault_b pool info
  unfolding load_accounts_info deserialize_accounts_buffer read_accounts_info pool_accounts
      decode_account_type
  load_accounts_info-IsLoaded rpc vault_a vault_b pool f answers distinct h =
      let accounts = fetched rpc vault_a vault_b pool in
      let known = types_known pk vault num accounts distinct in
      let m = set_accounts pk vault num accounts (map f (map (key pk vault num) accounts)) [] in
      let (k0, (k1, (k2, (k3, (k4, (k5, (k6, (k7, _)))))))) = known in
      >>=-elim (decode_all pk vault num m [])
        (rw (get_accounts_buffer_lem rpc accounts f answers) at h)
        (λ values decoded h1.
          let at = λ (k : PublicKey) (t : AccountType) (x : ℤ).
            found_decoded pk vault num accounts f {after = values} k t {x = x} decoded in
          >>=-elim (read_clock pk vault num rpc m) h1 (λ clock clocked h2.
            let (buffer, b, c) = read_clock_lem rpc accounts f k7 clocked in
            let r = read_accounts_info-IsRead values vault_a vault_b pool clock h2 in
            record {
              reserve_a_eq = decode_entry-account vault_a_reserve _ (at _ _ _ k0 r.reserve_a);
              reserve_b_eq = decode_entry-account vault_b_reserve _ (at _ _ _ k1 r.reserve_b);
              supply_a_eq = decode_entry-account vault_a_lp _ (at _ _ _ k2 r.supply_a);
              supply_b_eq = decode_entry-account vault_b_lp _ (at _ _ _ k3 r.supply_b);
              pool_a_eq = decode_entry-account pool_vault_a_lp _ (at _ _ _ k4 r.pool_a);
              pool_b_eq = decode_entry-account pool_vault_b_lp _ (at _ _ _ k5 r.pool_b);
              pool_supply_eq = decode_entry-account pool_lp_mint _ (at _ _ _ k6 r.supply);
              buffer = buffer;
              clock = clock;
              buffer_eq = b;
              clock_eq = c;
              time_eq = r.time;
              slot_eq = r.slot;
            }))
