-- ===== src/DepegAccounts.antt =====
-- ts-client/src/amm/utils.ts: `getStakePubkey` and `getDepegAccounts`, the accounts from which the base
-- prices of stable pools are read. The remote procedure call is a parameter.
use mathlib.Core.Option.{none}
use mercurial_dynamic_amm_sd.Prelude.{
  ◌≡◌, refl, sym, ap, ◌∙◌, Bool, true, false, ◌||◌, ◌&&◌, List, [], ◌∷◌, ◌++◌, map, Option, some,
  if◌then◌else◌, ◌==◌, arith, Bool-cases, Option-cases, inl, inr,
}
use mercurial_dynamic_amm_sd.Types.{
  PublicKey, PoolState, CurveType, DepegType, no_depeg, marinade, lido, spl_stake, get, set,
}
use mercurial_dynamic_amm_sd.Types.Maps.{get-set}
use mercurial_dynamic_amm_sd.Constants.{marinade_account, lido_account}
use mercurial_dynamic_amm_sd.Chunks.{chunked_get_multiple_account_infos}
use mercurial_dynamic_amm_sd.Chunks.Requests.{Answers, chunked_get_multiple_account_infos_lem}

stake_of : DepegType → (stake : PublicKey) → Option PublicKey
stake_of no_depeg stake = none
stake_of marinade stake = some marinade_account
stake_of lido stake = some lido_account
stake_of spl_stake stake = some stake

curve_stake : CurveType → (stake : PublicKey) → Option PublicKey
unfolding stake_of
curve_stake CurveType.constant_product stake = none
curve_stake (CurveType.stable amp token_multiplier depeg updated) stake =
    stake_of depeg.depeg_type stake

unfoldable pub get_stake_pubkey : PoolState → Option PublicKey
unfolding curve_stake
get_stake_pubkey pool = curve_stake pool.curve_type pool.stake

-- The two fixed addresses are one object each, and the stake of a pool is an object of its own.
fixed_type : DepegType → Bool
fixed_type marinade = true
fixed_type lido = true
fixed_type spl_stake = false
fixed_type no_depeg = false

is_fixed : CurveType → Bool
unfolding fixed_type
is_fixed CurveType.constant_product = false
is_fixed (CurveType.stable amp token_multiplier depeg updated) = fixed_type depeg.depeg_type

abbrev has_fixed : List (Bool × PublicKey) → PublicKey → Bool
has_fixed [] key = false
has_fixed ((fixed, k) ∷ rest) key = (fixed && k == key) || has_fixed rest key

-- The set is one of objects, in the order of insertion: a fixed address is a member once, and equal stakes of two
-- pools are two members.
add_key : (fixed : Bool) → PublicKey → List (Bool × PublicKey) → List (Bool × PublicKey)
add_key fixed key members =
    if fixed && has_fixed members key then members else members ++ ((fixed, key) ∷ [])

add_stakes : List PoolState → (members : List (Bool × PublicKey)) → List (Bool × PublicKey)
unfolding add_key is_fixed
add_stakes [] members = members
add_stakes (p ∷ ps) members = elim (get_stake_pubkey p) [
  | none ↦ add_stakes ps members
  | some key ↦ add_stakes ps (add_key (is_fixed p.curve_type) key members)
]

abbrev keys_of : List (Bool × PublicKey) → List PublicKey
keys_of [] = []
keys_of ((fixed, key) ∷ rest) = key ∷ keys_of rest

unfoldable pub stake_pool_keys : List PoolState → List PublicKey
unfolding add_stakes
stake_pool_keys pools = keys_of (add_stakes pools [])

abbrev mem : PublicKey → List PublicKey → Bool
mem k [] = false
mem k (x ∷ xs) = x == k || mem k xs

-- The address that the price of a base pool is read from is this one.
abbrev is_stake_of : PublicKey → DepegType → (stake : PublicKey) → Bool
is_stake_of k no_depeg stake = false
is_stake_of k marinade stake = marinade_account == k
is_stake_of k lido stake = lido_account == k
is_stake_of k spl_stake stake = stake == k

abbrev has_stake : PublicKey → CurveType → (stake : PublicKey) → Bool
has_stake k CurveType.constant_product stake = false
has_stake k (CurveType.stable amp token_multiplier depeg updated) stake =
    is_stake_of k depeg.depeg_type stake

-- It is the one of some pool.
abbrev pub some_stake : PublicKey → List PoolState → Bool
some_stake k [] = false
some_stake k (p ∷ ps) = has_stake k p.curve_type p.stake || some_stake k ps

or_assoc : (a b c : Bool) → ((a || b) || c) ≡ (a || (b || c))
or_assoc true b c = refl
or_assoc false b c = refl

or_false : (b : Bool) → (b || false) ≡ b
or_false true = refl
or_false false = refl

mem-append :
    (k : PublicKey) (fixed : Bool) (key : PublicKey) (members : List (Bool × PublicKey))
    → mem k (keys_of (members ++ ((fixed, key) ∷ []))) ≡ (mem k (keys_of members) || key == k)
mem-append k fixed key [] = or_false (key == k)
mem-append k fixed key ((g, j) ∷ rest) =
    rw (mem-append k fixed key rest) (sym (or_assoc (j == k) (mem k (keys_of rest)) (key == k)))

-- A fixed address that is in the set is among its keys.
has_fixed-mem :
    (k key : PublicKey) (members : List (Bool × PublicKey))
    → has_fixed members key ≡ true
    → mem k (keys_of members) ≡ (mem k (keys_of members) || key == k)
has_fixed-mem k key [] h = cc
has_fixed-mem k key ((g, j) ∷ rest) h = ground (arith, has_fixed-mem k key rest)

mem-add_key :
    (k : PublicKey) (fixed : Bool) (key : PublicKey) (members : List (Bool × PublicKey))
    → mem k (keys_of (add_key fixed key members)) ≡ (mem k (keys_of members) || key == k)
unfolding add_key
mem-add_key k false key members = mem-append k false key members
mem-add_key k true key members = elim (Bool-cases (has_fixed members key)) [
  | inl e ↦ rw e (has_fixed-mem k key members e)
  | inr e ↦ rw e (mem-append k true key members)
]

-- What one pool adds to the keys.
abbrev added : Option PublicKey → (fixed : Bool) → List (Bool × PublicKey) → List (Bool × PublicKey)
added none fixed members = members
added (some key) fixed members = add_key fixed key members

mem-added_type :
    (k : PublicKey) (t : DepegType) (stake : PublicKey) (members : List (Bool × PublicKey))
    → mem k (keys_of (added (stake_of t stake) (fixed_type t) members))
      ≡ (mem k (keys_of members) || is_stake_of k t stake)
unfolding stake_of fixed_type
mem-added_type k no_depeg stake members = sym (or_false (mem k (keys_of members)))
mem-added_type k marinade stake members = mem-add_key k true marinade_account members
mem-added_type k lido stake members = mem-add_key k true lido_account members
mem-added_type k spl_stake stake members = mem-add_key k false stake members

mem-added :
    (k : PublicKey) (t : CurveType) (stake : PublicKey) (members : List (Bool × PublicKey))
    → mem k (keys_of (added (curve_stake t stake) (is_fixed t) members))
      ≡ (mem k (keys_of members) || has_stake k t stake)
unfolding curve_stake is_fixed
mem-added k CurveType.constant_product stake members = sym (or_false (mem k (keys_of members)))
mem-added k (CurveType.stable amp tm depeg updated) stake members =
    mem-added_type k depeg.depeg_type stake members

mem-add_stakes :
    (k : PublicKey) (pools : List PoolState) (members : List (Bool × PublicKey))
    → mem k (keys_of (add_stakes pools members)) ≡ (mem k (keys_of members) || some_stake k pools)
unfolding add_stakes get_stake_pubkey
mem-add_stakes k [] members = sym (or_false (mem k (keys_of members)))
mem-add_stakes k (p ∷ ps) members =
    one (mem-add_stakes k ps) (curve_stake p.curve_type p.stake) (is_fixed p.curve_type)
    ∙ (ap (λ b. b || some_stake k ps) (mem-added k p.curve_type p.stake members)
        ∙ or_assoc (mem k (keys_of members)) (has_stake k p.curve_type p.stake) (some_stake k ps))
  where
    one :
        ((m : List (Bool × PublicKey))
          → mem k (keys_of (add_stakes ps m)) ≡ (mem k (keys_of m) || some_stake k ps))
        → (o : Option PublicKey) (fixed : Bool)
        → mem k (
            keys_of (elim o [
              | none ↦ add_stakes ps members
              | some key ↦ add_stakes ps (add_key fixed key members)
            ]))
          ≡ (mem k (keys_of (added o fixed members)) || some_stake k ps)
    one h none fixed = h members
    one h (some key) fixed = h (add_key fixed key members)

or_true : (b : Bool) → (b || true) ≡ true
or_true true = refl
or_true false = refl

if_same : {A : Type 0} (b : Bool) {o : Option A} → o ≡ none → (if b then o else none) ≡ none
if_same true e = e
if_same false e = refl

module _ {Buffer : Type 0}
    (get_multiple_accounts_info : List PublicKey → List (Option Buffer)) where
  -- The accounts that are there, set in the map one after the other.
  set_accounts :
      List PublicKey
      → (account_buffers : List (Option Buffer)) (depeg_accounts : List (PublicKey × Buffer))
      → List (PublicKey × Buffer)
  set_accounts [] buffers accounts = accounts
  set_accounts (key ∷ keys) [] accounts = accounts
  set_accounts (key ∷ keys) (none ∷ buffers) accounts = set_accounts keys buffers accounts
  set_accounts (key ∷ keys) (some b ∷ buffers) accounts =
      set_accounts keys buffers (set accounts key b)

  unfoldable pub get_depeg_accounts : List PoolState → List (PublicKey × Buffer)
  unfolding set_accounts
  get_depeg_accounts pools =
      let keys = stake_pool_keys pools in
      set_accounts keys (chunked_get_multiple_account_infos get_multiple_accounts_info keys 100) []

  set_accounts-get :
      (f : PublicKey → Option Buffer) (k : PublicKey) (keys : List PublicKey)
      (accounts : List (PublicKey × Buffer)) (seen : Bool)
      → get accounts k ≡ (if seen then f k else none)
      → get (set_accounts keys (map f keys) accounts) k ≡ (if seen || mem k keys then f k else none)
  unfolding set_accounts
  set_accounts-get f k [] accounts true h = h
  set_accounts-get f k [] accounts false h = h
  set_accounts-get f k (x ∷ keys) accounts seen h = elim (Bool-cases (x == k)) [
    | inl e ↦
        let same : x ≡ k = ground arith in
        elim (Option-cases (f x)) [
          | inl fx ↦
              let fk : f k ≡ none = ap f (sym same) ∙ fx in
              rw (fx, e, or_true seen)
                (set_accounts-get f k keys accounts true (h ∙ (if_same seen fk ∙ sym fk)))
          | inr (b, fx) ↦
              let fk : f k ≡ some b = ap f (sym same) ∙ fx in
              rw (fx, e, or_true seen)
                (set_accounts-get f k keys (set accounts x b) true
                  (rw (get-set accounts x b k, e, fk)))
        ]
    | inr e ↦ elim (Option-cases (f x)) [
      | inl fx ↦ rw (fx, e) (set_accounts-get f k keys accounts seen h)
      | inr (b, fx) ↦
          rw (fx, e)
            (set_accounts-get f k keys (set accounts x b) seen (rw (get-set accounts x b k, e) h))
    ]
  ]

  -- If a request answers each of at most 100 keys in order, with the account or null, then the map has, at
  -- each key, the account of that key when it is the one of Marinade and some stable pool is of that base pool, the
  -- one of Lido and some is of that, or the stake of a stable pool of a stake pool; and it has nothing at any
  -- other key.
  pub get_depeg_accounts_lem :
      (pools : List PoolState) (f : PublicKey → Option Buffer) (k : PublicKey)
      → Answers get_multiple_accounts_info 100 f
      → get (get_depeg_accounts pools) k ≡ (if some_stake k pools then f k else none)
  unfolding get_depeg_accounts stake_pool_keys
  get_depeg_accounts_lem pools f k answers =
      let keys = keys_of (add_stakes pools []) in
      rw
        (chunked_get_multiple_account_infos_lem get_multiple_accounts_info f keys 100 (omega arith)
          answers)
        (set_accounts-get f k keys [] false (unfold get in refl)
          ∙ ap (λ b. if b then f k else none) (mem-add_stakes k pools []))
