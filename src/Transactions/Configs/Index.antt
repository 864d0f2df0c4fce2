-- ===== src/Transactions/Configs/Index.antt =====
-- The index of a new configuration, and what its fees are read back as (ts-client/src/amm/index.ts).
use mercurial_dynamic_amm_sd.Prelude.{
  ℕ, zero, suc, ◌+◌, ◌^◌, ◌<◌, ◌≤◌, ℤ, true, false, ◌||◌, List, [], ◌∷◌, some, ok, err, ◌≡◌, refl,
  sym, ap, ◌∙◌, arith, if◌then◌else◌, ◌==◌, length, Bool-cases, inl, inr, ◌⊎◌, lt→ltb,
}
use mercurial_dynamic_amm_sd.Types.{PublicKey}
use mercurial_dynamic_amm_sd.Transactions.{Chain}
use mercurial_dynamic_amm_sd.Keys.{derive_config_pda, to_buffer_le_8}
use mercurial_dynamic_amm_sd.Transactions.Configs.{
  ConfigAccount, FeeConfiguration, is_taken, free_index, rounds, index_pda, get_fee_configurations,
  create_config, create_config_transaction,
}

-- The configurations of other addresses.
without : PublicKey → List FeeConfiguration → List FeeConfiguration
without key [] = []
without key (c ∷ cs) = if c.public_key == key then without key cs else c ∷ without key cs

length-without-le :
    (key : PublicKey) (cs : List FeeConfiguration) → length (without key cs) ≤ length cs
unfolding without
length-without-le key [] = ground arith
length-without-le key (c ∷ cs) = elim (Bool-cases (c.public_key == key)) [
  | inl e ↦ rw e (omega (arith, length-without-le key cs))
  | inr e ↦ rw e (omega (arith, length-without-le key cs))
]

length-without-lt :
    (key : PublicKey) (cs : List FeeConfiguration)
    → is_taken key cs ≡ true
    → length (without key cs) < length cs
unfolding without is_taken
length-without-lt key [] h = cc
length-without-lt key (c ∷ cs) h = elim (Bool-cases (c.public_key == key)) [
  | inl e ↦ rw e (omega (arith, length-without-le key cs))
  | inr e ↦ rw e (omega (arith, length-without-lt key cs (rw e at h)))
]

is_taken-without :
    (key other : PublicKey) (cs : List FeeConfiguration)
    → (key == other) ≡ false
    → is_taken other (without key cs) ≡ is_taken other cs
unfolding without is_taken
is_taken-without key other [] h = refl
is_taken-without key other (c ∷ cs) h = elim (Bool-cases (c.public_key == key)) [
  | inl e ↦
      let differ : (c.public_key == other) ≡ false = ground arith in
      rw (e, differ) (is_taken-without key other cs h)
  | inr e ↦ rw e (ap (λ b. c.public_key == other || b) (is_taken-without key other cs h))
]

from_or_later : (from i : ℕ) → from ≤ i → (i ≡ from) ⊎ (from + 1 ≤ i)
from_or_later from i h = ground arith

clash : true ≡ false → ⊥
clash h = cc

none_taken :
    (key : PublicKey) (cs : List FeeConfiguration) → length cs ≤ 0 → is_taken key cs ≡ false
unfolding is_taken
none_taken key [] h = refl
none_taken key (c ∷ cs) h = absurd (omega (arith, h))

-- Of more addresses than there are configurations, one is not taken.
some_free :
    (address : ℕ → PublicKey) (count : ℕ) (cs : List FeeConfiguration) (from : ℕ)
    → ((i j : ℕ) → i < j → j ≤ from + count → (address i == address j) ≡ false)
    → length cs ≤ count
    → (i : ℕ) × (from ≤ i) × (i ≤ from + count) × (is_taken (address i) cs ≡ false)
some_free address zero cs from differ h =
    (from, omega arith, omega arith, none_taken (address from) cs h)
some_free address (suc count) cs from differ h = elim (Bool-cases (is_taken (address from) cs)) [
  | inr free ↦ (from, omega arith, omega arith, free)
  | inl taken ↦
      let fewer = length-without-lt (address from) cs taken in
      let (i, above, below, free) =
        some_free address count (without (address from) cs) (from + 1)
          (λ i j lt le. differ i j lt (omega arith)) (omega (arith, fewer, h)) in
      (
        i,
        omega (arith, above),
        omega (arith, below),
        sym (
              is_taken-without (address from) (address i) cs
                (differ from i (omega (arith, above)) (omega (arith, below))))
            ∙ free,
      )
]

module _ (chain : Chain) (program_id : PublicKey) where
  open chain use {find_program_address}

  -- The address of a configuration, for an index below 2 ^ 53.
  abbrev pub config_address : (index : ℕ) → PublicKey
  config_address index = elim (index_pda chain program_id index) [ err e ↦ 0 | ok key ↦ key ]

  derives :
      (index : ℕ) → index < 2 ^ 53 → index_pda chain program_id index ≡ ok (config_address index)
  unfolding index_pda derive_config_pda to_buffer_le_8
  derives index h =
      rw (config_address, lt→ltb index (2 ^ 53) h, lt→ltb index (2 ^ 64) (omega (arith, h))) refl

  -- No smaller index is free.
  pub record IsLeastFree (configs : List FeeConfiguration) (from index : ℕ) : Type 0 where
    pub free : is_taken (config_address index) configs ≡ false
    pub least : (j : ℕ) → from ≤ j → j < index → is_taken (config_address j) configs ≡ true

  later :
      (configs : List FeeConfiguration) (from i : ℕ)
      → is_taken (config_address from) configs ≡ true
      → from ≤ i
      → is_taken (config_address i) configs ≡ false
      → from + 1 ≤ i
  later configs from i taken low free = elim (from_or_later from i low) [
    | inl e ↦
        absurd (clash (sym taken ∙ (ap (λ j. is_taken (config_address j) configs) (sym e) ∙ free)))
    | inr more ↦ more
  ]

  -- A taken index is passed over.
  free_index_next :
      (configs : List FeeConfiguration) (fuel from : ℕ) (key : PublicKey)
      → index_pda chain program_id from ≡ ok key
      → is_taken key configs ≡ true
      → free_index chain program_id configs (suc fuel) from
        ≡ free_index chain program_id configs fuel (from + 1)
  unfolding free_index
  free_index_next configs fuel from key derived taken = rw (free_index, derived, taken) refl

  -- With a free index within reach, the loop ends.
  free_index_ends :
      (configs : List FeeConfiguration) (fuel from i : ℕ)
      → from ≤ i
      → i < from + fuel
      → i < 2 ^ 53
      → is_taken (config_address i) configs ≡ false
      → (index : ℕ) × (index ≤ i)
        × (free_index chain program_id configs fuel from ≡ some (ok (index, config_address index)))
        × IsLeastFree configs from index
  unfolding free_index
  free_index_ends configs zero from i above below small free = absurd (omega (arith, above, below))
  free_index_ends configs (suc fuel) from i above below small free =
      let derived = derives from (omega (arith, above, small)) in
      elim (Bool-cases (is_taken (config_address from) configs)) [
        | inr none_before ↦ (
          from,
          above,
          rw (free_index, derived, none_before) refl,
          record { free = none_before; least = λ j low high. absurd (omega (arith, low, high)) },
        )
        | inl taken ↦
            let (index, within, found, first) =
              free_index_ends configs fuel (from + 1) i (later configs from i taken above free)
                (omega (arith, below)) small free in
            (
              index,
              within,
              free_index_next configs fuel from (config_address from) derived taken ∙ found,
              record {
                free = first.free;
                least = λ j low high. elim (from_or_later from j low) [
                  | inl e ↦ ap (λ j. is_taken (config_address j) configs) e ∙ taken
                  | inr more ↦ first.least j more high
                ];
              },
            )
      ]

  -- If the fees of all the configurations can be read, there are fewer than 2 ^ 53 of them, and the addresses for
  -- the indices up to their number are all different, then the loop of `create_config` ends within one round more
  -- than there are configurations. The transaction is for the least index whose address is not that of a
  -- configuration, which is at most their number.
  pub create_config_ends :
      (accounts : List ConfigAccount) (payer : PublicKey) (trade protocol : ℤ)
      (vault_config : PublicKey) (duration : ℤ) (authority : PublicKey) (activation : ℕ)
      (configs : List FeeConfiguration)
      → get_fee_configurations accounts ≡ ok configs
      → ((i j : ℕ) → i < j → j ≤ length configs → (config_address i == config_address j) ≡ false)
      → length configs < 2 ^ 53
      → (index : ℕ) × (index ≤ length configs)
        × (create_config chain program_id accounts payer trade protocol vault_config duration
              authority activation
            ≡ some (
                ok (
                  create_config_transaction chain program_id payer trade protocol vault_config
                    duration authority activation index
                    (config_address index))))
        × IsLeastFree configs 0 index
  unfolding create_config
  create_config_ends accounts payer trade protocol vault_config duration authority activation
        configs read differ small =
      let (i, low, high, free) =
        some_free config_address (length configs) configs 0
          (λ i j lt le. differ i j lt (omega (arith, le))) (omega arith) in
      let (index, within, found, first) =
        free_index_ends configs (rounds chain program_id configs) 0 i low (omega (arith, high))
          (omega (arith, high, small)) free in
      (index, omega (arith, within, high), rw (create_config, read, found) refl, first)
