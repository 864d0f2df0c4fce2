-- ===== src/Examples/Transactions.antt =====
-- Examples for the transactions of index.ts: the pool of Examples/Pool, on a chain where an associated
-- account is the sum of its mint and its owner.
use mathlib.Core.Option.{none}
use mercurial_dynamic_amm_sd.Prelude.{
  ℕ, ◌+◌, ◌≡◌, ◌↔◌, ◌≤◌, ◌<◌, refl, arith, pos, true, false, List, [], ◌∷◌, ◌==◌, some, ok,
}
use mercurial_dynamic_amm_sd.Types.{PublicKey, CurveType}
use mercurial_dynamic_amm_sd.Chunks.Requests.{All}
use mercurial_dynamic_amm_sd.Pool.{AmmImpl, is_stable_pool}
use mercurial_dynamic_amm_sd.Keys.{
  Bytes, derive_lock_escrow_pda, derive_config_pda, to_buffer_le_8, le_bytes,
}
use mercurial_dynamic_amm_sd.Transactions.{Chain, get_associated_token_account}
use mercurial_dynamic_amm_sd.Transactions.Accepts.{IsAccepted}
use mercurial_dynamic_amm_sd.Transactions.Runs.{Runs, Ledger}
use mercurial_dynamic_amm_sd.Transactions.Typed.{
  pool_transactions-IsAccepted, create_pool_with_configs-IsAccepted,
}
use mercurial_dynamic_amm_sd.Transactions.Swap.{swap}
use mercurial_dynamic_amm_sd.Transactions.Swap.Runs.{swap-Runs}
use mercurial_dynamic_amm_sd.Transactions.Liquidity.{deposit, withdraw}
use mercurial_dynamic_amm_sd.Transactions.Liquidity.Runs.{RunsToLp, deposit_withdraw-RunsToLp}
use mercurial_dynamic_amm_sd.Transactions.Liquidity.Minimum.{withdraw_ignores_minimum}
use mercurial_dynamic_amm_sd.Transactions.Locks.{lock_liquidity, claim_lock_fee, lock_escrow_pk}
use mercurial_dynamic_amm_sd.Transactions.Locks.Accepted.{
  escrow_account, claim_lock_fee-IsAccepted_iff,
}
use mercurial_dynamic_amm_sd.Transactions.Create.Methods.{
  create_pool_with_config, create_pool_with_config_2, swapped_amount,
}
use mercurial_dynamic_amm_sd.Transactions.Create.Funds.{
  all_transfers, payer_token_b_of, pool_with_config_transfers,
}
use mercurial_dynamic_amm_sd.Transactions.Configs.{
  index_pda, ConfigAccount, FeeConfiguration, get_fee_configurations, fee_configuration,
  create_config, create_config_transaction,
}
use mercurial_dynamic_amm_sd.Transactions.Configs.Index.{
  IsLeastFree, config_address, create_config_ends,
}
use mercurial_dynamic_amm_sd.Transactions.Configs.Fees.{
  fees_of, made_accounts, get_fee_configurations-create_config_transaction,
}
use mercurial_dynamic_amm_sd.Examples.{packages, fractions, plain_vault}
use mercurial_dynamic_amm_sd.Examples.Pool.{plain, amm, multipliers, no_base}

-- The second byte of the last seed, above 1000.
abbrev pub find : List Bytes → PublicKey → PublicKey × ℕ
find [] program = (1000, 255)
find (seed ∷ []) program = (1000 + first seed, 255)
  where
    first : Bytes → ℕ
    first [] = 0
    first (byte ∷ bytes) = byte
find (seed ∷ next ∷ seeds) program = find (next ∷ seeds) program

abbrev pub chain : Chain
chain = record {
  native_mint = 3;
  token_program_id = 61;
  associated_token_program_id = 62;
  system_program_id = 63;
  sysvar_rent_pubkey = 64;
  find_program_address = find;
  associated_token_address = λ mint owner. mint + owner;
  account_exists = λ key. key == 702;
  vault_program_id = 52;
  get_vault_pdas = λ mint. record {
    vault_pda = mint + 2000;
    token_vault_pda = mint + 3000;
    lp_mint_pda = mint + 4000;
  };
  fetch_vault_lp_mint = λ vault. none;
  has_create_vault = λ payer mint. true;
  fetch_lock_escrow = λ key. none;
}

pool_transactions-IsAccepted_example :
    IsAccepted (swap packages plain_vault fractions chain plain 700 2 (pos 5) (pos 4) (some 800))
    × IsAccepted (deposit packages plain_vault fractions chain plain 700 (pos 5) (pos 4) (pos 3))
    × IsAccepted (withdraw packages plain_vault fractions chain plain 700 (pos 5) (pos 4) (pos 3))
    × IsAccepted (lock_liquidity packages plain_vault fractions chain plain 700 (pos 5) none)
pool_transactions-IsAccepted_example =
    pool_transactions-IsAccepted packages plain_vault fractions chain plain 700 2 (pos 5) (pos 4)
      (pos 3) (some 800) none

create_pool_with_configs-IsAccepted_example :
    All IsAccepted (
      create_pool_with_config chain 51 700 2 3
        (pos 10)
        (pos 20)
        90
        true
        (some (record { in_amount = pos 5; min_amount_out = pos 1 }))
        false
        true)
    × All IsAccepted (
        create_pool_with_config_2 chain 51 700 2 3
          (pos 10)
          (pos 20)
          90
          true
          (some (record { in_amount = pos 5; min_amount_out = pos 1 }))
          none)
create_pool_with_configs-IsAccepted_example =
    create_pool_with_configs-IsAccepted chain 51 700 2 3 (pos 10) (pos 20) 90 true
      (some (record { in_amount = pos 5; min_amount_out = pos 1 })) false true none

deposit_withdraw-RunsToLp_example :
    RunsToLp packages plain_vault fractions chain plain 700
      (deposit packages plain_vault fractions chain plain 700 (pos 5) (pos 4) (pos 3)).instructions
      (λ key. key == 702)
    × RunsToLp packages plain_vault fractions chain plain 700
        (withdraw packages plain_vault fractions chain plain 700
          (pos 3)
          (pos 5)
          (pos 4)).instructions
        (λ key. key == 702)
unfolding get_associated_token_account
deposit_withdraw-RunsToLp_example =
    deposit_withdraw-RunsToLp packages plain_vault fractions chain plain 700 (pos 3) (pos 5) (pos 4)
      (record { first = refl; second = refl })
      (record { first_second = refl; first_third = refl; second_third = refl })

swap-Runs_example :
    (after : Ledger) × Runs
      (swap packages plain_vault fractions chain plain 700 2
        (pos 5)
        (pos 4)
        (some 800)).instructions
      (λ key. key == 702)
      after
unfolding get_associated_token_account
swap-Runs_example =
    swap-Runs packages plain_vault fractions chain plain 700 2 (pos 5) (pos 4) (some 800) refl
      (refl, refl)

claim_lock_fee-IsAccepted_iff_example :
    (escrow_account packages plain_vault fractions chain plain 700 ≡ true)
    ↔ IsAccepted (claim_lock_fee packages plain_vault fractions chain plain 700 (pos 9))
unfolding lock_escrow_pk derive_lock_escrow_pda
claim_lock_fee-IsAccepted_iff_example =
    claim_lock_fee-IsAccepted_iff packages plain_vault fractions chain plain 700 (pos 9)
      (λ e. absurd (omega (arith, e)))

abbrev stable_amm : AmmImpl packages plain_vault fractions
stable_amm = amm (CurveType.stable (pos 100) multipliers no_base (pos 0))

withdraw_ignores_minimum_example :
    (withdraw packages plain_vault fractions chain stable_amm 700 (pos 9) (pos 5) (pos 0)
      ≡ withdraw packages plain_vault fractions chain stable_amm 700 (pos 9) (pos 1) (pos 0))
    × (withdraw packages plain_vault fractions chain stable_amm 700 (pos 9) (pos 0) (pos 5)
        ≡ withdraw packages plain_vault fractions chain stable_amm 700 (pos 9) (pos 0) (pos 1))
unfolding is_stable_pool
withdraw_ignores_minimum_example =
    withdraw_ignores_minimum packages plain_vault fractions chain stable_amm 700 (pos 9) (pos 5)
      (pos 1) refl refl refl

pool_with_config_transfers_example :
    (all_transfers (
        create_pool_with_config chain 51 700 2 3
          (pos 10)
          (pos 20)
          90
          true
          (some (record { in_amount = pos 5; min_amount_out = pos 1 }))
          false
          true)
      ≡ (payer_token_b_of chain 51 700 2 3 90, pos 25) ∷ [])
    × (all_transfers (
          create_pool_with_config_2 chain 51 700 2 3
            (pos 10)
            (pos 20)
            90
            true
            (some (record { in_amount = pos 5; min_amount_out = pos 1 }))
            none)
        ≡ (payer_token_b_of chain 51 700 2 3 90, pos 20) ∷ [])
unfolding swapped_amount
pool_with_config_transfers_example =
    pool_with_config_transfers chain 51 700 2 3 (pos 10) (pos 20) 90 true
      (some (record { in_amount = pos 5; min_amount_out = pos 1 })) false true none refl refl

-- The configuration 0, of 1/4 percent.
abbrev taken : ConfigAccount
taken = record { public_key = 1000; pool_fees = fees_of (pos 250) (pos 50) }

abbrev read : FeeConfiguration
read = record {
  public_key = 1000;
  pool_fees = fees_of (pos 250) (pos 50);
  trade_fee_bps = pos 25;
  protocol_trade_fee_bps = pos 5;
}

taken-read : get_fee_configurations (taken ∷ []) ≡ ok (read ∷ [])
unfolding get_fee_configurations fee_configuration
taken-read = refl

two_addresses :
    (i j : ℕ) → i < j → j ≤ 1 → (config_address chain 51 i == config_address chain 51 j) ≡ false
unfolding index_pda derive_config_pda to_buffer_le_8 le_bytes
two_addresses i j lt le =
    let first : i ≡ 0 = omega (arith, lt, le) in
    let second : j ≡ 1 = omega (arith, lt, le) in rw (first, second) refl

create_config_ends_example :
    (index : ℕ) × (index ≤ 1)
    × (create_config chain 51 (taken ∷ []) 700 (pos 30) (pos 6) 91 (pos 0) 700 0
        ≡ some (
            ok (
              create_config_transaction chain 51 700
                (pos 30)
                (pos 6)
                91
                (pos 0)
                700
                0
                index
                (config_address chain 51 index))))
    × IsLeastFree chain 51 (read ∷ []) 0 index
create_config_ends_example =
    create_config_ends chain 51 (taken ∷ []) 700 (pos 30) (pos 6) 91 (pos 0) 700 0 (read ∷ [])
      taken-read two_addresses (omega arith)

get_fee_configurations-create_config_transaction_example :
    get_fee_configurations (
      made_accounts 1001
        (create_config_transaction chain 51 700
          (pos 30)
          (pos 6)
          91
          (pos 0)
          700
          0
          1
          1001).instructions)
    ≡ ok (
        record {
          public_key = 1001;
          pool_fees = fees_of (pos 300) (pos 60);
          trade_fee_bps = pos 30;
          protocol_trade_fee_bps = pos 6;
        }
        ∷ [])
get_fee_configurations-create_config_transaction_example =
    get_fee_configurations-create_config_transaction chain 51 700 30 6 91 (pos 0) 700 0 1 1001
