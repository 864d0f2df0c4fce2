-- ===== src/Examples/Stable.antt =====
-- Examples for the object of a stable pool as it is created and updated: a pool on the Marinade base pool, with
-- the accounts of Examples/State.
use mercurial_dynamic_amm_sd.Prelude.{
  ℤ, ◌≡◌, refl, pos, List, [], ◌∷◌, map, Option, some, ok, err, null_account, false, if◌then◌else◌,
  ◌==◌,
}
use mathlib.Core.Option.{none}
use mercurial_dynamic_amm_sd.Constants.{marinade_account}
use mercurial_dynamic_amm_sd.Types.{PublicKey, PoolState, CurveType, Depeg, marinade, get, set}
use mercurial_dynamic_amm_sd.Calculator
use mercurial_dynamic_amm_sd.Calculator.{d_loop, d_step}
use mercurial_dynamic_amm_sd.Chunks.{chunked_get_multiple_account_infos, chunks, chunks_from, slice}
use mercurial_dynamic_amm_sd.DepegAccounts.{get_depeg_accounts, stake_pool_keys, get_stake_pubkey}
use mercurial_dynamic_amm_sd.StableSwap.{
  StableSwap, update_depeg_info_if_expired, get_base_pool_virtual_price, upscale_token_a,
  upscale_token_b,
}
use mercurial_dynamic_amm_sd.StableSwap.Amounts
use mercurial_dynamic_amm_sd.ConstantProduct
use mercurial_dynamic_amm_sd.SwapCurve
use mercurial_dynamic_amm_sd.SwapCurve.{SwapCurve}
use mercurial_dynamic_amm_sd.Quote.{calculate_pool_info, pool_amounts}
use mercurial_dynamic_amm_sd.Pool.{AmmImpl, with_curve, store_depeg}
use mercurial_dynamic_amm_sd.Pool.Accounts.{
  Rpc, get_pool_state, load_accounts_info, get_accounts_buffer, set_accounts,
  deserialize_accounts_buffer, decode_all, decode_entry, decode_account_type, pool_accounts, found,
  read_accounts_info, read_clock, decode_clock_entry,
}
use mercurial_dynamic_amm_sd.Pool.State.{
  create, update_state, first_two, new_curve, new_curve_of, pool_info_of, fetch_state, update_curve,
  update_info, refresh_vaults, refreshed, replace_pool_state, update_accounts,
}
use mercurial_dynamic_amm_sd.Pool.State.Coherent.{Agrees}
use mercurial_dynamic_amm_sd.Pool.State.Fresh.{IsUpdated, update_state-IsUpdated}
use mercurial_dynamic_amm_sd.Pool.State.Run.{here, updated, cut_off, Reach-IsCoherent}
use mercurial_dynamic_amm_sd.Examples.{numbers_as_accounts, packages, fractions, plain_vault}
use mercurial_dynamic_amm_sd.Examples.Pool.{pool}
use mercurial_dynamic_amm_sd.Examples.State.{account, rpc, made}

-- A price of Marinade's pool, found at a time.
abbrev priced : (price time : ℤ) → Depeg
priced price time = record {
  base_virtual_price = price;
  base_cache_updated = time;
  depeg_type = marinade;
}

abbrev stable : Depeg → CurveType
stable depeg =
    CurveType.stable (pos 100)
      (record { token_a_multiplier = pos 1; token_b_multiplier = pos 1; precision_factor = 9 })
      depeg (pos 0)

-- A price that is too old, and the one that the account of Marinade gives.
abbrev old_price : Depeg
old_price = priced (pos 1_090_000) (pos 100)

abbrev new_price : Depeg
new_price = priced (pos 1_100_000) (pos 1000)

abbrev cluster : Rpc packages plain_vault fractions
cluster = record rpc { fetch_pool = λ key. some (pool (stable old_price)) }

abbrev curve : StableSwap numbers_as_accounts
curve = record {
  amp = pos 100;
  token_multiplier = record {
    token_a_multiplier = pos 1;
    token_b_multiplier = pos 1;
    precision_factor = 9;
  };
  depeg = new_price;
  extra_accounts = (marinade_account, pos 4_724_464_026) ∷ [];
  on_chain_time = pos 1000;
  stake_pool_pubkey = 0;
}

abbrev stable_made : AmmImpl packages plain_vault fractions
stable_made = record made {
  pool_state = pool (stable new_price);
  swap_curve = SwapCurve.stable curve;
  depeg_accounts = (marinade_account, pos 4_724_464_026) ∷ [];
  pool_info = record {
    token_a_amount = pos 10;
    token_b_amount = pos 20;
    virtual_price = (pos 310000000, pos 100_000_000);
    virtual_price_raw = pos 57184906628499610009;
  };
}

stable_created : create packages plain_vault fractions cluster 51 52 50 ≡ ok stable_made
unfolding create get_pool_state first_two load_accounts_info get_accounts_buffer set_accounts
    deserialize_accounts_buffer decode_all decode_entry decode_account_type pool_accounts found
    read_accounts_info read_clock decode_clock_entry chunked_get_multiple_account_infos chunks
    chunks_from slice get set new_curve new_curve_of pool_info_of get_depeg_accounts stake_pool_keys
    get_stake_pubkey calculate_pool_info pool_amounts with_curve store_depeg SwapCurve.compute_d
    Amounts.compute_d update_depeg_info_if_expired get_base_pool_virtual_price upscale_token_a
    upscale_token_b Calculator.compute_d d_loop d_step
stable_created = refl

-- A cluster in which the pool is of another curve, and the clock is missing.
abbrev without_clock : PublicKey → Option ℤ
without_clock key = if key == 99 then none else account key

abbrev broken : Rpc packages plain_vault fractions
broken = record rpc { get_multiple_accounts_info = map without_clock }

-- The object after an update that failed once it had replaced the pool's state.
abbrev torn : AmmImpl packages plain_vault fractions
torn = record stable_made { pool_state = pool CurveType.constant_product; shares_depeg = false }

tears : update_state packages plain_vault fractions broken stable_made ≡ (torn, err null_account)
unfolding update_state fetch_state refresh_vaults refreshed replace_pool_state update_accounts
    get_pool_state load_accounts_info get_accounts_buffer set_accounts deserialize_accounts_buffer
    decode_all decode_entry decode_account_type pool_accounts chunked_get_multiple_account_infos
    chunks chunks_from slice get set
tears = refl

recovered : update_state packages plain_vault fractions cluster torn ≡ (stable_made, ok tt)
unfolding update_state fetch_state update_curve update_info refresh_vaults refreshed
    replace_pool_state update_accounts get_pool_state load_accounts_info get_accounts_buffer
    set_accounts deserialize_accounts_buffer decode_all decode_entry decode_account_type
    pool_accounts found read_accounts_info read_clock decode_clock_entry
    chunked_get_multiple_account_infos chunks chunks_from slice get set new_curve new_curve_of
    pool_info_of get_depeg_accounts stake_pool_keys get_stake_pubkey calculate_pool_info
    pool_amounts with_curve store_depeg SwapCurve.compute_d Amounts.compute_d
    update_depeg_info_if_expired get_base_pool_virtual_price upscale_token_a upscale_token_b
    Calculator.compute_d d_loop d_step
recovered = refl

Reach-IsCoherent_example :
    Agrees packages plain_vault fractions (SwapCurve.stable curve) (stable new_price) 0
Reach-IsCoherent_example =
    Reach-IsCoherent packages plain_vault fractions cluster 51 52 50 stable_created
      (updated cluster (cut_off broken null_account here tears) recovered)

update_state-IsUpdated_example : IsUpdated packages plain_vault fractions cluster torn stable_made
update_state-IsUpdated_example =
    update_state-IsUpdated packages plain_vault fractions cluster torn recovered

-- A constant product pool and a stable pool of the same vaults.
abbrev second : PoolState
second = record (pool (stable old_price)) { lp_mint = 12 }

abbrev fetch_two : List PublicKey → List (Option PoolState)
fetch_two keys =
    map (λ (key : PublicKey). some (if key == 50 then pool CurveType.constant_product else second))
      keys

abbrev base_accounts : List (PublicKey × ℤ)
base_accounts = (marinade_account, pos 4_724_464_026) ∷ []

abbrev first_made : AmmImpl packages plain_vault fractions
first_made = record made { depeg_accounts = base_accounts }

abbrev second_made : AmmImpl packages plain_vault fractions
second_made = record stable_made {
  address = 53;
  pool_state = record second { curve_type = stable new_price };
}
