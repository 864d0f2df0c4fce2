-- ===== src/Examples/State.antt =====
-- Examples for the object of a pool as it is created and updated: the pool of Examples/Pool.
use mathlib.Core.Option.{none}
use mathlib.Core.Path.{subst}
use mercurial_dynamic_amm_sd.Chunks.Requests.{All}
use mathlib.Core.List.{map}
use mercurial_dynamic_amm_sd.Prelude.{
  ℕ, ℤ, ◌≡◌, refl, pos, true, [], ◌∷◌, some, ok, ok_injective, Option, if◌then◌else◌, ◌==◌, ltb_ℤ,
}
use mercurial_dynamic_amm_sd.Constants.{marinade_account}
use mercurial_dynamic_amm_sd.Types.{PublicKey, CurveType, get, set}
use mercurial_dynamic_amm_sd.Utils.{calculate_max_swap_out_amount}
use mercurial_dynamic_amm_sd.Quote.{calculate_pool_info, pool_amounts}
use mercurial_dynamic_amm_sd.DepegAccounts.{get_depeg_accounts, stake_pool_keys, get_stake_pubkey}
use mercurial_dynamic_amm_sd.Chunks.{chunked_get_multiple_account_infos, chunks, chunks_from, slice}
use mercurial_dynamic_amm_sd.SwapCurve
use mercurial_dynamic_amm_sd.ConstantProduct
use mercurial_dynamic_amm_sd.Pool.{
  AmmImpl, AccountsInfo, with_curve, get_max_swap_out_amount, with_shared, store_depeg, share_depeg,
}
use mercurial_dynamic_amm_sd.Pool.Accounts.{
  Rpc, VaultImpl, get_pool_state, load_accounts_info, get_accounts_buffer, set_accounts,
  deserialize_accounts_buffer, decode_all, decode_entry, decode_account_type, pool_accounts, found,
  read_accounts_info, read_clock, decode_clock_entry,
}
use mercurial_dynamic_amm_sd.Pool.Accounts.Loads.{IsLoaded, load_accounts_info-IsLoaded}
use mercurial_dynamic_amm_sd.Pool.State.{
  create, update_state, first_two, new_curve, new_curve_of, pool_info_of,
}
use mercurial_dynamic_amm_sd.Pool.State.Fresh.{IsFresh}
use mercurial_dynamic_amm_sd.Pool.State.Run.{
  swap_quote, none_yet, further, other_mint, Asked-quote_below,
}
use mercurial_dynamic_amm_sd.Pool.State.Again.{VaultsAgree, aged, update_state-create}
use mercurial_dynamic_amm_sd.Examples.{packages, fractions, plain_vault}
use mercurial_dynamic_amm_sd.Examples.Pool.{pool, plain, half_percent, quoted, swap}

abbrev pub account : PublicKey → Option ℤ
account key =
    if key == 60
    then some (pos 50)
    else if key == 40
    then some (pos 30)
    else if key == 61
    then some (pos 40)
    else if key == 41
    then some (pos 30)
    else if key == 6
    then some (pos 8)
    else if key == 7
    then some (pos 20)
    else if key == 1
    then some (pos 10)
    else if key == 12
    then some (pos 10)
    else if key == 99
    then some (pos 1000)
    else if key == marinade_account
    then some (pos 4_724_464_026)
    else none

abbrev vault_object : (pda mint decimals : ℕ) (state : ℤ) → VaultImpl packages plain_vault fractions
vault_object pda mint decimals state = record {
  vault_pda = pda;
  vault_state = state;
  token_mint_address = mint;
  token_mint_decimals = decimals;
}

abbrev pub rpc : Rpc packages plain_vault fractions
rpc = record {
  sysvar_clock_pubkey = 99;
  fetch_pool = λ key. some (pool CurveType.constant_product);
  token_supply = λ mint. ok (some (pos 10));
  get_multiple_accounts_info = map account;
  fetch_vault = λ key. ok (if key == 4 then pos 50 else pos 30);
  create_vaults = λ keys. ok (vault_object 4 2 6 (pos 50) ∷ vault_object 5 3 9 (pos 30) ∷ []);
}

abbrev pub info : AccountsInfo packages plain_vault fractions
info = record {
  vault_a_reserve = pos 50;
  vault_b_reserve = pos 30;
  vault_a_lp_supply = pos 40;
  vault_b_lp_supply = pos 30;
  pool_vault_a_lp = pos 8;
  pool_vault_b_lp = pos 20;
  pool_lp_supply = pos 10;
  current_time = pos 1000;
  current_slot = pos 5;
}

loaded :
    load_accounts_info packages plain_vault fractions rpc
      (pos 50)
      (pos 30)
      (pool CurveType.constant_product)
    ≡ ok info
unfolding load_accounts_info get_accounts_buffer set_accounts deserialize_accounts_buffer decode_all
    decode_entry decode_account_type pool_accounts found read_accounts_info read_clock
    decode_clock_entry chunked_get_multiple_account_infos chunks chunks_from slice get set
loaded = refl

load_accounts_info-IsLoaded_example :
    IsLoaded packages plain_vault fractions account 99
      (pos 50)
      (pos 30)
      (pool CurveType.constant_product)
      info
unfolding pool_accounts
load_accounts_info-IsLoaded_example =
    load_accounts_info-IsLoaded packages plain_vault fractions rpc (pos 50) (pos 30)
      (pool CurveType.constant_product) account (λ ks le. refl)
      (refl, (refl, (refl, (refl, (refl, (refl, (refl, (refl, tt)))))))) loaded

abbrev pub made : AmmImpl packages plain_vault fractions
made = record plain {
  lp_supply = pos 10;
  vault_a = pos 50;
  vault_b = pos 30;
  accounts_info = info;
  pool_info = record {
    token_a_amount = pos 10;
    token_b_amount = pos 20;
    virtual_price = (pos 140_000_000, pos 100_000_000);
    virtual_price_raw = pos 25_825_441_703_193_372_262;
  };
}

created : create packages plain_vault fractions rpc 51 52 50 ≡ ok made
unfolding create get_pool_state first_two load_accounts_info get_accounts_buffer set_accounts
    deserialize_accounts_buffer decode_all decode_entry decode_account_type pool_accounts found
    read_accounts_info read_clock decode_clock_entry chunked_get_multiple_account_infos chunks
    chunks_from slice get set new_curve new_curve_of pool_info_of get_depeg_accounts stake_pool_keys
    get_stake_pubkey calculate_pool_info pool_amounts with_curve store_depeg share_depeg with_shared
    SwapCurve.compute_d ConstantProduct.compute_d
created = refl

rpc-VaultsAgree : VaultsAgree packages plain_vault fractions rpc
rpc-VaultsAgree keys vaults e =
    subst (All (λ v. rpc.fetch_vault v.vault_pda ≡ ok v.vault_state)) (ok_injective e)
      (refl, (refl, tt))

-- An object that is out of date.
abbrev old : AmmImpl packages plain_vault fractions
old = record plain { accounts_info = info; depeg_accounts = (98, pos 7) ∷ [] }

update_state-create_example :
    update_state packages plain_vault fractions rpc (aged packages plain_vault fractions made old)
    ≡ (made, ok tt)
update_state-create_example =
    update_state-create packages plain_vault fractions rpc 51 52 50 old rpc-VaultsAgree created

plain-IsFresh : IsFresh packages plain_vault fractions plain
unfolding pool_amounts
plain-IsFresh = record { time = pos 1000; time_eq = refl; amounts_eq = refl }

limit :
    get_max_swap_out_amount packages plain_vault fractions plain
      (other_mint packages plain_vault fractions plain 2)
    ≡ ok (pos 2000)
unfolding get_max_swap_out_amount calculate_max_swap_out_amount
limit = refl

Asked-quote_below_example : ltb_ℤ (pos 181) (pos 2000) ≡ true
Asked-quote_below_example =
    Asked-quote_below packages plain_vault fractions 2 (pos 100) half_percent none plain-IsFresh
      (further none_yet (swap_quote 2 (pos 100) half_percent none quoted swap)) limit swap
