-- ===== src/Examples/Requests.antt =====
-- Examples for utils.ts: requests in chunks, for an account at every even address.
use mathlib.Core.Option.{none}
use mercurial_dynamic_amm_sd.Prelude.{
  ℕ, ◌*◌, ◌%◌, ◌==◌, ◌≡◌, refl, pos, true, List, [], ◌∷◌, map, Option, some, if◌then◌else◌,
}
use mercurial_dynamic_amm_sd.Types.{
  PublicKey, PoolState, CurveType, DepegType, marinade, spl_stake, permissionless, get,
}
use mercurial_dynamic_amm_sd.Chunks.Requests.{Answers}
use mercurial_dynamic_amm_sd.DepegAccounts.{get_depeg_accounts, get_depeg_accounts_lem, some_stake}
use mercurial_dynamic_amm_sd.Examples.{quarter_percent}

abbrev account : PublicKey → Option ℕ
account key = if key % 2 == 0 then some (key * 10) else none

abbrev request : List PublicKey → List (Option ℕ)
request keys = map account keys

abbrev keys : List PublicKey
keys = 4 ∷ 7 ∷ 10 ∷ 12 ∷ 5 ∷ []

request-Answers : (most : ℕ) → Answers request most account
request-Answers most ks le = refl

abbrev pool : CurveType → (stake : PublicKey) → PoolState
pool curve_type stake = record {
  lp_mint = 1;
  token_a_mint = 2;
  token_b_mint = 3;
  a_vault = 4;
  b_vault = 5;
  a_vault_lp = 6;
  b_vault_lp = 7;
  a_vault_lp_bump = 255;
  enabled = true;
  protocol_token_a_fee = 8;
  protocol_token_b_fee = 9;
  fee_last_updated_at = pos 0;
  fees = quarter_percent;
  pool_type = permissionless;
  stake = stake;
  total_locked_lp = pos 0;
  bootstrapping = record {
    activation_point = pos 0;
    whitelisted_vault = 0;
    pool_creator = 0;
    activation_type = 0;
  };
  curve_type = curve_type;
}

abbrev stable : DepegType → CurveType
stable depeg_type =
    CurveType.stable (pos 100)
      (record { token_a_multiplier = pos 1; token_b_multiplier = pos 1; precision_factor = 9 })
      (record {
        base_virtual_price = pos 1_000_000;
        base_cache_updated = pos 0;
        depeg_type = depeg_type;
      })
      (pos 0)

abbrev pools : List PoolState
pools =
    pool CurveType.constant_product 0 ∷ pool (stable marinade) 0 ∷ pool (stable spl_stake) 12 ∷ []

get_depeg_accounts_lem_example :
    get (get_depeg_accounts request pools) 12 ≡ (if some_stake 12 pools then account 12 else none)
get_depeg_accounts_lem_example =
    get_depeg_accounts_lem request pools account 12 (request-Answers 100)
