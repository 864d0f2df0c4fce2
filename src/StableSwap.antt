-- ===== src/StableSwap.antt =====
-- ts-client/src/amm/curve/stable-swap.ts: the object of the class `StableSwap`, its cached price of
-- the base pool, and the scaling of the two tokens. A method that changes `this.depeg` returns the new
-- object beside its result.
pub mod Amounts
pub mod Liquidity
pub mod Scale
pub mod Cache
pub mod Swaps
use mathlib.Core.Option.{none}
use mercurial_dynamic_amm_sd.Prelude.{
  ℤ, pos, ◌+ℤ◌, ◌*ℤ◌, ltb_ℤ, tdiv, to_number, Bool, true, false, not, List, [], ◌∷◌, ◌++◌, Option,
  some, Result, ok, err, ◌>>=◌, missing_account, unsupported_base_pool, if◌then◌else◌, ◌==◌,
}
use mercurial_dynamic_amm_sd.Types.{
  PublicKey, DepegType, no_depeg, marinade, lido, spl_stake, Depeg, TokenMultiplier, AccountData,
  get,
}
use mercurial_dynamic_amm_sd.Constants.{marinade_account, lido_account}

-- PRECISION.
abbrev pub precision : ℤ
precision = pos 1_000_000

-- BASE_CACHE_EXPIRE, in seconds.
abbrev pub base_cache_expire : ℤ
base_cache_expire = pos 600

abbrev pub is_none : DepegType → Bool
is_none no_depeg = true
is_none marinade = false
is_none lido = false
is_none spl_stake = false

-- The account of `getRemainingAccounts` for a base pool with a fixed address.
depeg_accounts : DepegType → List PublicKey
depeg_accounts marinade = marinade_account ∷ []
depeg_accounts lido = lido_account ∷ []
depeg_accounts spl_stake = []
depeg_accounts no_depeg = []

module _ (acc : AccountData) where
  open acc use {Buffer, msol_price, read_big_int_64_le, decode_stake_pool}

  pub record StableSwap : Type 0 where
    pub amp : ℤ
    pub token_multiplier : TokenMultiplier
    pub depeg : Depeg
    pub extra_accounts : List (PublicKey × Buffer)
    pub on_chain_time : ℤ
    pub stake_pool_pubkey : PublicKey

  -- `account!.data`, which throws where the map has no account.
  unfoldable pub account_data : StableSwap → PublicKey → Result Buffer
  account_data s key = elim (get s.extra_accounts key) [
    | none ↦ err missing_account
    | some buffer ↦ ok buffer
  ]

  unfoldable pub get_base_pool_virtual_price : StableSwap → DepegType → Result ℤ
  unfolding account_data
  get_base_pool_virtual_price s marinade = do
    buffer ← account_data s marinade_account
    tdiv (msol_price buffer *ℤ precision) (pos 0x1_0000_0000)
  get_base_pool_virtual_price s lido = do
    buffer ← account_data s lido_account
    let supply = read_big_int_64_le buffer 73
    let balance = read_big_int_64_le buffer 81
    tdiv (balance *ℤ precision) supply
  get_base_pool_virtual_price s spl_stake = do
    buffer ← account_data s s.stake_pool_pubkey
    let stake_pool = decode_stake_pool buffer
    tdiv (stake_pool.total_lamports *ℤ precision) stake_pool.pool_token_supply
  get_base_pool_virtual_price s no_depeg = err unsupported_base_pool

  unfoldable pub update_depeg_info_if_expired : StableSwap → Result StableSwap
  update_depeg_info_if_expired s = if is_none s.depeg.depeg_type then ok s else (do
    now ← to_number s.on_chain_time
    limit ← to_number (s.depeg.base_cache_updated +ℤ base_cache_expire)
    if ltb_ℤ limit now
        then (do
          price ← get_base_pool_virtual_price s s.depeg.depeg_type
          ok (record s {
            depeg = record s.depeg {
              base_virtual_price = price;
              base_cache_updated = s.on_chain_time;
            };
          }))
        else ok s)

  unfoldable pub upscale_token_a : StableSwap → ℤ → ℤ
  upscale_token_a s amount =
      let normalized = amount *ℤ s.token_multiplier.token_a_multiplier in
      if not (is_none s.depeg.depeg_type) then normalized *ℤ precision else normalized

  unfoldable pub downscale_token_a : StableSwap → ℤ → Result ℤ
  downscale_token_a s amount = do
    denormalized ← tdiv amount s.token_multiplier.token_a_multiplier
    if not (is_none s.depeg.depeg_type) then tdiv denormalized precision else ok denormalized

  unfoldable pub upscale_token_b : StableSwap → ℤ → ℤ
  upscale_token_b s amount =
      let normalized = amount *ℤ s.token_multiplier.token_b_multiplier in
      if not (is_none s.depeg.depeg_type)
      then normalized *ℤ s.depeg.base_virtual_price
      else normalized

  unfoldable pub downscale_token_b : StableSwap → ℤ → Result ℤ
  downscale_token_b s amount = do
    denormalized ← tdiv amount s.token_multiplier.token_b_multiplier
    if not (is_none s.depeg.depeg_type)
        then tdiv denormalized s.depeg.base_virtual_price
        else ok denormalized

  -- The addresses of `getRemainingAccounts`, each read only and no signer. `PublicKey.default` is 0.
  unfoldable pub get_remaining_accounts : StableSwap → List PublicKey
  unfolding depeg_accounts
  get_remaining_accounts s =
      depeg_accounts s.depeg.depeg_type
      ++ (if not (s.stake_pool_pubkey == 0) then s.stake_pool_pubkey ∷ [] else [])
