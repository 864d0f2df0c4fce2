-- ===== src/Chunks.antt =====
-- ts-client/src/amm/utils.ts: `chunks` and the requests that are made chunk by chunk. The remote
-- procedure calls are parameters.
pub mod Requests
use mercurial_dynamic_amm_sd.Prelude.{
  ℕ, zero, suc, ◌+◌, ◌-◌, ◌*◌, ◌/◌, Bool, List, [], ◌∷◌, ◌++◌, Option, some, map, length, take,
  drop,
}
use mathlib.Core.Option.{none}

module _ {ℓ} {A : Type ℓ} where
  -- `array.slice(from, to)`.
  unfoldable pub slice : List A → ℕ → ℕ → List A
  slice xs from to = take (to - from) (drop from xs)

  -- The chunks from `index` on, `count` of them.
  unfoldable pub chunks_from : List A → (size count index : ℕ) → List (List A)
  unfolding slice
  chunks_from xs size zero index = []
  chunks_from xs size (suc count) index =
      slice xs (index * size) ((index + 1) * size) ∷ chunks_from xs size count (index + 1)

  -- `size` is not 0, and ⌈length / size⌉ is the number of chunks.
  unfoldable pub chunks : List A → (size : ℕ) → List (List A)
  chunks xs size = chunks_from xs size ((length xs + size - 1) / size) 0

  abbrev pub concat : List (List A) → List A
  concat [] = []
  concat (xs ∷ xss) = xs ++ concat xss

  -- `filter(Boolean)` on accounts that may be null.
  abbrev pub present : List (Option A) → List A
  present [] = []
  present (none ∷ xs) = present xs
  present (some x ∷ xs) = x ∷ present xs

-- `fetch_multiple` is one request, for at most `chunk_size` accounts.
module _ {K A : Type 0} (fetch_multiple : List K → List (Option A)) where
  unfoldable pub chunked_get_multiple_account_infos : List K → (chunk_size : ℕ) → List (Option A)
  chunked_get_multiple_account_infos pks chunk_size =
      concat (map fetch_multiple (chunks pks chunk_size))

  unfoldable pub chunked_fetch_multiple_pool_account : List K → (chunk_size : ℕ) → List A
  chunked_fetch_multiple_pool_account pks chunk_size =
      present (concat (map fetch_multiple (chunks pks chunk_size)))
