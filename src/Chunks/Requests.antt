-- ===== src/Chunks/Requests.antt =====
-- What the chunks of ts-client/src/amm/utils.ts add up to.
use mathlib.Core.List.{map-append}
use native.Mathlib.Nat.{div-add-mod}
use mercurial_dynamic_amm_sd.Prelude.{
  ℕ, zero, suc, ◌+◌, ◌-◌, ◌*◌, ◌/◌, ◌≤◌, ◌<◌, ◌≡◌, refl, sym, ap, ◌∙◌, arith, List, [], ◌∷◌, ◌++◌,
  Option, map, length, drop, take-append-drop, drop_all, drop-drop, length-take-le,
}
use mercurial_dynamic_amm_sd.Chunks.{
  slice, chunks_from, chunks, concat, chunked_get_multiple_account_infos,
}

-- Every element of a list has the property.
abbrev pub All {ℓ κ} : {A : Type ℓ} → (A → Type κ) → List A → Type κ
All P [] = Unit
All P (x ∷ xs) = P x × All P xs

next_chunk : (index size : ℕ) → (index + 1) * size ≡ index * size + size
next_chunk index size = grind arith

chunk_width : (index size : ℕ) → (index + 1) * size - index * size ≡ size
chunk_width index size = omega (arith, next_chunk index size)

-- ⌈m / n⌉ chunks of n hold m elements.
ceil_enough : (m n : ℕ) → 0 < n → m ≤ (0 + (m + n - 1) / n) * n
ceil_enough m n h = grind (arith, div-add-mod (m + n - 1) n)

module _ {ℓ} {A : Type ℓ} where
  slice-drop :
      (xs : List A) (size index : ℕ)
      → slice xs (index * size) ((index + 1) * size) ++ drop ((index + 1) * size) xs
        ≡ drop (index * size) xs
  unfolding slice
  slice-drop xs size index =
      rw
        (
          chunk_width index size,
          ← drop-drop (index * size) size ((index + 1) * size) xs
              (omega (arith, next_chunk index size)),
        )
        (take-append-drop size (drop (index * size) xs))

  concat-chunks_from :
      (xs : List A) (size count index : ℕ)
      → length xs ≤ (index + count) * size
      → concat (chunks_from xs size count index) ≡ drop (index * size) xs
  unfolding chunks_from
  concat-chunks_from xs size zero index h = sym (drop_all (index * size) xs (grind arith))
  concat-chunks_from xs size (suc count) index h =
      let e : (index + 1) + count ≡ index + suc count = omega arith in
      rw (concat-chunks_from xs size count (index + 1) (rw e h)) (slice-drop xs size index)

  length-slice-le :
      (xs : List A) (size index : ℕ) → length (slice xs (index * size) ((index + 1) * size)) ≤ size
  unfolding slice
  length-slice-le xs size index =
      rw (chunk_width index size) (length-take-le size (drop (index * size) xs))

  chunks_from-le :
      (xs : List A) (size count index : ℕ)
      → All (λ c. length c ≤ size) (chunks_from xs size count index)
  unfolding chunks_from
  chunks_from-le xs size zero index = tt
  chunks_from-le xs size (suc count) index =
      (length-slice-le xs size index, chunks_from-le xs size count (index + 1))

  -- For a size above 0, the chunks together are the array, in its order, and none is longer than the size.
  pub chunks_lem :
      (xs : List A) (size : ℕ)
      → 0 < size
      → (concat (chunks xs size) ≡ xs) × All (λ c. length c ≤ size) (chunks xs size)
  unfolding chunks
  chunks_lem xs size h =
      let z : 0 * size ≡ 0 = omega arith in
      (
        rw z at (
            concat-chunks_from xs size ((length xs + size - 1) / size) 0
              (ceil_enough (length xs) size h)),
        chunks_from-le xs size ((length xs + size - 1) / size) 0,
      )

map-concat :
    {K A : Type 0} (f : K → A) (kss : List (List K)) → concat (map (map f) kss) ≡ map f (concat kss)
map-concat f [] = refl
map-concat f (ks ∷ kss) = rw (map-concat f kss) (sym (map-append f ks (concat kss)))

-- A request for at most `most` keys that answers one account for each key, in order.
abbrev pub Answers :
    {K A : Type 0} → (List K → List (Option A)) → (most : ℕ) → (K → Option A) → Type 0
Answers {K} fetch_multiple most f = (ks : List K) → length ks ≤ most → fetch_multiple ks ≡ map f ks

module _ {K A : Type 0} (fetch_multiple : List K → List (Option A)) (f : K → Option A) where
  map-Answers :
      (most : ℕ) (kss : List (List K))
      → Answers fetch_multiple most f
      → All (λ c. length c ≤ most) kss
      → map fetch_multiple kss ≡ map (map f) kss
  map-Answers most [] h all = refl
  map-Answers most (ks ∷ kss) h (le, all) = rw (h ks le, map-Answers most kss h all)

  -- If `chunk_size` is above 0 and a request answers each of its keys in order as long as it has at most
  -- `chunk_size` keys, then the chunked requests answer each key of a list of any length, in order.
  pub chunked_get_multiple_account_infos_lem :
      (pks : List K) (chunk_size : ℕ)
      → 0 < chunk_size
      → Answers fetch_multiple chunk_size f
      → chunked_get_multiple_account_infos fetch_multiple pks chunk_size ≡ map f pks
  unfolding chunked_get_multiple_account_infos
  chunked_get_multiple_account_infos_lem pks chunk_size h answers =
      let (all, le) = chunks_lem pks chunk_size h in
      rw (map-Answers chunk_size (chunks pks chunk_size) answers le)
        (map-concat f (chunks pks chunk_size) ∙ ap (λ ks. map f ks) all)
