-- ===== src/Types/Maps.antt =====
-- Reading and setting a `Map` of ts-client/src/amm/index.ts.
use mathlib.Core.Option.{none}
use mercurial_dynamic_amm_sd.Prelude.{
  ◌≡◌, refl, ◌∙◌, arith, List, [], ◌∷◌, some, ◌==◌, if◌then◌else◌, Bool-cases, inl, inr,
}
use mercurial_dynamic_amm_sd.Types.{PublicKey, get, set}

module _ {A : Type 0} where
  -- The latest value that was set at a key is read at it, and the other keys stay.
  pub get-set :
      (m : List (PublicKey × A)) (key : PublicKey) (value : A) (k : PublicKey)
      → get (set m key value) k ≡ (if key == k then some value else get m k)
  unfolding get set
  get-set [] key value k = refl
  get-set ((j, w) ∷ m) key value k = ground (arith, get-set m key value k)

  -- No key stands twice.
  abbrev pub IsMap : List (PublicKey × A) → Type 0
  IsMap [] = Unit
  IsMap ((k, v) ∷ rest) = (get rest k ≡ none) × IsMap rest

  pub set-IsMap :
      (m : List (PublicKey × A)) (key : PublicKey) (value : A) → IsMap m → IsMap (set m key value)
  unfolding set get
  set-IsMap [] key value h = (refl, tt)
  set-IsMap ((j, w) ∷ rest) key value (fresh, h) = elim (Bool-cases (j == key)) [
    | inl e ↦ rw e (fresh, h)
    | inr e ↦ rw e (get-set rest key value j ∙ ground arith, set-IsMap rest key value h)
  ]
