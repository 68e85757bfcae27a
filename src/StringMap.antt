-- ===== src/StringMap.antt =====
-- `std::map<string, V, less<string>>`: an association list in the order of the keys, which is
-- the order that an iterator visits.
pub mod Laws
pub mod Order
use super_smack.Prelude.{Option, none, some, List, [], ◌∷◌, if◌then◌else◌, Bytes, str_eq, str_lt}

abbrev pub StringMap {ℓ} : Type ℓ → Type ℓ
StringMap V = List (Bytes × V)

module _ {ℓ} {V : Type ℓ} where
  -- `m.find(k)`; `none` for `m.end()`.
  unfoldable pub lookup : Bytes → StringMap V → Option V
  lookup k [] = none
  lookup k ((j, v) ∷ m) = if str_eq j k then some v else lookup k m

  -- `m[k] = v`.
  unfoldable pub insert : Bytes → V → StringMap V → StringMap V
  insert k v [] = (k, v) ∷ []
  insert k v ((j, w) ∷ m) =
      if str_eq j k
      then (k, v) ∷ m
      else if str_lt k j
      then (k, v) ∷ (j, w) ∷ m
      else (j, w) ∷ insert k v m
