-- ===== src/StringMap/Laws.antt =====
-- What a lookup finds after an insertion.
use super_smack.Prelude.{
  ◌≡◌, refl, some, [], ◌∷◌, arith, if◌then◌else◌, Bytes, str_eq, str_eq_iff, str_eq_refl,
}
use super_smack.StringMap.{StringMap, lookup, insert}

module _ {ℓ} {V : Type ℓ} where
  pub lookup-insert :
      (k j : Bytes) (v : V) (m : StringMap V)
      → lookup j (insert k v m) ≡ (if str_eq k j then some v else lookup j m)
  unfolding lookup insert
  lookup-insert k j v [] = refl
  lookup-insert k j v ((i, w) ∷ m) =
      ground (arith, str_eq_iff k j, str_eq_iff i k, str_eq_iff i j, lookup-insert k j v m)

  pub lookup-insert_self : (k : Bytes) (v : V) (m : StringMap V) → lookup k (insert k v m) ≡ some v
  lookup-insert_self k v m = simp (lookup-insert, str_eq_refl)
