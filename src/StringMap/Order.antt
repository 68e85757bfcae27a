-- ===== src/StringMap/Order.antt =====
-- Keys stay strictly increasing, so that each occurs once.
use super_smack.Prelude.{
  ◌≡◌, refl, inl, inr, true, false, none, [], ◌∷◌, arith, Bytes, str_eq, str_lt, str_eq_iff,
  Bool-cases,
}
use mathlib.Core.Path.{subst}
use super_smack.StringMap.{StringMap, lookup, insert}

-- Every key of the map is above `k`.
abbrev pub Above {ℓ} : {V : Type ℓ} → Bytes → StringMap V → Type 0
Above k [] = Unit
Above k ((j, v) ∷ m) = (str_lt k j ≡ true) × Above k m

abbrev pub IsSorted {ℓ} : {V : Type ℓ} → StringMap V → Type 0
IsSorted [] = Unit
IsSorted ((k, v) ∷ m) = Above k m × IsSorted m

pub str_lt_irrefl : (s : Bytes) → str_lt s s ≡ false
unfolding str_lt
str_lt_irrefl [] = refl
str_lt_irrefl (a ∷ s) = ground (arith, str_lt_irrefl s)

pub str_lt_trans : (s t u : Bytes) → str_lt s t ≡ true → str_lt t u ≡ true → str_lt s u ≡ true
unfolding str_lt
str_lt_trans [] (b ∷ t) (c ∷ u) p q = refl
str_lt_trans (a ∷ s) (b ∷ t) (c ∷ u) p q = ground (arith, str_lt_trans s t u)
str_lt_trans [] [] u p q = cc
str_lt_trans [] (b ∷ t) [] p q = cc
str_lt_trans (a ∷ s) [] u p q = cc
str_lt_trans (a ∷ s) (b ∷ t) [] p q = cc

pub str_lt_total : (s t : Bytes) → str_eq s t ≡ false → str_lt s t ≡ false → str_lt t s ≡ true
unfolding str_lt str_eq
str_lt_total [] [] p q = cc
str_lt_total [] (b ∷ t) p q = cc
str_lt_total (a ∷ s) [] p q = refl
str_lt_total (a ∷ s) (b ∷ t) p q = ground (arith, str_lt_total s t)

pub str_lt-ne : (s t : Bytes) → str_lt s t ≡ true → str_eq s t ≡ false
unfolding str_lt str_eq
str_lt-ne [] (b ∷ t) p = refl
str_lt-ne (a ∷ s) (b ∷ t) p = ground (arith, str_lt-ne s t)
str_lt-ne [] [] p = cc
str_lt-ne (a ∷ s) [] p = cc

module _ {ℓ} {V : Type ℓ} where
  Above-trans : (j k : Bytes) (m : StringMap V) → str_lt j k ≡ true → Above k m → Above j m
  Above-trans j k [] p h = tt
  Above-trans j k ((i, v) ∷ m) p h = (str_lt_trans j k i p h.0, Above-trans j k m p h.1)

  insert-Above :
      (j k : Bytes) (v : V) (m : StringMap V)
      → str_lt j k ≡ true
      → Above j m
      → Above j (insert k v m)
  unfolding insert
  insert-Above j k v [] p h = (p, tt)
  insert-Above j k v ((i, w) ∷ m) p h = elim (Bool-cases (str_eq i k)) [
    | inl e ↦ rw e (p, h.1)
    | inr e ↦ elim (Bool-cases (str_lt k i)) [
      | inl f ↦ rw e (rw f (p, h))
      | inr f ↦ rw e (rw f (h.0, insert-Above j k v m p h.1))
    ]
  ]

  pub insert-IsSorted : (k : Bytes) (v : V) (m : StringMap V) → IsSorted m → IsSorted (insert k v m)
  unfolding insert
  insert-IsSorted k v [] h = (tt, tt)
  insert-IsSorted k v ((i, w) ∷ m) h = elim (Bool-cases (str_eq i k)) [
    | inl e ↦ rw e (subst (λ x. Above x m) ((str_eq_iff i k).0 e) h.0, h.1)
    | inr e ↦ elim (Bool-cases (str_lt k i)) [
      | inl f ↦ rw e (rw f ((f, Above-trans k i m f h.0), h))
      | inr f ↦ rw e (
          rw f
            (insert-Above i k v m (str_lt_total k i (ne k i e) f) h.0, insert-IsSorted k v m h.1))
    ]
  ]
    where
      ne : (s t : Bytes) → str_eq t s ≡ false → str_eq s t ≡ false
      ne s t e = ground (arith, str_eq_iff s t, str_eq_iff t s)

  -- A key above which the whole map lies is not in it.
  pub lookup-Above : (k : Bytes) (m : StringMap V) → Above k m → lookup k m ≡ none
  unfolding lookup
  lookup-Above k [] h = refl
  lookup-Above k ((j, v) ∷ m) h =
      ground (arith, str_lt-ne k j h.0, str_eq_iff k j, str_eq_iff j k, lookup-Above k m h.1)
