-- ===== src/Path/Tests.antt =====
-- Runs of the paths of data files.
use super_smack.Prelude.{
  ℕ, ◌≤◌, ◌≡◌, ◌≢◌, refl, false, inl, inr, ◌==◌, Bool-cases, arith, [], ◌∷◌, ◌++◌, some, codes,
  Bytes, length, replicate, IsText,
}
use super_smack.Result.{ok}
use super_smack.Path.{fill_path, with_slash, last, buffer, mk_data_path, max_path, has_nul, strncpy}
use super_smack.Path.Bounds.{fill_path_bounds, mk_data_path_long}

abbrev a_name : Bytes
a_name = codes "words.dat"

abbrev long_name : Bytes
long_name = replicate 130 b'x'

distinct : (a b : ℕ) → (a == b) ≡ false → a ≢ b
distinct a b h = ground arith

has_nul-IsText : (s : Bytes) → has_nul s ≡ false → IsText s
has_nul-IsText [] h = tt
has_nul-IsText (c ∷ s) h = elim (Bool-cases (c == 0)) [
  | inl nul ↦ cc (rw nul at h)
  | inr other ↦ (distinct c 0 other, has_nul-IsText s (rw other at h))
]

fill_path_bounds_example : length (with_slash b'v' (codes "/v") ++ strncpy a_name 125) ≤ max_path
unfolding fill_path last with_slash strncpy
fill_path_bounds_example = fill_path_bounds (codes "/v") a_name refl

mk_data_path_long_example :
    (buf : Bytes) × (mk_data_path (some (codes "/v")) long_name ≡ ok (buffer buf))
    × (length buf ≡ max_path)
    × IsText buf
unfolding last
mk_data_path_long_example =
    mk_data_path_long (codes "/v") long_name b'v' refl (distinct 118 47 refl) (distinct 120 47 refl)
      (has_nul-IsText (codes "/v") refl) (has_nul-IsText long_name refl) (omega arith) (omega arith)
