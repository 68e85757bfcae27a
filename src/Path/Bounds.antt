-- ===== src/Path/Bounds.antt =====
-- What `mk_data_path` writes against the size of its buffer, and the path that it makes.
use super_smack.Prelude.{
  ℕ, zero, suc, ◌+◌, ◌-◌, ◌<◌, ◌≤◌, ◌≡◌, ◌≢◌, inl, inr, refl, sym, ap, All-append, some, [], ◌∷◌,
  ◌++◌, arith, Bytes, length, take, replicate, Bool-cases, Option-cases, ◌==◌, length-append,
  length-take, length-replicate, c_str, IsText, c_str-append_nul, append_assoc, append-nil,
}
use super_smack.Result.{ok}
use super_smack.Path.{max_path, first, last, with_slash, strncpy, fill_path, buffer, mk_data_path}

pub length-strncpy : (src : Bytes) (n : ℕ) → length (strncpy src n) ≡ n
unfolding strncpy
length-strncpy src n = ground (
  arith,
  length-append (take n src) (replicate (n - length src) 0),
  length-take n src,
  length-replicate {A = ℕ} (n - length src) 0,
)

pub length-with_slash :
    (c : ℕ) (datadir : Bytes) → length (with_slash c datadir) ≤ length datadir + 1
unfolding with_slash
length-with_slash c datadir = ground (arith, length-append datadir (b'/' ∷ []))

take_all : (n : ℕ) (src : Bytes) → length src ≤ n → take n src ≡ src
take_all zero [] h = refl
take_all (suc n) [] h = refl
take_all zero (c ∷ src) h = absurd (ground arith)
take_all (suc n) (c ∷ src) h = ap (◌∷◌ c) (take_all n src (omega arith))

pred_suc : (m : ℕ) → suc m - 1 ≡ m
pred_suc m = omega arith

replicate_pos : (m : ℕ) → 0 < m → replicate {A = ℕ} m 0 ≡ 0 ∷ replicate (m - 1) 0
replicate_pos zero h = absurd (ground arith)
replicate_pos (suc m) h = rw (pred_suc m) refl

slash_no_nul : ◌≢◌ {A = ℕ} b'/' 0
slash_no_nul h = absurd (ground arith)

pub with_slash-IsText : (c : ℕ) (datadir : Bytes) → IsText datadir → IsText (with_slash c datadir)
unfolding with_slash
with_slash-IsText c datadir t = elim (Bool-cases (c == b'/')) [
  | inl slash ↦ rw slash t
  | inr other ↦ rw other (All-append _ datadir (b'/' ∷ []) t (slash_no_nul, tt))
]

length-with_slash_new :
    (c : ℕ) (datadir : Bytes) → c ≢ b'/' → length (with_slash c datadir) ≡ length datadir + 1
unfolding with_slash
length-with_slash_new c datadir s = ground (arith, length-append datadir (b'/' ∷ []))

take-IsText : (n : ℕ) (src : Bytes) → IsText src → IsText (take n src)
take-IsText zero src t = tt
take-IsText (suc n) [] t = tt
take-IsText (suc n) (c ∷ src) t = (t.0, take-IsText n src t.1)

-- A text that fills the room for it is cut, and no NUL is behind it.
sub_le : (n m : ℕ) → n ≤ m → n - m ≡ 0
sub_le n m h = omega arith

no_room : (n m : ℕ) → n ≤ m → replicate {A = ℕ} (n - m) 0 ≡ []
no_room n m h = rw (sub_le n m h) refl

strncpy-IsText : (src : Bytes) (n : ℕ) → IsText src → n ≤ length src → IsText (strncpy src n)
unfolding strncpy
strncpy-IsText src n t h = rw (no_room n (length src) h, append-nil) (take-IsText n src t)

-- A text that is shorter than the room for it stands there with a NUL behind it.
pub c_str-strncpy :
    (dir src : Bytes) (n : ℕ)
    → IsText dir
    → IsText src
    → length src < n
    → c_str (dir ++ strncpy src n) ≡ dir ++ src
unfolding strncpy
c_str-strncpy dir src n t u h =
    let nuls = n - length src in
    let nul_free = All-append _ dir src t u in
    rw
      (
        take_all n src (omega arith),
        replicate_pos nuls (omega arith),
        sym (append_assoc dir src (0 ∷ replicate (nuls - 1) 0)),
      )
      (c_str-append_nul (dir ++ src) (replicate (nuls - 1) 0) nul_free)

-- The branch that copies.
pub fill_path-eq :
    (datadir file : Bytes) (c : ℕ)
    → last datadir ≡ some c
    → length datadir + 3 ≤ max_path
    → fill_path datadir file
      ≡ ok (with_slash c datadir ++ strncpy file (max_path - length datadir - 1))
unfolding fill_path
fill_path-eq datadir file c e h = ground (arith, e)

-- Whatever the directory and the name are, all that is written into the buffer of 128 bytes is
-- inside it.
pub fill_path_bounds :
    (datadir file : Bytes) {buf : Bytes} → fill_path datadir file ≡ ok buf → length buf ≤ max_path
unfolding fill_path
fill_path_bounds datadir file h = elim (Option-cases (last datadir)) [
  | inl empty ↦ ground (arith, empty)
  | inr (c, e) ↦ ground (
    arith,
    e,
    length-append (with_slash c datadir) (strncpy file (max_path - length datadir - 1)),
    length-with_slash c datadir,
    length-strncpy file (max_path - length datadir - 1),
  )
]

pub mk_data_path-fill_path :
    (datadir file : Bytes) {buf : Bytes}
    → first file ≢ b'/'
    → fill_path datadir file ≡ ok buf
    → mk_data_path (some datadir) file ≡ ok (buffer buf)
unfolding mk_data_path
mk_data_path-fill_path datadir file n e = ground (arith, e)

-- A directory of at most 125 bytes that is not empty and a relative name that fits behind it make
-- the path of the name in the directory, with one slash between them.
pub mk_data_path_short :
    (datadir file : Bytes) (c : ℕ)
    → last datadir ≡ some c
    → first file ≢ b'/'
    → IsText datadir
    → IsText file
    → length datadir + 3 ≤ max_path
    → length datadir + length file + 2 ≤ max_path
    → (buf : Bytes) × (mk_data_path (some datadir) file ≡ ok (buffer buf))
      × (c_str buf ≡ with_slash c datadir ++ file)
mk_data_path_short datadir file c e n t u h k = (
  _,
  mk_data_path-fill_path datadir file n (fill_path-eq datadir file c e h),
  c_str-strncpy (with_slash c datadir) file _ (with_slash-IsText c datadir t) u (omega arith),
)

-- A relative name that does not fit leaves the buffer full and with no NUL in it, if the directory
-- does not end in a slash.
pub mk_data_path_long :
    (datadir file : Bytes) (c : ℕ)
    → last datadir ≡ some c
    → c ≢ b'/'
    → first file ≢ b'/'
    → IsText datadir
    → IsText file
    → length datadir + 3 ≤ max_path
    → max_path ≤ length datadir + length file + 1
    → (buf : Bytes) × (mk_data_path (some datadir) file ≡ ok (buffer buf))
      × (length buf ≡ max_path)
      × IsText buf
mk_data_path_long datadir file c e s n t u h k = (
  _,
  mk_data_path-fill_path datadir file n (fill_path-eq datadir file c e h),
  ground (
    arith,
    length-append (with_slash c datadir) (strncpy file (max_path - length datadir - 1)),
    length-with_slash_new c datadir s,
    length-strncpy file (max_path - length datadir - 1),
  ),
  All-append _ (with_slash c datadir) _ (with_slash-IsText c datadir t)
      (strncpy-IsText file _ u (omega arith)),
)
