-- ===== src/Path.antt =====
-- The paths of data files, src/libsmack.cc, and its constants, src/smack.h.
mod Tests
pub mod Bounds
use super_smack.Prelude.{
  ℕ, zero, suc, ◌+◌, ◌-◌, Bool, true, false, not, ◌&&◌, Option, none, some, List, [], ◌∷◌, ◌++◌,
  if◌then◌else◌, ◌==◌, ltb, ◌||◌, c_str, Bytes, length, take, replicate, codes,
}
use super_smack.Result.{Result, ok, died, crashed, out_of_bounds, datadir_too_long, ◌>>=◌}

abbrev pub max_path : ℕ
max_path = 128

-- `*file`; the first byte of an empty text is its NUL.
abbrev pub first : Bytes → ℕ
first [] = 0
first (c ∷ s) = c

-- `*p` with `p = buf + datadir_len - 1`: outside the buffer for an empty text.
unfoldable pub last : Bytes → Option ℕ
last [] = none
last (c ∷ []) = some c
last (c ∷ d ∷ s) = last (d ∷ s)

-- `strncpy(dst, src, n)`: the `n` bytes that it writes.
unfoldable pub strncpy : Bytes → ℕ → Bytes
strncpy src n = take n src ++ replicate (n - length src) 0

-- `if(*p != '/') *++p = '/';`, where `*p` is `c`.
unfoldable pub with_slash : ℕ → Bytes → Bytes
with_slash c datadir = if c == b'/' then datadir else datadir ++ b'/' ∷ []

-- The bytes at the start of `buf` that `mk_data_path` writes where it uses the buffer.
unfoldable pub fill_path : Bytes → Bytes → Result Bytes
unfolding with_slash strncpy
fill_path datadir file =
    if ltb (max_path - 3) (length datadir) then died datadir_too_long else elim (last datadir) [
      | none ↦ crashed out_of_bounds
      | some c ↦ ok (with_slash c datadir ++ strncpy file (max_path - length datadir - 1))
    ]

-- `mk_data_path`: what the pointer that it returns leads to, the argument or the buffer.
pub data DataPath : Type 0 where
  same : Bytes → DataPath
  buffer : Bytes → DataPath

unfoldable pub mk_data_path : Option Bytes → Bytes → Result DataPath
mk_data_path none file = ok (same file)
mk_data_path (some datadir) file =
    if not (first file == b'/')
    then (do buf ← fill_path datadir file; ok (buffer buf))
    else ok (same file)

-- `populate_data_file`: the command that it gives to the shell.
unfoldable pub populate_data_file : Bytes → Bytes → Bytes
populate_data_file file cmd = cmd ++ codes " > " ++ file

-- The text that is read at the pointer: outside the buffer if there is no NUL in it.
abbrev pub has_nul : Bytes → Bool
has_nul [] = false
has_nul (c ∷ s) = c == 0 || has_nul s

unfoldable pub path_text : DataPath → Result Bytes
path_text (same file) = ok file
path_text (buffer buf) = if has_nul buf then ok (c_str buf) else crashed out_of_bounds
