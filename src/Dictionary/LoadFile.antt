-- ===== src/Dictionary/LoadFile.antt =====
-- `Dictionary::load_file`: the loop over the lines of a file.
pub mod Lines
use super_smack.Prelude.{
  ℕ, zero, suc, ◌+◌, ◌-◌, ◌/◌, ◌%◌, ◌≤◌, ◌<◌, ◌≡◌, ◌≢◌, refl, Bool, true, false, ◌⊎◌, inl, inr,
  Option, none, some, List, [], ◌∷◌, ◌++◌, append-nil, append_assoc, arith, if◌then◌else◌, ◌==◌,
  Bytes, All, ap, sym, ◌∙◌, length, length-append, c_str, ◌||◌, ◌&&◌,
}
use super_smack.Prelude.Int.{ℤ, pos, negsuc, wrap, sub_ℕ, pos_part, neg_part}
use super_smack.Dictionary.{Dictionary}

-- `ifstream`: the bytes not yet read, and two of its state bits.
pub record Stream : Type 0 where
  pub rest : Bytes
  pub eof : Bool
  pub fail : Bool

-- How `getline` ends: at a newline, which it takes too, at the end of the file, or with its
-- buffer full before either.
pub data LineEnd : Type 0 where
  newline at_eof full : LineEnd

pub record Line : Type 0 where
  pub text : Bytes
  pub ended : LineEnd
  pub rest : Bytes

-- Up to `room` bytes of a line.
unfoldable pub take_line : ℕ → Bytes → Line
take_line room [] = record { text = []; ended = at_eof; rest = [] }
take_line zero (c ∷ s) =
    if c == b'\n'
    then record { text = []; ended = newline; rest = s }
    else record { text = []; ended = full; rest = c ∷ s }
take_line (suc room) (c ∷ s) =
    let l = take_line room s in
    if c == b'\n'
    then record { text = []; ended = newline; rest = s }
    else record l { text = c ∷ l.text }

abbrev pub is_eof : LineEnd → Bool
is_eof at_eof = true
is_eof _ = false

abbrev pub is_full : LineEnd → Bool
is_full full = true
is_full _ = false

abbrev pub is_nil : Bytes → Bool
is_nil [] = true
is_nil _ = false

abbrev pub max_file_line : ℕ
max_file_line = 512

-- `is.getline(buf, sizeof(buf))`, with the C string left in `buf`. On a stream that is not good it
-- only sets the fail bit. At the end of the file it sets the eof bit, and the fail bit too if it
-- read nothing; where the buffer is full it sets the fail bit.
unfoldable pub getline : Stream → Bytes × Stream
unfolding take_line c_str
getline is =
    if is.eof || is.fail
    then ([], record is { fail = true })
    else (let l = take_line 511 is.rest in
        (
          c_str l.text,
          record {
            rest = l.rest;
            eof = is_eof l.ended;
            fail = is_full l.ended || (is_eof l.ended && is_nil l.text);
          },
        ))

-- `char* p = strchr(buf, delim); if(p) *p = 0;`
unfoldable pub cut : ℕ → Bytes → Bytes
cut delim [] = []
cut delim (c ∷ buf) = if c == delim then [] else c ∷ cut delim buf

-- The loop, on fuel for its rounds; `none` means that the fuel ran out.
unfoldable pub load_lines : ℕ → ℕ → ℕ → ℕ → Stream → List Bytes → Option (List Bytes)
unfolding getline cut
load_lines zero step delim line is words = none
load_lines (suc fuel) step delim line is words =
    let (buf, is') = getline is in
    let words' = if line % step == 0 then words ++ cut delim buf ∷ [] else words in
    let later = load_lines fuel step delim (line + 1) is' words' in
    if is.eof then some words else if is'.eof then some words else later

abbrev pub magnitude : ℤ → ℕ
magnitude z = pos_part z + neg_part z

-- `int step = f.st_size/file_size_equiv`, which truncates towards 0.
abbrev pub quotient : ℕ → ℤ → ℤ
quotient size (pos d) = pos (size / d)
quotient size (negsuc d) = sub_ℕ 0 (size / suc d)

-- The step of the loop: `line % step` depends on its magnitude alone.
unfoldable pub step_of : ℕ → ℤ → ℕ
unfolding wrap
step_of st_size file_size_equiv =
    let step =
      if magnitude file_size_equiv == 0
      then 1
      else magnitude (wrap (quotient st_size file_size_equiv)) in
    if step == 0 then 1 else step

-- `Dictionary::load_file` with the path that `mk_data_path` made; `none` stands for a file that
-- `stat` or `ifstream` does not find, after which the dictionary is as it was.
unfoldable pub load_file : ℕ → Option Bytes → Dictionary → Option (ℤ × Dictionary)
load_file fuel none d = some (negsuc 0, d)
load_file fuel (some contents) d =
    elim (load_lines fuel (step_of (length contents) d.file_size_equiv) d.delim 1
      (record { rest = contents; eof = false; fail = false }) d.words) [
        | none ↦ none
        | some words ↦ some (pos 0, record d { words = words })
      ]
