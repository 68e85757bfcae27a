-- ===== src/Dictionary/LoadFile/Lines.antt =====
-- The words that `load_file` takes from a file of short lines, and what a long line does to it.
use super_smack.Prelude.{
  ℕ, zero, suc, ◌+◌, ◌%◌, ◌≤◌, ◌<◌, ◌≡◌, ◌≢◌, refl, true, false, none, some, List, [], ◌∷◌, ◌++◌,
  arith, if◌then◌else◌, ◌==◌, Bytes, All, length, c_str,
}
use super_smack.Dictionary.{Dictionary}
use super_smack.Dictionary.LoadFile.{
  Stream, newline, full, take_line, getline, cut, load_lines, step_of, load_file, max_file_line,
}

abbrev pub NoNewline : Bytes → Type 0
NoNewline = All (λ c. c ≢ b'\n')

-- A line that `getline` reads whole: 511 bytes and their NUL fit its buffer.
pub record IsShort (l : Bytes) : Type 0 where
  pub no_newline : NoNewline l
  pub fits : length l < max_file_line

take_line-newline :
    (room : ℕ) (l s : Bytes)
    → NoNewline l
    → length l ≤ room
    → take_line room (l ++ (b'\n' ∷ s)) ≡ record { text = l; ended = newline; rest = s }
unfolding take_line
take_line-newline zero [] s h k = refl
take_line-newline (suc room) [] s h k = refl
take_line-newline zero (c ∷ l) s h k = absurd (omega arith)
take_line-newline (suc room) (c ∷ l) s h k =
    ground (arith, take_line-newline room l s h.1 (omega arith))

take_line-full :
    (a : Bytes) (c : ℕ) (s : Bytes)
    → NoNewline a
    → c ≢ b'\n'
    → take_line (length a) (a ++ (c ∷ s)) ≡ record { text = a; ended = full; rest = c ∷ s }
unfolding take_line
take_line-full [] c s h k = ground arith
take_line-full (b ∷ a) c s h k = ground (arith, take_line-full a c s h.1 k)

-- The lines of a file, each with its newline, and what stands behind the last newline.
abbrev pub unlines : List Bytes → Bytes → Bytes
unlines [] tail = tail
unlines (l ∷ ls) tail = l ++ (b'\n' ∷ unlines ls tail)

-- Of lines numbered from `line` on, those whose number `step` divides, each up to its first
-- delimiter.
abbrev pub every : ℕ → ℕ → ℕ → List Bytes → List Bytes
every step delim line [] = []
every step delim line (l ∷ ls) =
    let rest = every step delim (line + 1) ls in
    if line % step == 0 then cut delim (c_str l) ∷ rest else rest

abbrev good : Bytes → Stream
good rest = record { rest = rest; eof = false; fail = false }

module _ (step delim : ℕ) where
  -- Once the stream has failed before its end, nothing is read and the end is never seen.
  load_lines_failed :
      (fuel line : ℕ) (rest : Bytes) (words : List Bytes)
      → load_lines fuel step delim line (record { rest = rest; eof = false; fail = true }) words
        ≡ none
  unfolding load_lines getline
  load_lines_failed zero line rest words = refl
  load_lines_failed (suc fuel) line rest words = load_lines_failed fuel (line + 1) rest _

  -- After short lines comes one that is too long.
  load_lines_long :
      (ls : List Bytes) (a : Bytes) (c : ℕ) (s : Bytes) (fuel line : ℕ) (words : List Bytes)
      → All IsShort ls
      → NoNewline a
      → length a ≡ 511
      → c ≢ b'\n'
      → load_lines fuel step delim line (good (unlines ls (a ++ (c ∷ s)))) words ≡ none
  unfolding load_lines
  load_lines_long ls a c s zero line words h n e k = refl
  load_lines_long [] a c s (suc fuel) line words h n e k =
      let stops : take_line 511 (a ++ (c ∷ s)) ≡ record { text = a; ended = full; rest = c ∷ s } =
        rw (← e) (take_line-full a c s n k) in
      rw stops (load_lines_failed fuel (line + 1) (c ∷ s) _)
  load_lines_long (l ∷ ls) a c s (suc fuel) line words h n e k =
      rw (take_line-newline 511 l _ h.0.no_newline (omega (arith, h.0.fits)))
        (load_lines_long ls a c s fuel (line + 1) _ h.1 n e k)

-- A file with a line of 512 bytes or more is never read to its end, whatever the fuel.
pub load_file_long :
    (d : Dictionary) (ls : List Bytes) (a : Bytes) (c : ℕ) (s : Bytes) (fuel : ℕ)
    → All IsShort ls
    → NoNewline a
    → length a ≡ 511
    → c ≢ b'\n'
    → load_file fuel (some (unlines ls (a ++ (c ∷ s)))) d ≡ none
unfolding load_file
load_file_long d ls a c s fuel h n e k =
    rw
      (
        load_lines_long (step_of (length (unlines ls (a ++ (c ∷ s)))) d.file_size_equiv) d.delim ls
            a c s fuel 1 d.words h n e k,
        load_file,
      )
      refl
