-- ===== src/Dictionary/Tests.antt =====
-- Small dictionaries, and the theorems at them.
use mathlib.Core.Option
use super_smack.Prelude.{
  ℕ, zero, suc, true, false, length, is_digit, ◌≡◌, refl, none, some, List, [], ◌∷◌, ◌++◌, arith,
  Bytes, codes, c_str, replicate, get_elem?,
}
use super_smack.Prelude.Int.{ℤ, pos}
use super_smack.Result.{ok, crashed, bad_format}
use super_smack.Dictionary.{Dictionary, new_seq, new_unique, unique_next_word}
use super_smack.Dictionary.Format.{takes_int, scan_all, scan, scan_field, converts}
use super_smack.Dictionary.Words.{draw_total, draw, at, draw-seq}
use super_smack.Dictionary.LoadFile.{load_file}
use super_smack.Dictionary.LoadFile.Lines.{NoNewline, unlines, load_file_long}

abbrev sprintf : Bytes → ℤ → Bytes
sprintf templ id = []

abbrev rands : ℕ → ℕ
rands calls = 4

abbrev names : Dictionary
names = record new_seq { words = codes "a" ∷ codes "b" ∷ codes "c" ∷ [] }

digits : takes_int (codes "%d") ≡ true
unfolding takes_int scan_all scan scan_field converts is_digit
digits = refl

-- A template that asks for a text, and one that asks for a width.
no_text :
    (unique_next_word sprintf rands new_unique (pos 0) (codes "%s") 512 ≡ crashed bad_format)
    × (takes_int (codes "id %*d") ≡ false)
    × (takes_int (codes "id-%08x.") ≡ true)
unfolding unique_next_word takes_int scan_all scan scan_field converts is_digit
no_text = (refl, refl, refl)

draw_total_example :
    (ws : List Bytes) × (d : Dictionary) × (calls : ℕ) × (draw sprintf rands 3 new_unique 0
      ≡ ok (ws, d, calls))
    × (length ws ≡ 3)
    × (d.words ≡ [])
draw_total_example = draw_total sprintf rands 3 new_unique 0 (digits, 0, refl, omega arith)

draw-seq_example :
    (ws : List Bytes) × (draw sprintf rands 5 (at names 2) 0 ≡ ok (ws, at names 1, 0))
    × (get_elem? ws 4 ≡ Option.map c_str (some (codes "a")))
draw-seq_example = draw-seq sprintf rands names 2 5 4 0 (omega arith) (omega arith)

replicate-NoNewline : (n : ℕ) → NoNewline (replicate n b'a')
replicate-NoNewline zero = tt
replicate-NoNewline (suc n) = (omega arith, replicate-NoNewline n)

load_file_long_example :
    load_file 1000 (some (unlines [] (replicate 511 b'a' ++ (b'a' ∷ codes "\nb\n")))) new_seq ≡ none
load_file_long_example =
    load_file_long new_seq [] (replicate 511 b'a') b'a' (codes "\nb\n") 1000 tt
      (replicate-NoNewline 511) refl (omega arith)
