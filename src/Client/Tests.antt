-- ===== src/Client/Tests.antt =====
-- Queries with names in them, and the theorems at them.
use super_smack.Prelude.{
  ℕ, ◌≡◌, refl, inl, some, List, [], ◌∷◌, arith, false, Bytes, codes, str_eq, is_alnum, c_str,
}
use super_smack.Prelude.Int.{ℤ}
use super_smack.Result.{ok}
use super_smack.StringMap.{lookup, insert}
use super_smack.Dictionary.{Dictionary, new_seq, next_word_of}
use super_smack.Client.Escape.{
  escape_string, length-escape_string, closes, unescape, unescape-escape_string,
  escape_string_closed,
}
use super_smack.Client.ParsedQuery.{
  Dictionaries, word_of, step, plain_step, put_var, end_var, run, start, safe_parsed_query,
}
use super_smack.Client.ParsedQuery.Bounds.{IsBounded, safe_parsed_query-IsBounded}
use super_smack.Client.ParsedQuery.Expand.{Piece, text, var, render, IsName, Expanded, outside}

-- No printf is reached, and `rand()` gives 4.
abbrev sprintf : Bytes → ℤ → Bytes
sprintf templ id = []

abbrev rands : ℕ → ℕ
rands calls = 4

abbrev names : Dictionary
names = record new_seq { words = codes "it's" ∷ [] }

abbrev pool : Dictionaries
pool = (codes "n", some names) ∷ []

-- "='$n'"
abbrev pieces : List Piece
pieces = text b'=' ∷ text b'\'' ∷ var (codes "n") b'\'' ∷ []

abbrev expanded : Expanded
expanded = record { query = codes "='it\\'s'"; room = 13; dictionaries = pool; calls = 0 }

n-IsName : IsName (codes "n")
unfolding is_alnum
n-IsName = ((refl, tt), omega arith)

-- A buffer of 6 bytes, too small for the word.
runs_short :
    run sprintf rands escape_string 6 (render pieces) (start pool 0)
    ≡ ok (outside (codes "=''") pool 0)
unfolding run step word_of next_word_of escape_string lookup insert str_eq c_str is_alnum plain_step
    put_var end_var
runs_short = refl

safe_parsed_query-IsBounded_example :
    IsBounded 6 (outside (codes "=''") pool 0)
    × (safe_parsed_query sprintf rands escape_string (render pieces) 6 pool 0
        ≡ ok (outside (codes "=''") pool 0))
safe_parsed_query-IsBounded_example =
    safe_parsed_query-IsBounded sprintf rands escape_string length-escape_string (render pieces) 6
      pool 0 (outside (codes "=''") pool 0) runs_short (omega arith)

unescape-escape_string_example : unescape (escape_string (codes "it's")) ≡ codes "it's"
unescape-escape_string_example = unescape-escape_string (codes "it's")

escape_string_closed_example : closes b'\'' (escape_string (codes "it's")) ≡ false
escape_string_closed_example = escape_string_closed b'\'' (codes "it's") (inl refl)
