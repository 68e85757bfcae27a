-- ===== src/Script/Lexer.antt =====
-- The lexer of scripts, src/super-smack-lex.ll, as a machine over the bytes. Its rules take the
-- longest text that fits, so a mode holds what a rule has taken so far.
pub mod Print
pub mod Escapes
use super_smack.Prelude.{
  ℕ, Bool, true, false, ◌&&◌, ◌||◌, Option, none, some, List, [], ◌∷◌, ◌++◌, if◌then◌else◌, ◌==◌,
  leb, Bytes, is_digit, is_alnum,
}
use super_smack.Script.Token.{
  Token, word, mark, ident_sym, number_sym, string_sym, words, find_word, open_sect_sym,
  close_sect_sym, open_paren_sym, close_paren_sym, semi_sym, dot_sym, comma_sym, dollar_sym,
  col_col_sym, eq_sym,
}

-- The start conditions `INITIAL`, `Q_STR` and `Q_STR_ESC` (with `q_str`) and `COMMENT`; in
-- `INITIAL` also what stands in `yytext` before a rule is chosen.
pub data Mode : Type 0 where
  initial : Mode
  in_ident in_number : Bytes → Mode
  after_slash after_colon : Mode
  q_str q_str_esc : Bytes → Mode
  comment : Mode

abbrev pub is_letter : ℕ → Bool
is_letter c = (leb b'a' c && leb c b'z') || (leb b'A' c && leb c b'Z')

-- `IDENT_CHAR`
abbrev pub is_ident_char : ℕ → Bool
is_ident_char c = is_alnum c || c == b'_'

-- A text of the form of an identifier: the rules for the words stand first.
unfoldable pub ident_or_word : Bytes → Token
ident_or_word yytext = elim (find_word yytext words) [ some w ↦ word w | none ↦ ident_sym yytext ]

-- The rules of one byte.
unfoldable pub mark_of : ℕ → Option Token
mark_of c =
    if c == b'{'
    then some (mark open_sect_sym)
    else if c == b'}'
    then some (mark close_sect_sym)
    else if c == b'('
    then some (mark open_paren_sym)
    else if c == b')'
    then some (mark close_paren_sym)
    else if c == b';'
    then some (mark semi_sym)
    else if c == b'.'
    then some (mark dot_sym)
    else if c == b','
    then some (mark comma_sym)
    else if c == b'$'
    then some (mark dollar_sym)
    else if c == b'='
    then some (mark eq_sym)
    else none

abbrev pub with_mark : Option Token → List Token × Mode
with_mark (some t) = (t ∷ [], initial)
-- `.|\n {}`
with_mark none = ([], initial)

-- The first byte of a token in `INITIAL`.
unfoldable pub first_byte : ℕ → List Token × Mode
first_byte c =
    if is_letter c
    then ([], in_ident (c ∷ []))
    else if is_digit c
    then ([], in_number (c ∷ []))
    else if c == b'"'
    then ([], q_str [])
    else if c == b'#'
    then ([], comment)
    else if c == b'/'
    then ([], after_slash)
    else if c == b':'
    then ([], after_colon)
    else with_mark (mark_of c)

-- `q_str += yytext` for a text of one byte; a NUL is the end of it.
abbrev pub append : Bytes → ℕ → Bytes
append s c = if c == 0 then s else s ++ c ∷ []

abbrev pub behind : Token → List Token × Mode → List Token × Mode
behind t (ts, m) = (t ∷ ts, m)

unfoldable pub step : Mode → ℕ → List Token × Mode
step initial c = first_byte c
step (in_ident s) c =
    if is_ident_char c
    then ([], in_ident (s ++ c ∷ []))
    else behind (ident_or_word s) (first_byte c)
step (in_number s) c =
    if is_digit c then ([], in_number (s ++ c ∷ [])) else behind (number_sym s) (first_byte c)
step after_slash c = if c == b'/' then ([], comment) else first_byte c
step after_colon c = if c == b':' then (mark col_col_sym ∷ [], initial) else first_byte c
step comment c = if c == b'\n' then ([], initial) else ([], comment)
step (q_str s) c =
    if c == b'\\'
    then ([], q_str_esc s)
    else if c == b'"'
    then (string_sym s ∷ [], initial)
    else ([], q_str (append s c))
step (q_str_esc s) c =
    if c == b'\\' || c == b'"' || c == b'\n'
    then ([], q_str (s ++ c ∷ []))
    -- the rule does not leave the start condition
    else ([], q_str_esc s)

-- At the end of the file.
unfoldable pub at_end : Mode → List Token
at_end (in_ident s) = ident_or_word s ∷ []
at_end (in_number s) = number_sym s ∷ []
at_end _ = []

-- What `yylex` returns on a text, one call after the other.
unfoldable pub lex : Mode → Bytes → List Token
lex m [] = at_end m
lex m (c ∷ s) = let (ts, m') = step m c in ts ++ lex m' s
