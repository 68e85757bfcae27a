-- ===== src/Script/Lexer/Print.antt =====
-- Scripts as they are written: tokens that stand in their texts, with blanks and
-- comments between them.
pub mod RoundTrip
use super_smack.Prelude.{
  ℕ, ◌≡◌, ◌≢◌, refl, ap, sym, ◌∙◌, Bool, true, false, ◌&&◌, ◌||◌, &&-eq-true, Option, none, some,
  List, [], ◌∷◌, ◌++◌, append-nil, append_assoc, if◌then◌else◌, ◌==◌, Bytes, IsText, All, is_digit,
  is_alnum, arith, Bool-cases, inl, inr, str_eq,
}
use super_smack.Script.Token.{
  Word, Token, Mark, query_sym, word, mark, ident_sym, number_sym, string_sym, words, find_word,
  word_text, mark_text, open_sect_sym, close_sect_sym, open_paren_sym, close_paren_sym, semi_sym,
  dot_sym, comma_sym, dollar_sym, col_col_sym, eq_sym,
}
use super_smack.Script.Lexer.{
  Mode, initial, in_ident, in_number, q_str, q_str_esc, comment, is_letter, is_ident_char,
  ident_or_word, mark_of, first_byte, step, at_end, lex, append,
}

-- A blank, or a comment up to the end of its line.
pub data Blank : Type 0 where
  space tab newline : Blank
  hash_comment slash_comment : Bytes → Blank

abbrev pub blank_text : Blank → Bytes
blank_text space = b' ' ∷ []
blank_text tab = b'\t' ∷ []
blank_text newline = b'\n' ∷ []
blank_text (hash_comment s) = b'#' ∷ (s ++ b'\n' ∷ [])
blank_text (slash_comment s) = b'/' ∷ b'/' ∷ (s ++ b'\n' ∷ [])

abbrev pub IsBlank : Blank → Type 0
IsBlank (hash_comment s) = All (λ c. c == b'\n' ≡ false) s
IsBlank (slash_comment s) = All (λ c. c == b'\n' ≡ false) s
IsBlank _ = Unit

-- A string in its quotes.
abbrev pub quoted : Bytes → Bytes
quoted [] = []
quoted (c ∷ s) = if c == b'\\' || c == b'"' then b'\\' ∷ c ∷ quoted s else c ∷ quoted s

abbrev pub token_text : Token → Bytes
token_text (word w) = word_text w
token_text (mark m) = mark_text m
token_text (ident_sym s) = s
token_text (number_sym s) = s
token_text (string_sym s) = b'"' ∷ (quoted s ++ b'"' ∷ [])

abbrev pub all : (ℕ → Bool) → Bytes → Bool
all test [] = true
all test (c ∷ s) = test c && all test s

-- `{LETTER}{IDENT_CHAR}*`
abbrev pub is_name : Bytes → Bool
is_name [] = false
is_name (c ∷ s) = is_letter c && all is_ident_char s

-- `{DIGIT}+`
abbrev pub is_number : Bytes → Bool
is_number [] = false
is_number (c ∷ s) = is_digit c && all is_digit s

-- What the text of a token must be for the lexer to give the token.
abbrev pub IsToken : Token → Type 0
IsToken (ident_sym s) = (is_name s ≡ true) × (find_word s words ≡ none)
IsToken (number_sym s) = is_number s ≡ true
IsToken (string_sym s) = IsText s
IsToken _ = Unit

abbrev pub blanks_text : List Blank → Bytes
blanks_text [] = []
blanks_text (b ∷ bs) = blank_text b ++ blanks_text bs

-- Tokens with blanks behind each, at least one.
unfoldable pub print : List (Token × Blank × List Blank) → Bytes
print [] = []
print ((t, b, bs) ∷ ts) = token_text t ++ (blank_text b ++ (blanks_text bs ++ print ts))

abbrev pub IsSpaced : Token × Blank × List Blank → Type 0
IsSpaced (t, b, bs) = IsToken t × IsBlank b × All IsBlank bs

abbrev pub tokens_of : List (Token × Blank × List Blank) → List Token
tokens_of [] = []
tokens_of ((t, b, bs) ∷ ts) = t ∷ tokens_of ts
