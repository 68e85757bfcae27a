-- ===== src/Script/Lexer/Print/RoundTrip.antt =====
-- What the lexer gives of a script as it is written.
use super_smack.Prelude.{
  ℕ, ◌≡◌, ◌≢◌, refl, ap, ◌∙◌, Bool, true, false, ◌||◌, &&-eq-true, some, List, [], ◌∷◌, ◌++◌,
  append-nil, append_assoc, if◌then◌else◌, ◌==◌, Bytes, IsText, All, is_digit, is_alnum, arith,
  Bool-cases, inl, inr, str_eq,
}
use super_smack.Script.Token.{
  Word, Token, query_sym, word, mark, ident_sym, number_sym, string_sym, words, find_word,
  word_text, open_sect_sym,
}
use super_smack.Script.Lexer.{
  initial, in_ident, in_number, q_str, q_str_esc, comment, is_letter, is_ident_char, ident_or_word,
  mark_of, first_byte, step, at_end, lex, append,
}
use super_smack.Script.Lexer.Print.{
  Blank, space, tab, newline, hash_comment, slash_comment, blank_text, IsBlank, quoted, token_text,
  all, is_name, is_number, IsToken, blanks_text, print, IsSpaced, tokens_of,
}

lex-comment :
    (s rest : Bytes)
    → All (λ c. c == b'\n' ≡ false) s
    → lex comment (s ++ b'\n' ∷ rest) ≡ lex initial rest
unfolding lex step
lex-comment [] rest h = refl
lex-comment (c ∷ s) rest (h, hs) = rw h (lex-comment s rest hs)

lex-blank :
    (b : Blank) (rest : Bytes) → IsBlank b → lex initial (blank_text b ++ rest) ≡ lex initial rest
unfolding lex step first_byte mark_of is_digit
lex-blank space rest h = refl
lex-blank tab rest h = refl
lex-blank newline rest h = refl
lex-blank (hash_comment s) rest h = rw (append_assoc s (b'\n' ∷ []) rest) (lex-comment s rest h)
lex-blank (slash_comment s) rest h = rw (append_assoc s (b'\n' ∷ []) rest) (lex-comment s rest h)

lex-in_ident :
    (w s rest : Bytes)
    → All (λ c. is_ident_char c ≡ true) s
    → lex (in_ident w) (s ++ rest) ≡ lex (in_ident (w ++ s)) rest
unfolding lex step
lex-in_ident w [] rest h = rw (append-nil w) refl
lex-in_ident w (c ∷ s) rest (h, hs) =
    rw h (lex-in_ident (w ++ c ∷ []) s rest hs ∙ rw (append_assoc w (c ∷ []) s) refl)

lex-in_ident-blank :
    (w : Bytes) (b : Blank) (rest : Bytes)
    → lex (in_ident w) (blank_text b ++ rest) ≡ ident_or_word w ∷ lex initial (blank_text b ++ rest)
unfolding lex step first_byte mark_of is_digit is_alnum
lex-in_ident-blank w space rest = refl
lex-in_ident-blank w _ rest = refl

lex-in_number :
    (w s rest : Bytes)
    → All (λ c. is_digit c ≡ true) s
    → lex (in_number w) (s ++ rest) ≡ lex (in_number (w ++ s)) rest
unfolding lex step
lex-in_number w [] rest h = rw (append-nil w) refl
lex-in_number w (c ∷ s) rest (h, hs) =
    rw h (lex-in_number (w ++ c ∷ []) s rest hs ∙ rw (append_assoc w (c ∷ []) s) refl)

lex-in_number-blank :
    (w : Bytes) (b : Blank) (rest : Bytes)
    → lex (in_number w) (blank_text b ++ rest) ≡ number_sym w ∷ lex initial (blank_text b ++ rest)
unfolding lex step first_byte mark_of is_digit
lex-in_number-blank w space rest = refl
lex-in_number-blank w _ rest = refl

append-byte : (s : Bytes) (c : ℕ) → c ≢ 0 → append s c ≡ s ++ c ∷ []
append-byte s c h = ground arith

lex-escape :
    (w : Bytes) (c : ℕ) (rest : Bytes)
    → (c == b'\\' || c == b'"') ≡ true
    → lex (q_str_esc w) (c ∷ rest) ≡ lex (q_str (w ++ c ∷ [])) rest
unfolding lex step
lex-escape w c rest special = elim (Bool-cases (c == b'\\')) [
  | inl q ↦ rw q refl
  | inr q ↦ rw (q, rw q at special) refl
]

lex-plain :
    (w : Bytes) (c : ℕ) (rest : Bytes)
    → (c == b'\\' || c == b'"') ≡ false
    → c ≢ 0
    → lex (q_str w) (c ∷ rest) ≡ lex (q_str (w ++ c ∷ [])) rest
unfolding lex step
lex-plain w c rest plain h = elim (Bool-cases (c == b'\\')) [
  | inl q ↦ cc (rw q at plain)
  | inr q ↦ rw (q, rw q at plain, append-byte w c h) refl
]

-- A byte of a string, as it stands in the quotes.
lex-byte :
    (w : Bytes) (c : ℕ) (rest : Bytes)
    → c ≢ 0
    → lex (q_str w) (if c == b'\\' || c == b'"' then b'\\' ∷ c ∷ rest else c ∷ rest)
      ≡ lex (q_str (w ++ c ∷ [])) rest
unfolding lex step
lex-byte w c rest h = elim (Bool-cases (c == b'\\' || c == b'"')) [
  | inl special ↦ rw special (lex-escape w c rest special)
  | inr plain ↦ rw plain (lex-plain w c rest plain h)
]

if-append :
    (b : Bool) (s t rest : Bytes)
    → (if b then s else t) ++ rest ≡ (if b then s ++ rest else t ++ rest)
if-append true s t rest = refl
if-append false s t rest = refl

lex-quoted :
    (w s rest : Bytes)
    → IsText s
    → lex (q_str w) (quoted s ++ b'"' ∷ rest) ≡ string_sym (w ++ s) ∷ lex initial rest
unfolding lex step
lex-quoted w [] rest h = rw (append-nil w) refl
lex-quoted w (c ∷ s) rest (h, hs) =
    rw (if-append (c == b'\\' || c == b'"') (b'\\' ∷ c ∷ quoted s) (c ∷ quoted s) (b'"' ∷ rest)) (
      lex-byte w c (quoted s ++ b'"' ∷ rest) h
      ∙ lex-quoted (w ++ c ∷ []) s rest hs
      ∙ rw (append_assoc w (c ∷ []) s) refl)

all-All : (test : ℕ → Bool) (s : Bytes) → all test s ≡ true → All (λ c. test c ≡ true) s
all-All test [] h = tt
all-All test (c ∷ s) h =
    let (first, more) = &&-eq-true (test c) (all test s) h in (first, all-All test s more)

lex-name :
    (s : Bytes) (b : Blank) (rest : Bytes)
    → is_name s ≡ true
    → lex initial (s ++ (blank_text b ++ rest))
      ≡ ident_or_word s ∷ lex initial (blank_text b ++ rest)
unfolding lex step first_byte
lex-name [] b rest h = cc
lex-name (c ∷ s) b rest h =
    let (first, more) = &&-eq-true (is_letter c) _ h in
    rw first (
      lex-in_ident (c ∷ []) s (blank_text b ++ rest) (all-All is_ident_char s more)
      ∙ lex-in_ident-blank (c ∷ s) b rest)

word_text-is_name : (w : Word) → is_name (word_text w) ≡ true
unfolding is_alnum is_digit
word_text-is_name query_sym = refl
word_text-is_name _ = refl

find_word-word_text : (w : Word) → find_word (word_text w) words ≡ some w
unfolding find_word str_eq
find_word-word_text query_sym = refl
find_word-word_text _ = refl

digit_is_letter : (c : ℕ) → is_digit c ≡ true → is_letter c ≡ false
unfolding is_digit
digit_is_letter c h = ground arith

lex-number :
    (s : Bytes) (b : Blank) (rest : Bytes)
    → is_number s ≡ true
    → lex initial (s ++ (blank_text b ++ rest)) ≡ number_sym s ∷ lex initial (blank_text b ++ rest)
unfolding lex step first_byte is_digit
lex-number [] b rest h = cc
lex-number (c ∷ s) b rest h =
    let (first, more) = &&-eq-true (is_digit c) _ h in
    rw (digit_is_letter c first, first)
      (lex-in_number (c ∷ []) s (blank_text b ++ rest) (all-All is_digit s more)
        ∙ lex-in_number-blank (c ∷ s) b rest)

-- A token that stands in its text is read, whatever is behind the blank that ends it.
lex-token :
    (t : Token) (b : Blank) (rest : Bytes)
    → IsToken t
    → lex initial (token_text t ++ (blank_text b ++ rest)) ≡ t ∷ lex initial (blank_text b ++ rest)
unfolding lex step first_byte mark_of is_digit ident_or_word
lex-token (word w) b rest h =
    lex-name (word_text w) b rest (word_text-is_name w)
    ∙ rw (find_word-word_text w, ident_or_word) refl
lex-token (ident_sym s) b rest (h, n) = lex-name s b rest h ∙ rw (n, ident_or_word) refl
lex-token (number_sym s) b rest h = lex-number s b rest h
lex-token (string_sym s) b rest h =
    rw (append_assoc (quoted s) (b'"' ∷ []) (blank_text b ++ rest))
      (lex-quoted [] s (blank_text b ++ rest) h)
lex-token (mark open_sect_sym) b rest h = refl
lex-token (mark _) b rest h = refl

lex-blanks :
    (bs : List Blank) (rest : Bytes)
    → All IsBlank bs
    → lex initial (blanks_text bs ++ rest) ≡ lex initial rest
lex-blanks [] rest h = refl
lex-blanks (b ∷ bs) rest (h, hs) =
    rw (append_assoc (blank_text b) (blanks_text bs) rest)
      (lex-blank b (blanks_text bs ++ rest) h ∙ lex-blanks bs rest hs)

-- Tokens that stand in their texts, a string with a backslash before its quotes and backslashes,
-- are what the lexer gives, where at least one blank or comment stands behind each token.
pub lex-print :
    (ts : List (Token × Blank × List Blank))
    → All IsSpaced ts
    → lex initial (print ts) ≡ tokens_of ts
unfolding lex at_end print
lex-print [] h = refl
lex-print ((t, b, bs) ∷ ts) ((h, hb, hbs), hs) =
    lex-token t b (blanks_text bs ++ print ts) h
    ∙ ap (λ more. t ∷ more)
        (lex-blank b (blanks_text bs ++ print ts) hb
          ∙ lex-blanks bs (print ts) hbs
          ∙ lex-print ts hs)
