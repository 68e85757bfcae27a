-- ===== src/Script/Lexer/Escapes.antt =====
-- The start condition `Q_STR_ESC` of src/super-smack-lex.ll, behind a backslash in a string.
use super_smack.Prelude.{◌≡◌, refl, Bool, true, false, ◌||◌, [], ◌∷◌, ◌++◌, All, ◌==◌, Bytes, ℕ}
use super_smack.Script.Lexer.{q_str, q_str_esc, step, lex}

-- The bytes that a rule of `Q_STR_ESC` takes into the string.
abbrev pub is_special : ℕ → Bool
is_special c = c == b'\\' || c == b'"' || c == b'\n'

lex-q_str_esc :
    (w t : Bytes) (c : ℕ) (rest : Bytes)
    → All (λ b. is_special b ≡ false) t
    → is_special c ≡ true
    → lex (q_str_esc w) (t ++ c ∷ rest) ≡ lex (q_str (w ++ c ∷ [])) rest
unfolding lex step
lex-q_str_esc w [] c rest h special = rw special refl
lex-q_str_esc w (b ∷ t) c rest (h, hs) special = rw h (lex-q_str_esc w t c rest hs special)

-- Behind a backslash in a string, the lexer drops all bytes up to the next backslash, quote or
-- newline, and takes that byte into the string, also where it is the quote at the string's end.
pub lex-dropped :
    (w t : Bytes) (c : ℕ) (rest : Bytes)
    → All (λ b. is_special b ≡ false) t
    → is_special c ≡ true
    → lex (q_str w) (b'\\' ∷ (t ++ c ∷ rest)) ≡ lex (q_str (w ++ c ∷ [])) rest
unfolding lex step
lex-dropped w t c rest h special = lex-q_str_esc w t c rest h special
