-- ===== src/Client/Escape.antt =====
-- `Client::escape_string`: quotes and backslashes get a backslash in front.
use super_smack.Prelude.{
  ℕ, ◌*◌, ◌≤◌, ◌≡◌, ◌≢◌, refl, Bool, true, false, ◌||◌, ◌⊎◌, [], ◌∷◌, arith, if◌then◌else◌, ◌==◌,
  Bytes, length,
}

abbrev pub is_special : ℕ → Bool
is_special c = c == b'\'' || c == b'"' || c == b'\\'

-- `Client::escape_string`: what it leaves in `buf`, whose length it returns.
unfoldable pub escape_string : Bytes → Bytes
escape_string [] = []
escape_string (c ∷ str) =
    let rest = escape_string str in if is_special c then b'\\' ∷ c ∷ rest else c ∷ rest

-- The buffer needs room for two bytes for each one that is escaped.
pub length-escape_string : (str : Bytes) → length (escape_string str) ≤ 2 * length str
unfolding escape_string
length-escape_string [] = omega arith
length-escape_string (c ∷ str) = ground (arith, length-escape_string str)

-- How SQL reads the text of a literal: a backslash stands for the byte behind it.
unfoldable pub unescape : Bytes → Bytes
unescape [] = []
unescape (c ∷ []) = c ∷ []
unescape (c ∷ d ∷ s) =
    let escaped = d ∷ unescape s in
    let plain = c ∷ unescape (d ∷ s) in if c == b'\\' then escaped else plain

unescape-slash : (d : ℕ) (s : Bytes) → unescape (b'\\' ∷ d ∷ s) ≡ d ∷ unescape s
unfolding unescape
unescape-slash d s = refl

unescape-plain : (c : ℕ) (s : Bytes) → c ≢ b'\\' → unescape (c ∷ s) ≡ c ∷ unescape s
unfolding unescape
unescape-plain c [] h = refl
unescape-plain c (d ∷ s) h = ground arith

-- A text that was escaped reads back as itself.
pub unescape-escape_string : (str : Bytes) → unescape (escape_string str) ≡ str
unfolding escape_string
unescape-escape_string [] = unfold unescape in refl
unescape-escape_string (c ∷ str) = ground (
  arith,
  unescape-slash c (escape_string str),
  unescape-plain c (escape_string str),
  unescape-escape_string str,
)

-- The literal that the text is put in ends at its first quote without a backslash in front.
unfoldable pub closes : ℕ → Bytes → Bool
closes quote [] = false
closes quote (c ∷ []) = c == quote
closes quote (c ∷ d ∷ s) =
    let escaped = closes quote s in
    let plain = closes quote (d ∷ s) in
    if c == b'\\' then escaped else if c == quote then true else plain

closes-plain :
    (quote c : ℕ) (s : Bytes) → c ≢ b'\\' → c ≢ quote → closes quote (c ∷ s) ≡ closes quote s
unfolding closes
closes-plain quote c [] h k = ground arith
closes-plain quote c (d ∷ s) h k = ground arith

closes-slash : (quote d : ℕ) (s : Bytes) → closes quote (b'\\' ∷ d ∷ s) ≡ closes quote s
unfolding closes
closes-slash quote d s = refl

-- No escaped text ends the literal that it stands in, whichever quote opened it.
pub escape_string_closed :
    (quote : ℕ) (str : Bytes)
    → (quote ≡ b'\'') ⊎ (quote ≡ b'"')
    → closes quote (escape_string str) ≡ false
unfolding escape_string
escape_string_closed quote [] h = unfold closes in refl
escape_string_closed quote (c ∷ str) h = ground (
  arith,
  closes-slash quote c (escape_string str),
  closes-plain quote c (escape_string str),
  escape_string_closed quote str h,
)
