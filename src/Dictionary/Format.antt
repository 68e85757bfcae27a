-- ===== src/Dictionary/Format.antt =====
-- Which formats the C library's `snprintf` takes with one argument, an `int` that is not negative:
-- elsewhere its call in src/dictionary.cc is undefined.
use super_smack.Prelude.{
  ℕ, Bool, true, false, ◌||◌, ◌&&◌, not, [], ◌∷◌, if◌then◌else◌, ◌==◌, ltb, Bytes, is_digit,
}

-- What is read of a conversion: whether `#`, `0`, a precision and `h` were in it. The stage is 0
-- among the flags, 1 in the width, 2 in the precision, 3 and 4 behind one `h` and two.
pub record Field : Type 0 where
  pub stage : ℕ
  pub has_hash : Bool
  pub has_zero : Bool
  pub has_precision : Bool

-- Where the reading of a format is; `used` is whether it has converted the argument.
pub data Scan : Type 0 where
  in_text : Bool → Scan
  behind_percent : Bool → Scan
  in_field : Field → Scan
  undefined : Scan

abbrev pub new_field : Field
new_field = record { stage = 0; has_hash = false; has_zero = false; has_precision = false }

-- The conversions of an `int`, each with the flags that it allows.
unfoldable pub converts : Field → ℕ → Bool
converts f c =
    ((c == b'd' || c == b'i' || c == b'u') && not f.has_hash)
    || (c == b'o' || c == b'x' || c == b'X')
    || (c == b'c' && not (f.has_hash || f.has_zero || f.has_precision || ltb 2 f.stage))

unfoldable pub scan_field : Field → ℕ → Scan
scan_field f c =
    if f.stage == 0 && (c == b'-' || c == b'+' || c == b' ')
    then in_field f
    else if f.stage == 0 && c == b'#'
    then in_field (record f { has_hash = true })
    else if f.stage == 0 && c == b'0'
    then in_field (record f { has_zero = true })
    else if ltb f.stage 2 && is_digit c
    then in_field (record f { stage = 1 })
    else if ltb f.stage 2 && c == b'.'
    then in_field (record f { stage = 2; has_precision = true })
    else if f.stage == 2 && is_digit c
    then in_field f
    else if ltb f.stage 4 && c == b'h'
    then in_field (record f { stage = if ltb f.stage 3 then 3 else 4 })
    else if converts f c
    then in_text true
    else undefined

unfoldable pub scan : Scan → ℕ → Scan
scan (in_text used) c = if c == b'%' then behind_percent used else in_text used
scan (behind_percent used) c =
    if c == b'%' then in_text used else if used then undefined else scan_field new_field c
scan (in_field f) c = scan_field f c
scan undefined c = undefined

unfoldable pub scan_all : Scan → Bytes → Bool
scan_all (in_text used) [] = true
scan_all s [] = false
scan_all s (c ∷ format) = scan_all (scan s c) format

-- A format with which the call is defined.
unfoldable pub takes_int : Bytes → Bool
takes_int format = scan_all (in_text false) format
