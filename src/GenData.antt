-- ===== src/GenData.antt =====
-- The data generator, src/gen-data.cc: lines of random data in a given format.
mod Tests
pub mod Widths
pub mod Args
use super_smack.Prelude.{
  ℕ, zero, suc, ◌+◌, ◌-◌, ◌%◌, ◌*◌, ◌^◌, Bool, true, false, ◌&&◌, ◌||◌, not, List, [], ◌∷◌, ◌++◌,
  if◌then◌else◌, ◌==◌, ltb, Bytes, is_digit,
}
use super_smack.Result.{Result, ok, died, crashed, int_overflow, invalid_format_specifier, ◌>>=◌}

abbrev pub max_str_width : ℕ
max_str_width = 256

-- `get_rand`, where `rand()` gives `r`; the sign of the divisor does not change C's remainder.
unfoldable pub get_rand : ℕ → ℕ → ℕ → ℕ
get_rand min_r max_r r =
    if min_r == max_r then min_r else min_r + r % ((max_r - min_r) + (min_r - max_r))

-- `get_width`, with the number of calls of `rand()` made so far.
unfoldable pub get_width : (ℕ → ℕ) → ℕ → ℕ → ℕ → ℕ × ℕ
get_width rands min_width max_width calls =
    if max_width == 0
    then (min_width, calls)
    else if not (min_width == max_width)
    then (get_rand min_width max_width (rands calls), calls + 1)
    else (min_width, calls)

-- The loop of `print_str`, with the letters left.
unfoldable pub letters : (ℕ → ℕ) → ℕ → ℕ → Bytes
letters rands zero calls = []
letters rands (suc n) calls =
    (b'a' + get_rand 0 (b'z' - b'a') (rands calls)) ∷ letters rands n (calls + 1)

-- `if(width > MAX_STR_WIDTH || !width) width = MAX_STR_WIDTH;`
unfoldable pub str_width : ℕ → ℕ
str_width width = if ltb max_str_width width || width == 0 then max_str_width else width

-- `print_str`: what it prints.
unfoldable pub print_str : (ℕ → ℕ) → ℕ → ℕ → ℕ → Bytes × ℕ
print_str rands min_width max_width calls =
    let (w, calls') = get_width rands min_width max_width calls in
    (letters rands (str_width w) calls', calls' + str_width w)

-- `parse_state`
pub data FormatState : Type 0 where
  st_plain st_fmt : FormatState

pub record Printer : Type 0 where
  pub out : Bytes
  pub parse_state : FormatState
  pub width : ℕ
  pub min_width : ℕ
  -- calls of `rand()` made so far
  pub calls : ℕ

abbrev pub print : Bytes → Printer → Printer
print s p = record p { out = p.out ++ s }

-- What follows a specifier that printed `s`.
abbrev pub printed : Bytes × ℕ → Printer → Printer
printed (s, calls) p = record p { out = p.out ++ s; parse_state = st_plain; calls = calls }

-- `width = width * 10 + c - '0'`, of which the sum must be an `int`.
unfoldable pub add_digit : ℕ → Printer → Result Printer
add_digit c p =
    if ltb (p.width * 10 + c) (2 ^ 31)
    then ok (record p { width = p.width * 10 + c - b'0' })
    else crashed int_overflow

-- What printf prints for `%*d`, a width and a number, and the results of `rand()`, are the C
-- library's.
module _ (pad : ℕ → ℕ → Bytes) (rands : ℕ → ℕ) where
  -- `print_row_num`
  unfoldable pub print_row_num : ℕ → ℕ → ℕ → ℕ → Bytes × ℕ
  print_row_num row_num min_width max_width calls =
      let (w, calls') = get_width rands min_width max_width calls in (pad w row_num, calls')

  -- `print_num`
  unfoldable pub print_num : ℕ → ℕ → ℕ → Bytes × ℕ
  print_num min_width max_width calls =
      let (w, calls') = get_width rands min_width max_width calls in
      (pad w (rands calls'), calls' + 1)

  -- The switch on a character of a specifier.
  unfoldable pub fmt_step : ℕ → ℕ → Printer → Result Printer
  fmt_step row_num c p =
      if c == b'%'
      then ok (record (print (c ∷ []) p) { parse_state = st_plain })
      else if c == b'-'
      then ok (record p { min_width = p.width; width = 0 })
      else if c == b's'
      then ok (printed (print_str rands p.min_width p.width p.calls) p)
      else if c == b'n'
      then ok (printed (print_row_num row_num p.min_width p.width p.calls) p)
      else if c == b'd'
      then ok (printed (print_num p.min_width p.width p.calls) p)
      else if is_digit c
      then add_digit c p
      else died (invalid_format_specifier (c ∷ []))

  -- The body of the loop of `print_row`.
  unfoldable pub row_step : FormatState → ℕ → ℕ → Printer → Result Printer
  row_step st_plain row_num c p =
      if not (c == b'%')
      then ok (print (c ∷ []) p)
      else ok (record p { parse_state = st_fmt; min_width = 0; width = 0 })
  row_step st_fmt row_num c p = fmt_step row_num c p

  -- The loop, up to `fmt_end`.
  unfoldable pub row_loop : ℕ → Bytes → Printer → Result Printer
  row_loop row_num [] p = ok p
  row_loop row_num (c ∷ fmt) p = do p' ← row_step p.parse_state row_num c p; row_loop row_num fmt p'

  -- `print_row`: the line that it prints, and the calls of `rand()` made by then.
  unfoldable pub print_row : Bytes → ℕ → ℕ → Result (Bytes × ℕ)
  print_row fmt row_num calls = do
    p ←
        row_loop row_num fmt
          (record { out = []; parse_state = st_plain; width = 0; min_width = 0; calls = calls })
    ok (p.out ++ b'\n' ∷ [], p.calls)

  -- The loop of `main`, with the rows left; `++row_num` follows each row.
  unfoldable pub print_rows : ℕ → Bytes → ℕ → ℕ → Result Bytes
  print_rows zero fmt row_num calls = ok []
  print_rows (suc n) fmt row_num calls = do
    (line, calls') ← print_row fmt row_num calls
    rest ← print_rows n fmt (row_num + 1) calls'
    ok (line ++ rest)
