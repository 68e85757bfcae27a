-- ===== src/GenData/Args.antt =====
-- The options of src/gen-data.cc, as `getopt_long` gives them, and its `main`.
use super_smack.Prelude.{
  ℕ, ◌||◌, Option, none, some, List, [], ◌∷◌, if◌then◌else◌, ◌==◌, Bytes, c_str,
}
use super_smack.Prelude.Int.{ℤ, pos, pos_part, eq_ℤ}
use super_smack.Prelude.Atoi.{atoi}
use super_smack.Result.{Result, ok, died, no_rows_or_fmt, ◌>>=◌}
use super_smack.GenData.{print_rows}

-- `num_rows` and `fmt`, which is `none` for a null pointer.
pub record Args : Type 0 where
  pub num_rows : ℤ
  pub fmt : Option Bytes

-- Whether the program goes on, or has left by `exit`.
pub data Parsed : Type 0 where
  parsed : Args → Parsed
  exited : ℕ → Parsed

-- The switch on an option.
unfoldable pub take_arg : ℕ → Bytes → Args → Parsed
take_arg c optarg a =
    if c == b'?' || c == b'V'
    then exited 0
    else if c == b'f'
    then parsed (record a { fmt = some optarg })
    else if c == b'n'
    then parsed (record a { num_rows = atoi (c_str optarg) })
    else exited 1

-- The loop over the options.
unfoldable pub take_args : List (ℕ × Bytes) → Args → Parsed
take_args [] a = parsed a
take_args ((c, optarg) ∷ options) a = elim (take_arg c optarg a) [
  | parsed a' ↦ take_args options a'
  | exited code ↦ exited code
]

-- `if(!num_rows || !fmt) die(…)`
unfoldable pub checked : Args → Result (ℤ × Bytes)
checked a = elim a.fmt [
  | none ↦ died no_rows_or_fmt
  | some fmt ↦ if eq_ℤ a.num_rows (pos 0) then died no_rows_or_fmt else ok (a.num_rows, fmt)
]

-- `main`: what it prints, or `none` where it has left before. A negative number gives no rows.
unfoldable pub generate : (ℕ → ℕ → Bytes) → (ℕ → ℕ) → List (ℕ × Bytes) → Result (Option Bytes)
generate pad rands options = elim (take_args options (record { num_rows = pos 0; fmt = none })) [
  | exited code ↦ ok none
  | parsed a ↦ (do
    (num_rows, fmt) ← checked a
    out ← print_rows pad rands (pos_part num_rows) (c_str fmt) 1 0
    ok (some out))
]
