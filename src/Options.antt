-- ===== src/Options.antt =====
-- The options of the program, src/super-smack.cc. `getopt_long` is not modelled: the model starts
-- from the options that it gives, each with its argument, and from the words behind them.
mod Tests
pub mod Chosen
use super_smack.Prelude.{
  ℕ, Bool, true, false, Option, none, some, List, [], ◌∷◌, ◌++◌, if◌then◌else◌, ◌==◌, ltb, Bytes,
  codes, length,
}
use super_smack.Prelude.Int.{pos}
use super_smack.Prelude.Decimal.{int_text}
use super_smack.Result.{
  Result, ok, died, crashed, out_of_bounds, unknown_db_type, no_input_file, ◌>>=◌,
}
use super_smack.Engines.{Engine, engine_id}

-- `db_type`, `datadir` and `input`, which is `none` for stdin.
pub record Settings : Type 0 where
  pub db_type : ℕ
  pub datadir : Bytes
  pub input : Option Bytes

-- Whether the program goes on, or has left by `exit`.
pub data Started : Type 0 where
  running : Settings → Started
  exited : ℕ → Started

-- `strlen(text)>7?"":"\t"`
abbrev pub column : Bytes → Bytes
column text = text ++ (if ltb 7 (length text) then [] else b'\t' ∷ [])

module _ {ℓ} {Creator : Type ℓ} where
  -- One line of `print_engines`.
  abbrev pub engine_line : Engine Creator → Bytes
  engine_line e =
      int_text (pos e.id)
      ++ b'\t'
        ∷ (column e.handle
            ++ b'\t'
              ∷ (column e.name ++ b'\t' ∷ (column e.version ++ b'\t' ∷ (e.author ++ b'\n' ∷ []))))

  -- Its loop: it has no bound, and a table with no free slot is read beyond its end.
  unfoldable pub engine_lines : List (Engine Creator) → Result Bytes
  engine_lines [] = crashed out_of_bounds
  engine_lines (e ∷ engines) = do
    rest ← if ltb 0 e.id then engine_lines engines else ok []
    ok (if ltb 0 e.id then engine_line e ++ rest else [])

  -- `print_engines`
  unfoldable pub print_engines : List (Engine Creator) → Result Bytes
  print_engines engines = do
    lines ← engine_lines engines
    ok (
        codes "Id\tHandle\t\tName\t\tVersion\t\tAuthor\n--\t------\t\t----\t\t-------\t\t------\n"
        ++ lines)

  module _ (engines : List (Engine Creator)) where
    -- `set_db_type`
    unfoldable pub set_db_type : Bytes → Settings → Result Settings
    set_db_type db_str s =
        let id = engine_id (some db_str) engines in
        if id == 0 then died (unknown_db_type db_str) else ok (record s { db_type = id })

    -- The switch on an option. `usage` prints the engines too.
    unfoldable pub take_option : ℕ → Bytes → Settings → Result Started
    take_option c optarg s =
        if c == b'h'
        then (do table ← print_engines engines; ok (exited 0))
        else if c == b'V'
        then ok (exited 0)
        else if c == b'd'
        then (do s' ← set_db_type optarg s; ok (running s'))
        else if c == b'D'
        then ok (running (record s { datadir = optarg }))
        else (do table ← print_engines engines; ok (exited 1))

    -- The loop over the options.
    unfoldable pub take_options : List (ℕ × Bytes) → Settings → Result Started
    take_options [] s = ok (running s)
    take_options ((c, optarg) ∷ options) s = do
      started ← take_option c optarg s
      elim started [ running s' ↦ take_options options s' | exited code ↦ ok (exited code) ]

    -- `set_parse_file`, by whether a file can be opened
    unfoldable pub set_parse_file : (Bytes → Bool) → Bytes → Settings → Result Settings
    set_parse_file can_open fname s =
        if can_open fname then ok (record s { input = some fname }) else died (no_input_file fname)

    -- `get_options`
    unfoldable pub get_options :
        (Bytes → Bool) → List (ℕ × Bytes) → List Bytes → Settings → Result Started
    get_options can_open options [] s = take_options options s
    get_options can_open options (fname ∷ words) s = do
      started ← take_options options s
      elim started [
        | running s' ↦ (do s'' ← set_parse_file can_open fname s'; ok (running s''))
        | exited code ↦ ok (exited code)
      ]
