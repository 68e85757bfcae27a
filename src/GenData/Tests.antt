-- ===== src/GenData/Tests.antt =====
-- Runs of the data generator.
use super_smack.GenData.{max_str_width}
use super_smack.GenData.Widths.{print_str_width}
use super_smack.Prelude.{
  arith, length, ◌<◌, ◌⊎◌, ℕ, none, ◌≡◌, refl, List, [], ◌∷◌, codes, is_digit,
}
use super_smack.Prelude.Int.{pos}
use super_smack.Result.{ok}
use super_smack.GenData.Args.{take_args, take_arg, exited}
use super_smack.GenData.{
  print_str, print_row, row_loop, row_step, fmt_step, get_width, str_width, letters, get_rand,
  add_digit,
}

-- Stand-ins for the C library.
abbrev sevens : ℕ → ℕ
sevens calls = 7

abbrev no_padding : ℕ → ℕ → List ℕ
no_padding width n = n ∷ []

print_row-text : print_row no_padding sevens (codes "a%%%3-3s") 1 0 ≡ ok (codes "a%hhh\n", 3)
unfolding print_row row_loop row_step fmt_step print_str get_width str_width letters get_rand
    add_digit is_digit
print_row-text = refl

-- `--help` gives `h`, which the switch does not know.
take_args_help : take_args ((b'h', []) ∷ []) (record { num_rows = pos 0; fmt = none }) ≡ exited 1
unfolding take_args take_arg
take_args_help = refl

print_str_width_example :
    (length (print_str sevens 0 6 0).0 < 6) ⊎ (length (print_str sevens 0 6 0).0 ≡ max_str_width)
print_str_width_example = print_str_width sevens 6 0 (omega arith) (omega arith)
