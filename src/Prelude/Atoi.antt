-- ===== src/Prelude/Atoi.antt =====
-- `atoi` of the C library: white space, a sign, and the digits up to the first other byte. The
-- value is cut to an `int`, as glibc does; C leaves a value out of range undefined.
use super_smack.Prelude.Tests.{◌==◌, leb, if◌then◌else◌}
use super_smack.Prelude.Text.{Bytes, is_digit}
use super_smack.Prelude.Int.{ℤ, pos, sub_ℕ, wrap}
use Prim.Native.Nat.{ℕ, ◌+◌, ◌*◌, ◌-◌, ◌≤◌}
use mathlib.Core.Path.{◌≡◌, refl}
use native.Mathlib.Omega.{arith}
use mathlib.Core.Bool.{Bool, false, ◌&&◌, ◌||◌}
use mathlib.Core.List.{[], ◌∷◌}

abbrev is_space : ℕ → Bool
is_space c = c == b' ' || (leb 9 c && leb c 13)

unfoldable pub digits_value : ℕ → Bytes → ℕ
digits_value n [] = n
digits_value n (c ∷ s) =
    let rest = digits_value (n * 10 + (c - b'0')) s in if is_digit c then rest else n

signed_value : Bytes → ℤ
signed_value [] = pos 0
signed_value (c ∷ s) =
    if c == b'-'
    then sub_ℕ 0 (digits_value 0 s)
    else if c == b'+'
    then pos (digits_value 0 s)
    else pos (digits_value 0 (c ∷ s))

skip_spaces : Bytes → Bytes
skip_spaces [] = []
skip_spaces (c ∷ s) = let rest = skip_spaces s in if is_space c then rest else c ∷ s

unfoldable pub atoi : Bytes → ℤ
unfolding digits_value signed_value skip_spaces is_digit wrap
atoi s = wrap (signed_value (skip_spaces s))

-- A text that starts with a digit, and one that starts with a minus sign.
pub atoi_digit :
    (c : ℕ) (s : Bytes) → b'0' ≤ c → c ≤ b'9' → atoi (c ∷ s) ≡ wrap (pos (digits_value 0 (c ∷ s)))
unfolding atoi signed_value skip_spaces
atoi_digit c s low high =
    let no_space : is_space c ≡ false = ground arith in
    let no_minus : c == b'-' ≡ false = ground arith in
    let no_plus : c == b'+' ≡ false = ground arith in rw (no_space, no_minus, no_plus) refl

pub atoi_minus : (s : Bytes) → atoi (b'-' ∷ s) ≡ wrap (sub_ℕ 0 (digits_value 0 s))
unfolding atoi signed_value skip_spaces
atoi_minus s = refl
