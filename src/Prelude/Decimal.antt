-- ===== src/Prelude/Decimal.antt =====
-- An `int` as `cout` prints it.
use super_smack.Prelude.Tests.{ltb, if◌then◌else◌, Bool-cases}
use super_smack.Prelude.Text.{Bytes, is_digit}
use super_smack.Prelude.Int.{ℤ, pos, negsuc, IsInt, wrap, wrap-eq, sub_ℕ}
use super_smack.Prelude.Atoi.{digits_value, atoi, atoi_digit, atoi_minus}
use Prim.Native.Nat.{ℕ, zero, suc, ◌+◌, ◌*◌, ◌/◌, ◌%◌, ◌<◌, ◌≤◌}
use mathlib.Core.Path.{◌≡◌, refl, sym, ap, ◌∙◌}
use mathlib.Core.Bool.{true}
use mathlib.Core.Logic.{inl, inr}
use mathlib.Core.List.{[], ◌∷◌}
use native.Mathlib.Omega.{arith}

-- The digits of a number, before those in `s`; a number has no more of them than `fuel` if it is
-- less than that.
unfoldable pub digits : ℕ → ℕ → Bytes → Bytes
digits zero n s = s
digits (suc fuel) n s =
    let rest = digits fuel (n / 10) ((b'0' + n % 10) ∷ s) in
    if ltb n 10 then (b'0' + n) ∷ s else rest

unfoldable pub int_text : ℤ → Bytes
int_text (pos n) = digits (suc n) n []
int_text (negsuc n) = b'-' ∷ digits (suc (suc n)) (suc n) []

digits_value-digit :
    (k n : ℕ) (s : Bytes) → n < 10 → digits_value k ((b'0' + n) ∷ s) ≡ digits_value (k * 10 + n) s
unfolding digits_value is_digit
digits_value-digit k n s h = rw digit (ap (λ j. digits_value j s) (omega arith))
  where
    digit : is_digit (b'0' + n) ≡ true
    digit = ground (arith, h)

digits_value-digits :
    (fuel n : ℕ) (s : Bytes) → n < fuel → digits_value 0 (digits fuel n s) ≡ digits_value n s
unfolding digits
digits_value-digits zero n s h = absurd (omega (arith, h))
digits_value-digits (suc fuel) n s h = elim (Bool-cases (ltb n 10)) [
  | inl few ↦
      rw few
        (digits_value-digit 0 n s (ground (arith, few)) ∙ ap (λ k. digits_value k s) (omega arith))
  | inr more ↦ rw more (
      digits_value-digits fuel (n / 10) ((b'0' + n % 10) ∷ s) (ground (arith, more, h))
      ∙ digits_value-digit (n / 10) (n % 10) s (omega arith)
      ∙ ap (λ k. digits_value k s) (omega arith))
]

-- It starts with a digit.
digits_head :
    (fuel n : ℕ) (s : Bytes)
    → n < fuel
    → (c : ℕ) × (r : Bytes) × (digits fuel n s ≡ c ∷ r) × (b'0' ≤ c) × (c ≤ b'9')
unfolding digits
digits_head zero n s h = absurd (omega (arith, h))
digits_head (suc fuel) n s h = elim (Bool-cases (ltb n 10)) [
  | inl few ↦ rw few (b'0' + n, s, refl, omega arith, ground (arith, few))
  | inr more ↦ rw more (digits_head fuel (n / 10) ((b'0' + n % 10) ∷ s) (ground (arith, more, h)))
]

-- `atoi` reads back what is printed of an `int`.
pub atoi-int_text : (z : ℤ) → IsInt z → atoi (int_text z) ≡ z
unfolding int_text digits_value
atoi-int_text (pos n) h =
    let (c, r, e, low, high) = digits_head (suc n) n [] (omega arith) in
    let read : atoi (c ∷ r) ≡ wrap (pos n) =
      atoi_digit c r low high
      ∙ ap (λ s. wrap (pos (digits_value 0 s))) (sym e)
      ∙ ap (λ k. wrap (pos k)) (digits_value-digits (suc n) n [] (omega arith)) in
    ap atoi e ∙ read ∙ wrap-eq (pos n) h
atoi-int_text (negsuc n) h =
    atoi_minus (digits (suc (suc n)) (suc n) [])
    ∙ ap (λ k. wrap (sub_ℕ 0 k)) (digits_value-digits (suc (suc n)) (suc n) [] (omega arith))
    ∙ ap wrap (ground arith)
    ∙ wrap-eq (negsuc n) h
