-- ===== src/Dictionary/Template.antt =====
-- `fix_template`: what is left of the fields of a template.
use super_smack.Prelude.{
  ℕ, ◌+◌, ◌≤◌, ◌≡◌, ◌≢◌, refl, Bool, true, false, [], ◌∷◌, ◌++◌, append-nil, arith, if◌then◌else◌,
  ◌==◌, Bytes, All, ap, ◌∙◌,
}
use super_smack.Dictionary.{fix_loop, fix_template}

-- How often a byte stands in a text.
abbrev pub count : ℕ → Bytes → ℕ
count b [] = 0
count b (c ∷ s) = (if c == b then 1 else 0) + count b s

fix_loop_fields :
    (saw last : Bool) (s : Bytes) → count b'%' (fix_loop saw last s) ≤ (if saw then 0 else 1)
unfolding fix_loop
fix_loop_fields saw last [] = ground arith
fix_loop_fields saw last (c ∷ s) =
    ground
      (arith, fix_loop_fields saw true s, fix_loop_fields true false s, fix_loop_fields saw false s)

-- A template that was fixed asks `snprintf` for at most one argument, the one that it is given.
pub fix_template_fields : (templ : Bytes) → count b'%' (fix_template templ) ≤ 1
unfolding fix_template
fix_template_fields templ = fix_loop_fields false false templ

abbrev pub IsPlain : Bytes → Type 0
IsPlain = All (λ c. c ≢ b'%')

fix_loop-plain :
    (saw : Bool) (s rest : Bytes)
    → IsPlain s
    → fix_loop saw false (s ++ rest) ≡ s ++ fix_loop saw false rest
unfolding fix_loop
fix_loop-plain saw [] rest h = refl
fix_loop-plain saw (c ∷ s) rest h = ground (arith, fix_loop-plain saw s rest h.1)

fix_loop_field :
    (c : ℕ) (s : Bytes)
    → c ≢ b'%'
    → fix_loop false false (b'%' ∷ c ∷ s) ≡ b'%' ∷ c ∷ fix_loop true false s
unfolding fix_loop
fix_loop_field c s h = ground arith

fix_loop_cut : (d : ℕ) (rest : Bytes) → d ≢ b'%' → fix_loop true false (b'%' ∷ d ∷ rest) ≡ []
unfolding fix_loop
fix_loop_cut d rest h = ground arith

fix_loop_nil : (saw : Bool) → fix_loop saw false [] ≡ []
unfolding fix_loop
fix_loop_nil saw = refl

-- A template keeps its text up to the first field, that field, and the text behind it up to the
-- next field, where it is cut.
pub fix_template-append :
    (before : Bytes) (c : ℕ) (after : Bytes) (d : ℕ) (rest : Bytes)
    → IsPlain before
    → c ≢ b'%'
    → IsPlain after
    → d ≢ b'%'
    → (fix_template (before ++ (b'%' ∷ c ∷ after)) ≡ before ++ (b'%' ∷ c ∷ after))
      × (fix_template (before ++ (b'%' ∷ c ∷ (after ++ (b'%' ∷ d ∷ rest))))
          ≡ before ++ (b'%' ∷ c ∷ after))
unfolding fix_template
fix_template-append before c after d rest hb hc ha hd = (
  fix_loop-plain false before _ hb ∙ ap (λ s. before ++ s) (fix_loop_field c after hc ∙ whole),
  fix_loop-plain false before _ hb
      ∙ ap (λ s. before ++ s) (fix_loop_field c (after ++ (b'%' ∷ d ∷ rest)) hc ∙ cut),
)
  where
    whole : b'%' ∷ c ∷ fix_loop true false after ≡ b'%' ∷ c ∷ after
    whole =
        ap (λ s. b'%' ∷ c ∷ s)
          (rw append-nil at (rw (fix_loop_nil true) at (fix_loop-plain true after [] ha)))

    cut : b'%' ∷ c ∷ fix_loop true false (after ++ (b'%' ∷ d ∷ rest)) ≡ b'%' ∷ c ∷ after
    cut =
        ap (λ s. b'%' ∷ c ∷ s)
          (fix_loop-plain true after _ ha
            ∙ ap (λ s. after ++ s) (fix_loop_cut d rest hd)
            ∙ append-nil after)
