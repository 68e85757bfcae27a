-- ===== src/Script/Parser/Sound/Joins.antt =====
-- A part of a script with the rest behind it is a rest of the script.
use super_smack.Prelude.{
  ◌≡◌, sym, ap, ◌∙◌, Option, none, some, List, [], ◌∷◌, ◌++◌, Bytes, Bool, true, false,
  append_assoc,
}
use super_smack.Script.Token.{
  Word, Token, word, mark, ident_sym, string_sym, main_sym, open_sect_sym, close_sect_sym,
  open_paren_sym, close_paren_sym, semi_sym, dot_sym, comma_sym, dollar_sym, eq_sym,
}
use super_smack.Script.Grammar.{
  Kind, kind_word, allows, Expr, main_line, assign_line, MethodName, SectionText, simple_tokens,
  operand_tokens, expr_tokens, other_tokens, param_tokens, method_token, def_line_tokens,
  lines_tokens, sections_tokens, main_tokens,
}
use super_smack.Script.Parser.{Use, param, assigned}
use super_smack.Script.Parser.Sound.{
  Lines, Sections, DefLines, InSection, Others, Params, Ending, Operand,
}

pub Lines-any : (b : Bool) (ts : List Token) → Lines false ts → Lines b ts
Lines-any true ts (ls, h, e) = (ls, tt, e)
Lines-any false ts r = r

pub Sections-any : (b : Bool) (ts : List Token) → Sections false ts → Sections b ts
Sections-any true ts (tt', l, ls, h, s, e) = (tt', l, ls, h, tt, e)
Sections-any false ts r = r

-- An operand with what is behind its dots is an expression.
pub Operand-expr :
    (u : Use) (ts : List Token)
    → Operand u ts
    → (e : Expr) × (ts' : List Token) × (ts ≡ expr_tokens e ++ ts') × Ending u ts'
Operand-expr u ts (e, ts1, p, (es, ts2, q, r)) = (
  record { head = e; operands = es },
  ts2,
  p
      ∙ ap (λ more. simple_tokens e ++ more) q
      ∙ sym (append_assoc (simple_tokens e) (operand_tokens es) ts2),
  r,
)

append_inner {ℓ} :
    {A : Type ℓ} (xs ys zs us : List A) → ((xs ++ ys) ++ zs) ++ us ≡ xs ++ (ys ++ (zs ++ us))
append_inner xs ys zs us = append_assoc (xs ++ ys) zs us ∙ append_assoc xs ys (zs ++ us)

pub Operand-assign :
    (x : Bytes) (ts : List Token)
    → Operand (assigned x) ts
    → Lines false (mark dollar_sym ∷ ident_sym x ∷ mark eq_sym ∷ ts)
Operand-assign x ts r =
    let (e, ts1, p, (ts2, q, (ls, h, l))) = Operand-expr (assigned x) ts r in
    (
      assign_line x e ∷ ls,
      tt,
      ap (λ more. mark dollar_sym ∷ ident_sym x ∷ mark eq_sym ∷ more)
          (rw (p, q, l)
            (sym (
              append_inner (expr_tokens e) (mark semi_sym ∷ []) (lines_tokens ls)
                (mark close_sect_sym ∷ [])))),
    )

pub Operand-Others :
    (c m : Bytes) (ps : List Bytes) (ts : List Token)
    → Operand (param c m ps) ts
    → Others (mark comma_sym ∷ ts)
Operand-Others c m ps ts r =
    let (e, ts1, p, (es, ts2, q, l)) = Operand-expr (param c m ps) ts r in
    (
      e ∷ es,
      ts2,
      ap (λ more. mark comma_sym ∷ more)
          (p
            ∙ ap (λ more. expr_tokens e ++ more) q
            ∙ sym (append_assoc (expr_tokens e) (other_tokens es) (mark close_paren_sym ∷ ts2))),
      l,
    )

pub Operand-Params :
    (c m : Bytes) (ps : List Bytes) (ts : List Token) → Operand (param c m ps) ts → Params ts
Operand-Params c m ps ts r =
    let (e, ts1, p, (es, ts2, q, l)) = Operand-expr (param c m ps) ts r in
    (
      record { leading = some e; others = es },
      ts2,
      p
          ∙ ap (λ more. expr_tokens e ++ more) q
          ∙ sym (append_assoc (expr_tokens e) (other_tokens es) (mark close_paren_sym ∷ ts2)),
      l,
    )

pub Others-Params : (ts : List Token) → Others ts → Params ts
Others-Params ts (es, ts', p, l) = (record { leading = none; others = es }, ts', p, l)

pub Params-line :
    (c : Bytes) (n : MethodName) (ts : List Token)
    → Params ts
    → Lines false (ident_sym c ∷ mark dot_sym ∷ method_token n ∷ mark open_paren_sym ∷ ts)
Params-line c n ts (t, ts1, p, (ts2, q, (ls, h, l))) = (
  main_line c n t ∷ ls,
  tt,
  ap (λ more. ident_sym c ∷ mark dot_sym ∷ method_token n ∷ mark open_paren_sym ∷ more)
      (rw (p, q, l)
        (sym (
          append_inner (param_tokens t) (mark close_paren_sym ∷ mark semi_sym ∷ [])
            (lines_tokens ls) (mark close_sect_sym ∷ [])))),
)

pub Lines-main :
    (ts : List Token) → Lines false ts → Sections true (word main_sym ∷ mark open_sect_sym ∷ ts)
Lines-main ts ([], h, e) = absurd h
Lines-main ts (l ∷ ls, h, e) =
    ([], l, ls, tt, tt, ap (λ more. word main_sym ∷ mark open_sect_sym ∷ more) e)

-- A line of a section, the first one or another.
pub DefLines-line {ℓ} :
    {D : Type ℓ} (k : Kind) (n : Bytes) (d : Option D) (w : Word) (str : Bytes) (ts : List Token)
    → DefLines k ts
    → allows k w ≡ true
    → InSection k n d (word w ∷ string_sym str ∷ mark semi_sym ∷ ts)
DefLines-line k n (some d) w str ts (ls, ts', h, e, r) a = (
  record { key = w; value = str } ∷ ls,
  ts',
  (a, h),
  ap (λ more. word w ∷ string_sym str ∷ mark semi_sym ∷ more) e,
  r,
)
DefLines-line k n none w str ts (ls, ts', h, e, (tt', l, ls', g, b, e')) a =
    let t : SectionText = record {
      kind = k;
      name = n;
      first = record { key = w; value = str };
      more = ls;
    } in
    (
      t ∷ tt',
      l,
      ls',
      ((a, h), g),
      tt,
      ap
          (λ more.
            word (kind_word k)
            ∷ string_sym n
            ∷ mark open_sect_sym
            ∷ word w
            ∷ string_sym str
            ∷ mark semi_sym
            ∷ more)
          (rw (e, e')
            (sym (
              append_inner (def_line_tokens ls) (mark close_sect_sym ∷ []) (sections_tokens tt')
                (main_tokens (l ∷ ls'))))),
    )
