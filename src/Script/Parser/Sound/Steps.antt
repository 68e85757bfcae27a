-- ===== src/Script/Parser/Sound/Steps.antt =====
-- Each token takes the parser from what is left of a script to what is left of it behind the token.
use super_smack.Prelude.{
  ◌≡◌, refl, sym, ap, ◌∙◌, Option, none, some, List, [], ◌∷◌, Bytes, Bool, true, false, Bool-cases,
  inl, inr, All,
}
use super_smack.Result.{Result, ok, died, crashed, ◌>>=◌, >>=-eq-ok}
use super_smack.Script.Token.{
  Word, Token, word, mark, ident_sym, number_sym, string_sym, query_sym, client_sym, dict_sym,
  table_sym, main_sym, open_sect_sym, close_sect_sym, open_paren_sym, close_paren_sym, semi_sym,
  dot_sym, comma_sym, dollar_sym, col_col_sym, eq_sym,
}
use super_smack.Script.Grammar.{
  Kind, kind_of, allows, SimpleExpr, number, string, argument, variable, client_param,
  client_type_param, MethodName, method_token, method_ident, method_query, Program, program_tokens,
}
use super_smack.Script.Parser.{
  Actions, Use, param, assigned, Mode, sections, section_name, section_open, section_line,
  section_value, section_semi, main_open, main_lines, client_dot, method_name, method_paren,
  first_param, params_semi, assign_name, assign_eq, operand, operand_dollar, operand_ident,
  operand_colons, operand_param, operand_more, behind, accepted, ended, def_of, with_left,
  behind_step, operand_step, main_step, section_step, sections_step, step, finish, run, yyparse,
}
use super_smack.Script.Parser.Meaning.{run_program}
use super_smack.Script.Parser.Complete.{IsSection, yyparse-run_program}
use super_smack.Script.Parser.Sound.{Lines, Sections, Rest, Operand, Operands, InSection}
use super_smack.Script.Parser.Sound.Joins.{
  Lines-any, Sections-any, Operand-assign, Operand-Others, Operand-Params, Others-Params,
  Operand-expr, Params-line, Lines-main, DefLines-line,
}

Sections-program :
    (ts : List Token)
    → Sections false ts
    → (p : Program) × All IsSection (p.section ∷ p.sections) × (program_tokens p ≡ ts)
Sections-program ts ([], l, ls, h, b, q) = absurd b
Sections-program ts (t ∷ tt', l, ls, h, b, q) =
    (record { section = t; sections = tt'; line = l; lines = ls }, h, sym q)

module _ {ℓ} {S D V : Type ℓ} (actions : Actions S D V) where
  -- Whatever is left behind a step that goes well, `Q` holds of what was left before it.
  abbrev pub Before : Type 0 → List Token → Result (Mode D V × S) → Type 0
  Before Q ts (ok (m, s)) = Rest m ts → Q
  Before Q ts _ = Unit

  Before-weaken :
      {Q R : Type 0} (ts : List Token) (call : Result (Mode D V × S))
      → (Q → R)
      → Before Q ts call
      → Before R ts call
  Before-weaken ts (ok (m, s)) f h = λ r. f (h r)
  Before-weaken ts (died why) f h = tt
  Before-weaken ts (crashed why) f h = tt

  >>=-Before :
      {R : Type ℓ} (Q : Type 0) (ts : List Token) (call : Result R)
      (rest : R → Result (Mode D V × S))
      → ((r : R) → Before Q ts (rest r))
      → Before Q ts (call >>= rest)
  >>=-Before Q ts (ok r) rest h = h r
  >>=-Before Q ts (died why) rest h = tt
  >>=-Before Q ts (crashed why) rest h = tt

  ended-Before :
      (u : Use) (left : Option V) (e : SimpleExpr) (ts rest : List Token) (s : S)
      → (Operands u ts → Operand u rest)
      → Before (Operand u rest) ts (ended actions u left e s)
  unfolding ended
  ended-Before u left e ts rest s h = >>=-Before _ ts (actions.simple e s) _ (λ v. h)

  behind_step-Before :
      (u : Use) (v : V) (t : Token) (ts : List Token) (s : S)
      → Before (Operands u (t ∷ ts)) ts (behind_step actions u v t s)
  unfolding behind_step
  behind_step-Before u v (mark dot_sym) ts s = λ r.
      let (e, ts', p, q) = Operand-expr u ts r in
      (e.head ∷ e.operands, ts', ap (λ more. mark dot_sym ∷ more) p, q)
  behind_step-Before (param c m ps) v (mark comma_sym) ts s =
      λ r. ([], mark comma_sym ∷ ts, refl, Operand-Others c m ps ts r)
  behind_step-Before (param c m ps) v (mark close_paren_sym) ts s =
      λ r. ([], mark close_paren_sym ∷ ts, refl, ([], ts, refl, r))
  behind_step-Before (assigned x) v (mark semi_sym) ts s =
      λ r. ([], mark semi_sym ∷ ts, refl, (ts, refl, r))
  behind_step-Before u v _ ts s = tt

  operand_step-Before :
      (u : Use) (left : Option V) (t : Token) (ts : List Token) (s : S)
      → Before (Operand u (t ∷ ts)) ts (operand_step actions u left t s)
  unfolding operand_step
  operand_step-Before u left (number_sym n) ts s =
      ended-Before u left (number n) ts (number_sym n ∷ ts) s (λ r. (number n, ts, refl, r))
  operand_step-Before u left (string_sym n) ts s =
      ended-Before u left (string n) ts (string_sym n ∷ ts) s (λ r. (string n, ts, refl, r))
  operand_step-Before u left (mark dollar_sym) ts s = λ r. r
  operand_step-Before u left (ident_sym c) ts s = λ r. r
  operand_step-Before u left _ ts s = tt

  main_step-Before :
      (b : Bool) (t : Token) (ts : List Token) (s : S)
      → Before (Lines b (t ∷ ts)) ts (main_step actions b t s)
  unfolding main_step
  main_step-Before b (ident_sym c) ts s = Lines-any b (ident_sym c ∷ ts)
  main_step-Before b (mark dollar_sym) ts s = Lines-any b (mark dollar_sym ∷ ts)
  main_step-Before true (mark close_sect_sym) ts s =
      λ e. ([], tt, ap (λ more. mark close_sect_sym ∷ more) e)
  main_step-Before b _ ts s = tt

  section_step-Before :
      (k : Kind) (n : Bytes) (d : Option D) (t : Token) (ts : List Token) (s : S)
      → Before (InSection k n d (t ∷ ts)) ts (section_step actions k n d t s)
  unfolding section_step
  section_step-Before k n d (word w) ts s = elim (Bool-cases (allows k w)) [
    | inl a ↦ rw (a, section_step) (λ r. r a)
    | inr a ↦ rw (a, section_step) tt
  ]
  section_step-Before k n (some d) (mark close_sect_sym) ts s =
      >>=-Before _ ts (actions.end_section k n d s) _ (λ s' r. ([], ts, tt, refl, r))
  section_step-Before k n d _ ts s = tt

  sections_step-Before :
      (b : Bool) (w : Word) (ts : List Token) (s : S)
      → Before (Sections b (word w ∷ ts)) ts (sections_step actions b (kind_of w) w s)
  unfolding sections_step kind_of
  sections_step-Before b query_sym ts s = Sections-any b (word query_sym ∷ ts)
  sections_step-Before b client_sym ts s = Sections-any b (word client_sym ∷ ts)
  sections_step-Before b dict_sym ts s = Sections-any b (word dict_sym ∷ ts)
  sections_step-Before b table_sym ts s = Sections-any b (word table_sym ∷ ts)
  sections_step-Before true main_sym ts s = λ r. r
  sections_step-Before true _ ts s = tt
  sections_step-Before false _ ts s = tt

  first_param-Before :
      (c m : Bytes) (t : Token) (ts : List Token) (s : S)
      → Before
          ((n : MethodName)
            → Lines false
                (ident_sym c ∷ mark dot_sym ∷ method_token n ∷ mark open_paren_sym ∷ t ∷ ts))
          ts
          (step actions (first_param c m) t s)
  unfolding step
  first_param-Before c m (mark close_paren_sym) ts s =
      λ r n. Params-line c n (mark close_paren_sym ∷ ts) (Others-Params _ ([], ts, refl, r))
  first_param-Before c m (mark comma_sym) ts s =
      λ r n. Params-line c n (mark comma_sym ∷ ts) (Others-Params _ (Operand-Others c m [] ts r))
  first_param-Before c m t ts s =
      Before-weaken ts (operand_step actions (param c m []) none t s)
        (λ r n. Params-line c n (t ∷ ts) (Operand-Params c m [] (t ∷ ts) r))
        (operand_step-Before (param c m []) none t ts s)

  step-Before :
      (m : Mode D V) (t : Token) (ts : List Token) (s : S)
      → Before (Rest m (t ∷ ts)) ts (step actions m t s)
  unfolding step
  step-Before (sections b) (word w) ts s = sections_step-Before b w ts s
  step-Before (section_name k) (string_sym n) ts s = λ r. r
  step-Before (section_open k n) (mark open_sect_sym) ts s = λ r. r
  step-Before (section_line k n d) t ts s = section_step-Before k n d t ts s
  step-Before (section_value k n d w) (string_sym str) ts s = λ r. r
  step-Before (section_semi k n d w str) (mark semi_sym) ts s =
      >>=-Before _ ts (actions.def_line w str (def_of actions k d) s) _
        (λ d' r. DefLines-line k n d w str ts r)
  step-Before main_open (mark open_sect_sym) ts s = Lines-main ts
  step-Before (main_lines b) t ts s = main_step-Before b t ts s
  step-Before (client_dot c) (mark dot_sym) ts s = λ r. r
  step-Before (method_name c) (ident_sym m) ts s = λ r. r (method_ident m)
  step-Before (method_name c) (word query_sym) ts s = λ r. r method_query
  step-Before (method_paren c m) (mark open_paren_sym) ts s = λ r. r
  step-Before (first_param c m) t ts s = first_param-Before c m t ts s
  step-Before (params_semi c m ps) (mark semi_sym) ts s =
      >>=-Before _ ts (actions.execute _ s) _ (λ s' r. (ts, refl, r))
  step-Before assign_name (ident_sym x) ts s = λ r. r
  step-Before (assign_eq x) (mark eq_sym) ts s = Operand-assign x ts
  step-Before (operand u left) t ts s = operand_step-Before u left t ts s
  step-Before (operand_dollar u left) (number_sym n) ts s =
      ended-Before u left (argument n) ts (mark dollar_sym ∷ number_sym n ∷ ts) s
        (λ r. (argument n, ts, refl, r))
  step-Before (operand_dollar u left) (ident_sym x) ts s =
      ended-Before u left (variable x) ts (mark dollar_sym ∷ ident_sym x ∷ ts) s
        (λ r. (variable x, ts, refl, r))
  step-Before (operand_ident u left c) (mark col_col_sym) ts s = λ r. r
  step-Before (operand_colons u left c) (ident_sym p) ts s = λ r. r
  step-Before (operand_param u left c p) (mark col_col_sym) ts s = λ r. r
  step-Before (operand_param u left c p) t ts s =
      >>=-Before _ ts (actions.simple (client_param c p) s) _ (λ v.
        Before-weaken ts (behind_step actions u (with_left actions left v) t s)
          (λ r. (client_param c p, t ∷ ts, refl, r))
          (behind_step-Before u (with_left actions left v) t ts s))
  step-Before (operand_more u left c t) (ident_sym p) ts s =
      ended-Before u left (client_type_param c t p) ts _ s
        (λ r. (client_type_param c t p, ts, refl, r))
  step-Before (behind u v) t ts s = behind_step-Before u v t ts s
  step-Before _ _ ts s = tt

  finish-Rest : (m : Mode D V) (s : S) {s' : S} → finish actions m s ≡ ok s' → Rest m []
  unfolding finish
  finish-Rest accepted s e = refl
  finish-Rest (operand_param u left c p) s e =
      let (v, _, q) = >>=-eq-ok (actions.simple (client_param c p) s) _ e in cc
  finish-Rest (sections _) s e = cc
  finish-Rest _ s e = cc

  run-Rest :
      (m : Mode D V) (ts : List Token) (s : S) {s' : S} → run actions m ts s ≡ ok s' → Rest m ts
  unfolding run
  run-Rest m [] s e = finish-Rest m s e
  run-Rest m (t ∷ ts) s e =
      let ((m', s1), p, q) = >>=-eq-ok (step actions m t s) _ e in
      let h : Before (Rest m (t ∷ ts)) ts (ok (m', s1)) = rw p at (step-Before m t ts s) in
      h (run-Rest m' ts s1 q)

  -- Where the parser comes to its end, the tokens are those of a script, of sections with only
  -- lines that their kinds allow, and the state is what the script means.
  pub yyparse-program :
      (ts : List Token) (s : S) {s' : S}
      → yyparse actions ts s ≡ ok s'
      → (p : Program) × All IsSection (p.section ∷ p.sections)
        × (program_tokens p ≡ ts)
        × (run_program actions p s ≡ ok s')
  unfolding yyparse
  yyparse-program ts s e =
      let (p, h, q) = Sections-program ts (run-Rest (sections false) ts s e) in
      (p, h, q, sym (yyparse-run_program actions p s h) ∙ ap (λ us. yyparse actions us s) q ∙ e)
