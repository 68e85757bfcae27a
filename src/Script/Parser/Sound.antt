-- ===== src/Script/Parser/Sound.antt =====
-- The parser takes nothing but the tokens of a script of the grammar: what stands behind each mode,
-- if the parser comes to its end, is the rest of a script.
pub mod Joins
pub mod Steps
use super_smack.Prelude.{
  ◌≡◌, refl, sym, ap, ◌∙◌, Option, none, some, List, [], ◌∷◌, ◌++◌, Bytes, Bool, true, false,
  append_assoc, All,
}
use super_smack.Script.Token.{
  Word, Token, Mark, word, mark, ident_sym, number_sym, string_sym, main_sym, open_sect_sym,
  close_sect_sym, open_paren_sym, close_paren_sym, semi_sym, dot_sym, comma_sym, dollar_sym,
  col_col_sym, eq_sym,
}
use super_smack.Script.Grammar.{
  Kind, kind_word, allows, SimpleExpr, Expr, Line, main_line, assign_line, ParamsText, MethodName,
  DefLine, SectionText, simple_tokens, operand_tokens, expr_tokens, other_tokens, param_tokens,
  method_token, line_tokens, def_line_tokens, section_tokens, lines_tokens, sections_tokens,
  main_tokens,
}
use super_smack.Script.Parser.{
  Use, param, assigned, Mode, sections, section_name, section_open, section_line, section_value,
  section_semi, main_open, main_lines, client_dot, method_name, method_paren, first_param,
  params_semi, assign_name, assign_eq, operand, operand_dollar, operand_ident, operand_colons,
  operand_param, operand_more, behind, accepted,
}
use super_smack.Script.Parser.Complete.{IsSection}

-- One element at least, if there is none yet.
abbrev pub Some {ℓ} : {A : Type ℓ} → Bool → List A → Type 0
Some true xs = Unit
Some false [] = ⊥
Some false (x ∷ xs) = Unit

abbrev pub Lines : Bool → List Token → Type 0
Lines b ts = (ls : List Line) × Some b ls × (ts ≡ lines_tokens ls ++ mark close_sect_sym ∷ [])

abbrev pub Sections : Bool → List Token → Type 0
Sections b ts =
    (tt : List SectionText) × (l : Line) × (ls : List Line) × All IsSection tt
    × Some b tt
    × (ts ≡ sections_tokens tt ++ main_tokens (l ∷ ls))

abbrev pub DefLines : Kind → List Token → Type 0
DefLines k ts =
    (ls : List DefLine) × (ts' : List Token) × All (λ (l : DefLine). allows k l.key ≡ true) ls
    × (ts ≡ def_line_tokens ls ++ mark close_sect_sym ∷ ts')
    × Sections true ts'

abbrev pub InSection {ℓ} : {D : Type ℓ} → Kind → Bytes → Option D → List Token → Type 0
InSection k n none ts = Sections false (word (kind_word k) ∷ string_sym n ∷ mark open_sect_sym ∷ ts)
InSection k n (some d) ts = DefLines k ts

abbrev pub Semi : List Token → Type 0
Semi ts = (ts' : List Token) × (ts ≡ mark semi_sym ∷ ts') × Lines true ts'

abbrev pub Others : List Token → Type 0
Others ts =
    (es : List Expr) × (ts' : List Token) × (ts ≡ other_tokens es ++ mark close_paren_sym ∷ ts')
    × Semi ts'

abbrev pub Params : List Token → Type 0
Params ts =
    (t : ParamsText) × (ts' : List Token) × (ts ≡ param_tokens t ++ mark close_paren_sym ∷ ts')
    × Semi ts'

abbrev pub Ending : Use → List Token → Type 0
Ending (param c m ps) = Others
Ending (assigned x) = Semi

abbrev pub Operands : Use → List Token → Type 0
Operands u ts =
    (es : List SimpleExpr) × (ts' : List Token) × (ts ≡ operand_tokens es ++ ts') × Ending u ts'

abbrev pub Operand : Use → List Token → Type 0
Operand u ts =
    (e : SimpleExpr) × (ts' : List Token) × (ts ≡ simple_tokens e ++ ts') × Operands u ts'

-- What is left of a script in a mode. What the mode has read of a rule stands before it.
abbrev pub Rest {ℓ} : {D V : Type ℓ} → Mode D V → List Token → Type 0
Rest (sections b) ts = Sections b ts
Rest (section_name k) ts = Sections false (word (kind_word k) ∷ ts)
Rest (section_open k n) ts = Sections false (word (kind_word k) ∷ string_sym n ∷ ts)
Rest (section_line k n d) ts = InSection k n d ts
Rest (section_value k n d w) ts = allows k w ≡ true → InSection k n d (word w ∷ ts)
Rest (section_semi k n d w str) ts =
    allows k w ≡ true → InSection k n d (word w ∷ string_sym str ∷ ts)
Rest main_open ts = Sections true (word main_sym ∷ ts)
Rest (main_lines b) ts = Lines b ts
Rest (client_dot c) ts = Lines false (ident_sym c ∷ ts)
Rest (method_name c) ts = Lines false (ident_sym c ∷ mark dot_sym ∷ ts)
Rest (method_paren c m) ts =
    (n : MethodName) → Lines false (ident_sym c ∷ mark dot_sym ∷ method_token n ∷ ts)
Rest (first_param c m) ts =
    (n : MethodName)
    → Lines false (ident_sym c ∷ mark dot_sym ∷ method_token n ∷ mark open_paren_sym ∷ ts)
Rest (params_semi c m ps) ts = Semi ts
Rest assign_name ts = Lines false (mark dollar_sym ∷ ts)
Rest (assign_eq x) ts = Lines false (mark dollar_sym ∷ ident_sym x ∷ ts)
Rest (operand u left) ts = Operand u ts
Rest (operand_dollar u left) ts = Operand u (mark dollar_sym ∷ ts)
Rest (operand_ident u left c) ts = Operand u (ident_sym c ∷ ts)
Rest (operand_colons u left c) ts = Operand u (ident_sym c ∷ mark col_col_sym ∷ ts)
Rest (operand_param u left c p) ts = Operand u (ident_sym c ∷ mark col_col_sym ∷ ident_sym p ∷ ts)
Rest (operand_more u left c t) ts =
    Operand u (ident_sym c ∷ mark col_col_sym ∷ ident_sym t ∷ mark col_col_sym ∷ ts)
Rest (behind u v) ts = Operands u ts
Rest accepted ts = ts ≡ []
