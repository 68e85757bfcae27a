-- ===== src/Script/Parser.antt =====
-- The parser of scripts, src/super-smack-yacc.yy: the automaton of its grammar with its actions,
-- which runs them while it reads, each as soon as its rule ends.
pub mod Meaning
pub mod Exprs
pub mod Complete
pub mod Sound
use super_smack.Prelude.{
  Option, none, some, List, [], ◌∷◌, ◌++◌, Bytes, codes, Bool, true, false, if◌then◌else◌,
}
use super_smack.Result.{Result, ok, died, ◌>>=◌, parse_error}
use super_smack.Main.{MainLine}
use super_smack.Script.Token.{
  Word, Token, word, mark, ident_sym, number_sym, string_sym, query_sym, main_sym, open_sect_sym,
  close_sect_sym, open_paren_sym, close_paren_sym, semi_sym, dot_sym, comma_sym, dollar_sym,
  col_col_sym, eq_sym,
}
use super_smack.Script.Grammar.{
  Kind, kind_of, allows, SimpleExpr, number, string, argument, variable, client_type_param,
  client_param,
}

-- What the actions of the grammar call. `S` is the state of the process, `D` holds the definition
-- that a section fills, and `V` is the value of an expression.
pub record Actions {ℓ} (S D V : Type ℓ) : Type ℓ where
  -- `new Query`, `new Dict_def`, `new Client_def`, `new Table_def`
  pub new_def : Kind → D
  -- `set_q_param`, `update_dict_def`, `update_client_def`, `update_table_def`
  pub def_line : Word → Bytes → D → S → Result D
  -- the actions of `query`, `dict`, `client`, `table` and `section`
  pub end_section : Kind → Bytes → D → S → Result S
  -- the actions of `simple_expr`
  pub simple : SimpleExpr → S → Result V
  -- `new Val(*$1)` and `concat`
  pub concat : V → V → V
  -- `strval`
  pub text : V → Bytes
  -- `Main_line::execute`
  pub execute : MainLine → S → Result S
  -- the action of `assign_line`
  pub assign : Bytes → V → S → S

-- What an expression is read for: a parameter behind others, or the value of a variable.
pub data Use : Type 0 where
  param : Bytes → Bytes → List Bytes → Use
  assigned : Bytes → Use

-- What is on the stack of the parser: what it has read of the rules that it is in. A `Bool` is
-- false where a list has no element yet, an `Option` of a definition is none there.
pub data Mode {ℓ} (D V : Type ℓ) : Type ℓ where
  sections : Bool → Mode D V
  section_name : Kind → Mode D V
  section_open : Kind → Bytes → Mode D V
  section_line : Kind → Bytes → Option D → Mode D V
  section_value : Kind → Bytes → Option D → Word → Mode D V
  section_semi : Kind → Bytes → Option D → Word → Bytes → Mode D V
  main_open : Mode D V
  main_lines : Bool → Mode D V
  client_dot method_name : Bytes → Mode D V
  method_paren first_param : Bytes → Bytes → Mode D V
  params_semi : Bytes → Bytes → List Bytes → Mode D V
  assign_name : Mode D V
  assign_eq : Bytes → Mode D V
  -- an expression that begins, with the one left of its dot
  operand operand_dollar : Use → Option V → Mode D V
  operand_ident operand_colons : Use → Option V → Bytes → Mode D V
  operand_param operand_more : Use → Option V → Bytes → Bytes → Mode D V
  -- behind an expression
  behind : Use → V → Mode D V
  accepted : Mode D V

module _ {ℓ} {S D V : Type ℓ} (actions : Actions S D V) where
  -- The definition that a line is put into.
  abbrev pub def_of : Kind → Option D → D
  def_of k none = actions.new_def k
  def_of k (some d) = d

  -- `expr : expr DOT_SYM expr`
  abbrev pub with_left : Option V → V → V
  with_left none v = v
  with_left (some u) v = actions.concat u v

  -- `simple_expr`, and the expression that ends with it.
  unfoldable pub ended : Use → Option V → SimpleExpr → S → Result (Mode D V × S)
  ended u left e s = do v ← actions.simple e s; ok (behind u (with_left left v), s)

  -- The token behind an expression.
  unfoldable pub behind_step : Use → V → Token → S → Result (Mode D V × S)
  behind_step u v (mark dot_sym) s = ok (operand u (some v), s)
  behind_step (param c m ps) v (mark comma_sym) s =
      ok (operand (param c m (ps ++ actions.text v ∷ [])) none, s)
  behind_step (param c m ps) v (mark close_paren_sym) s =
      ok (params_semi c m (ps ++ actions.text v ∷ []), s)
  behind_step (assigned x) v (mark semi_sym) s = ok (main_lines true, actions.assign x v s)
  behind_step u v _ s = died parse_error

  -- The first token of an expression.
  unfoldable pub operand_step : Use → Option V → Token → S → Result (Mode D V × S)
  operand_step u left (number_sym n) s = ended u left (number n) s
  operand_step u left (string_sym t) s = ended u left (string t) s
  operand_step u left (mark dollar_sym) s = ok (operand_dollar u left, s)
  operand_step u left (ident_sym c) s = ok (operand_ident u left c, s)
  operand_step u left _ s = died parse_error

  -- The first token of a line of the main section, or its end.
  unfoldable pub main_step : Bool → Token → S → Result (Mode D V × S)
  main_step some_line (ident_sym c) s = ok (client_dot c, s)
  main_step some_line (mark dollar_sym) s = ok (assign_name, s)
  main_step true (mark close_sect_sym) s = ok (accepted, s)
  main_step some_line _ s = died parse_error

  -- The first token of a line of a section, or its end.
  unfoldable pub section_step : Kind → Bytes → Option D → Token → S → Result (Mode D V × S)
  section_step k n d (word w) s =
      if allows k w then ok (section_value k n d w, s) else died parse_error
  section_step k n (some d) (mark close_sect_sym) s = do
    s' ← actions.end_section k n d s
    ok (sections true, s')
  section_step k n d _ s = died parse_error

  -- A section, or the main section behind one.
  unfoldable pub sections_step : Bool → Option Kind → Word → S → Result (Mode D V × S)
  sections_step some_section (some k) w s = ok (section_name k, s)
  sections_step true none main_sym s = ok (main_open, s)
  sections_step some_section none _ s = died parse_error

  -- One token.
  unfoldable pub step : Mode D V → Token → S → Result (Mode D V × S)
  step (sections some_section) (word w) s = sections_step some_section (kind_of w) w s
  step (section_name k) (string_sym n) s = ok (section_open k n, s)
  step (section_open k n) (mark open_sect_sym) s = ok (section_line k n none, s)
  step (section_line k n d) t s = section_step k n d t s
  step (section_value k n d w) (string_sym str) s = ok (section_semi k n d w str, s)
  step (section_semi k n d w str) (mark semi_sym) s = do
    d' ← actions.def_line w str (def_of k d) s
    ok (section_line k n (some d'), s)
  step main_open (mark open_sect_sym) s = ok (main_lines false, s)
  step (main_lines some_line) t s = main_step some_line t s
  step (client_dot c) (mark dot_sym) s = ok (method_name c, s)
  step (method_name c) (ident_sym m) s = ok (method_paren c m, s)
  step (method_name c) (word query_sym) s = ok (method_paren c (codes "query"), s)
  step (method_paren c m) (mark open_paren_sym) s = ok (first_param c m, s)
  step (first_param c m) (mark close_paren_sym) s = ok (params_semi c m [], s)
  step (first_param c m) (mark comma_sym) s = ok (operand (param c m []) none, s)
  step (first_param c m) t s = operand_step (param c m []) none t s
  step (params_semi c m ps) (mark semi_sym) s = do
    s' ← actions.execute (record { client = c; method = m; param_list = ps }) s
    ok (main_lines true, s')
  step assign_name (ident_sym x) s = ok (assign_eq x, s)
  step (assign_eq x) (mark eq_sym) s = ok (operand (assigned x) none, s)
  step (operand u left) t s = operand_step u left t s
  step (operand_dollar u left) (number_sym n) s = ended u left (argument n) s
  step (operand_dollar u left) (ident_sym x) s = ended u left (variable x) s
  step (operand_ident u left c) (mark col_col_sym) s = ok (operand_colons u left c, s)
  step (operand_colons u left c) (ident_sym p) s = ok (operand_param u left c p, s)
  step (operand_param u left c p) (mark col_col_sym) s = ok (operand_more u left c p, s)
  step (operand_param u left c p) t s = do
    v ← actions.simple (client_param c p) s
    behind_step u (with_left left v) t s
  step (operand_more u left c t) (ident_sym p) s = ended u left (client_type_param c t p) s
  step (behind u v) t s = behind_step u v t s
  step _ _ s = died parse_error

  -- At the end of the script.
  unfoldable pub finish : Mode D V → S → Result S
  finish accepted s = ok s
  finish (operand_param u left c p) s = do v ← actions.simple (client_param c p) s; died parse_error
  finish _ s = died parse_error

  unfoldable pub run : Mode D V → List Token → S → Result S
  run m [] s = finish m s
  run m (t ∷ ts) s = do (m', s') ← step m t s; run m' ts s'

  -- `yyparse`
  unfoldable pub yyparse : List Token → S → Result S
  yyparse ts s = run (sections false) ts s
