-- ===== src/Script/Grammar.antt =====
-- The grammar of scripts, src/super-smack-yacc.yy: what a script is, and which tokens it is made of.
use super_smack.Prelude.{Option, none, some, List, [], ◌∷◌, ◌++◌, Bytes, Bool, true, false}
use super_smack.Script.Token.{
  Word, Token, word, mark, ident_sym, number_sym, string_sym, query_sym, type_sym,
  has_result_set_sym, client_sym, dict_sym, table_sym, delim_sym, file_size_equiv_sym, create_sym,
  min_rows_sym, data_file_sym, gen_data_file_sym, parsed_sym, query_barrel_sym, source_sym,
  source_type_sym, main_sym, db_sym, host_sym, user_sym, pass_sym, port_sym, socket_sym,
  open_sect_sym, close_sect_sym, open_paren_sym, close_paren_sym, semi_sym, dot_sym, comma_sym,
  dollar_sym, col_col_sym, eq_sym,
}

-- `query`, `dict`, `client` and `table`.
pub data Kind : Type 0 where
  query_kind dict_kind client_kind table_kind : Kind

-- The alternatives of `section`, by their first token.
unfoldable pub kind_of : Word → Option Kind
kind_of query_sym = some query_kind
kind_of dict_sym = some dict_kind
kind_of client_sym = some client_kind
kind_of table_sym = some table_kind
kind_of _ = none

abbrev pub kind_word : Kind → Word
kind_word query_kind = query_sym
kind_word dict_kind = dict_sym
kind_word client_kind = client_sym
kind_word table_kind = table_sym

-- The alternatives of `query_def_line`, `dict_def_line`, `client_def_line` and `table_def_line`.
unfoldable pub allows : Kind → Word → Bool
allows query_kind query_sym = true
allows query_kind type_sym = true
allows query_kind has_result_set_sym = true
allows query_kind parsed_sym = true
allows dict_kind type_sym = true
allows dict_kind source_type_sym = true
allows dict_kind source_sym = true
allows dict_kind delim_sym = true
allows dict_kind file_size_equiv_sym = true
allows client_kind query_barrel_sym = true
allows client_kind user_sym = true
allows client_kind pass_sym = true
allows client_kind db_sym = true
allows client_kind host_sym = true
allows client_kind port_sym = true
allows client_kind socket_sym = true
allows table_kind client_sym = true
allows table_kind create_sym = true
allows table_kind min_rows_sym = true
allows table_kind data_file_sym = true
allows table_kind gen_data_file_sym = true
allows _ _ = false

-- A line of a section: its word and its string.
pub record DefLine : Type 0 where
  pub key : Word
  pub value : Bytes

-- A section has one line at least.
pub record SectionText : Type 0 where
  pub kind : Kind
  pub name : Bytes
  pub first : DefLine
  pub more : List DefLine

-- `simple_expr`
pub data SimpleExpr : Type 0 where
  number string argument variable : Bytes → SimpleExpr
  client_type_param : Bytes → Bytes → Bytes → SimpleExpr
  client_param : Bytes → Bytes → SimpleExpr

-- `expr`: `.` associates to the left.
pub record Expr : Type 0 where
  pub head : SimpleExpr
  pub operands : List SimpleExpr

-- `method_name`
pub data MethodName : Type 0 where
  method_ident : Bytes → MethodName
  method_query : MethodName

-- `param_list` begins with an expression, or is empty, and goes on with commas.
pub record ParamsText : Type 0 where
  pub leading : Option Expr
  pub others : List Expr

-- `main_line` and `assign_line`
pub data Line : Type 0 where
  main_line : Bytes → MethodName → ParamsText → Line
  assign_line : Bytes → Expr → Line

-- `program`
pub record Program : Type 0 where
  pub section : SectionText
  pub sections : List SectionText
  pub line : Line
  pub lines : List Line

abbrev pub simple_tokens : SimpleExpr → List Token
simple_tokens (number s) = number_sym s ∷ []
simple_tokens (string s) = string_sym s ∷ []
simple_tokens (argument s) = mark dollar_sym ∷ number_sym s ∷ []
simple_tokens (variable s) = mark dollar_sym ∷ ident_sym s ∷ []
simple_tokens (client_type_param c t p) =
    ident_sym c ∷ mark col_col_sym ∷ ident_sym t ∷ mark col_col_sym ∷ ident_sym p ∷ []
simple_tokens (client_param c p) = ident_sym c ∷ mark col_col_sym ∷ ident_sym p ∷ []

abbrev pub operand_tokens : List SimpleExpr → List Token
operand_tokens [] = []
operand_tokens (e ∷ es) = mark dot_sym ∷ (simple_tokens e ++ operand_tokens es)

abbrev pub expr_tokens : Expr → List Token
expr_tokens e = simple_tokens e.head ++ operand_tokens e.operands

abbrev pub other_tokens : List Expr → List Token
other_tokens [] = []
other_tokens (e ∷ es) = mark comma_sym ∷ (expr_tokens e ++ other_tokens es)

abbrev pub leading_tokens : Option Expr → List Token
leading_tokens none = []
leading_tokens (some e) = expr_tokens e

abbrev pub param_tokens : ParamsText → List Token
param_tokens ps = leading_tokens ps.leading ++ other_tokens ps.others

abbrev pub method_token : MethodName → Token
method_token (method_ident s) = ident_sym s
method_token method_query = word query_sym

abbrev pub line_tokens : Line → List Token
line_tokens (main_line c m ps) =
    ident_sym c
    ∷ mark dot_sym
    ∷ method_token m
    ∷ mark open_paren_sym
    ∷ (param_tokens ps ++ mark close_paren_sym ∷ mark semi_sym ∷ [])
line_tokens (assign_line x e) =
    mark dollar_sym ∷ ident_sym x ∷ mark eq_sym ∷ (expr_tokens e ++ mark semi_sym ∷ [])

abbrev pub def_line_tokens : List DefLine → List Token
def_line_tokens [] = []
def_line_tokens (l ∷ ls) = word l.key ∷ string_sym l.value ∷ mark semi_sym ∷ def_line_tokens ls

abbrev pub section_tokens : SectionText → List Token
section_tokens t =
    word (kind_word t.kind)
    ∷ string_sym t.name
    ∷ mark open_sect_sym
    ∷ (def_line_tokens (t.first ∷ t.more) ++ mark close_sect_sym ∷ [])

abbrev pub lines_tokens : List Line → List Token
lines_tokens [] = []
lines_tokens (l ∷ ls) = line_tokens l ++ lines_tokens ls

abbrev pub sections_tokens : List SectionText → List Token
sections_tokens [] = []
sections_tokens (t ∷ ts) = section_tokens t ++ sections_tokens ts

-- `main`
abbrev pub main_tokens : List Line → List Token
main_tokens ls = word main_sym ∷ mark open_sect_sym ∷ (lines_tokens ls ++ mark close_sect_sym ∷ [])

abbrev pub program_tokens : Program → List Token
program_tokens p = sections_tokens (p.section ∷ p.sections) ++ main_tokens (p.line ∷ p.lines)
