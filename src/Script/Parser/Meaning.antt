-- ===== src/Script/Parser/Meaning.antt =====
-- What a script means, by the parts that it has.
use super_smack.Prelude.{Option, none, some, List, [], ◌∷◌, ◌++◌, Bytes, codes}
use super_smack.Result.{Result, ok, ◌>>=◌}
use super_smack.Script.Grammar.{
  SimpleExpr, Expr, MethodName, method_ident, method_query, ParamsText, Line, main_line,
  assign_line, DefLine, SectionText, Program,
}
use super_smack.Script.Parser.{Actions}

module _ {ℓ} {S D V : Type ℓ} (actions : Actions S D V) where
  -- The operands from left to right.
  unfoldable pub eval_operands : V → List SimpleExpr → S → Result V
  eval_operands v [] s = ok v
  eval_operands v (e ∷ es) s = do u ← actions.simple e s; eval_operands (actions.concat v u) es s

  unfoldable pub eval : Expr → S → Result V
  eval e s = do v ← actions.simple e.head s; eval_operands v e.operands s

  unfoldable pub eval_others : List Bytes → List Expr → S → Result (List Bytes)
  eval_others ps [] s = ok ps
  eval_others ps (e ∷ es) s = do v ← eval e s; eval_others (ps ++ actions.text v ∷ []) es s

  unfoldable pub eval_leading : Option Expr → S → Result (List Bytes)
  eval_leading none s = ok []
  eval_leading (some e) s = do v ← eval e s; ok (actions.text v ∷ [])

  unfoldable pub eval_params : ParamsText → S → Result (List Bytes)
  eval_params t s = do ps ← eval_leading t.leading s; eval_others ps t.others s

  abbrev pub method_of : MethodName → Bytes
  method_of (method_ident m) = m
  method_of method_query = codes "query"

  -- The parameters, then the line.
  unfoldable pub run_line : Line → S → Result S
  run_line (main_line c m t) s = do
    ps ← eval_params t s
    actions.execute (record { client = c; method = method_of m; param_list = ps }) s
  run_line (assign_line x e) s = do v ← eval e s; ok (actions.assign x v s)

  unfoldable pub run_lines : List Line → S → Result S
  run_lines [] s = ok s
  run_lines (l ∷ ls) s = do s' ← run_line l s; run_lines ls s'

  unfoldable pub fill : D → List DefLine → S → Result D
  fill d [] s = ok d
  fill d (l ∷ ls) s = do d' ← actions.def_line l.key l.value d s; fill d' ls s

  -- A new definition, filled by the lines in order, and what it is made into.
  unfoldable pub run_section : SectionText → S → Result S
  run_section t s = do
    d ← fill (actions.new_def t.kind) (t.first ∷ t.more) s
    actions.end_section t.kind t.name d s

  unfoldable pub run_sections : List SectionText → S → Result S
  run_sections [] s = ok s
  run_sections (t ∷ ts) s = do s' ← run_section t s; run_sections ts s'

  unfoldable pub run_program : Program → S → Result S
  run_program p s = do s' ← run_sections (p.section ∷ p.sections) s; run_lines (p.line ∷ p.lines) s'
