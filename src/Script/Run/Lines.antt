-- ===== src/Script/Run/Lines.antt =====
-- From the text of a script to the lines of its main section, where these take strings only.
use super_smack.Prelude.{
  true, false, str_eq, str_eq_iff, Bool-cases, inl, inr, codes, if◌then◌else◌, ℕ, suc, ◌+◌, ◌≡◌,
  refl, sym, ap, ◌∙◌, none, some, List, [], ◌∷◌, ◌++◌, Bytes, append_assoc, append-nil, length, All,
  arith,
}
use super_smack.Result.{Result, ok, died, crashed, ◌>>=◌, >>=_assoc, >>=_congr}
use super_smack.Main.{MainLine, Fork, Process, main_client}
use super_smack.Main
use super_smack.Main.Run.{own, run_lines-own}
use super_smack.Script.Parser.{run, step, main_step, finish, main_lines}
use super_smack.Script.Grammar.{lines_tokens}
use super_smack.Script.Parser.Complete.{run-lines}
use super_smack.Script.Token.{mark, close_sect_sym, Token}
use super_smack.Script.Lexer.Print.{Blank, print, tokens_of, IsSpaced}
use super_smack.Script.Lexer.Print.RoundTrip.{lex-print}
use super_smack.Script.Grammar.{
  string, Expr, ParamsText, Line, main_line, MethodName, method_ident, method_query, SectionText,
  program_tokens,
}
use super_smack.Script.Values.{val_of_string}
use super_smack.Script.Parser.{yyparse}
use super_smack.Script.Parser.Meaning.{
  method_of, eval, eval_operands, eval_others, eval_leading, eval_params, run_line, run_lines,
  run_sections, run_program,
}
use super_smack.Script.Parser.Complete.{IsSection, yyparse-run_program}
use super_smack.Script.Run.{
  System, State, known, script_actions, execute_line, simple_val, do_parse,
}

abbrev pub literal_expr : Bytes → Expr
literal_expr p = record { head = string p; operands = [] }

abbrev pub literal_exprs : List Bytes → List Expr
literal_exprs [] = []
literal_exprs (p ∷ ps) = literal_expr p ∷ literal_exprs ps

abbrev pub literal_params : List Bytes → ParamsText
literal_params [] = record { leading = none; others = [] }
literal_params (p ∷ ps) = record { leading = some (literal_expr p); others = literal_exprs ps }

-- The name of a method as the lexer reads it: `query` is a keyword.
abbrev pub name_of : Bytes → MethodName
name_of m = if str_eq m (codes "query") then method_query else method_ident m

-- A line as the text of a script has it, each parameter in quotes.
abbrev pub literal : MainLine → Line
literal l = main_line l.client (name_of l.method) (literal_params l.param_list)

abbrev pub literals : List MainLine → List Line
literals [] = []
literals (l ∷ ls) = literal l ∷ literals ls

-- The lines with what `fork()` gives at each.
abbrev pub with_forks : (ℕ → Fork) → ℕ → List MainLine → List (MainLine × Fork)
with_forks fork_at n [] = []
with_forks fork_at n (l ∷ ls) = (l, fork_at n) ∷ with_forks fork_at (suc n) ls

module _ {World Double : Type 0} (fuel : ℕ) (sys : System World Double) where
  method_of-name_of : (m : Bytes) → method_of (script_actions fuel sys) (name_of m) ≡ m
  method_of-name_of m = elim (Bool-cases (str_eq m (codes "query"))) [
    | inl keyword ↦ rw keyword (sym ((str_eq_iff m (codes "query")).0 keyword))
    | inr other ↦ rw other refl
  ]

  eval_others-literal :
      (qs ps : List Bytes) (s : State World Double)
      → eval_others (script_actions fuel sys) qs (literal_exprs ps) s ≡ ok (qs ++ ps)
  unfolding eval_others eval eval_operands simple_val val_of_string
  eval_others-literal qs [] s = rw (append-nil qs) refl
  eval_others-literal qs (p ∷ ps) s =
      eval_others-literal (qs ++ p ∷ []) ps s ∙ rw (append_assoc qs (p ∷ []) ps) refl

  eval_params-literal :
      (ps : List Bytes) (s : State World Double)
      → eval_params (script_actions fuel sys) (literal_params ps) s ≡ ok ps
  unfolding eval_params eval_leading eval_others eval eval_operands simple_val val_of_string
  eval_params-literal [] s = refl
  eval_params-literal (p ∷ ps) s = eval_others-literal (p ∷ []) ps s

  abbrev pub executed_lines : List MainLine → State World Double → Result (State World Double)
  executed_lines ls s = do
    p ←
        Main.run_lines s.query_pool (known fuel sys s.client_pool) sys.methods
          (with_forks sys.fork_at s.executed ls) s.process
    ok (record s { process = p; executed = s.executed + length ls })

  abbrev run_first : MainLine → State World Double → Result (Process World)
  run_first l s =
      Main.execute s.query_pool (known fuel sys s.client_pool) sys.methods (sys.fork_at s.executed)
        l s.process

  abbrev run_rest : List MainLine → ℕ → State World Double → Process World → Result (Process World)
  run_rest ls n s p =
      Main.run_lines s.query_pool (known fuel sys s.client_pool) sys.methods
        (with_forks sys.fork_at n ls) p

  run_lines-literal :
      (ls : List MainLine) (s : State World Double)
      → run_lines (script_actions fuel sys) (literals ls) s ≡ executed_lines ls s
  unfolding run_lines run_line execute_line Main.run_lines
  run_lines-literal [] s =
      let same : s.executed ≡ s.executed + 0 = omega arith in
      ap (λ n. ok (record s { executed = n })) same
  run_lines-literal (l ∷ ls) s =
      rw (eval_params-literal l.param_list s, method_of-name_of l.method)
        (sym (>>=_assoc (run_first l s) _ _)
          ∙ >>=_congr (run_first l s) _ _ (λ p q.
            run_lines-literal ls (record s { process = p; executed = suc s.executed })
            ∙ >>=_congr (run_rest ls (suc s.executed) s p) _ _ (λ r q.
              let same : suc s.executed + length ls ≡ s.executed + suc (length ls) = omega arith in
              ap (λ n. ok (record s { process = r; executed = n })) same))
          ∙ >>=_assoc (run_first l s) _ _)

  ended_lines :
      (call : Result (State World Double))
      → (do s ← call; run (script_actions fuel sys) (main_lines true) (mark close_sect_sym ∷ []) s)
        ≡ call
  unfolding run step main_step finish
  ended_lines (ok s) = refl
  ended_lines (died why) = refl
  ended_lines (crashed why) = refl

  -- A script of sections and of lines that take strings only, a method `query` by its keyword
  -- among them, in its text with a blank or a comment
  -- behind each token, does what its sections do and then what its lines do, one after the other,
  -- where its sections have only lines that their kinds allow.
  pub do_parse-run_lines :
      (spaced : List (Token × Blank × List Blank)) (section : SectionText)
      (sections : List SectionText) (l : MainLine) (ls : List MainLine) (s : State World Double)
      → All IsSpaced spaced
      → tokens_of spaced
        ≡ program_tokens (record {
          section = section;
          sections = sections;
          line = literal l;
          lines = literals ls;
        })
      → All IsSection (section ∷ sections)
      → do_parse fuel sys (print spaced) s ≡ (do
        s' ← run_sections (script_actions fuel sys) (section ∷ sections) s
        executed_lines (l ∷ ls) s')
  unfolding do_parse run_program
  do_parse-run_lines spaced section sections l ls s h e g =
      ap (λ ts. yyparse (script_actions fuel sys) ts s) (lex-print spaced h ∙ e)
      ∙ yyparse-run_program (script_actions fuel sys)
          (record { section = section; sections = sections; line = literal l; lines = literals ls })
          s g
      ∙ >>=_congr (run_sections (script_actions fuel sys) (section ∷ sections) s) _ _
          (λ s' q. run_lines-literal (l ∷ ls) s')

  -- A child of a client that reads on in a script, to the end of its main section, runs the lines of
  -- its client in order and none of another client, where the lines take strings only and each names
  -- a client that is defined.
  pub run-own :
      (ls : List MainLine) (s : State World Double)
      → str_eq s.process.current_client main_client ≡ false
      → All
          (λ (lf : MainLine × Fork). known fuel sys s.client_pool lf.0.client ≡ true)
          (with_forks sys.fork_at s.executed ls)
      → run
          (script_actions fuel sys)
          (main_lines true)
          (lines_tokens (literals ls) ++ mark close_sect_sym ∷ [])
          s
        ≡ (do
          p ←
              Main.run_lines s.query_pool
                (known fuel sys s.client_pool)
                sys.methods
                (own s.process.current_client (with_forks sys.fork_at s.executed ls))
                s.process
          ok (record s { process = p; executed = s.executed + length ls }))
  run-own ls s child defined =
      run-lines (script_actions fuel sys) (literals ls) (mark close_sect_sym ∷ []) s
      ∙ ended_lines (run_lines (script_actions fuel sys) (literals ls) s)
      ∙ run_lines-literal ls s
      ∙ ap
          (λ (call : Result (Process World)). do
            p ← call
            ok (record s { process = p; executed = s.executed + length ls }))
          (run_lines-own s.query_pool (known fuel sys s.client_pool) sys.methods
            (with_forks sys.fork_at s.executed ls) s.process child defined)
