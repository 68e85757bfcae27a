-- ===== src/Script/Parser/Complete.antt =====
-- The parser runs each script of the grammar as the script means.
use super_smack.Prelude.{
  ◌≡◌, refl, sym, ◌∙◌, some, List, [], ◌∷◌, ◌++◌, Bytes, Bool, true, false, append_assoc, All,
}
use super_smack.Result.{Result, ok, died, crashed, ◌>>=◌, >>=_assoc, >>=_congr}
use super_smack.Script.Token.{
  Token, mark, close_sect_sym, open_paren_sym, close_paren_sym, semi_sym,
}
use super_smack.Script.Grammar.{
  Kind, expr_tokens, Line, main_line, assign_line, line_tokens, lines_tokens, method_token, DefLine,
  SectionText, section_tokens, def_line_tokens, allows, kind_of, kind_word, query_kind,
  sections_tokens, main_tokens, program_tokens, Program, param_tokens, MethodName, method_ident,
  method_query,
}
use super_smack.Script.Parser.{
  Actions, assigned, first_param, main_lines, run, step, behind_step, main_step, yyparse, finish,
  method_name, section_line, section_step, sections, sections_step,
}
use super_smack.Script.Parser.Meaning.{
  eval, eval_params, run_line, method_of, run_lines, fill, run_section, run_sections, run_program,
}
use super_smack.Script.Parser.Exprs.{run-expr, run-params}

-- Only lines that the kind of the section allows.
abbrev pub IsSection : SectionText → Type 0
IsSection t = All (λ (l : DefLine). allows t.kind l.key ≡ true) (t.first ∷ t.more)

kind_of-kind_word : (k : Kind) → kind_of (kind_word k) ≡ some k
unfolding kind_of
kind_of-kind_word query_kind = refl
kind_of-kind_word _ = refl

pub >>=_ok {ℓ} : {R : Type ℓ} (call : Result R) → (call >>= (λ r. ok r)) ≡ call
>>=_ok (ok r) = refl
>>=_ok (died why) = refl
>>=_ok (crashed why) = refl

module _ {ℓ} {S D V : Type ℓ} (actions : Actions S D V) where
  run-method :
      (c : Bytes) (m : MethodName) (ts : List Token) (s : S)
      → run actions (method_name c) (method_token m ∷ mark open_paren_sym ∷ ts) s
        ≡ run actions (first_param c (method_of actions m)) ts s
  unfolding run step
  run-method c (method_ident m) ts s = refl
  run-method c method_query ts s = refl

  -- A line of the main section, whether others stand before it or not.
  run-line :
      (some_line : Bool) (l : Line) (ts : List Token) (s : S)
      → run actions (main_lines some_line) (line_tokens l ++ ts) s
        ≡ (do s' ← run_line actions l s; run actions (main_lines true) ts s')
  unfolding run step main_step behind_step run_line eval_params
  run-line b (main_line c m t) ts s =
      rw (append_assoc (param_tokens t) (mark close_paren_sym ∷ mark semi_sym ∷ []) ts) (
        run-method c m (param_tokens t ++ mark close_paren_sym ∷ mark semi_sym ∷ ts) s
        ∙ run-params actions c (method_of actions m) t.leading t.others (mark semi_sym ∷ ts) s
        ∙ >>=_congr (eval_params actions t s) _ _
            (λ qs q. sym (>>=_assoc (actions.execute _ s) _ _))
        ∙ >>=_assoc (eval_params actions t s) _ _)
  run-line b (assign_line x e) ts s = rw (append_assoc (expr_tokens e) (mark semi_sym ∷ []) ts) (
      run-expr actions (assigned x) e (mark semi_sym ∷ ts) s refl
      ∙ >>=_assoc (eval actions e s) _ _)

  pub run-lines :
      (ls : List Line) (ts : List Token) (s : S)
      → run actions (main_lines true) (lines_tokens ls ++ ts) s
        ≡ (do s' ← run_lines actions ls s; run actions (main_lines true) ts s')
  unfolding run_lines
  run-lines [] ts s = refl
  run-lines (l ∷ ls) ts s = rw (append_assoc (line_tokens l) (lines_tokens ls) ts) (
      run-line true l (lines_tokens ls ++ ts) s
      ∙ >>=_congr (run_line actions l s) _ _ (λ s' q. run-lines ls ts s')
      ∙ >>=_assoc (run_line actions l s) _ _)

  -- The lines of a section behind one, and its end.
  run-def_lines :
      (k : Kind) (n : Bytes) (d : D) (ls : List DefLine) (ts : List Token) (s : S)
      → All (λ (l : DefLine). allows k l.key ≡ true) ls
      → run actions (section_line k n (some d)) (def_line_tokens ls ++ mark close_sect_sym ∷ ts) s
        ≡ (do
          d' ← fill actions d ls s
          s' ← actions.end_section k n d' s
          run actions (sections true) ts s')
  unfolding run step section_step fill
  run-def_lines k n d [] ts s h = sym (>>=_assoc (actions.end_section k n d s) _ _)
  run-def_lines k n d (l ∷ ls) ts s (h, hs) = rw h (
      sym (>>=_assoc (actions.def_line l.key l.value d s) _ _)
      ∙ >>=_congr (actions.def_line l.key l.value d s) _ _ (λ d' q. run-def_lines k n d' ls ts s hs)
      ∙ >>=_assoc (actions.def_line l.key l.value d s) _ _)

  run-section :
      (b : Bool) (t : SectionText) (ts : List Token) (s : S)
      → IsSection t
      → run actions (sections b) (section_tokens t ++ ts) s
        ≡ (do s' ← run_section actions t s; run actions (sections true) ts s')
  unfolding run step section_step sections_step fill run_section
  run-section b t ts s (h, hs) =
      rw
        (
          kind_of-kind_word t.kind,
          append_assoc (def_line_tokens t.more) (mark close_sect_sym ∷ []) ts,
          h,
        )
        (sym (>>=_assoc (actions.def_line t.first.key t.first.value (actions.new_def t.kind) s) _ _)
          ∙ >>=_congr (actions.def_line t.first.key t.first.value (actions.new_def t.kind) s) _ _
              (λ d q. run-def_lines t.kind t.name d t.more ts s hs)
          ∙ >>=_assoc (actions.def_line t.first.key t.first.value (actions.new_def t.kind) s) _ _
          ∙ >>=_assoc (fill actions (actions.new_def t.kind) (t.first ∷ t.more) s) _ _)

  run-sections :
      (tt : List SectionText) (ts : List Token) (s : S)
      → All IsSection tt
      → run actions (sections true) (sections_tokens tt ++ ts) s
        ≡ (do s' ← run_sections actions tt s; run actions (sections true) ts s')
  unfolding run_sections
  run-sections [] ts s h = refl
  run-sections (t ∷ tt) ts s (h, hs) =
      rw (append_assoc (section_tokens t) (sections_tokens tt) ts) (
        run-section true t (sections_tokens tt ++ ts) s h
        ∙ >>=_congr (run_section actions t s) _ _ (λ s' q. run-sections tt ts s' hs)
        ∙ >>=_assoc (run_section actions t s) _ _)

  run-main :
      (l : Line) (ls : List Line) (s : S)
      → run actions (sections true) (main_tokens (l ∷ ls)) s ≡ run_lines actions (l ∷ ls) s
  unfolding run step sections_step main_step finish kind_of run_lines
  run-main l ls s = rw (append_assoc (line_tokens l) (lines_tokens ls) (mark close_sect_sym ∷ [])) (
      run-line false l (lines_tokens ls ++ mark close_sect_sym ∷ []) s
      ∙ >>=_congr (run_line actions l s) _ _
          (λ s' q. run-lines ls (mark close_sect_sym ∷ []) s' ∙ >>=_ok (run_lines actions ls s')))

  -- The parser gives for the tokens of a script what the script means, and ends as the script does
  -- where that dies or crashes, if each section has only lines that its kind allows.
  pub yyparse-run_program :
      (p : Program) (s : S)
      → All IsSection (p.section ∷ p.sections)
      → yyparse actions (program_tokens p) s ≡ run_program actions p s
  unfolding yyparse run_program run_sections
  yyparse-run_program p s (h, hs) =
      rw
        (append_assoc (section_tokens p.section) (sections_tokens p.sections)
          (main_tokens (p.line ∷ p.lines)))
        (run-section false p.section (sections_tokens p.sections ++ main_tokens (p.line ∷ p.lines))
            s h
          ∙ >>=_congr (run_section actions p.section s) _ _ (λ s' q.
            run-sections p.sections (main_tokens (p.line ∷ p.lines)) s' hs
            ∙ >>=_congr (run_sections actions p.sections s') _ _ (λ r q. run-main p.line p.lines r))
          ∙ >>=_assoc (run_section actions p.section s) _ _)
