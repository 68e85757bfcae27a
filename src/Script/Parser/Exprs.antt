-- ===== src/Script/Parser/Exprs.antt =====
-- The parser evaluates each expression, and the parameters of a line, as they mean.
use super_smack.Prelude.{
  ◌≡◌, refl, sym, ap, ◌∙◌, Option, none, some, List, [], ◌∷◌, ◌++◌, Bytes, Bool, true, false,
  append_assoc,
}
use super_smack.Result.{Result, ◌>>=◌, >>=_assoc, >>=_congr}
use super_smack.Script.Token.{
  Token, Mark, mark, open_sect_sym, close_paren_sym, semi_sym, dot_sym, comma_sym,
}
use super_smack.Script.Grammar.{
  SimpleExpr, number, string, argument, variable, client_type_param, client_param, Expr,
  simple_tokens, operand_tokens, expr_tokens, other_tokens, leading_tokens,
}
use super_smack.Script.Parser.{
  Actions, Use, param, operand, behind, first_param, params_semi, run, step, ended, behind_step,
  operand_step, with_left,
}
use super_smack.Script.Parser.Meaning.{eval_operands, eval, eval_others, eval_leading}

-- What may stand behind an expression.
abbrev pub follows : Mark → Bool
follows dot_sym = true
follows comma_sym = true
follows close_paren_sym = true
follows semi_sym = true
follows _ = false

abbrev pub Follows : List Token → Type 0
Follows (mark m ∷ ts) = follows m ≡ true
Follows _ = ⊥

module _ {ℓ} {S D V : Type ℓ} (actions : Actions S D V) where
  run-simple :
      (u : Use) (left : Option V) (e : SimpleExpr) (ts : List Token) (s : S)
      → Follows ts
      → run actions (operand u left) (simple_tokens e ++ ts) s
        ≡ (do v ← actions.simple e s; run actions (behind u (with_left actions left v)) ts s)
  unfolding run step ended operand_step
  run-simple u left (number n) ts s h = sym (>>=_assoc (actions.simple (number n) s) _ _)
  run-simple u left (string n) ts s h = sym (>>=_assoc (actions.simple (string n) s) _ _)
  run-simple u left (argument n) ts s h = sym (>>=_assoc (actions.simple (argument n) s) _ _)
  run-simple u left (variable n) ts s h = sym (>>=_assoc (actions.simple (variable n) s) _ _)
  run-simple u left (client_type_param c t p) ts s h =
      sym (>>=_assoc (actions.simple (client_type_param c t p) s) _ _)
  run-simple u left (client_param c p) (mark dot_sym ∷ ts) s h =
      sym (>>=_assoc (actions.simple (client_param c p) s) _ _)
  run-simple u left (client_param c p) (mark comma_sym ∷ ts) s h =
      sym (>>=_assoc (actions.simple (client_param c p) s) _ _)
  run-simple u left (client_param c p) (mark close_paren_sym ∷ ts) s h =
      sym (>>=_assoc (actions.simple (client_param c p) s) _ _)
  run-simple u left (client_param c p) (mark semi_sym ∷ ts) s h =
      sym (>>=_assoc (actions.simple (client_param c p) s) _ _)
  run-simple u left (client_param c p) (mark open_sect_sym ∷ ts) s h = cc
  run-simple u left (client_param c p) (mark _ ∷ ts) s h = cc
  run-simple u left (client_param c p) [] s h = absurd h
  run-simple u left (client_param c p) (_ ∷ ts) s h = absurd h

  operand_tokens-Follows :
      (es : List SimpleExpr) (ts : List Token) → Follows ts → Follows (operand_tokens es ++ ts)
  operand_tokens-Follows [] ts h = h
  operand_tokens-Follows (e ∷ es) ts h = refl

  run-operands :
      (u : Use) (v : V) (es : List SimpleExpr) (ts : List Token) (s : S)
      → Follows ts
      → run actions (behind u v) (operand_tokens es ++ ts) s
        ≡ (do w ← eval_operands actions v es s; run actions (behind u w) ts s)
  unfolding run step behind_step eval_operands
  run-operands u v [] ts s h = refl
  run-operands u v (e ∷ es) ts s h = rw (append_assoc (simple_tokens e) (operand_tokens es) ts) (
      run-simple u (some v) e (operand_tokens es ++ ts) s (operand_tokens-Follows es ts h)
      ∙ >>=_congr (actions.simple e s) _ _ (λ w q. run-operands u (actions.concat v w) es ts s h)
      ∙ >>=_assoc (actions.simple e s) _ _)

  pub run-expr :
      (u : Use) (e : Expr) (ts : List Token) (s : S)
      → Follows ts
      → run actions (operand u none) (expr_tokens e ++ ts) s
        ≡ (do v ← eval actions e s; run actions (behind u v) ts s)
  unfolding eval
  run-expr u e ts s h = rw (append_assoc (simple_tokens e.head) (operand_tokens e.operands) ts) (
      run-simple u none e.head (operand_tokens e.operands ++ ts) s
        (operand_tokens-Follows e.operands ts h)
      ∙ >>=_congr (actions.simple e.head s) _ _ (λ v q. run-operands u v e.operands ts s h)
      ∙ >>=_assoc (actions.simple e.head s) _ _)

  other_tokens-Follows :
      (es : List Expr) (ts : List Token) → Follows ts → Follows (other_tokens es ++ ts)
  other_tokens-Follows [] ts h = h
  other_tokens-Follows (e ∷ es) ts h = refl

  run-others :
      (c m : Bytes) (ps : List Bytes) (v : V) (es : List Expr) (ts : List Token) (s : S)
      → run actions (behind (param c m ps) v) (other_tokens es ++ mark close_paren_sym ∷ ts) s ≡ (do
        qs ← eval_others actions (ps ++ actions.text v ∷ []) es s
        run actions (params_semi c m qs) ts s)
  unfolding run step behind_step eval_others
  run-others c m ps v [] ts s = refl
  run-others c m ps v (e ∷ es) ts s =
      rw (append_assoc (expr_tokens e) (other_tokens es) (mark close_paren_sym ∷ ts)) (
        run-expr (param c m (ps ++ actions.text v ∷ [])) e
          (other_tokens es ++ mark close_paren_sym ∷ ts) s
          (other_tokens-Follows es (mark close_paren_sym ∷ ts) refl)
        ∙ >>=_congr (eval actions e s) _ _
            (λ w q. run-others c m (ps ++ actions.text v ∷ []) w es ts s)
        ∙ >>=_assoc (eval actions e s) _ _)

  run-no_leading :
      (c m : Bytes) (es : List Expr) (ts : List Token) (s : S)
      → run actions (first_param c m) (other_tokens es ++ mark close_paren_sym ∷ ts) s
        ≡ (do qs ← eval_others actions [] es s; run actions (params_semi c m qs) ts s)
  unfolding run step eval_others
  run-no_leading c m [] ts s = refl
  run-no_leading c m (e ∷ es) ts s =
      rw (append_assoc (expr_tokens e) (other_tokens es) (mark close_paren_sym ∷ ts)) (
        run-expr (param c m []) e (other_tokens es ++ mark close_paren_sym ∷ ts) s
          (other_tokens-Follows es (mark close_paren_sym ∷ ts) refl)
        ∙ >>=_congr (eval actions e s) _ _ (λ w q. run-others c m [] w es ts s)
        ∙ >>=_assoc (eval actions e s) _ _)

  run-first_param :
      (c m : Bytes) (e : SimpleExpr) (ts : List Token) (s : S)
      → run actions (first_param c m) (simple_tokens e ++ ts) s
        ≡ run actions (operand (param c m []) none) (simple_tokens e ++ ts) s
  unfolding run step
  run-first_param c m (number n) ts s = refl
  run-first_param c m (string n) ts s = refl
  run-first_param c m (argument n) ts s = refl
  run-first_param c m (variable n) ts s = refl
  run-first_param c m (client_type_param d t p) ts s = refl
  run-first_param c m (client_param d p) ts s = refl

  run-first_expr :
      (c m : Bytes) (e : Expr) (ts : List Token) (s : S)
      → run actions (first_param c m) (expr_tokens e ++ ts) s
        ≡ run actions (operand (param c m []) none) (expr_tokens e ++ ts) s
  run-first_expr c m e ts s =
      rw (append_assoc (simple_tokens e.head) (operand_tokens e.operands) ts)
        (run-first_param c m e.head (operand_tokens e.operands ++ ts) s)

  pub run-params :
      (c m : Bytes) (leading : Option Expr) (es : List Expr) (ts : List Token) (s : S)
      → run actions
          (first_param c m)
          (leading_tokens leading ++ other_tokens es ++ mark close_paren_sym ∷ ts)
          s
        ≡ (do
          qs ← eval_leading actions leading s >>= (λ ps. eval_others actions ps es s)
          run actions (params_semi c m qs) ts s)
  unfolding eval_leading
  run-params c m none es ts s = run-no_leading c m es ts s
  run-params c m (some e) es ts s =
      rw (append_assoc (expr_tokens e) (other_tokens es) (mark close_paren_sym ∷ ts)) (
        run-first_expr c m e (other_tokens es ++ mark close_paren_sym ∷ ts) s
        ∙ run-expr (param c m []) e (other_tokens es ++ mark close_paren_sym ∷ ts) s
            (other_tokens-Follows es (mark close_paren_sym ∷ ts) refl)
        ∙ >>=_congr (eval actions e s) _ _ (λ w q. run-others c m [] w es ts s)
        ∙ >>=_assoc (eval actions e s) _ _
        ∙ ap (λ (r : Result (List Bytes)). r >>= (λ qs. run actions (params_semi c m qs) ts s))
            (>>=_assoc (eval actions e s) _ _))
