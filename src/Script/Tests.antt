-- ===== src/Script/Tests.antt =====
-- A script of one section and two lines, lexed, parsed and run.
use super_smack.Prelude.{
  arith, ◌≡◌, refl, ◌∙◌, some, List, [], ◌∷◌, ◌++◌, Bytes, codes, All, str_eq, is_digit, is_alnum,
}
use super_smack.Result.{ok}
use super_smack.Script.Token.{
  Token, word, mark, ident_sym, number_sym, string_sym, query_sym, parsed_sym, semi_sym, find_word,
}
use super_smack.Script.Lexer.{initial, q_str, lex}
use super_smack.Script.Lexer.Print.{
  Blank, space, tab, newline, hash_comment, slash_comment, tokens_of, print,
}
use super_smack.Script.Lexer.Print.RoundTrip.{lex-print}
use super_smack.Script.Lexer.Escapes.{lex-dropped}
use super_smack.Script.Grammar.{
  SimpleExpr, number, string, variable, Program, query_kind, method_query, argument, client_param,
  client_type_param, main_line, assign_line, program_tokens, allows,
}
use super_smack.Script.Parser.{Actions, yyparse}
use super_smack.Script.Parser.Meaning.{
  run_program, run_sections, run_section, fill, run_lines, run_line, eval, eval_operands,
  eval_params, eval_leading, eval_others,
}
use super_smack.Script.Parser.Complete.{IsSection, yyparse-run_program}
use super_smack.Script.Parser.Sound.Steps.{yyparse-program}

abbrev spaced : List (Token × Blank × List Blank)
spaced =
    (word query_sym, space, [])
    ∷ (string_sym (codes "a\"b"), hash_comment (codes " the name"), tab ∷ [])
    ∷ (ident_sym (codes "querys"), newline, slash_comment (codes "x") ∷ [])
    ∷ (number_sym (codes "10"), space, [])
    ∷ (mark semi_sym, newline, [])
    ∷ []

lex-print_example : lex initial (print spaced) ≡ tokens_of spaced
unfolding find_word str_eq is_alnum is_digit
lex-print_example = lex-print spaced (ground arith)

-- `"a\tb" "` is one string.
lex-dropped_example :
    lex (q_str (codes "a")) (b'\\' ∷ (codes "tb" ++ b'"' ∷ codes " \""))
    ≡ lex (q_str (codes "a\"")) (codes " \"")
lex-dropped_example =
    lex-dropped (codes "a") (codes "tb") b'"' (codes " \"") (refl, (refl, tt)) refl

-- The text of an operand.
unfoldable said : SimpleExpr → Bytes
said (number t) = t
said (string t) = t
said (argument t) = t
said (variable t) = b'$' ∷ t
said (client_type_param c t p) = c ++ t ++ p
said (client_param c p) = c ++ p

-- Actions that keep all that they are called with.
abbrev logged : Actions (List Bytes) (List Bytes) Bytes
logged = record {
  new_def = λ k. [];
  def_line = λ w str d s. ok (d ++ str ∷ []);
  end_section = λ k n d s. ok (s ++ n ∷ d);
  simple = λ e s. ok (said e);
  concat = λ u v. u ++ v;
  text = λ v. v;
  execute = λ l s. ok (s ++ l.client ∷ l.method ∷ l.param_list);
  assign = λ x v s. s ++ x ∷ v ∷ [];
}

-- query "sel" { query "select 1"; parsed "y"; } main { $x = "a"."b"; c.query($x,1); }
abbrev script : Program
script = record {
  section = record {
    kind = query_kind;
    name = codes "sel";
    first = record { key = query_sym; value = codes "select 1" };
    more = record { key = parsed_sym; value = codes "y" } ∷ [];
  };
  sections = [];
  line =
      assign_line (codes "x")
        (record { head = string (codes "a"); operands = string (codes "b") ∷ [] });
  lines =
      main_line (codes "c") method_query (record {
        leading = some (record { head = variable (codes "x"); operands = [] });
        others = record { head = number (codes "1"); operands = [] } ∷ [];
      })
      ∷ [];
}

abbrev log : List Bytes
log =
    codes "sel"
    ∷ codes "select 1"
    ∷ codes "y"
    ∷ codes "x"
    ∷ codes "ab"
    ∷ codes "c"
    ∷ codes "query"
    ∷ codes "$x"
    ∷ codes "1"
    ∷ []

runs : run_program logged script [] ≡ ok log
unfolding run_program run_sections run_section fill run_lines run_line eval eval_operands
    eval_params eval_leading eval_others said
runs = refl

yyparse-run_program_example : yyparse logged (program_tokens script) [] ≡ ok log
unfolding allows
yyparse-run_program_example = yyparse-run_program logged script [] ((refl, (refl, tt)), tt) ∙ runs

yyparse-program_example :
    (p : Program) × All IsSection (p.section ∷ p.sections)
    × (program_tokens p ≡ program_tokens script)
    × (run_program logged p [] ≡ ok log)
yyparse-program_example =
    yyparse-program logged (program_tokens script) [] yyparse-run_program_example
