-- ===== src/Barrel/Shots.antt =====
-- The lines that say what they mean: a number and a query's name for each shot, a dash and a time
-- for each pause.
use super_smack.Prelude.{
  ◌≡◌, refl, ap, ◌∙◌, none, some, List, [], ◌∷◌, ◌++◌, append_assoc, arith, Bytes, All,
}
use super_smack.Prelude.Int.{ℤ, pos}
use super_smack.Prelude.Atoi.{atoi}
use super_smack.Result.{ok, died, undefined_query, ◌>>=◌}
use super_smack.StringMap.{lookup}
use super_smack.Query.{Query}
use super_smack.Barrel.{
  Barrel, new_barrel, add_query_charge, add_sleep_action, ParseState, at_num_shots, at_query_name,
  QueryPool, dash, charge, word_end, run, last_word, finish, update_client_def,
}
use super_smack.Barrel.Words.{IsWord, between, run-word_end, run-last_word}

pub data Shot : Type 0 where
  -- the number's text, the query's name, and the query
  shot : Bytes → Bytes → Query → Shot
  -- the text of the time
  pause : Bytes → Shot

abbrev pub shot_text : Shot → Bytes
shot_text (shot n name q) = n ++ (b' ' ∷ name)
shot_text (pause time) = b'-' ∷ time

-- Shots with a space between two.
abbrev pub joined : List Shot → Bytes
joined [] = []
joined (s ∷ []) = shot_text s
joined (s ∷ t ∷ ss) = shot_text s ++ (b' ' ∷ joined (t ∷ ss))

-- Shots with a space behind each, and then `rest`.
abbrev pub terminated : List Shot → Bytes → Bytes
terminated [] rest = rest
terminated (s ∷ ss) rest = shot_text s ++ (b' ' ∷ terminated ss rest)

module _ (sleep_time : Bytes → ℤ × ℤ) (pool : QueryPool) where
  -- The words of a shot can be told apart, and its name stands for its query.
  abbrev pub IsShot : Shot → Type 0
  IsShot (shot n name q) =
      IsWord n
      × (dash n ≡ none)
      × IsWord name
      × (dash name ≡ none)
      × (lookup name pool ≡ some (some q))
  IsShot (pause time) = IsWord (b'-' ∷ time)

  -- What a shot adds to the barrel.
  abbrev pub load : Shot → Barrel → Barrel
  load (shot n name q) qb = add_query_charge q (atoi n) qb
  load (pause time) qb = add_sleep_action (sleep_time time) qb

  abbrev pub load_all : List Shot → Barrel → Barrel
  load_all [] qb = qb
  load_all (s ∷ ss) qb = load_all ss (load s qb)

  -- `num_shots` after a shot: a pause leaves it.
  abbrev shots_after : Shot → ℤ → ℤ
  shots_after (shot n name q) k = atoi n
  shots_after (pause time) k = k

  charge_known :
      (name : Bytes) (q : Query) (k : ℤ) (qb : Barrel)
      → lookup name pool ≡ some (some q)
      → charge sleep_time pool name k qb ≡ ok (add_query_charge q k qb)
  unfolding charge
  charge_known name q k qb e = ground arith

  number_end :
      (n : Bytes) (k : ℤ) (qb : Barrel)
      → dash n ≡ none
      → word_end sleep_time pool at_num_shots n (between k at_num_shots qb)
        ≡ ok (between (atoi n) at_query_name qb)
  unfolding word_end
  number_end n k qb h = rw (h, word_end) refl

  name_end :
      (name : Bytes) (q : Query) (k : ℤ) (qb : Barrel)
      → lookup name pool ≡ some (some q)
      → word_end sleep_time pool at_query_name name (between k at_query_name qb)
        ≡ ok (between k at_num_shots (add_query_charge q k qb))
  unfolding word_end
  name_end name q k qb e = rw (charge_known name q k qb e) refl

  pause_end :
      (time : Bytes) (k : ℤ) (qb : Barrel)
      → word_end sleep_time pool at_num_shots (b'-' ∷ time) (between k at_num_shots qb)
        ≡ ok (between k at_num_shots (add_sleep_action (sleep_time time) qb))
  unfolding word_end
  pause_end time k qb = refl

  run_shot :
      (s : Shot) (rest : Bytes) (k : ℤ) (qb : Barrel)
      → IsShot s
      → run sleep_time pool (shot_text s ++ (b' ' ∷ rest)) (between k at_num_shots qb)
        ≡ run sleep_time pool rest (between (shots_after s k) at_num_shots (load s qb))
  run_shot (shot n name q) rest k qb (word_n, num, word_name, plain, known) =
      ap (λ t. run sleep_time pool t (between k at_num_shots qb)) (append_assoc n (b' ' ∷ name) _)
      ∙ run-word_end sleep_time pool n (name ++ (b' ' ∷ rest)) k at_num_shots qb word_n
      ∙ ap (λ r. r >>= run sleep_time pool (name ++ (b' ' ∷ rest))) (number_end n k qb num)
      ∙ run-word_end sleep_time pool name rest (atoi n) at_query_name qb word_name
      ∙ ap (λ r. r >>= run sleep_time pool rest) (name_end name q (atoi n) qb known)
  run_shot (pause time) rest k qb word =
      run-word_end sleep_time pool (b'-' ∷ time) rest k at_num_shots qb word
      ∙ ap (λ r. r >>= run sleep_time pool rest) (pause_end time k qb)

  abbrev last_shots : List Shot → ℤ → ℤ
  last_shots [] k = k
  last_shots (s ∷ ss) k = last_shots ss (shots_after s k)

  run_shots :
      (ss : List Shot) (rest : Bytes) (k : ℤ) (qb : Barrel)
      → All IsShot ss
      → run sleep_time pool (terminated ss rest) (between k at_num_shots qb)
        ≡ run sleep_time pool rest (between (last_shots ss k) at_num_shots (load_all ss qb))
  run_shots [] rest k qb h = refl
  run_shots (s ∷ ss) rest k qb h =
      run_shot s (terminated ss rest) k qb h.0 ∙ run_shots ss rest (shots_after s k) (load s qb) h.1

  charge_unknown :
      (name : Bytes) (k : ℤ) (qb : Barrel)
      → lookup name pool ≡ none
      → charge sleep_time pool name k qb ≡ died (undefined_query name)
  unfolding charge
  charge_unknown name k qb e = ground arith

  name_end_unknown :
      (name : Bytes) (k : ℤ) (qb : Barrel)
      → lookup name pool ≡ none
      → word_end sleep_time pool at_query_name name (between k at_query_name qb)
        ≡ died (undefined_query name)
  unfolding word_end
  name_end_unknown name k qb e = rw (charge_unknown name k qb e) refl

  last_word_unknown :
      (name : Bytes) (k : ℤ) (state : ParseState) (qb : Barrel)
      → dash name ≡ none
      → lookup name pool ≡ none
      → last_word sleep_time pool name (between k state qb) ≡ died (undefined_query name)
  unfolding last_word
  last_word_unknown name k state qb h e = rw (h, last_word) (charge_unknown name k qb e)

  -- A line is refused at its first name that no query has, behind any shots, whatever follows: in
  -- the place of a name, or as the line's last word in the place of a number.
  pub update_client_def-undefined :
      (ss : List Shot) (n name rest : Bytes)
      → All IsShot ss
      → IsWord n
      → dash n ≡ none
      → IsWord name
      → dash name ≡ none
      → lookup name pool ≡ none
      → (update_client_def sleep_time pool (terminated ss (n ++ (b' ' ∷ (name ++ (b' ' ∷ rest)))))
          ≡ died (undefined_query name))
        × (update_client_def sleep_time pool (terminated ss name) ≡ died (undefined_query name))
  unfolding update_client_def
  update_client_def-undefined ss n name rest h word_n num word_name plain missing = (
    ap (λ r. r >>= finish sleep_time pool)
        (run_shots ss (n ++ (b' ' ∷ (name ++ (b' ' ∷ rest)))) (pos 0) new_barrel h
          ∙ run-word_end sleep_time pool n (name ++ (b' ' ∷ rest)) (last_shots ss (pos 0))
              at_num_shots (load_all ss new_barrel) word_n
          ∙ ap (λ r. r >>= run sleep_time pool (name ++ (b' ' ∷ rest)))
              (number_end n (last_shots ss (pos 0)) (load_all ss new_barrel) num)
          ∙ run-word_end sleep_time pool name rest (atoi n) at_query_name (load_all ss new_barrel)
              word_name
          ∙ ap (λ r. r >>= run sleep_time pool rest)
              (name_end_unknown name (atoi n) (load_all ss new_barrel) missing)),
    ap (λ r. r >>= finish sleep_time pool) (run_shots ss name (pos 0) new_barrel h)
        ∙ run-last_word sleep_time pool name (last_shots ss (pos 0)) at_num_shots
            (load_all ss new_barrel) word_name
        ∙ last_word_unknown name (last_shots ss (pos 0)) at_num_shots (load_all ss new_barrel) plain
            missing,
  )
