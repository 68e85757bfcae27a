-- ===== src/Barrel/Words.antt =====
-- The parser of a `query_barrel` line, word by word: spaces only separate words.
use super_smack.Prelude.{
  ℕ, ◌≡◌, ◌≢◌, refl, sym, ap, ◌∙◌, true, false, [], ◌∷◌, ◌++◌, append_assoc, append-nil, arith,
  Bytes, All, c_str, c_str-IsText, IsText,
}
use super_smack.Prelude.Int.{ℤ}
use super_smack.Result.{ok, ◌>>=◌}
use super_smack.Barrel.{
  Barrel, ParseState, Parser, QueryPool, word_end, step, run, finish, last_word,
}

-- A word of the line: it has bytes, none of them a space or a NUL.
pub record IsWord (w : Bytes) : Type 0 where
  pub nonempty : w ≢ []
  pub no_space : All (λ c. c ≢ b' ') w
  pub text : IsText w

-- Between two words.
abbrev pub between : ℤ → ParseState → Barrel → Parser
between num_shots parse_state qb = record {
  buf = [];
  last_was_space = true;
  num_shots = num_shots;
  parse_state = parse_state;
  qb = qb;
}

abbrev reading : Bytes → ℤ → ParseState → Barrel → Parser
reading buf n state qb = record (between n state qb) { buf = buf; last_was_space = false }

module _ (sleep_time : Bytes → ℤ × ℤ) (pool : QueryPool) where
  run_more :
      (w done rest : Bytes) (n : ℤ) (state : ParseState) (qb : Barrel)
      → All (λ c. c ≢ b' ') w
      → run sleep_time pool (w ++ rest) (reading done n state qb)
        ≡ run sleep_time pool rest (reading (done ++ w) n state qb)
  unfolding run
  run_more [] done rest n state qb h = rw append-nil
  run_more (c ∷ w) done rest n state qb h =
      rw (taken c h.0) (run_more w (done ++ c ∷ []) rest n state qb h.1 ∙ rw append_assoc)
    where
      taken :
          (c : ℕ)
          → c ≢ b' '
          → step sleep_time pool c (reading done n state qb)
            ≡ ok (reading (done ++ c ∷ []) n state qb)
      taken c e = unfold step in ground arith

  -- The bytes of a word are collected.
  pub run_word :
      (w rest : Bytes) (n : ℤ) (state : ParseState) (qb : Barrel)
      → IsWord w
      → run sleep_time pool (w ++ rest) (between n state qb)
        ≡ run sleep_time pool rest (reading w n state qb)
  unfolding run
  run_word [] rest n state qb h = absurd (h.nonempty refl)
  run_word (c ∷ w) rest n state qb h =
      rw (taken c h.no_space.0) (run_more w (c ∷ []) rest n state qb h.no_space.1)
    where
      taken :
          (c : ℕ)
          → c ≢ b' '
          → step sleep_time pool c (between n state qb) ≡ ok (reading (c ∷ []) n state qb)
      taken c e = unfold step in ground arith

  run_space :
      (w rest : Bytes) (n : ℤ) (state : ParseState) (qb : Barrel)
      → run sleep_time pool (b' ' ∷ rest) (reading w n state qb) ≡ (
          word_end sleep_time pool state (c_str w) (between n state qb)
          >>= run sleep_time pool rest)
  unfolding run step
  run_space w rest n state qb = refl

  -- A word with a space behind it goes through the switch.
  pub run-word_end :
      (w rest : Bytes) (n : ℤ) (state : ParseState) (qb : Barrel)
      → IsWord w
      → run sleep_time pool (w ++ (b' ' ∷ rest)) (between n state qb)
        ≡ (word_end sleep_time pool state w (between n state qb) >>= run sleep_time pool rest)
  run-word_end w rest n state qb h =
      run_word w (b' ' ∷ rest) n state qb h
      ∙ run_space w rest n state qb
      ∙ ap (λ v. word_end sleep_time pool state v (between n state qb) >>= run sleep_time pool rest)
          (c_str-IsText w h.text)

  -- A word at the end of the line does not.
  pub run-last_word :
      (w : Bytes) (n : ℤ) (state : ParseState) (qb : Barrel)
      → IsWord w
      → (run sleep_time pool w (between n state qb) >>= finish sleep_time pool)
        ≡ last_word sleep_time pool w (between n state qb)
  run-last_word w n state qb h =
      ap (λ v. run sleep_time pool v (between n state qb) >>= finish sleep_time pool)
        (sym (append-nil w))
      ∙ ap (λ r. r >>= finish sleep_time pool) (run_word w [] n state qb h)
      ∙ ending
    where
      ending :
          (run sleep_time pool [] (reading w n state qb) >>= finish sleep_time pool)
          ≡ last_word sleep_time pool w (between n state qb)
      ending =
          unfold run finish last_word in
          ap (λ v. last_word sleep_time pool v (reading w n state qb)) (c_str-IsText w h.text)
