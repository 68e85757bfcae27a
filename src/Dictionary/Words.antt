-- ===== src/Dictionary/Words.antt =====
-- `next_word`: the order in which the words of a dictionary come.
use super_smack.Prelude.{
  ℕ, zero, suc, ◌+◌, ◌%◌, ◌^◌, ◌<◌, ◌≡◌, refl, true, false, inl, inr, some, List, [], ◌∷◌, arith,
  if◌then◌else◌, ◌==◌, Bytes, ap, sym, ◌∙◌, length, get_elem?, take, c_str, Bool-cases,
}
use super_smack.Prelude.Int.{ℤ, pos, ◌+ᵢ◌, eq_ℤ}
use super_smack.Report.Stats.{+ᵢ-one}
use super_smack.Dictionary.Format.{takes_int}
use mathlib.Core.Path.{subst}
use mathlib.Core.Option
use native.Mathlib.Nat.{mod_self, mod-eq_of_lt, mod-add-mod, add-zero}
use super_smack.Result.{Result, ok, ◌>>=◌}
use super_smack.Dictionary.{
  Dictionary, Kind, seq, rand, unique, next_word, word_at, seq_next_word, rand_next_word,
  next_word_of,
}

get_elem?_total {ℓ} :
    {A : Type ℓ} (xs : List A) (i : ℕ) → i < length xs → (a : A) × (get_elem? xs i ≡ some a)
get_elem?_total [] i h = elim h [ ]
get_elem?_total (x ∷ xs) zero h = (x, refl)
get_elem?_total (x ∷ xs) (suc i) h = get_elem?_total xs i (omega arith)

-- The dictionary can give `n` words: a sequential one is at one of its words, a random one has some,
-- and a unique one has a template that `snprintf` takes, and a number that `n` calls keep below 2^31.
abbrev pub IsReady : ℕ → Kind → List Bytes → Type 0
IsReady n (seq i) words = i < length words
IsReady n rand words = 0 < length words
IsReady n (unique id templ size) words =
    (takes_int templ ≡ true) × (k : ℕ) × (id ≡ pos k) × (k + n < 2 ^ 31)

word_at_total :
    (words : List Bytes) (i : ℕ)
    → i < length words
    → (w : Bytes) × (get_elem? words i ≡ some w) × (word_at words i ≡ ok (c_str w))
word_at_total words i h = let (w, e) = get_elem?_total words i h in (w, e, rw (e, word_at) refl)

abbrev pub at : Dictionary → ℕ → Dictionary
at d i = record d { kind = seq i }

next_mod : (i n : ℕ) → i < n → (if i + 1 == n then 0 else i + 1) ≡ (i + 1) % n
next_mod i n h = elim (Bool-cases (i + 1 == n)) [
  | inl e ↦ let e' : i + 1 ≡ n = ground arith in rw e (rw e' (sym (mod_self n)))
  | inr e ↦ rw e (sym (mod-eq_of_lt (ground arith)))
]

-- The word at `cur_word_ind`, and the step to the next one.
seq_next_word_total :
    (d : Dictionary) (i : ℕ)
    → i < length d.words
    → (w : Bytes) × (get_elem? d.words i ≡ some w)
      × (seq_next_word d i ≡ ok (c_str w, at d ((i + 1) % length d.words)))
unfolding seq_next_word
seq_next_word_total d i h =
    let (w, e, found) = word_at_total d.words i h in
    (w, e, rw (found, next_mod i (length d.words) h) refl)

rand_next_word_total :
    (d : Dictionary) (r : ℕ)
    → 0 < length d.words
    → (w : Bytes) × (get_elem? d.words (r % length d.words) ≡ some w)
      × (rand_next_word d r ≡ ok (c_str w, d))
unfolding rand_next_word
rand_next_word_total d r h =
    let (w, e, found) = word_at_total d.words (r % length d.words) (omega arith) in
    let some_words : (length d.words == 0) ≡ false = ground arith in
    (w, e, rw (some_words, found) refl)

here : (i n : ℕ) → i < n → i ≡ (i + 0) % n
here i n h = sym (rw add-zero (mod-eq_of_lt h))

shift : (i k n : ℕ) → ((i + 1) % n + k) % n ≡ (i + suc k) % n
shift i k n = mod-add-mod (i + 1) n k ∙ ap (λ x. x % n) (omega arith)

-- One more word in front of `n` that are in order.
at_round :
    (d : Dictionary) (i : ℕ) (w : Bytes) (drawn : List Bytes) (n : ℕ)
    → i < length d.words
    → get_elem? d.words i ≡ some w
    → ((k : ℕ)
        → k < n
        → get_elem? drawn k
          ≡ Option.map c_str (get_elem? d.words (((i + 1) % length d.words + k) % length d.words)))
    → (k : ℕ) → k < suc n
    → get_elem? (c_str w ∷ drawn) k
      ≡ Option.map c_str (get_elem? d.words ((i + k) % length d.words))
at_round d i w drawn n h e later zero l = rw (← here i (length d.words) h) (rw e refl)
at_round d i w drawn n h e later (suc k) l =
    later k (omega arith)
    ∙ ap (λ j. Option.map c_str (get_elem? d.words j)) (shift i k (length d.words))

module _ (sprintf : Bytes → ℤ → Bytes) (rands : ℕ → ℕ) where
  -- What a call of `next_word` gives: a word, and a dictionary that can give `n` words and has the
  -- same words.
  record Draws (n : ℕ) (k : Kind) (d : Dictionary) (calls : ℕ) : Type 0 where
    pub word : Bytes
    pub after : Dictionary
    pub calls_after : ℕ
    pub returned : next_word_of sprintf rands k d calls ≡ ok (word, after, calls_after)
    pub ready : IsReady n after.kind after.words
    pub same_words : after.words ≡ d.words

  Draws-kind :
      (n : ℕ) (k : Kind) (d : Dictionary) (calls : ℕ)
      → d.kind ≡ k
      → IsReady (suc n) k d.words
      → Draws n k d calls
  unfolding next_word_of
  Draws-kind n (seq i) d calls e r =
      let (w, _, next) = seq_next_word_total d i r in
      record {
        word = c_str w;
        after = at d ((i + 1) % length d.words);
        calls_after = calls;
        returned = rw next refl;
        ready = omega arith;
        same_words = refl;
      }
  Draws-kind n rand d calls e r =
      let (w, _, next) = rand_next_word_total d (rands calls) r in
      record {
        word = c_str w;
        after = d;
        calls_after = calls + 1;
        returned = rw next refl;
        ready = subst (λ k. IsReady n k d.words) (sym e) r;
        same_words = refl;
      }
  Draws-kind n (unique id templ size) d calls e (taken, k, number, small) =
      let not_last : eq_ℤ (pos k) (pos 2147483647) ≡ false = ground arith in
      record {
        word = c_str (take 511 (sprintf templ (pos k)));
        after = record d { kind = unique (pos k +ᵢ pos 1) templ size };
        calls_after = calls;
        returned = rw (number, taken, not_last) refl;
        ready = (taken, suc k, +ᵢ-one k (omega arith), omega arith);
        same_words = refl;
      }

  -- The words of `n` calls of `next_word`, and the dictionary after them.
  unfoldable pub draw : ℕ → Dictionary → ℕ → Result (List Bytes × Dictionary × ℕ)
  draw zero d calls = ok ([], d, calls)
  draw (suc n) d calls = do
    (w, d', calls') ← next_word sprintf rands d calls
    (ws, d'', calls'') ← draw n d' calls'
    ok (w ∷ ws, d'', calls'')

  -- A dictionary that can give `n` words, as a random one with some words, a sequential one at one of
  -- its words, or a unique one whose template asks `snprintf` for one `int` at most and whose number
  -- stays below 2^31, gives `n` words in `n` calls, without fault, and keeps its list of words.
  pub draw_total :
      (n : ℕ) (d : Dictionary) (calls : ℕ)
      → IsReady n d.kind d.words
      → (ws : List Bytes) × (d' : Dictionary) × (calls' : ℕ) × (draw n d calls
          ≡ ok (ws, d', calls'))
        × (length ws ≡ n)
        × (d'.words ≡ d.words)
  unfolding draw
  draw_total zero d calls h = ([], d, calls, refl, refl, refl)
  draw_total (suc n) d calls h =
      let one = Draws-kind n d.kind d calls refl h in
      let (ws, d', calls', drawn, enough, same) =
        draw_total n one.after one.calls_after one.ready in
      (
        one.word ∷ ws,
        d',
        calls',
        rw (one.returned, drawn) refl,
        ap suc enough,
        same ∙ one.same_words,
      )

  -- `n` words of a sequential dictionary, from `i` on.
  record IsCycle (d : Dictionary) (i n calls : ℕ) : Type 0 where
    drawn : List Bytes
    returned : draw n (at d i) calls ≡ ok (drawn, at d ((i + n) % length d.words), calls)
    at_round :
        (k : ℕ)
        → k < n
        → get_elem? drawn k ≡ Option.map c_str (get_elem? d.words ((i + k) % length d.words))

  draw-IsCycle : (d : Dictionary) (i n calls : ℕ) → i < length d.words → IsCycle d i n calls
  unfolding draw next_word_of
  draw-IsCycle d i zero calls h = record {
    drawn = [];
    returned = ap (λ j. ok ([], at d j, calls)) (here i (length d.words) h);
    at_round = λ k l. elim l [ ];
  }
  draw-IsCycle d i (suc n) calls h =
      let (w, e, next) = seq_next_word_total (at d i) i h in
      let later = draw-IsCycle d ((i + 1) % length d.words) n calls (omega arith) in
      record {
        drawn = c_str w ∷ later.drawn;
        returned =
            rw (next, later.returned)
              (ap (λ j. ok (c_str w ∷ later.drawn, at d j, calls)) (shift i n (length d.words)));
        at_round = λ k l. at_round d i w later.drawn n h e later.at_round k l;
      }

  -- A sequential dictionary at its word `i` gives its words in order and starts again behind the
  -- last: of `n` words the one numbered `k` is the word `i + k`, counted round.
  pub draw-seq :
      (d : Dictionary) (i n k calls : ℕ)
      → i < length d.words
      → k < n
      → (ws : List Bytes) × (draw n (at d i) calls
          ≡ ok (ws, at d ((i + n) % length d.words), calls))
        × (get_elem? ws k ≡ Option.map c_str (get_elem? d.words ((i + k) % length d.words)))
  draw-seq d i n k calls h l =
      let c = draw-IsCycle d i n calls h in (c.drawn, c.returned, c.at_round k l)
