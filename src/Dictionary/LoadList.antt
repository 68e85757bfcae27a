-- ===== src/Dictionary/LoadList.antt =====
-- `Dictionary::load_list`: the loop over the characters of the list.
use super_smack.Prelude.{
  ℕ, ◌+◌, ◌≤◌, ◌<◌, ◌≡◌, ◌≢◌, refl, Bool, true, false, List, [], ◌∷◌, ◌++◌, append-nil,
  append_assoc, arith, if◌then◌else◌, ◌==◌, Bytes, All, ap, sym, ◌∙◌, length, length-append,
}
use super_smack.Dictionary.{Dictionary}

pub record ListState : Type 0 where
  -- the `j` bytes of `word_buf` that are set
  pub word_buf : Bytes
  pub escaped : Bool
  pub words : List Bytes

abbrev push : ℕ → ListState → ListState
push c s = record s { word_buf = s.word_buf ++ c ∷ [] }

-- The cases of the `switch`; that of a backslash has no `break` and goes on into the default.
pub step : ListState → ℕ → ListState
step s c =
    if c == b','
    then (if s.escaped
        then record (push c s) { escaped = false }
        else record s { word_buf = []; words = s.words ++ s.word_buf ∷ [] })
    else if c == b'\\'
    then (let slashed = if s.escaped then push c s else record s { escaped = true } in
        push c (record slashed { escaped = false }))
    else push c (record s { escaped = false })

abbrev pub start : List Bytes → ListState
start words = record { word_buf = []; escaped = false; words = words }

-- The loop ends at the NUL.
pub run : ListState → Bytes → ListState
run s [] = s
run s (c ∷ list_str) = run (step s c) list_str

-- `Dictionary::load_list`
unfoldable pub load_list : Bytes → Dictionary → Dictionary
unfolding run step
load_list list_str d = record d { words = (run (start d.words) list_str).words }

-- Where no entry is being escaped, none ever is.
step_plain : (s : ListState) (c : ℕ) → s.escaped ≡ false → c ≢ b',' → step s c ≡ push c s
unfolding step
step_plain s c e h = ground arith

step_comma :
    (s : ListState)
    → s.escaped ≡ false
    → step s b',' ≡ record s { word_buf = []; words = s.words ++ s.word_buf ∷ [] }
unfolding step
step_comma s e = ground arith

abbrev pub NoComma : Bytes → Type 0
NoComma = All (λ c. c ≢ b',')

run_plain :
    (s : ListState) (w rest : Bytes)
    → s.escaped ≡ false
    → NoComma w
    → run s (w ++ rest) ≡ run (record s { word_buf = s.word_buf ++ w }) rest
unfolding run
run_plain s [] rest e h = rw append-nil
run_plain s (c ∷ w) rest e h =
    ap (λ s'. run s' (w ++ rest)) (step_plain s c e h.0)
    ∙ run_plain (push c s) w rest e h.1
    ∙ rw append_assoc

-- Each entry with the comma behind it, in a row.
abbrev pub terminated : List Bytes → Bytes → Bytes
terminated [] tail = tail
terminated (w ∷ ws) tail = w ++ (b',' ∷ terminated ws tail)

split :
    (words : List Bytes) (w rest : Bytes)
    → NoComma w
    → run (start words) (w ++ (b',' ∷ rest)) ≡ run (start (words ++ w ∷ [])) rest
unfolding run
split words w rest h =
    run_plain (start words) w (b',' ∷ rest) refl h
    ∙ ap (λ s. run s rest) (step_comma (record (start words) { word_buf = w }) refl)

run-terminated :
    (ws : List Bytes) (tail : Bytes) (words : List Bytes)
    → All NoComma ws
    → NoComma tail
    → (run (start words) (terminated ws tail)).words ≡ words ++ ws
unfolding run
run-terminated [] tail words h t =
    rw (← append-nil tail) (rw (run_plain (start words) tail [] refl t) (sym (append-nil words)))
run-terminated (w ∷ ws) tail words h t =
    ap (λ s. s.words) (split words w (terminated ws tail) h.0)
    ∙ run-terminated ws tail (words ++ w ∷ []) h.1 t
    ∙ append_assoc words (w ∷ []) ws

-- A list is split at every comma, a backslash before it or not, and what stands behind the last
-- comma is no entry.
pub load_list-terminated :
    (d : Dictionary) (ws : List Bytes) (tail : Bytes)
    → All NoComma ws
    → NoComma tail
    → (load_list (terminated ws tail) d).words ≡ d.words ++ ws
unfolding load_list
load_list-terminated d ws tail h t = run-terminated ws tail d.words h t

step_grows :
    (s : ListState) (c : ℕ)
    → s.escaped ≡ false
    → ((step s c).escaped ≡ false) × (length (step s c).word_buf ≤ length s.word_buf + 1)
unfolding step
step_grows s c e = ground (arith, length-append s.word_buf (c ∷ []))

run_grows :
    (s : ListState) (l : Bytes)
    → s.escaped ≡ false
    → length (run s l).word_buf ≤ length s.word_buf + length l
unfolding run
run_grows s [] e = omega arith
run_grows s (c ∷ l) e =
    let (e', grown) = step_grows s c e in omega (arith, grown, run_grows (step s c) l e')

-- After any part of the list, `word_buf` holds no more bytes than were read, so that the NUL
-- behind them too is inside its `strlen(list_str) + 1`.
pub load_list_bounds :
    (words : List Bytes) (read unread : Bytes)
    → length (run (start words) read).word_buf < length (read ++ unread) + 1
load_list_bounds words read unread =
    omega (arith, run_grows (start words) read refl, length-append read unread)
