-- ===== src/Dictionary.antt =====
-- src/dictionary.h, src/dictionary.cc: the three classes of dictionaries, as one type.
mod Tests
pub mod Format
pub mod Template
pub mod Words
pub mod LoadList
pub mod LoadFile
use super_smack.Prelude.{
  ℕ, zero, suc, ◌+◌, ◌%◌, Bool, true, false, not, Option, none, some, List, [], ◌∷◌, ◌++◌,
  if◌then◌else◌, ◌==◌, Bytes, codes, length, take, get_elem?, c_str,
}
use super_smack.Prelude.Int.{ℤ, pos, ◌+ᵢ◌, eq_ℤ}
use super_smack.Dictionary.Format.{takes_int}
use super_smack.Result.{
  Result, ok, crashed, out_of_bounds, division_by_zero, bad_format, int_overflow, ◌>>=◌,
}

-- The subclass, with the fields that it adds.
pub data Kind : Type 0 where
  rand : Kind
  -- cur_word_ind
  seq : ℕ → Kind
  -- id, templ, buf_size
  unique : ℤ → Bytes → ℕ → Kind

pub record Dictionary : Type 0 where
  pub words : List Bytes
  pub name : Bytes
  pub max_field_size : ℤ
  pub min_field_size : ℤ
  pub delim : ℕ
  pub file_size_equiv : ℤ
  pub kind : Kind

-- The constructors: `Dictionary()` with that of the subclass.
abbrev pub new_dictionary : Kind → Dictionary
new_dictionary kind = record {
  words = [];
  name = [];
  max_field_size = pos 0;
  min_field_size = pos 0;
  delim = b'\n';
  file_size_equiv = pos 0;
  kind = kind;
}

abbrev pub new_rand : Dictionary
new_rand = new_dictionary rand

abbrev pub new_seq : Dictionary
new_seq = new_dictionary (seq 0)

abbrev pub new_unique : Dictionary
new_unique = new_dictionary (unique (pos 0) (codes "%d") 512)

-- `words[i].c_str()`
abbrev pub word_at : List Bytes → ℕ → Result Bytes
word_at words i = elim (get_elem? words i) [ some w ↦ ok (c_str w) | none ↦ crashed out_of_bounds ]

abbrev pub max_unique : ℕ
max_unique = 512

-- `Seq_dictionary::next_word`
unfoldable pub seq_next_word : Dictionary → ℕ → Result (Bytes × Dictionary)
unfolding c_str
seq_next_word d cur_word_ind = do
  res ← word_at d.words cur_word_ind
  let next = if cur_word_ind + 1 == length d.words then 0 else cur_word_ind + 1
  ok (res, record d { kind = seq next })

-- `Rand_dictionary::next_word`, where `rand()` gives `r`.
unfoldable pub rand_next_word : Dictionary → ℕ → Result (Bytes × Dictionary)
unfolding c_str
rand_next_word d r =
    if length d.words == 0
    then crashed division_by_zero
    else (do res ← word_at d.words (r % length d.words); ok (res, d))

-- What printf prints for a format and one `int` argument, and the results of `rand()` in order,
-- are the C library's.
module _ (sprintf : Bytes → ℤ → Bytes) (rands : ℕ → ℕ) where
  -- `Unique_dictionary::next_word`: `snprintf` keeps `MAX_UNIQUE - 1` bytes. It is undefined with
  -- a format that asks for other arguments, and so is `id++` at `INT_MAX`.
  unfoldable pub unique_next_word : Dictionary → ℤ → Bytes → ℕ → Result (Bytes × Dictionary)
  unique_next_word d id templ buf_size =
      if not (takes_int templ)
      then crashed bad_format
      else if eq_ℤ id (pos 2147483647)
      then crashed int_overflow
      else ok (
        c_str (take 511 (sprintf templ id)),
        record d { kind = unique (id +ᵢ pos 1) templ buf_size },
      )

  -- The virtual `next_word`, with the number of calls of `rand()` made so far.
  unfoldable pub next_word_of : Kind → Dictionary → ℕ → Result (Bytes × Dictionary × ℕ)
  unfolding seq_next_word rand_next_word unique_next_word
  next_word_of rand d calls = do (w, d') ← rand_next_word d (rands calls); ok (w, d', calls + 1)
  next_word_of (seq i) d calls = do (w, d') ← seq_next_word d i; ok (w, d', calls)
  next_word_of (unique id templ size) d calls = do
    (w, d') ← unique_next_word d id templ size
    ok (w, d', calls)

  abbrev pub next_word : Dictionary → ℕ → Result (Bytes × Dictionary × ℕ)
  next_word d = next_word_of d.kind d

-- The loop of `fix_template` over what is left of `tmp`, and what it appends to `templ`.
unfoldable pub fix_loop : Bool → Bool → Bytes → Bytes
fix_loop saw_field last_percent [] = []
fix_loop saw_field last_percent (c ∷ tmp) =
    let percent = fix_loop saw_field true tmp in
    let field = b'%' ∷ c ∷ fix_loop true false tmp in
    let plain = c ∷ fix_loop saw_field false tmp in
    if c == b'%' then percent else if last_percent then (if saw_field then [] else field) else plain

-- `Unique_dictionary::fix_template`
unfoldable pub fix_template : Bytes → Bytes
unfolding fix_loop
fix_template templ = fix_loop false false templ

-- `Unique_dictionary::set_template`
unfoldable pub set_template : ℤ → Bytes → Kind
unfolding fix_template
set_template id templ = unique id (fix_template templ) (length templ + 512)
