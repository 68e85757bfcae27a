-- ===== src/GenData/Widths.antt =====
-- How long the strings of the data generator are, and of which letters.
use super_smack.Prelude.{ℕ, zero, suc, ◌+◌, ◌<◌, ◌≤◌, ◌≡◌, ◌⊎◌, refl, arith, ap, length, All}
use super_smack.GenData.{max_str_width, get_rand, get_width, letters, str_width, print_str}

-- A letter of 'a' to 'y'.
abbrev pub IsLetter : ℕ → Type 0
IsLetter c = (b'a' ≤ c) × (c < b'z')

letters-IsLetter : (rands : ℕ → ℕ) (n calls : ℕ) → All IsLetter (letters rands n calls)
unfolding letters get_rand
letters-IsLetter rands zero calls = tt
letters-IsLetter rands (suc n) calls = (omega arith, letters-IsLetter rands n (calls + 1))

length-letters : (rands : ℕ → ℕ) (n calls : ℕ) → length (letters rands n calls) ≡ n
unfolding letters
length-letters rands zero calls = refl
length-letters rands (suc n) calls = ap suc (length-letters rands n (calls + 1))

get_width-range :
    (rands : ℕ → ℕ) (m n calls : ℕ)
    → m < n
    → (m ≤ (get_width rands m n calls).0) × ((get_width rands m n calls).0 < n)
unfolding get_width get_rand
get_width-range rands m n calls h = ground arith

-- A string of the format `%m-ns` with 0 < m < n <= 257 has at least m letters but fewer than n, and
-- they are letters of 'a' to 'y'.
pub print_str_range :
    (rands : ℕ → ℕ) (m n calls : ℕ)
    → 0 < m
    → m < n
    → n ≤ max_str_width + 1
    → (m ≤ length (print_str rands m n calls).0)
      × (length (print_str rands m n calls).0 < n)
      × All IsLetter (print_str rands m n calls).0
unfolding print_str str_width
print_str_range rands m n calls z h k =
    let w = (get_width rands m n calls).0 in
    let range = get_width-range rands m n calls h in
    (
      ground (arith, range, length-letters rands (str_width w) (get_width rands m n calls).1),
      ground (arith, range, length-letters rands (str_width w) (get_width rands m n calls).1),
      letters-IsLetter rands (str_width w) _,
    )

-- A string of the format `%ns` with 0 < n <= 256 has fewer than n letters, or 256.
pub print_str_width :
    (rands : ℕ → ℕ) (n calls : ℕ)
    → 0 < n
    → n ≤ max_str_width
    → (length (print_str rands 0 n calls).0 < n)
      ⊎ (length (print_str rands 0 n calls).0 ≡ max_str_width)
unfolding print_str str_width
print_str_width rands n calls h k = ground (
  arith,
  get_width-range rands 0 n calls h,
  length-letters rands (str_width (get_width rands 0 n calls).0) (get_width rands 0 n calls).1,
)
