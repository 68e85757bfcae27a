-- ===== src/Report/Message.antt =====
-- One record of the message: what `fd_send` writes for it, `update_from_fd` reads back.
use super_smack.Prelude.{
  ℕ, ◌+◌, ◌*◌, ◌%◌, ◌/◌, ◌^◌, ◌<◌, ◌≡◌, refl, ◌∙◌, ap, false, some, List, [], ◌++◌, append_assoc,
  append-nil, arith, ltb, Bytes, length, take, drop, IsText, c_str-IsText, length-append,
  take-append, drop-append,
}
use super_smack.Prelude.Int.{ℤ, IsInt, word, signed, word-lt, signed-word}
use super_smack.Result.{ok}
use super_smack.StringMap.{lookup, insert}
use super_smack.Report.Types.{TypeReport, TypeReports, update_many}
use super_smack.Report.Codec.{
  int_bytes, bytes_int, record_bytes, read, absorb, absorb_record, read_record,
}

pub bytes_int-int_bytes : (z : ℤ) (rest : Bytes) → IsInt z → bytes_int (int_bytes z ++ rest) ≡ z
unfolding bytes_int int_bytes
bytes_int-int_bytes z rest h = joined (word z) (word-lt z) ∙ signed-word z h
  where
    joined :
        (w : ℕ)
        → w < 2 ^ 32
        → signed (
            w % 256
            + w / 2 ^ 8 % 256 * 2 ^ 8
            + w / 2 ^ 16 % 256 * 2 ^ 16
            + w / 2 ^ 24 % 256 * 2 ^ 24)
          ≡ signed w
    joined w l = ap signed (omega arith)

length-int_bytes : (z : ℤ) → length (int_bytes z) ≡ 4
unfolding int_bytes
length-int_bytes z = refl

-- The numbers of a report fit their `int`s.
pub record IsIntReport (r : TypeReport) : Type 0 where
  pub num_queries : IsInt r.num_queries
  pub min_time : IsInt r.min_time
  pub max_time : IsInt r.max_time

ltb_irrefl : (n : ℕ) → ltb n n ≡ false
ltb_irrefl n = ground arith

module _ {ℓ} {A : Type ℓ} where
  take_at : (n : ℕ) (xs ys : List A) → length xs ≡ n → take n (xs ++ ys) ≡ xs
  take_at n xs ys e = rw (← e) (take-append xs ys)

  drop_at : (n : ℕ) (xs ys : List A) → length xs ≡ n → drop n (xs ++ ys) ≡ ys
  drop_at n xs ys e = rw (← e) (drop-append xs ys)

abbrev payload : Bytes → TypeReport → Bytes
payload name r = name ++ (int_bytes r.num_queries ++ (int_bytes r.max_time ++ int_bytes r.min_time))

length-payload : (name : Bytes) (r : TypeReport) → length (payload name r) ≡ length name + 12
length-payload name r = omega (
  arith,
  length-append name (int_bytes r.num_queries ++ (int_bytes r.max_time ++ int_bytes r.min_time)),
  length-append (int_bytes r.num_queries) (int_bytes r.max_time ++ int_bytes r.min_time),
  length-append (int_bytes r.max_time) (int_bytes r.min_time),
  length-int_bytes r.num_queries,
  length-int_bytes r.max_time,
  length-int_bytes r.min_time,
)

pub length-record_bytes :
    (name : Bytes) (r : TypeReport) → length (record_bytes name r) ≡ length name + 13
unfolding record_bytes
length-record_bytes name r = omega (arith, length-payload name r)

module _ (name : Bytes) (r : TypeReport) (ints : IsIntReport r) where
  read_num : bytes_int (drop (length name) (payload name r)) ≡ r.num_queries
  read_num = rw (drop_at (length name) name _ refl) (bytes_int-int_bytes _ _ ints.num_queries)

  read_max : bytes_int (drop (length name + 4) (payload name r)) ≡ r.max_time
  read_max =
      rw
        (← append_assoc name (int_bytes r.num_queries)
          (int_bytes r.max_time ++ int_bytes r.min_time))
        (rw (drop_at (length name + 4) (name ++ int_bytes r.num_queries) _ len)
          (bytes_int-int_bytes _ _ ints.max_time))
    where
      len : length (name ++ int_bytes r.num_queries) ≡ length name + 4
      len =
          omega
            (arith, length-append name (int_bytes r.num_queries), length-int_bytes r.num_queries)

  read_min : bytes_int (drop (length name + 8) (payload name r)) ≡ r.min_time
  read_min = rw regroup (rw (drop_at (length name + 8) before _ len) last)
    where
      before : Bytes
      before = name ++ (int_bytes r.num_queries ++ int_bytes r.max_time)

      regroup : payload name r ≡ before ++ int_bytes r.min_time
      regroup = simp append_assoc

      len : length before ≡ length name + 8
      len = omega (
        arith,
        length-append name (int_bytes r.num_queries ++ int_bytes r.max_time),
        length-append (int_bytes r.num_queries) (int_bytes r.max_time),
        length-int_bytes r.num_queries,
        length-int_bytes r.max_time,
      )

      last : bytes_int (int_bytes r.min_time) ≡ r.min_time
      last = rw (← append-nil (int_bytes r.min_time)) (bytes_int-int_bytes _ [] ints.min_time)

  absorb_known :
      (m : TypeReports) (s : TypeReport)
      → lookup name m ≡ some (some s)
      → absorb name r.num_queries r.max_time r.min_time m
        ≡ ok (insert name (some (update_many s r.num_queries r.max_time r.min_time)) m)
  unfolding absorb
  absorb_known m s known = ground arith

  absorb_record-payload :
      (m : TypeReports) (s : TypeReport)
      → IsText name
      → lookup name m ≡ some (some s)
      → absorb_record (length name) (payload name r) m
        ≡ ok (insert name (some (update_many s r.num_queries r.max_time r.min_time)) m)
  unfolding absorb_record
  absorb_record-payload m s text known =
      rw (read_num, read_max, read_min, take_at (length name) name _ refl, c_str-IsText name text)
        (absorb_known m s known)

  -- The record of `r` is read back whole, whatever stands behind it in the pipe, and is added to
  -- the report of the same name.
  pub read_record-record_bytes :
      (rest : Bytes) (m : TypeReports) (s : TypeReport)
      → IsText name
      → length name < 256
      → lookup name m ≡ some (some s)
      → read_record (record { pending = record_bytes name r ++ rest; broken = false }) m
        ≡ ok (
            some (
              insert name (some (update_many s r.num_queries r.max_time r.min_time)) m,
              record { pending = rest; broken = false },
            ))
  unfolding read_record read record_bytes
  read_record-record_bytes rest m s text short known =
      let size : length name % 256 ≡ length name = omega arith in
      rw size (
        rw
          (
            take_at (length name + 12) (payload name r) rest (length-payload name r),
            drop_at (length name + 12) (payload name r) rest (length-payload name r),
            length-payload name r,
            ltb_irrefl (length name + 12),
          )
          (rw (absorb_record-payload m s text known)))
