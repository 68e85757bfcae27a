-- ===== src/Report/Codec.antt =====
-- `Query_report::fd_send` and `Query_report::update_from_fd` of src/query.cc: how a child sends
-- its report through the pipe, and how the parent adds it to its own.
use super_smack.Prelude.{
  ℕ, zero, suc, ◌+◌, ◌*◌, ◌/◌, ◌%◌, ◌^◌, Bool, Option, none, some, [], ◌∷◌, ◌++◌, if◌then◌else◌,
  ltb, Bytes, length, take, drop, c_str,
}
use super_smack.Prelude.Int.{ℤ, word, signed}
use super_smack.Result.{
  Result, ok, died, crashed, ◌>>=◌, read_error, incomplete_read, write_error, report_overflow,
  invalid_query_type, null_pointer,
}
use super_smack.StringMap.{insert}
use super_smack.Report.Types.{TypeReport, TypeReports, update_many, index}

-- A pipe: the bytes written and not yet read. On a broken one every call returns -1.
pub record Pipe : Type 0 where
  pub pending : Bytes
  pub broken : Bool

-- `read(fd, buf, n)`, with the bytes that came; `none` is -1. Where fewer than `n` bytes are left,
-- it returns those.
unfoldable pub read : Pipe → ℕ → Option (Bytes × Pipe)
read fd n =
    if fd.broken then none else some (take n fd.pending, record fd { pending = drop n fd.pending })

-- `write(fd, buf, len)`; `none` is -1.
unfoldable pub write : Pipe → Bytes → Option Pipe
write fd buf = if fd.broken then none else some (record fd { pending = fd.pending ++ buf })

-- The four bytes of an `int` in memory, the lowest first, and back.
unfoldable pub int_bytes : ℤ → Bytes
int_bytes z =
    let w = word z in (w % 256) ∷ (w / 2 ^ 8 % 256) ∷ (w / 2 ^ 16 % 256) ∷ (w / 2 ^ 24 % 256) ∷ []

unfoldable pub bytes_int : Bytes → ℤ
bytes_int (a ∷ b ∷ c ∷ d ∷ r) = signed (a + b * 2 ^ 8 + c * 2 ^ 16 + d * 2 ^ 24)
bytes_int _ = signed 0

abbrev pub max_report_len : ℕ
max_report_len = 1024

-- One record: `*p++ = (char) str_len`, the name, and the three numbers.
unfoldable pub record_bytes : Bytes → TypeReport → Bytes
unfolding int_bytes
record_bytes name r =
    (length name % 256)
    ∷ (name ++ (int_bytes r.num_queries ++ (int_bytes r.max_time ++ int_bytes r.min_time)))

-- The loop of `fd_send`: `p` is the offset in `buf` at which the next record goes. The result is
-- what is written from there on, and the number of records.
unfoldable pub fill : ℕ → TypeReports → Result (Bytes × ℕ)
unfolding record_bytes
fill p [] = ok ([], 0)
fill p ((name, qtr) ∷ m) =
    let str_len = length name in
    if ltb (p + str_len + 12) max_report_len
    then elim qtr [
      | none ↦ crashed null_pointer
      | some r ↦ (do
        (rest, num_recs) ← fill (p + 1 + str_len + 12) m
        ok (record_bytes name r ++ rest, num_recs + 1))
    ]
    else died report_overflow

-- `if(write(fd, buf, len) != len) die(…)`
unfoldable pub write_or_die : Pipe → Bytes → Result Pipe
unfolding write
write_or_die fd buf = elim (write fd buf) [ none ↦ died write_error | some fd' ↦ ok fd' ]

-- `Query_report::fd_send`
unfoldable pub fd_send : TypeReports → Pipe → Result Pipe
unfolding fill write_or_die
fd_send m fd = do (recs, num_recs) ← fill 1 m; write_or_die fd ((num_recs % 256) ∷ recs)

-- The end of the loop's body: the numbers read are added to the report of that name.
unfoldable pub absorb : Bytes → ℤ → ℤ → ℤ → TypeReports → Result TypeReports
unfolding index
absorb read_q_type read_num_queries read_max_q_time read_min_q_time m =
    let (q, m') = index read_q_type m in
    elim q [
      | some r ↦
          let r' = update_many r read_num_queries read_max_q_time read_min_q_time in
          ok (insert read_q_type (some r') m')
      | none ↦ died (invalid_query_type read_q_type)
    ]

-- The part of the loop's body behind a complete read: `buf` holds the name and the three numbers.
-- The name ends at its first NUL, since four of them are written behind it.
unfoldable pub absorb_record : ℕ → Bytes → TypeReports → Result TypeReports
unfolding bytes_int c_str absorb
absorb_record q_type_len buf =
    absorb (c_str (take q_type_len buf)) (bytes_int (drop q_type_len buf))
      (bytes_int (drop (q_type_len + 4) buf)) (bytes_int (drop (q_type_len + 8) buf))

-- One round of that loop; `none` is the return at the end of the data.
unfoldable pub read_record : Pipe → TypeReports → Result (Option (TypeReports × Pipe))
unfolding read absorb_record
read_record fd m = elim (read fd 1) [
  | none ↦ died read_error
  | some ([], fd') ↦ ok none
  | some (q_type_len ∷ _, fd') ↦ elim (read fd' (q_type_len + 12)) [
    | none ↦ died read_error
    | some (buf, fd'') ↦
        if ltb (length buf) (q_type_len + 12)
        then died incomplete_read
        else (do m' ← absorb_record q_type_len buf m; ok (some (m', fd'')))
  ]
]

-- The loop, with the rounds left.
unfoldable pub read_records : ℕ → Pipe → TypeReports → Result (TypeReports × Pipe)
read_records zero fd m = ok (m, fd)
read_records (suc n) fd m = do
  next ← read_record fd m
  elim next [ none ↦ ok (m, record fd { pending = [] }) | some (m', fd') ↦ read_records n fd' m' ]

-- `Query_report::update_from_fd`
unfoldable pub update_from_fd : Pipe → TypeReports → Result (TypeReports × Pipe)
unfolding read read_records
update_from_fd fd m = elim (read fd 1) [
  | none ↦ died read_error
  | some ([], fd') ↦ ok (m, fd')
  | some (num_recs ∷ _, fd') ↦ read_records num_recs fd' m
]
