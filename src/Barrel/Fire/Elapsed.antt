-- ===== src/Barrel/Fire/Elapsed.antt =====
-- How exact the time of a query is.
use super_smack.Prelude.{ℕ, ◌+◌, ◌*◌, ◌<◌, arith}
use super_smack.Prelude.Int.{pos_part, neg_part, ◌+ℤ◌}
use super_smack.Barrel.Fire.{Timeval, elapsed}

abbrev pub micros : Timeval → ℕ
micros t = t.tv_sec * 1000000 + t.tv_usec

-- Between two times of which each has less than a million microseconds and the second is not
-- before the first, the time of a query in ms is right to less than one: neither the whole of a
-- millisecond more nor less than the microseconds between them.
pub elapsed_bounds :
    (start end : Timeval)
    → start.tv_usec < 1000000
    → end.tv_usec < 1000000
    → (micros start + pos_part (elapsed start end) * 1000
        < micros end + neg_part (elapsed start end) * 1000 + 1000)
      × (micros end + neg_part (elapsed start end) * 1000
          < micros start + pos_part (elapsed start end) * 1000 + 1000)
unfolding elapsed ◌+ℤ◌
elapsed_bounds start end h k = ground arith
