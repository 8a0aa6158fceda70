-- ===== src/Btt/Avg.antt =====
-- server-proto/btt/inlines.h, lines 82 to 122 and 315 to 318, and `struct avg_info` of server-proto/btt/globals.h: running averages of times.
-- The field `avg` is filled in for the output only, and is left out. `n` is an `int`, kept as its 32 bits.
pub mod Laws
pub mod Tests
use iovisualization.Prelude.{
  ℕ, ◌+◌, ◌-◌, ◌%◌, ◌^◌, ap, ltb, ◌==◌, if◌then◌else◌, u64_max, add64, sub64, mul64, add32,
}

pub record AvgInfo : Type 0 where
  pub min_time : ℕ
  pub max_time : ℕ
  pub total : ℕ
  pub n : ℕ

-- memory that is zero
abbrev pub no_avg : AvgInfo
no_avg = record { min_time = 0; max_time = 0; total = 0; n = 0 }

unfoldable pub avg_update : AvgInfo → ℕ → AvgInfo
avg_update ap t =
    if ap.n == 0
    then record { min_time = t; max_time = t; total = t; n = add32 ap.n 1 }
    else if ltb t ap.min_time
    then record ap { min_time = t; total = add64 ap.total t; n = add32 ap.n 1 }
    else if ltb ap.max_time t
    then record ap { max_time = t; total = add64 ap.total t; n = add32 ap.n 1 }
    else record ap { total = add64 ap.total t; n = add32 ap.n 1 }

-- `n` is not negative.
unfoldable pub avg_update_n : AvgInfo → ℕ → ℕ → AvgInfo
avg_update_n ap t n =
    if ap.n == 0
    then record { min_time = t; max_time = t; total = mul64 n t; n = add32 ap.n n }
    else if ltb t ap.min_time
    then record ap { min_time = t; total = add64 ap.total (mul64 n t); n = add32 ap.n n }
    else if ltb ap.max_time t
    then record ap { max_time = t; total = add64 ap.total (mul64 n t); n = add32 ap.n n }
    else record ap { total = add64 ap.total (mul64 n t); n = add32 ap.n n }

unfoldable pub avg_unupdate : AvgInfo → ℕ → AvgInfo
avg_unupdate ap t = record ap { n = (ap.n + 2 ^ 32 - 1) % 2 ^ 32; total = sub64 ap.total t }

-- `*last_q` and `*avg` afterwards
unfoldable pub update_lq : ℕ → AvgInfo → ℕ → ℕ × AvgInfo
unfolding avg_update
update_lq last_q avg time = (
  time,
  if last_q == u64_max then avg else avg_update avg (if ltb last_q time then time - last_q else 1),
)

unfoldable pub tdelta : ℕ → ℕ → ℕ
tdelta from to = if ltb from to then to - from else 1
