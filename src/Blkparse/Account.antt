-- ===== src/Blkparse/Account.antt =====
-- server-proto/blktrace.h, lines 32 to 44, and server-proto/blkparse.c, lines 1179 to 1424: the counters of
-- `struct io_stats`, which blkparse keeps for each processor and, on request, for each process.
-- All of them have 64 bits. `rw` is true for a write.
pub mod Bytes
use iovisualization.Prelude.{ℕ, ◌+◌, ◌-◌, ◌/◌, ◌%◌, ◌^◌, Bool, ltb, if◌then◌else◌, add64, sub64}

-- `struct io_stats`
pub record IoStats : Type 0 where
  pub qreads : ℕ
  pub qwrites : ℕ
  pub creads : ℕ
  pub cwrites : ℕ
  pub mreads : ℕ
  pub mwrites : ℕ
  pub ireads : ℕ
  pub iwrites : ℕ
  pub rrqueue : ℕ
  pub wrqueue : ℕ
  pub qread_kb : ℕ
  pub qwrite_kb : ℕ
  pub cread_kb : ℕ
  pub cwrite_kb : ℕ
  pub qread_b : ℕ
  pub qwrite_b : ℕ
  pub cread_b : ℕ
  pub cwrite_b : ℕ
  pub iread_kb : ℕ
  pub iwrite_kb : ℕ
  pub mread_kb : ℕ
  pub mwrite_kb : ℕ
  pub mread_b : ℕ
  pub mwrite_b : ℕ
  pub iread_b : ℕ
  pub iwrite_b : ℕ
  pub qreads_pc : ℕ
  pub qwrites_pc : ℕ
  pub ireads_pc : ℕ
  pub iwrites_pc : ℕ
  pub rrqueue_pc : ℕ
  pub wrqueue_pc : ℕ
  pub creads_pc : ℕ
  pub cwrites_pc : ℕ
  pub qread_kb_pc : ℕ
  pub qwrite_kb_pc : ℕ
  pub iread_kb_pc : ℕ
  pub iwrite_kb_pc : ℕ
  pub qread_b_pc : ℕ
  pub qwrite_b_pc : ℕ
  pub iread_b_pc : ℕ
  pub iwrite_b_pc : ℕ
  pub io_unplugs : ℕ
  pub timer_unplugs : ℕ

-- `memset(ios, 0, sizeof(*ios))`
unfoldable pub no_io : IoStats
no_io = record {
  qreads = 0;
  qwrites = 0;
  creads = 0;
  cwrites = 0;
  mreads = 0;
  mwrites = 0;
  ireads = 0;
  iwrites = 0;
  rrqueue = 0;
  wrqueue = 0;
  qread_kb = 0;
  qwrite_kb = 0;
  cread_kb = 0;
  cwrite_kb = 0;
  qread_b = 0;
  qwrite_b = 0;
  cread_b = 0;
  cwrite_b = 0;
  iread_kb = 0;
  iwrite_kb = 0;
  mread_kb = 0;
  mwrite_kb = 0;
  mread_b = 0;
  mwrite_b = 0;
  iread_b = 0;
  iwrite_b = 0;
  qreads_pc = 0;
  qwrites_pc = 0;
  ireads_pc = 0;
  iwrites_pc = 0;
  rrqueue_pc = 0;
  wrqueue_pc = 0;
  creads_pc = 0;
  cwrites_pc = 0;
  qread_kb_pc = 0;
  qwrite_kb_pc = 0;
  iread_kb_pc = 0;
  iwrite_kb_pc = 0;
  qread_b_pc = 0;
  qwrite_b_pc = 0;
  iread_b_pc = 0;
  iwrite_b_pc = 0;
  io_unplugs = 0;
  timer_unplugs = 0;
}

-- `t_kb` and `t_b`, which are also written `bytes >> 10` and `bytes & 1023`
abbrev pub kb : ℕ → ℕ
kb bytes = bytes / 1024

abbrev pub rest_b : ℕ → ℕ
rest_b bytes = bytes % 1024

-- `bytes >> 10` at an `int`, given by its 32 bits, converted to 64 bits
abbrev pub int_kb : ℕ → ℕ
int_kb bytes = if ltb bytes (2 ^ 31) then bytes / 1024 else sub64 0 ((2 ^ 32 - bytes + 1023) / 1024)

-- `__account_m`; `bytes` is `t->bytes`
unfoldable pub account_m : IoStats → ℕ → Bool → IoStats
account_m ios bytes rw =
    if rw
    then record ios {
      mwrites = add64 ios.mwrites 1;
      mwrite_kb = add64 ios.mwrite_kb (kb bytes);
      mwrite_b = add64 ios.mwrite_b (rest_b bytes);
    }
    else record ios {
      mreads = add64 ios.mreads 1;
      mread_kb = add64 ios.mread_kb (kb bytes);
      mread_b = add64 ios.mread_b (rest_b bytes);
    }

-- `__account_pc_queue`: the read branch adds its kilobytes to `qread_kb`.
unfoldable pub account_pc_queue : IoStats → ℕ → Bool → IoStats
account_pc_queue ios bytes rw =
    if rw
    then record ios {
      qwrites_pc = add64 ios.qwrites_pc 1;
      qwrite_kb_pc = add64 ios.qwrite_kb_pc (kb bytes);
      qwrite_b_pc = add64 ios.qwrite_b_pc (rest_b bytes);
    }
    else record ios {
      qreads_pc = add64 ios.qreads_pc 1;
      qread_kb = add64 ios.qread_kb (kb bytes);
      qread_b_pc = add64 ios.qread_b_pc (rest_b bytes);
    }

unfoldable pub account_pc_issue : IoStats → ℕ → Bool → IoStats
account_pc_issue ios bytes rw =
    if rw
    then record ios {
      iwrites_pc = add64 ios.iwrites_pc 1;
      iwrite_kb_pc = add64 ios.iwrite_kb_pc (kb bytes);
      iwrite_b_pc = add64 ios.iwrite_b_pc (rest_b bytes);
    }
    else record ios {
      ireads_pc = add64 ios.ireads_pc 1;
      iread_kb_pc = add64 ios.iread_kb_pc (kb bytes);
      iread_b_pc = add64 ios.iread_b_pc (rest_b bytes);
    }

unfoldable pub account_pc_requeue : IoStats → ℕ → Bool → IoStats
account_pc_requeue ios bytes rw =
    if rw
    then record ios {
      wrqueue_pc = add64 ios.wrqueue_pc 1;
      iwrite_kb_pc = sub64 ios.iwrite_kb_pc (kb bytes);
      iwrite_b_pc = sub64 ios.iwrite_b_pc (rest_b bytes);
    }
    else record ios {
      rrqueue_pc = add64 ios.rrqueue_pc 1;
      iread_kb_pc = sub64 ios.iread_kb_pc (kb bytes);
      iread_b_pc = sub64 ios.iread_b_pc (rest_b bytes);
    }

unfoldable pub account_pc_c : IoStats → Bool → IoStats
account_pc_c ios rw =
    if rw
    then record ios { cwrites_pc = add64 ios.cwrites_pc 1 }
    else record ios { creads_pc = add64 ios.creads_pc 1 }

unfoldable pub account_queue : IoStats → ℕ → Bool → IoStats
account_queue ios bytes rw =
    if rw
    then record ios {
      qwrites = add64 ios.qwrites 1;
      qwrite_kb = add64 ios.qwrite_kb (kb bytes);
      qwrite_b = add64 ios.qwrite_b (rest_b bytes);
    }
    else record ios {
      qreads = add64 ios.qreads 1;
      qread_kb = add64 ios.qread_kb (kb bytes);
      qread_b = add64 ios.qread_b (rest_b bytes);
    }

-- `__account_c` takes the bytes as an `int`.
unfoldable pub account_c : IoStats → ℕ → Bool → IoStats
account_c ios bytes rw =
    if rw
    then record ios {
      cwrites = add64 ios.cwrites 1;
      cwrite_kb = add64 ios.cwrite_kb (int_kb bytes);
      cwrite_b = add64 ios.cwrite_b (rest_b bytes);
    }
    else record ios {
      creads = add64 ios.creads 1;
      cread_kb = add64 ios.cread_kb (int_kb bytes);
      cread_b = add64 ios.cread_b (rest_b bytes);
    }

unfoldable pub account_issue : IoStats → ℕ → Bool → IoStats
account_issue ios bytes rw =
    if rw
    then record ios {
      iwrites = add64 ios.iwrites 1;
      iwrite_kb = add64 ios.iwrite_kb (kb bytes);
      iwrite_b = add64 ios.iwrite_b (rest_b bytes);
    }
    else record ios {
      ireads = add64 ios.ireads 1;
      iread_kb = add64 ios.iread_kb (kb bytes);
      iread_b = add64 ios.iread_b (rest_b bytes);
    }

unfoldable pub account_unplug : IoStats → Bool → IoStats
account_unplug ios timer =
    if timer
    then record ios { timer_unplugs = add64 ios.timer_unplugs 1 }
    else record ios { io_unplugs = add64 ios.io_unplugs 1 }

unfoldable pub account_requeue : IoStats → ℕ → Bool → IoStats
account_requeue ios bytes rw =
    if rw
    then record ios {
      wrqueue = add64 ios.wrqueue 1;
      iwrite_kb = sub64 ios.iwrite_kb (kb bytes);
      iwrite_b = sub64 ios.iwrite_b (rest_b bytes);
    }
    else record ios {
      rrqueue = add64 ios.rrqueue 1;
      iread_kb = sub64 ios.iread_kb (kb bytes);
      iread_b = sub64 ios.iread_b (rest_b bytes);
    }
