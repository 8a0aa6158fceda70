-- ===== src/Blkparse/Account/Bytes.antt =====
-- The kilobytes and the rest together are the bytes of the requests.
use iovisualization.Prelude.{
  ℕ, ◌+◌, ◌-◌, ◌*◌, ◌%◌, ◌^◌, ◌≤◌, ◌<◌, ◌≡◌, Bool, true, false, arith, if◌then◌else◌, add64,
}
use iovisualization.Blkparse.Account.{
  IoStats, account_m, account_queue, account_c, account_issue, account_requeue, account_pc_queue,
  account_pc_issue, account_pc_requeue, int_kb, kb,
}

-- two numbers that 64 bits do not tell apart
abbrev pub Same64 : ℕ → ℕ → Type 0
Same64 a b = a % 2 ^ 64 ≡ b % 2 ^ 64

-- the bytes that a pair of counters stands for
abbrev pub in_bytes : ℕ → ℕ → ℕ
in_bytes k b = k * 1024 + b

int_kb-eq-kb : (bytes : ℕ) → bytes < 2 ^ 31 → int_kb bytes ≡ kb bytes
int_kb-eq-kb bytes h = ground arith

-- For a request below 2 GiB, queueing, merging, issuing and completing add its bytes to the byte
-- counters of its direction, modulo 2^64, and nothing to those of the other direction.
pub account_bytes :
    (ios : IoStats) (bytes : ℕ) (rw : Bool)
    → bytes < 2 ^ 31
    → let w = if rw then bytes else 0 in
      let r = if rw then 0 else bytes in
      let q = account_queue ios bytes rw in
      let m = account_m ios bytes rw in
      let i = account_issue ios bytes rw in
      let c = account_c ios bytes rw in
      Same64 (in_bytes q.qwrite_kb q.qwrite_b) (in_bytes ios.qwrite_kb ios.qwrite_b + w)
      × Same64 (in_bytes q.qread_kb q.qread_b) (in_bytes ios.qread_kb ios.qread_b + r)
      × Same64 (in_bytes m.mwrite_kb m.mwrite_b) (in_bytes ios.mwrite_kb ios.mwrite_b + w)
      × Same64 (in_bytes m.mread_kb m.mread_b) (in_bytes ios.mread_kb ios.mread_b + r)
      × Same64 (in_bytes i.iwrite_kb i.iwrite_b) (in_bytes ios.iwrite_kb ios.iwrite_b + w)
      × Same64 (in_bytes i.iread_kb i.iread_b) (in_bytes ios.iread_kb ios.iread_b + r)
      × Same64 (in_bytes c.cwrite_kb c.cwrite_b) (in_bytes ios.cwrite_kb ios.cwrite_b + w)
      × Same64 (in_bytes c.cread_kb c.cread_b) (in_bytes ios.cread_kb ios.cread_b + r)
unfolding account_m account_queue account_issue account_c
account_bytes ios bytes true h = omega (arith, int_kb-eq-kb bytes h)
account_bytes ios bytes false h = omega (arith, int_kb-eq-kb bytes h)

-- Where the byte counters fit 64 bits and the request 32, requeueing a request takes back what
-- issuing it added to the byte counters and leaves one more issue and one more requeue in its
-- direction, with all other counters as they were; the same holds for packet commands.
pub requeue-issue :
    (ios : IoStats) (bytes : ℕ) (rw : Bool)
    → ios.iwrite_kb < 2 ^ 64
    → ios.iwrite_b < 2 ^ 64
    → ios.iread_kb < 2 ^ 64
    → ios.iread_b < 2 ^ 64
    → ios.iwrite_kb_pc < 2 ^ 64
    → ios.iwrite_b_pc < 2 ^ 64
    → ios.iread_kb_pc < 2 ^ 64
    → ios.iread_b_pc < 2 ^ 64
    → bytes < 2 ^ 32
    → (account_requeue (account_issue ios bytes rw) bytes rw ≡ (
        if rw
        then record ios { iwrites = add64 ios.iwrites 1; wrqueue = add64 ios.wrqueue 1 }
        else record ios { ireads = add64 ios.ireads 1; rrqueue = add64 ios.rrqueue 1 }))
      × (account_pc_requeue (account_pc_issue ios bytes rw) bytes rw ≡ (
          if rw
          then record ios {
            iwrites_pc = add64 ios.iwrites_pc 1;
            wrqueue_pc = add64 ios.wrqueue_pc 1;
          }
          else record ios {
            ireads_pc = add64 ios.ireads_pc 1;
            rrqueue_pc = add64 ios.rrqueue_pc 1;
          }))
unfolding account_issue account_requeue account_pc_issue account_pc_requeue
requeue-issue ios bytes rw wk wb rk rb wkp wbp rkp rbp h = ground arith

-- Queueing a packet command that reads at least 1 KiB and below 4 GiB leaves the packet counters
-- short: they do not grow by its bytes, and the kilobytes of the file system's reads grow by the
-- whole KiB of it instead.
pub account_pc_queue_misplaced :
    (ios : IoStats) (bytes : ℕ)
    → 1024 ≤ bytes
    → bytes < 2 ^ 32
    → let q = account_pc_queue ios bytes false in
      (¬ Same64
        (in_bytes q.qread_kb_pc q.qread_b_pc)
        (in_bytes ios.qread_kb_pc ios.qread_b_pc + bytes))
      × Same64 (in_bytes q.qread_kb 0) (in_bytes ios.qread_kb 0 + (bytes - bytes % 1024))
unfolding account_pc_queue
account_pc_queue_misplaced ios bytes lo hi = omega arith
