-- ===== src/Blkparse/Process/Counters.antt =====
-- server-proto/blkparse.c, lines 1193 to 1424: each event is counted for its processor and, with
-- `per_process_stats`, for its process.
pub mod Replay
use iovisualization.Prelude.{ℕ, Bool, List, if◌then◌else◌}
use iovisualization.Blkparse.Account
use iovisualization.Blkparse.Account.{IoStats}
use iovisualization.Blkparse.Process.{Procs, with_process_io_stats}

-- The counters of one `struct per_cpu_info` and those of the processes.
pub record Counters : Type 0 where
  pub per_process_stats : Bool
  pub pci : IoStats
  pub procs : Procs

-- what the functions read of `struct blk_io_trace`
pub record Request : Type 0 where
  pub pid : ℕ
  pub bytes : ℕ

module _ (hash_pid : ℕ → ℕ) (hash_name : List ℕ → ℕ) where
  -- The body that the functions below share: `update` at the processor's counters, and at the
  -- process's if those are kept.
  unfoldable pub account : (IoStats → IoStats) → ℕ → Counters → Counters
  account update pid c = record c {
    pci = update c.pci;
    procs =
        if c.per_process_stats
        then with_process_io_stats hash_pid hash_name c.procs pid update
        else c.procs;
  }

  unfoldable pub account_m : Request → Bool → Counters → Counters
  unfolding account
  account_m t rw = account (λ ios. Account.account_m ios t.bytes rw) t.pid

  unfoldable pub account_pc_queue : Request → Bool → Counters → Counters
  unfolding account
  account_pc_queue t rw = account (λ ios. Account.account_pc_queue ios t.bytes rw) t.pid

  unfoldable pub account_pc_issue : Request → Bool → Counters → Counters
  unfolding account
  account_pc_issue t rw = account (λ ios. Account.account_pc_issue ios t.bytes rw) t.pid

  unfoldable pub account_pc_requeue : Request → Bool → Counters → Counters
  unfolding account
  account_pc_requeue t rw = account (λ ios. Account.account_pc_requeue ios t.bytes rw) t.pid

  unfoldable pub account_pc_c : Request → Bool → Counters → Counters
  unfolding account
  account_pc_c t rw = account (λ ios. Account.account_pc_c ios rw) t.pid

  unfoldable pub account_queue : Request → Bool → Counters → Counters
  unfolding account
  account_queue t rw = account (λ ios. Account.account_queue ios t.bytes rw) t.pid

  unfoldable pub account_c : Request → Bool → ℕ → Counters → Counters
  unfolding account
  account_c t rw bytes = account (λ ios. Account.account_c ios bytes rw) t.pid

  unfoldable pub account_issue : Request → Bool → Counters → Counters
  unfolding account
  account_issue t rw = account (λ ios. Account.account_issue ios t.bytes rw) t.pid

  unfoldable pub account_unplug : Request → Bool → Counters → Counters
  unfolding account
  account_unplug t timer = account (λ ios. Account.account_unplug ios timer) t.pid

  unfoldable pub account_requeue : Request → Bool → Counters → Counters
  unfolding account
  account_requeue t rw = account (λ ios. Account.account_requeue ios t.bytes rw) t.pid
