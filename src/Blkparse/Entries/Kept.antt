-- ===== src/Blkparse/Entries/Kept.antt =====
-- The tree after records were read.
use iovisualization.Prelude.{
  ℕ, ◌+◌, ◌%◌, ◌^◌, ◌≡◌, ◌≢◌, Bool, ◌&&◌, List, leb, ltb, length, count, sub64,
}
use iovisualization.Prelude.Tree.{inorder}
use iovisualization.Blkparse.Sort.{Tr}
use iovisualization.Blkparse.Sort.Order.{IsSorted}
use iovisualization.Blkparse.Entries.Genesis.{IsEarliest}
use iovisualization.Blkparse.Entries.{Entries}

-- the tree is in order, and its records are counted
pub record IsCounted (s : Entries) : Type 0 where
  pub sorted : IsSorted (inorder s.rb_sort_root)
  pub entries : s.rb_sort_entries ≡ length (inorder s.rb_sort_root) % 2 ^ 64

-- records inside the stopwatch's time, which is counted from the genesis
abbrev pub timed : ℕ → ℕ → ℕ → Tr → Bool
timed genesis start end t =
    ltb (sub64 t.bit.time genesis) end && leb start (sub64 t.bit.time genesis)

-- `kept` records went into the tree.
pub record Kept (kept : ℕ) (s s' : Entries) : Type 0 where
  pub counted : IsCounted s'
  pub longer : length (inorder s'.rb_sort_root) ≡ length (inorder s.rb_sort_root) + kept
  pub genesis : s'.genesis_time ≡ s.genesis_time
  pub start : s'.stopwatch_start ≡ s.stopwatch_start
  pub end : s'.stopwatch_end ≡ s.stopwatch_end

-- What `sort_entries` promises: the tree stays in order and counted, and has as many records more as lie inside
-- the stopwatch's time, counted from the genesis; that is the earliest time read if it was not known.
pub record Sorted (trace_list : List Tr) (s s' : Entries) : Type 0 where
  pub counted : IsCounted s'
  pub known : s.genesis_time ≢ 0 → s'.genesis_time ≡ s.genesis_time
  pub unknown : s.genesis_time ≡ 0 → IsEarliest s'.genesis_time trace_list
  pub longer :
      length (inorder s'.rb_sort_root)
      ≡ length (inorder s.rb_sort_root)
        + count (timed s'.genesis_time s.stopwatch_start s.stopwatch_end) trace_list
