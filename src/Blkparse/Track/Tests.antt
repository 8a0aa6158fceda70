-- ===== src/Blkparse/Track/Tests.antt =====
-- Requests under way at concrete events.
use iovisualization.Prelude.{ℕ, ◌+◌, ◌*◌, ◌^◌, ◌≡◌, refl, true, none, some, List, [], arith, sub64}
use iovisualization.Prelude.Tree.{leaf, node}
use iovisualization.Prelude.Plain.{plain}
use iovisualization.Prelude.Keyed.Items.{get}
use iovisualization.Trace.{IoTrace}
use iovisualization.Blkparse.Process.{new_ppi, Procs}
use iovisualization.Blkparse.Track.{
  IoTrack, Tracker, log_track_getrq, log_track_insert, log_track_issue, log_track_complete,
  log_track_frontmerge,
}
use iovisualization.Blkparse.Track.Moves.{Tracks, with_track}
use iovisualization.Blkparse.Track.Cycle.{track_cycle}
use iovisualization.Blkparse.Track.Merge.{frontmerge-Tracks, insert_reads_garbage}

abbrev pub no_procs : Procs
no_procs = record {
  ppi_hash_by_pid = true;
  ppm_hash_table = λ h. [];
  ppi_hash_table = λ h. [];
  ppi_list = [];
  ppi_list_entries = 0;
  heap = λ i. new_ppi (record { pid = 0; comm = [] });
  fresh = 0;
}

abbrev pub start : Tracker
start = record {
  dev = 8 * 2 ^ 20;
  track_ios = true;
  per_process_stats = true;
  rb_track = leaf;
  procs = no_procs;
}

-- memory that was used before, with 77 where the allocation time will be
abbrev pub used : IoTrack
used = record {
  ppm = record { pid = 0; comm = [] };
  sector = 0;
  allocation_time = 77;
  queue_time = 0;
  dispatch_time = 0;
  completion_time = 0;
}

-- a read of the file system, one page at sector 64
abbrev pub event : ℕ → ℕ → IoTrace
event action time = record {
  magic = 0;
  sequence = 1;
  time = time;
  sector = 64;
  bytes = 4096;
  action = action + 257 * 2 ^ 16;
  pid = 7;
  device = 8 * 2 ^ 20;
  cpu = 0;
  error = 0;
  pdu_len = 0;
}

abbrev pub by_pid : ℕ → ℕ
by_pid pid = pid

abbrev pub by_name : List ℕ → ℕ
by_name name = 0

empty-Tracks : Tracks start (λ j. none)
unfolding get
empty-Tracks = record { on = refl; keyed = tt; shows = λ j. refl }

-- The times of a request of one page.
track_cycle_example :
    let s₁ = log_track_getrq plain by_pid by_name used start (event 4 100) in
    let (waited, s₂) = log_track_insert plain by_pid by_name used s₁ (event 12 130) in
    let (queued, s₃) = log_track_issue by_pid by_name s₂ (event 7 150) in
    let (served, s₄) = log_track_complete plain by_pid by_name s₃ (event 8 950) in
    (waited ≡ sub64 130 100)
    × (queued ≡ sub64 150 130)
    × (served ≡ sub64 950 150)
    × Tracks s₄ (λ j. none)
track_cycle_example =
    track_cycle plain by_pid by_name used start (λ j. none) (event 4 100) (event 12 130)
      (event 7 150) (event 8 950) empty-Tracks refl refl refl refl (omega arith) refl

-- one request behind the event
abbrev behind : IoTrack
behind = record used { sector = 72 }

abbrev one : Tracker
one = record start { rb_track = node leaf behind leaf }

one-Tracks : Tracks one (with_track (λ j. none) 72 (some behind))
unfolding get
one-Tracks = record { on = refl; keyed = (omega arith, tt, tt); shows = λ j. ground arith }

frontmerge-Tracks_example :
    let rest = with_track (with_track (λ j. none) 72 (some behind)) 72 none in
    (rest 64 ≡ none
      → Tracks
          (log_track_frontmerge plain one (event 3 10))
          (with_track rest 64 (some (record used { sector = 64 }))))
    × ((a : IoTrack) → rest 64 ≡ some a → Tracks (log_track_frontmerge plain one (event 3 10)) rest)
frontmerge-Tracks_example =
    frontmerge-Tracks plain one (with_track (λ j. none) 72 (some behind)) (event 3 10) behind
      one-Tracks refl (omega arith) (omega arith)

insert_reads_garbage_example :
    (log_track_insert plain by_pid by_name used start (event 12 130)).0 ≡ 53
insert_reads_garbage_example =
    insert_reads_garbage plain by_pid by_name used start (λ j. none) (event 12 130) empty-Tracks
      refl
