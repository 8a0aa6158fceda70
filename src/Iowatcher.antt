-- ===== src/Iowatcher.antt =====
-- server-proto/iowatcher/blkparse.c, lines 389 to 1196, and server-proto/iowatcher/main.c, lines 430 to 440: what
-- the records of a trace add to the graphs. The graph of dots (`add_io`) is left out.
pub mod Table
pub mod Chains
pub mod Pends
pub mod Runs
pub mod Cycle
pub mod Latency
pub mod Devices
pub mod Pids
pub mod Tests
use iovisualization.Prelude.{
  ℕ, ◌-◌, ◌/◌, ◌%◌, ◌^◌, max, Bool, true, ◌||◌, not, none, some, List, [], ◌∷◌, leb, ltb, ◌==◌,
  if◌then◌else◌, count, add64, sub64,
}
use iovisualization.Trace.{IoTrace}
use iovisualization.Blkparse.Track.{has_class}
use iovisualization.Iowatcher.Table.{
  PendingIo, IoTable, hash_queued_io, hash_dispatched_io, hash_completed_io, del_io,
}

-- `struct graph_line_pair` and `struct graph_line_data`
pub record LinePair : Type 0 where
  pub count : ℕ
  pub sum : ℕ

pub record LineData : Type 0 where
  pub max : ℕ
  pub pairs : ℕ → LinePair

-- what was found in the trace (`struct trace`), the I/Os in flight, and the graphs
pub record Graphs : Type 0 where
  pub found_issue : Bool
  pub found_completion : Bool
  pub found_queue : Bool
  pub ios_in_flight : ℕ
  pub tput_writes_gld : LineData
  pub tput_reads_gld : LineData
  pub iop_gld : LineData
  pub queue_depth_gld : LineData
  pub latency_gld : LineData

-- `SECONDS`; no trace is of 2^31 seconds, so that an `int` holds it
abbrev pub seconds : IoTrace → ℕ
seconds io = io.time / 1000000000

-- `io->action & BLK_TA_MASK`, and the numbers of `__BLK_TA_QUEUE` and so on
abbrev pub action_num : IoTrace → ℕ
action_num io = io.action % 2 ^ 16

abbrev pub ta_queue : ℕ
ta_queue = 1

abbrev pub ta_requeue : ℕ
ta_requeue = 6

abbrev pub ta_issue : ℕ
ta_issue = 7

abbrev pub ta_complete : ℕ
ta_complete = 8

unfoldable pub check_io_types : IoTrace → Graphs → Graphs
check_io_types io s =
    if has_class 10 io
    then s
    else if action_num io == ta_complete
    then record s { found_completion = true }
    else if action_num io == ta_issue
    then record s { found_issue = true }
    else if action_num io == ta_queue
    then record s { found_queue = true }
    else s

unfoldable pub tput_event : Graphs → ℕ
tput_event s =
    if s.found_completion
    then ta_complete
    else if s.found_issue
    then ta_issue
    else if s.found_queue
    then ta_queue
    else ta_complete

-- one entry of a graph changed
unfoldable pub at_second : (ℕ → LinePair) → ℕ → LinePair → ℕ → LinePair
at_second pairs second pair i = if i == second then pair else pairs i

-- the lines that `add_tput` and `add_iop` share
unfoldable pub add_sum : ℕ → ℕ → LineData → LineData
add_sum second n gld =
    let sum = add64 (gld.pairs second).sum n in
    record {
      pairs = at_second gld.pairs second (record { count = 1; sum = sum });
      max = if ltb gld.max sum then sum else gld.max;
    }

unfoldable pub add_tput : IoTrace → Graphs → Graphs
add_tput io s =
    if has_class 10 io
    then s
    else if not (action_num io == tput_event s)
    then s
    else if has_class 0 io
    then record s { tput_reads_gld = add_sum (seconds io) io.bytes s.tput_reads_gld }
    else record s { tput_writes_gld = add_sum (seconds io) io.bytes s.tput_writes_gld }

unfoldable pub add_iop : IoTrace → Graphs → Graphs
add_iop io s =
    if has_class 10 io
    then s
    else if not (action_num io == tput_event s)
    then s
    else record s { iop_gld = add_sum (seconds io) 1 s.iop_gld }

unfoldable pub one_less : Graphs → Graphs
one_less s = if ltb 0 s.ios_in_flight then record s { ios_in_flight = s.ios_in_flight - 1 } else s

-- `average sum count` is the `u64` of their quotient in floating point.
module _ (average : ℕ → ℕ → ℕ) where
  -- the graph with its maximum raised to the average of a second
  unfoldable pub raise_avg : ℕ → LineData → LineData
  raise_avg second gld =
      let avg = average (gld.pairs second).sum (gld.pairs second).count in
      record gld { max = if ltb gld.max avg then avg else gld.max }

  -- one more number counted in a second
  unfoldable pub add_number : ℕ → ℕ → LineData → LineData
  add_number second n gld = record gld {
    pairs =
        at_second gld.pairs second (record {
          count = add64 (gld.pairs second).count 1;
          sum = add64 (gld.pairs second).sum n;
        });
  }

  -- the end of `add_pending_io`, for an I/O that is issued
  unfoldable pub count_issue : IoTrace → Graphs → Graphs
  count_issue io s =
      let n = add64 s.ios_in_flight 1 in
      record s {
        ios_in_flight = n;
        queue_depth_gld = raise_avg (seconds io) (add_number (seconds io) n s.queue_depth_gld);
      }

  unfoldable pub add_pending_io : IoTrace → IoTable × Graphs → IoTable × Graphs
  add_pending_io io (table, s) =
      let (found, table') = hash_dispatched_io io table in
      if has_class 10 io
      then (table, s)
      else if action_num io == ta_queue
      then (if s.found_issue || s.found_completion
          then ((hash_queued_io io table).1, s)
          else (table, s))
      else if action_num io == ta_requeue
      then (table, one_less s)
      else if not (action_num io == ta_issue)
      then (table, s)
      else elim found [
        | none ↦ (table', s)
        | some pio ↦ (if s.found_completion then table' else del_io io table', count_issue io s)
      ]

  -- what `add_completed_io` does with the node that it has found
  unfoldable pub count_completion : IoTrace → PendingIo → Graphs → Graphs
  count_completion io pio s =
      let less = one_less s in
      let gld =
        if leb pio.dispatch_time io.time
        then add_number (seconds io) (sub64 io.time pio.dispatch_time) less.latency_gld
        else less.latency_gld in
      record less { latency_gld = raise_avg (seconds io) gld }

  unfoldable pub add_completed_io : IoTrace → IoTable × Graphs → IoTable × Graphs
  add_completed_io io (table, s) =
      let found = hash_completed_io io table in
      if has_class 10 io
      then (table, s)
      else if not (action_num io == ta_complete)
      then (table, s)
      else elim found [
        | none ↦ (table, s)
        | some pio ↦ (del_io io table, count_completion io pio s)
      ]

  -- the body of the loop of `read_trace_events`, up to `max_seconds`, and the loop
  unfoldable pub read_event : ℕ → IoTrace → IoTable × Graphs → IoTable × Graphs
  read_event max_seconds io (table, s) =
      if ltb max_seconds (seconds io)
      then (table, s)
      else add_completed_io io (add_pending_io io (table, add_iop io (add_tput io s)))

  unfoldable pub read_trace_events : ℕ → List IoTrace → IoTable × Graphs → IoTable × Graphs
  read_trace_events max_seconds [] ts = ts
  read_trace_events max_seconds (io ∷ ios) ts =
      read_trace_events max_seconds ios (read_event max_seconds io ts)
