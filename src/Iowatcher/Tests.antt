-- ===== src/Iowatcher/Tests.antt =====
-- The events of one read.
use iovisualization.Prelude.{
  ℕ, ◌+◌, ◌*◌, ◌/◌, ◌^◌, ◌≤◌, ◌≡◌, refl, true, false, none, List, [], ◌∷◌, arith,
}
use iovisualization.Trace.{IoTrace}
use iovisualization.Iowatcher.Table.{in_chain}
use iovisualization.Iowatcher.{LineData, Graphs, seconds, action_num, read_trace_events}
use iovisualization.Blkparse.Track.{has_class}
use iovisualization.Iowatcher.Cycle.{IsEvent}
use iovisualization.Iowatcher.Latency.{IsWay, Counted, way_of_io}
use iovisualization.Iowatcher.Pends.{Pends}
use iovisualization.Iowatcher.Runs.{Sim, events_on, read_trace_events-Sim}

abbrev event : ℕ → ℕ → ℕ → IoTrace
event class number time = record {
  magic = 0;
  sequence = 0;
  time = time;
  sector = 2048;
  bytes = 4096;
  action = (2 ^ class + 1) * 2 ^ 16 + number;
  pid = 1;
  device = 8;
  cpu = 0;
  error = 0;
  pdu_len = 0;
}

-- queued, issued and completed
abbrev one_read : List IoTrace
one_read = event 4 1 1000 ∷ event 6 7 5000 ∷ event 7 8 90000 ∷ []

abbrev empty_line : LineData
empty_line = record { max = 0; pairs = λ i. record { count = 0; sum = 0 } }

abbrev graphs : Graphs
graphs = record {
  found_issue = true;
  found_completion = true;
  found_queue = true;
  ios_in_flight = 0;
  tput_writes_gld = empty_line;
  tput_reads_gld = empty_line;
  iop_gld = empty_line;
  queue_depth_gld = empty_line;
  latency_gld = empty_line;
}

empty-Pends : Pends (λ slot. []) (λ k d. none)
unfolding in_chain
empty-Pends = record { chains = λ slot. tt; shows = λ k d. refl }

read_trace_events-Sim_example :
    Sim
      (read_trace_events (λ sum count. sum / count) 60 one_read (λ slot. [], graphs))
      (events_on (λ sum count. sum / count) 60 one_read (λ k d. none, graphs))
read_trace_events-Sim_example =
    read_trace_events-Sim (λ sum count. sum / count) 60 one_read (λ slot. []) (λ k d. none) graphs
      empty-Pends

event_at :
    (class number time : ℕ)
    → has_class 10 (event class number time) ≡ false
    → action_num (event class number time) ≡ number
    → seconds (event class number time) ≤ 60
    → IsEvent 60 number (event class number time)
event_at class number time e f h = record { notify = e; number = f; inside = h }

one_read-IsWay : IsWay 60 (event 4 1 1000) (event 6 7 5000) (event 7 8 90000)
one_read-IsWay = record {
  queue = event_at 4 1 1000 refl refl (omega arith);
  issue = event_at 6 7 5000 refl refl (omega arith);
  complete = event_at 7 8 90000 refl refl (omega arith);
  sectors = (refl, refl);
  devices = (refl, refl);
  later = omega arith;
  fits = omega arith;
}

way_of_io_example :
    let (table', s') =
      read_trace_events (λ sum count. sum / count) 60 one_read (λ slot. [], graphs) in
    Counted (λ k d. none) graphs (event 6 7 5000) (event 7 8 90000) table' s'
way_of_io_example =
    way_of_io (λ sum count. sum / count) 60 (event 4 1 1000) (event 6 7 5000) (event 7 8 90000)
      (λ slot. []) (λ k d. none) graphs empty-Pends one_read-IsWay refl refl (omega arith)
