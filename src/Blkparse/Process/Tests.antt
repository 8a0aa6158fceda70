-- ===== src/Blkparse/Process/Tests.antt =====
-- The counters of processes at concrete events, and the theorems of the counters.
use iovisualization.Prelude.{ℕ, ◌≡◌, refl, true, false, List, [], ◌∷◌, ◌==◌, if◌then◌else◌}
use iovisualization.Blkparse.Account
use iovisualization.Blkparse.Account.{IoStats, no_io}
use iovisualization.Blkparse.Process.{
  new_ppi, Procs, Ppi, with_process_io_stats, find_process_io_stats, find_ppi, new_process,
  find_ppi_by_pid,
}
use iovisualization.Blkparse.Process.Fresh.{IsValid}
use iovisualization.Blkparse.Process.Spec.{stats_of, with_process_io_stats_lem}
use iovisualization.Blkparse.Process.Counters.{Counters, Request}
use iovisualization.Blkparse.Process.Counters.Replay.{
  Kind, Event, replay, of_pid, handle, run, run-stats_of,
}

-- the tables before any event, with `malloc`ed memory that nothing looks at
abbrev empty : Procs
empty = record {
  ppi_hash_by_pid = true;
  ppm_hash_table = λ h. [];
  ppi_hash_table = λ h. [];
  ppi_list = [];
  ppi_list_entries = 0;
  heap = λ i. new_ppi (record { pid = 0; comm = [] });
  fresh = 0;
}

abbrev start : Counters
start = record { per_process_stats = true; pci = no_io; procs = empty }

-- a hash under which 7 and 263 collide, and one that takes all names together
abbrev by_pid : ℕ → ℕ
by_pid pid = pid

abbrev by_name : List ℕ → ℕ
by_name name = 0

abbrev read : ℕ → Kind → Event
read pid kind = record { kind = kind; flag = false; request = record { pid = pid; bytes = 4096 } }

abbrev events : List Event
events = read 7 Kind.queue ∷ read 263 Kind.queue ∷ read 7 Kind.issue ∷ []

empty-IsValid : IsValid empty
empty-IsValid = record { by_pid = refl; old = λ h. tt }

collision :
    ((run by_pid by_name start events).pci.qreads ≡ 2)
    × ((stats_of by_pid by_name (run by_pid by_name start events).procs 7).qreads ≡ 1)
    × ((stats_of by_pid by_name (run by_pid by_name start events).procs 263).ireads ≡ 0)
unfolding run handle Account.account_queue Account.account_issue no_io stats_of
    with_process_io_stats find_process_io_stats find_ppi new_process find_ppi_by_pid
    iovisualization.Blkparse.Process.Counters.account_queue
    iovisualization.Blkparse.Process.Counters.account_issue
collision = (refl, refl, refl)

with_process_io_stats_lem_example :
    IsValid
      (with_process_io_stats by_pid by_name empty 7 (λ ios. Account.account_queue ios 512 true))
    × ((q : ℕ)
        → stats_of by_pid by_name
            (with_process_io_stats by_pid by_name empty 7
              (λ ios. Account.account_queue ios 512 true))
            q
          ≡ (if q == 7
              then Account.account_queue (stats_of by_pid by_name empty 7) 512 true
              else stats_of by_pid by_name empty q))
with_process_io_stats_lem_example =
    with_process_io_stats_lem by_pid by_name empty 7 (λ ios. Account.account_queue ios 512 true)
      empty-IsValid

run-stats_of_example :
    stats_of by_pid by_name (run by_pid by_name start events).procs 7
    ≡ replay (stats_of by_pid by_name empty 7) (of_pid 7 events)
run-stats_of_example = run-stats_of by_pid by_name start events 7 refl empty-IsValid
