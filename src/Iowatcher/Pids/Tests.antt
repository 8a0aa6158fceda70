-- ===== src/Iowatcher/Pids/Tests.antt =====
-- Two processes and their plots.
use iovisualization.Prelude.{◌≡◌, [], ◌∷◌, arith}
use iovisualization.Iowatcher.Pids.{PidTable, Plots, get_pid_map}
use iovisualization.Iowatcher.Pids.Bounds.{IsPlotted, Inside, get_pid_map-Inside}
use iovisualization.Iowatcher.Pids.First.{first_process_split}

-- the arrays are full
abbrev full : Plots
full = record { io_plots = 16; io_plots_allocated = 16 }

abbrev one_process : PidTable
one_process slot = record { pid = 300; index = 15; name = 97 ∷ [] } ∷ []

full-IsPlotted : IsPlotted one_process full
full-IsPlotted = record {
  room = omega arith;
  some_room = omega arith;
  indices = λ slot. (omega arith, tt);
}

get_pid_map-Inside_example : Inside (get_pid_map (λ pid. []) 42 (one_process, full))
get_pid_map-Inside_example = get_pid_map-Inside (λ pid. []) 42 one_process full full-IsPlotted

first_process_split_example :
    let (first, table, tf) =
      get_pid_map (λ pid. []) 42 (λ slot. [], record { io_plots = 0; io_plots_allocated = 16 }) in
    (first ≡ 0) × ((get_pid_map (λ pid. []) 42 (table, tf)).0 ≡ 1)
first_process_split_example = first_process_split (λ pid. []) 42
