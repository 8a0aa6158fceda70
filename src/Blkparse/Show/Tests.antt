-- ===== src/Blkparse/Show/Tests.antt =====
-- Two records of a tree shown.
use iovisualization.Prelude.{ℕ, ◌+◌, ◌-◌, ◌*◌, ◌^◌, ◌≡◌, refl, true, false, some, [], ◌∷◌, u64_max}
use iovisualization.Prelude.Plain.{plain, chain}
use iovisualization.Prelude.Tree.{leaf, inorder}
use iovisualization.Blkparse.Account.{no_io}
use iovisualization.Blkparse.Track.Tests.{used, no_procs, by_pid, by_name}
use iovisualization.Blkparse.Sort.Tests.{at_time}
use iovisualization.Blkparse.Entries.Tests.{start}
use iovisualization.Blkparse.Sort.{Tr}
use iovisualization.Blkparse.Show.Outs.{Printed}
use iovisualization.Blkparse.Show.{Shown, show_entries_rb}
use iovisualization.Blkparse.CpuMap.{lacking, check_cpu_map}
use iovisualization.Blkparse.Show.All.{NoneLacks, show_entries_rb-all}

-- a read that is put into a queue
abbrev queued_at : ℕ → ℕ → Tr
queued_at time sequence =
    let t = at_time time sequence in record t { bit = record t.bit { action = 17 * 2 ^ 16 + 1 } }

abbrev two_left : Shown
two_left = record {
  entries = record start {
    rb_sort_root = chain (queued_at 10 1 ∷ queued_at 20 2 ∷ []);
    rb_sort_entries = 2;
  };
  maps = λ i. record { present = false; bits = λ j. false; cpu_map_max = 0 };
  shows = λ i. record {
    rb_track = leaf;
    cur_depth = λ w. 0;
    max_depth = λ w. 0;
    events = 0;
    first_reported_time = 0;
    last_reported_time = 0;
    backwards = false;
  };
  io_stats = λ i cpu. no_io;
  text_output = true;
  bin_output_msgs = true;
  track_ios = false;
  per_process_stats = false;
  have_drv_data = false;
  procs = no_procs;
  text = [];
  binary = [];
  pipeline = false;
  act_mask = 2 ^ 32 - 1;
  rb_batch = 512;
  read_sequence = 1;
  last_allowed_time = u64_max;
}

none_lacks : NoneLacks (λ n. false) two_left.maps
unfolding check_cpu_map lacking
none_lacks i root = refl

show_entries_rb-all_example :
    (s' : Shown) × (show_entries_rb plain plain by_pid by_name used
        (λ i. false)
        (λ n. false)
        true
        two_left
      ≡ some s')
    × (inorder s'.entries.rb_sort_root ≡ [])
    × Printed two_left (inorder two_left.entries.rb_sort_root) s'
show_entries_rb-all_example =
    show_entries_rb-all plain plain by_pid by_name used (λ i. false) (λ n. false) two_left
      none_lacks
