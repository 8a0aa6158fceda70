-- ===== src/Blkparse/Show.antt =====
-- server-proto/blkparse.c, lines 791 to 797, 1173 to 1180 and 2101 to 2152: the loop that shows the records of the tree, in
-- order, as long as they may be shown. `is_done` is the flag that a signal sets, by the rounds still left.
pub mod Outs
pub mod Steps
pub mod Ends
pub mod All
pub mod Tests
use Prim.Native.Nat.{bit_and}
use iovisualization.Prelude.{
  ℕ, zero, suc, ◌+◌, ◌/◌, ◌%◌, ◌^◌, Bool, true, false, ◌&&◌, not, Option, none, some, List, ltb,
  ◌==◌, if◌then◌else◌, length, get_or, sub64,
}
use iovisualization.Prelude.Tree.{Tree, inorder, RbTree}
use iovisualization.Trace.{IoTrace}
use iovisualization.Blkparse.Account.{IoStats}
use iovisualization.Blkparse.Process.{Procs}
use iovisualization.Blkparse.Track.{IoTrack, Tracker}
use iovisualization.Blkparse.Dump.{Line, Dump, is_message, dump_trace}
use iovisualization.Blkparse.Sort.{Tr}
use iovisualization.Blkparse.Sort.Last.{
  PerCpu, PerDev, cpu_at, at_cpu, rb_first, trace_rb_insert_last,
}
use iovisualization.Blkparse.CpuMap.{CpuMap}
use iovisualization.Blkparse.Sequence.{check_sequence}
use iovisualization.Blkparse.Entries.{Entries, Local, no_dev, at_dev, device_of, cpu_of}

-- what `check_time` and `dump_trace` change of a device
pub record Shows : Type 0 where
  pub rb_track : Tree IoTrack
  pub cur_depth : Bool → ℕ
  pub max_depth : Bool → ℕ
  pub events : ℕ
  pub first_reported_time : ℕ
  pub last_reported_time : ℕ
  pub backwards : Bool

-- The globals. Devices are told apart by their index, processors by theirs within the device.
pub record Shown : Type 0 where
  pub entries : Entries
  pub maps : ℕ → CpuMap
  pub shows : ℕ → Shows
  pub io_stats : ℕ → ℕ → IoStats
  pub text_output : Bool
  pub bin_output_msgs : Bool
  pub track_ios : Bool
  pub per_process_stats : Bool
  pub have_drv_data : Bool
  pub procs : Procs
  pub text : List Line
  pub binary : List IoTrace
  pub pipeline : Bool
  pub act_mask : ℕ
  pub rb_batch : ℕ
  pub read_sequence : ℕ
  pub last_allowed_time : ℕ

-- what `dump_trace` is given of device `i` and its processor `cpu`
unfoldable pub load_dump : Shown → ℕ → ℕ → Dump
load_dump s i cpu = record {
  text_output = s.text_output;
  bin_output_msgs = s.bin_output_msgs;
  have_drv_data = s.have_drv_data;
  tracker = record {
    dev = (get_or s.entries.devices i no_dev).dev;
    track_ios = s.track_ios;
    per_process_stats = s.per_process_stats;
    rb_track = (s.shows i).rb_track;
    procs = s.procs;
  };
  pci = s.io_stats i cpu;
  cur_depth = (s.shows i).cur_depth;
  max_depth = (s.shows i).max_depth;
  events = (s.shows i).events;
  first_reported_time = (s.shows i).first_reported_time;
  text = s.text;
  binary = s.binary;
}

-- and what it leaves there
unfoldable pub store_dump : ℕ → ℕ → Dump → Shown → Shown
store_dump i cpu d s = record s {
  shows = λ j.
      if j == i
      then record (s.shows j) {
        rb_track = d.tracker.rb_track;
        cur_depth = d.cur_depth;
        max_depth = d.max_depth;
        events = d.events;
        first_reported_time = d.first_reported_time;
      }
      else s.shows j;
  io_stats = λ j c. if j == i && c == cpu then d.pci else s.io_stats j c;
  have_drv_data = d.have_drv_data;
  procs = d.tracker.procs;
  text = d.text;
  binary = d.binary;
}

unfoldable pub check_time : ℕ → IoTrace → Shown → Shown
check_time i bit s = record s {
  shows = λ j.
      if j == i
      then record (s.shows j) {
        backwards = ltb bit.time (s.shows j).last_reported_time;
        last_reported_time = bit.time;
      }
      else s.shows j;
}

-- a change of device `i` itself
unfoldable pub on_dev : ℕ → (PerDev → PerDev) → Shown → Shown
on_dev i f s = record s { entries = record s.entries { devices = at_dev s.entries.devices i f } }

-- `bit->action & (act_mask << BLK_TC_SHIFT)`
abbrev pub is_masked_in : ℕ → IoTrace → Bool
is_masked_in act_mask bit = not (bit_and (bit.action / 2 ^ 16) (act_mask % 2 ^ 16) == 0)

-- a processor's entry when one of its records is shown
unfoldable pub pass_cpu : IoTrace → PerCpu → PerCpu
pass_cpu bit pci = record pci {
  last_sequence = if is_message bit then pci.last_sequence else bit.sequence;
  nelems = (pci.nelems + 1) % 2 ^ 32;
}

module _ (rb : RbTree Tr) where
  -- `put_trace`, for the first record of the tree, which is one of device `i`
  unfoldable pub put_trace : ℕ → Tr → Shown → Shown
  put_trace i t s =
      on_dev i (λ pdi. trace_rb_insert_last rb s.rb_batch pdi t)
        (record s {
          entries = record s.entries {
            rb_sort_root = rb.erase s.entries.rb_sort_root 0;
            rb_sort_entries = sub64 s.entries.rb_sort_entries 1;
          };
        })

module _ (rb : RbTree Tr) (rb' : RbTree IoTrack) (hash_pid : ℕ → ℕ) (hash_name : List ℕ → ℕ)
    (garbage : IoTrack) (garbage_map : ℕ → Bool) where
  -- the end of the loop's body, from `check_time` on
  unfoldable pub show_entry : ℕ → Option ℕ → Tr → Shown → Shown
  show_entry i pci t s =
      let bit = t.bit in
      let timed = check_time i bit s in
      let passed = on_dev i (λ pdi. at_cpu (cpu_of pdi pci bit) bit.cpu (pass_cpu bit)) timed in
      let dumped =
        if is_masked_in s.act_mask bit
        then store_dump i bit.cpu
            (dump_trace rb' hash_pid hash_name garbage bit (load_dump passed i bit.cpu)) passed
        else passed in
      put_trace rb i t dumped

  -- One round for the first record of the tree: whether the loop goes on, and the index of the
  -- record's device, as it is remembered for the next round.
  unfoldable pub show_round : Bool → Bool → Tr → Shown × Local → Bool × Shown × Local
  show_round is_done force t (s, v) =
      let bit = t.bit in
      let (i, pci, devices) = device_of s.entries.devices v bit in
      let found = record s { entries = record s.entries { devices = devices } } in
      let (waits, pdi) =
        check_sequence rb garbage_map s.entries.rb_sort_root (s.maps i) (get_or devices i no_dev) t
          force in
      let checked = if is_message bit then found else on_dev i (λ pdi'. pdi) found in
      let v' : Local = record v { pdi = some i; pci = some bit.cpu } in
      if is_done && not force && not s.pipeline
      then (false, s, v)
      else if sub64 s.read_sequence t.read_sequence == 0 && not force
      then (false, s, v)
      else if not (is_message bit) && not (waits == 0)
      then (false, checked, v)
      else if not force && ltb s.last_allowed_time bit.time
      then (false, checked, v)
      else (true, show_entry i pci t checked, v')

  -- the loop; `none` is that the fuel has run out
  unfoldable pub show_loop : ℕ → (ℕ → Bool) → Bool → Shown × Local → Option Shown
  show_loop zero is_done force sv = none
  show_loop (suc fuel) is_done force sv = elim (rb_first sv.0.entries.rb_sort_root) [
    | none ↦ some sv.0
    | some t ↦
        let (again, s', v') = show_round (is_done fuel) force t sv in
        let rest = show_loop fuel is_done force (s', v') in if again then rest else some s'
  ]

  unfoldable pub show_entries_rb : (ℕ → Bool) → Bool → Shown → Option Shown
  show_entries_rb is_done force s =
      show_loop (length (inorder s.entries.rb_sort_root) + 1) is_done force
        (s, record { pdi = none; pci = none; youngest = 0 })
