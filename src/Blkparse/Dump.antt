-- ===== src/Blkparse/Dump.antt =====
-- server-proto/blkparse.c, lines 1426 to 1643, and server-proto/blktrace_api.h: what one record of
-- a trace does to the device, the processor and the processes, and the lines that are printed for it.
pub mod Steps
pub mod Depth
pub mod Counts
pub mod Report
pub mod Letters
pub mod Outputs
pub mod Tests
use iovisualization.Prelude.{
  ℕ, ◌+◌, ◌-◌, ◌%◌, ◌^◌, Bool, true, false, ◌&&◌, ◌||◌, not, List, [], ◌∷◌, ltb, ◌==◌,
  if◌then◌else◌, u64_max, add64,
}
use iovisualization.Prelude.Tree.{RbTree}
use iovisualization.Trace.{IoTrace}
use iovisualization.Blkparse.Account.{IoStats}
use iovisualization.Blkparse.Process.{Procs}
use iovisualization.Blkparse.Process.Counters.{
  Counters, Request, account_m, account_pc_queue, account_pc_issue, account_pc_requeue,
  account_pc_c, account_queue, account_c, account_issue, account_unplug, account_requeue,
}
use iovisualization.Blkparse.Track.{
  IoTrack, Tracker, has_class, is_write, log_track_frontmerge, log_track_getrq, log_track_queue,
  log_track_insert, log_track_issue, log_track_complete,
}

-- `enum blktrace_act`; `other` is any number that has no case
pub data Act : Type 0 where
  queue backmerge frontmerge getrq sleeprq requeue issue complete plug unplug_io unplug_timer insert
        split bounce remap drv_data other :
      Act

-- the case of `t->action & 0xffff`
unfoldable pub act_of : ℕ → Act
act_of act =
    if act == 1
    then queue
    else if act == 2
    then backmerge
    else if act == 3
    then frontmerge
    else if act == 4
    then getrq
    else if act == 5
    then sleeprq
    else if act == 6
    then requeue
    else if act == 7
    then issue
    else if act == 8
    then complete
    else if act == 9
    then plug
    else if act == 10
    then unplug_io
    else if act == 11
    then unplug_timer
    else if act == 12
    then insert
    else if act == 13
    then split
    else if act == 14
    then bounce
    else if act == 15
    then remap
    else if act == 17
    then drv_data
    else other

-- the letters of the lines
pub data Letter : Type 0 where
  letter_q letter_g letter_s letter_r letter_d letter_c letter_i letter_m letter_f letter_p letter_u
        letter_ut letter_x letter_b letter_a letter_n :
      Letter

-- a call of `process_fmt`, or the line of a message, which has the letter `n`
pub record Line : Type 0 where
  pub letter : Letter
  pub event : IoTrace
  pub elapsed : ℕ
  pub pdu_len : ℕ

-- What `dump_trace` reads and changes of the globals, the device and the processor. `text` and
-- `binary` are the two outputs, the last entry first.
pub record Dump : Type 0 where
  pub text_output : Bool
  pub bin_output_msgs : Bool
  pub have_drv_data : Bool
  pub tracker : Tracker
  pub pci : IoStats
  pub cur_depth : Bool → ℕ
  pub max_depth : Bool → ℕ
  pub events : ℕ
  pub first_reported_time : ℕ
  pub text : List Line
  pub binary : List IoTrace

-- `BLK_TN_MESSAGE`
abbrev pub is_message : IoTrace → Bool
is_message t = t.action == 2 + 2 ^ 26

-- a call of one of the account functions
unfoldable pub counting : (Counters → Counters) → Dump → Dump
counting f s =
    let c = f (record {
      per_process_stats = s.tracker.per_process_stats;
      pci = s.pci;
      procs = s.tracker.procs;
    }) in
    record s { tracker = record s.tracker { procs = c.procs }; pci = c.pci }

-- a call of one of the functions on tracks that return nothing
unfoldable pub tracking : (Tracker → Tracker) → Dump → Dump
tracking f s = record s { tracker = f s.tracker }

-- `log_queue`, `log_action`, `log_generic`, `log_unplug` and `log_split`
unfoldable pub log_generic : Letter → IoTrace → Dump → Dump
log_generic letter t s = record s {
  text = record { letter = letter; event = t; elapsed = u64_max; pdu_len = 0 } ∷ s.text;
}

unfoldable pub log_pc : Letter → IoTrace → Dump → Dump
log_pc letter t s = record s {
  text = record { letter = letter; event = t; elapsed = u64_max; pdu_len = t.pdu_len } ∷ s.text;
}

-- `log_insert`, `log_issue` and `log_complete`, with the function on tracks that they call
unfoldable pub log_elapsed : (Tracker → IoTrace → ℕ × Tracker) → Letter → IoTrace → Dump → Dump
log_elapsed f letter t s =
    let (elapsed, tracker) = f s.tracker t in
    record s {
      tracker = tracker;
      text = record { letter = letter; event = t; elapsed = elapsed; pdu_len = 0 } ∷ s.text;
    }

-- the `BLK_TN_MESSAGE` case of `handle_notify`
unfoldable pub log_message : IoTrace → Dump → Dump
log_message t s = if t.pdu_len == 0 then s else record s {
  text = record { letter = letter_n; event = t; elapsed = 0; pdu_len = t.pdu_len } ∷ s.text;
}

-- an array of two with one entry changed
unfoldable pub at_rw : (Bool → ℕ) → Bool → ℕ → Bool → ℕ
at_rw depth true n true = n
at_rw depth true n false = depth false
at_rw depth false n true = depth true
at_rw depth false n false = n

-- `cur_depth[w]` goes down, if it is not 0
unfoldable pub depth_down : Bool → Dump → Dump
depth_down w s =
    if s.cur_depth w == 0
    then s
    else record s { cur_depth = at_rw s.cur_depth w (s.cur_depth w - 1) }

-- `cur_depth[w]`, an `unsigned int`, goes up, and `max_depth[w]` with it
unfoldable pub depth_up : Bool → Dump → Dump
depth_up w s =
    let n = (s.cur_depth w + 1) % 2 ^ 32 in
    record s {
      cur_depth = at_rw s.cur_depth w n;
      max_depth = if ltb (s.max_depth w) n then at_rw s.max_depth w n else s.max_depth;
    }

abbrev pub request_of : IoTrace → Request
request_of t = record { pid = t.pid; bytes = t.bytes }

module _ (hash_pid : ℕ → ℕ) (hash_name : List ℕ → ℕ) where
  -- the cases of `dump_trace_pc`
  unfoldable pub dump_pc_act : Act → Bool → IoTrace → Dump → Dump
  dump_pc_act queue w t s =
      counting (account_pc_queue hash_pid hash_name (request_of t) w) (log_generic letter_q t s)
  dump_pc_act getrq w t s = log_generic letter_g t s
  dump_pc_act sleeprq w t s = log_generic letter_s t s
  dump_pc_act requeue w t s =
      log_generic letter_r t
        (counting (account_pc_requeue hash_pid hash_name (request_of t) w) (depth_down w s))
  dump_pc_act issue w t s =
      log_pc letter_d t
        (depth_up w (counting (account_pc_issue hash_pid hash_name (request_of t) w) s))
  dump_pc_act complete w t s =
      counting (account_pc_c hash_pid hash_name (request_of t) w)
        (log_pc letter_c t (depth_down w s))
  dump_pc_act insert w t s = log_pc letter_i t s
  dump_pc_act backmerge w t s = s
  dump_pc_act frontmerge w t s = s
  dump_pc_act plug w t s = s
  dump_pc_act unplug_io w t s = s
  dump_pc_act unplug_timer w t s = s
  dump_pc_act split w t s = s
  dump_pc_act bounce w t s = s
  dump_pc_act remap w t s = s
  dump_pc_act drv_data w t s = s
  dump_pc_act other w t s = s

  unfoldable pub dump_trace_pc : IoTrace → Dump → Dump
  dump_trace_pc t s = dump_pc_act (act_of (t.action % 2 ^ 16)) (is_write t) t s

module _ (rb : RbTree IoTrack) (hash_pid : ℕ → ℕ) (hash_name : List ℕ → ℕ) (garbage : IoTrack) where
  -- the cases of `dump_trace_fs`
  unfoldable pub dump_fs_act : Act → Bool → IoTrace → Dump → Dump
  dump_fs_act queue w t s = log_generic letter_q t (
      counting (account_queue hash_pid hash_name (request_of t) w)
        (tracking (λ r. log_track_queue rb hash_pid hash_name garbage r t) s))
  dump_fs_act insert w t s =
      log_elapsed (log_track_insert rb hash_pid hash_name garbage) letter_i t s
  dump_fs_act backmerge w t s =
      log_generic letter_m t (counting (account_m hash_pid hash_name (request_of t) w) s)
  dump_fs_act frontmerge w t s = log_generic letter_f t (
      tracking (λ r. log_track_frontmerge rb r t)
        (counting (account_m hash_pid hash_name (request_of t) w) s))
  dump_fs_act getrq w t s =
      log_generic letter_g t (tracking (λ r. log_track_getrq rb hash_pid hash_name garbage r t) s)
  dump_fs_act sleeprq w t s = log_generic letter_s t s
  dump_fs_act requeue w t s =
      log_generic letter_r t
        (counting (account_requeue hash_pid hash_name (request_of t) w) (depth_down w s))
  dump_fs_act issue w t s =
      log_elapsed (log_track_issue hash_pid hash_name) letter_d t
        (depth_up w (counting (account_issue hash_pid hash_name (request_of t) w) s))
  dump_fs_act complete w t s =
      log_elapsed (log_track_complete rb hash_pid hash_name) letter_c t
        (counting (account_c hash_pid hash_name (request_of t) w t.bytes) (depth_down w s))
  dump_fs_act plug w t s = log_generic letter_p t s
  dump_fs_act unplug_io w t s =
      log_generic letter_u t (counting (account_unplug hash_pid hash_name (request_of t) false) s)
  dump_fs_act unplug_timer w t s =
      log_generic letter_ut t (counting (account_unplug hash_pid hash_name (request_of t) true) s)
  dump_fs_act split w t s = log_generic letter_x t s
  dump_fs_act bounce w t s = log_generic letter_b t s
  dump_fs_act remap w t s = log_generic letter_a t s
  dump_fs_act drv_data w t s = record s { have_drv_data = true }
  dump_fs_act other w t s = s

  unfoldable pub dump_trace_fs : IoTrace → Dump → Dump
  dump_trace_fs t s = dump_fs_act (act_of (t.action % 2 ^ 16)) (is_write t) t s

  -- the first part of `dump_trace`
  unfoldable pub dump_text : IoTrace → Dump → Dump
  dump_text t s =
      if s.text_output
      then (if is_message t
          then log_message t s
          else if has_class 9 t
          then dump_trace_pc hash_pid hash_name t s
          else dump_trace_fs t s)
      else s

  unfoldable pub dump_trace : IoTrace → Dump → Dump
  dump_trace t s =
      let dumped = dump_text t s in
      let first = if dumped.events == 0 then t.time else dumped.first_reported_time in
      let shown = dumped.bin_output_msgs || not (has_class 10 t && is_message t) in
      record dumped {
        first_reported_time = first;
        events = add64 dumped.events 1;
        binary = if shown then t ∷ dumped.binary else dumped.binary;
      }

  -- the events of a run, in order
  unfoldable pub dump_all : List IoTrace → Dump → Dump
  dump_all [] s = s
  dump_all (t ∷ events) s = dump_all events (dump_trace t s)
