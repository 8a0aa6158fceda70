-- ===== src/Blkparse/Dump/Report.antt =====
-- What a run of events leaves in the processor's counters, and what it reports.
use iovisualization.Prelude.{
  ℕ, ◌%◌, ◌^◌, ◌<◌, ◌≡◌, refl, sym, ap, ◌∙◌, inl, inr, Bool, true, false, List, [], ◌∷◌, ◌++◌,
  arith, ◌==◌, if◌then◌else◌, Bool-cases, length, add64,
}
use iovisualization.Prelude.Tree.{RbTree}
use iovisualization.Trace.{IoTrace}
use iovisualization.Blkparse.Account.{IoStats}
use iovisualization.Blkparse.Track.{IoTrack, is_write, has_class}
use iovisualization.Blkparse.Process.Counters.{
  account_m, account_pc_queue, account_pc_issue, account_pc_requeue, account_pc_c, account_queue,
  account_c, account_issue, account_unplug, account_requeue, account,
}
use iovisualization.Blkparse.Process.Counters.Replay.{Kind, Event, count_event, replay}
use iovisualization.Blkparse.Dump.{
  Act, Dump, act_of, is_message, request_of, counting, tracking, log_generic, log_pc, log_elapsed,
  log_message, depth_down, depth_up, dump_pc_act, dump_trace_pc, dump_fs_act, dump_trace_fs,
  dump_text, dump_trace, dump_all,
}
use iovisualization.Blkparse.Dump.Steps.{text_message, text_pc, text_fs}

-- the counted events of a packet command's action, and of a file system request's
pub pc_events : Act → Bool → IoTrace → List Event
pc_events Act.queue w t = record { kind = Kind.pc_queue; flag = w; request = request_of t } ∷ []
pc_events Act.backmerge w t = []
pc_events Act.frontmerge w t = []
pc_events Act.getrq w t = []
pc_events Act.sleeprq w t = []
pc_events Act.requeue w t = record { kind = Kind.pc_requeue; flag = w; request = request_of t } ∷ []
pc_events Act.issue w t = record { kind = Kind.pc_issue; flag = w; request = request_of t } ∷ []
pc_events Act.complete w t =
    record { kind = Kind.pc_complete; flag = w; request = request_of t } ∷ []
pc_events Act.plug w t = []
pc_events Act.unplug_io w t = []
pc_events Act.unplug_timer w t = []
pc_events Act.insert w t = []
pc_events Act.split w t = []
pc_events Act.bounce w t = []
pc_events Act.remap w t = []
pc_events Act.drv_data w t = []
pc_events Act.other w t = []

pub fs_events : Act → Bool → IoTrace → List Event
fs_events Act.queue w t = record { kind = Kind.queue; flag = w; request = request_of t } ∷ []
fs_events Act.backmerge w t = record { kind = Kind.merge; flag = w; request = request_of t } ∷ []
fs_events Act.frontmerge w t = record { kind = Kind.merge; flag = w; request = request_of t } ∷ []
fs_events Act.getrq w t = []
fs_events Act.sleeprq w t = []
fs_events Act.requeue w t = record { kind = Kind.requeue; flag = w; request = request_of t } ∷ []
fs_events Act.issue w t = record { kind = Kind.issue; flag = w; request = request_of t } ∷ []
fs_events Act.complete w t = record { kind = Kind.complete; flag = w; request = request_of t } ∷ []
fs_events Act.plug w t = []
fs_events Act.unplug_io w t =
    record { kind = Kind.unplug; flag = false; request = request_of t } ∷ []
fs_events Act.unplug_timer w t =
    record { kind = Kind.unplug; flag = true; request = request_of t } ∷ []
fs_events Act.insert w t = []
fs_events Act.split w t = []
fs_events Act.bounce w t = []
fs_events Act.remap w t = []
fs_events Act.drv_data w t = []
fs_events Act.other w t = []

pub events_of : IoTrace → List Event
events_of t =
    let a = act_of (t.action % 2 ^ 16) in
    if is_message t
    then []
    else if has_class 9 t
    then pc_events a (is_write t) t
    else fs_events a (is_write t) t

-- The specification: the counted events of the records, in order.
pub all_events : List IoTrace → List Event
all_events [] = []
all_events (t ∷ records) = events_of t ++ all_events records

replay-append :
    (xs ys : List Event) (ios : IoStats) → replay ios (xs ++ ys) ≡ replay (replay ios xs) ys
unfolding replay
replay-append [] ys ios = refl
replay-append (e ∷ xs) ys ios = replay-append xs ys (count_event e.kind e.request.bytes e.flag ios)

down_pci :
    (w : Bool) (s : Dump)
    → ((depth_down w s).pci ≡ s.pci)
      × ((depth_down w s).text_output ≡ s.text_output)
      × ((depth_down w s).events ≡ s.events)
unfolding depth_down
down_pci w s = elim (Bool-cases (s.cur_depth w == 0)) [
  | inl e ↦ rw e (refl, refl, refl)
  | inr e ↦ rw e (refl, refl, refl)
]

-- The counters and the number of events after the first part of `dump_trace`.
pub record Counted (es : List Event) (s s' : Dump) : Type 0 where
  pub pci : s'.pci ≡ replay s.pci es
  pub text : s'.text_output ≡ s.text_output
  pub events : s'.events ≡ s.events

module _ (hash_pid : ℕ → ℕ) (hash_name : List ℕ → ℕ) where
  pc_report :
      (a : Act) (w : Bool) (t : IoTrace) (s : Dump)
      → Counted (pc_events a w t) s (dump_pc_act hash_pid hash_name a w t s)
  unfolding dump_pc_act pc_events counting log_generic log_pc depth_up replay count_event
      account_pc_queue account_pc_issue account_pc_requeue account_pc_c account
  pc_report Act.queue w t s = record { pci = refl; text = refl; events = refl }
  pc_report Act.backmerge w t s = record { pci = refl; text = refl; events = refl }
  pc_report Act.frontmerge w t s = record { pci = refl; text = refl; events = refl }
  pc_report Act.getrq w t s = record { pci = refl; text = refl; events = refl }
  pc_report Act.sleeprq w t s = record { pci = refl; text = refl; events = refl }
  pc_report Act.requeue w t s =
      let (p, q, n) = down_pci w s in
      record { pci = ap (count_event Kind.pc_requeue t.bytes w) p; text = q; events = n }
  pc_report Act.issue w t s = record { pci = refl; text = refl; events = refl }
  pc_report Act.complete w t s =
      let (p, q, n) = down_pci w s in
      record { pci = ap (count_event Kind.pc_complete t.bytes w) p; text = q; events = n }
  pc_report Act.plug w t s = record { pci = refl; text = refl; events = refl }
  pc_report Act.unplug_io w t s = record { pci = refl; text = refl; events = refl }
  pc_report Act.unplug_timer w t s = record { pci = refl; text = refl; events = refl }
  pc_report Act.insert w t s = record { pci = refl; text = refl; events = refl }
  pc_report Act.split w t s = record { pci = refl; text = refl; events = refl }
  pc_report Act.bounce w t s = record { pci = refl; text = refl; events = refl }
  pc_report Act.remap w t s = record { pci = refl; text = refl; events = refl }
  pc_report Act.drv_data w t s = record { pci = refl; text = refl; events = refl }
  pc_report Act.other w t s = record { pci = refl; text = refl; events = refl }

module _ (rb : RbTree IoTrack) (hash_pid : ℕ → ℕ) (hash_name : List ℕ → ℕ) (garbage : IoTrack) where
  fs_report :
      (a : Act) (w : Bool) (t : IoTrace) (s : Dump)
      → Counted (fs_events a w t) s (dump_fs_act rb hash_pid hash_name garbage a w t s)
  unfolding dump_fs_act fs_events counting tracking log_generic log_elapsed depth_up replay
      count_event account_m account_queue account_c account_issue account_unplug account_requeue
      account
  fs_report Act.queue w t s = record { pci = refl; text = refl; events = refl }
  fs_report Act.backmerge w t s = record { pci = refl; text = refl; events = refl }
  fs_report Act.frontmerge w t s = record { pci = refl; text = refl; events = refl }
  fs_report Act.getrq w t s = record { pci = refl; text = refl; events = refl }
  fs_report Act.sleeprq w t s = record { pci = refl; text = refl; events = refl }
  fs_report Act.requeue w t s =
      let (p, q, n) = down_pci w s in
      record { pci = ap (count_event Kind.requeue t.bytes w) p; text = q; events = n }
  fs_report Act.issue w t s = record { pci = refl; text = refl; events = refl }
  fs_report Act.complete w t s =
      let (p, q, n) = down_pci w s in
      record { pci = ap (count_event Kind.complete t.bytes w) p; text = q; events = n }
  fs_report Act.plug w t s = record { pci = refl; text = refl; events = refl }
  fs_report Act.unplug_io w t s = record { pci = refl; text = refl; events = refl }
  fs_report Act.unplug_timer w t s = record { pci = refl; text = refl; events = refl }
  fs_report Act.insert w t s = record { pci = refl; text = refl; events = refl }
  fs_report Act.split w t s = record { pci = refl; text = refl; events = refl }
  fs_report Act.bounce w t s = record { pci = refl; text = refl; events = refl }
  fs_report Act.remap w t s = record { pci = refl; text = refl; events = refl }
  fs_report Act.drv_data w t s = record { pci = refl; text = refl; events = refl }
  fs_report Act.other w t s = record { pci = refl; text = refl; events = refl }

  message_report : (t : IoTrace) (s : Dump) → Counted [] s (log_message t s)
  unfolding log_message replay
  message_report t s = elim (Bool-cases (t.pdu_len == 0)) [
    | inl e ↦ rw e (record { pci = refl; text = refl; events = refl })
    | inr e ↦ rw e (record { pci = refl; text = refl; events = refl })
  ]

  pc_text :
      (t : IoTrace) (s : Dump)
      → Counted
          (pc_events (act_of (t.action % 2 ^ 16)) (is_write t) t)
          s
          (dump_trace_pc hash_pid hash_name t s)
  unfolding dump_trace_pc
  pc_text t s = pc_report hash_pid hash_name (act_of (t.action % 2 ^ 16)) (is_write t) t s

  fs_text :
      (t : IoTrace) (s : Dump)
      → Counted
          (fs_events (act_of (t.action % 2 ^ 16)) (is_write t) t)
          s
          (dump_trace_fs rb hash_pid hash_name garbage t s)
  unfolding dump_trace_fs
  fs_text t s = fs_report (act_of (t.action % 2 ^ 16)) (is_write t) t s

  text_report :
      (t : IoTrace) (s : Dump)
      → s.text_output ≡ true
      → Counted (events_of t) s (dump_text rb hash_pid hash_name garbage t s)
  unfolding events_of
  text_report t s on = elim (Bool-cases (is_message t)) [
    | inl e ↦ rw (text_message rb hash_pid hash_name garbage t s on e, e) (message_report t s)
    | inr e ↦ elim (Bool-cases (has_class 9 t)) [
      | inl c ↦ rw (text_pc rb hash_pid hash_name garbage t s on e c, e, c) (pc_text t s)
      | inr c ↦ rw (text_fs rb hash_pid hash_name garbage t s on e c, e, c) (fs_text t s)
    ]
  ]

  trace_report :
      (t : IoTrace) (s : Dump)
      → s.text_output ≡ true
      → let s' = dump_trace rb hash_pid hash_name garbage t s in
        (s'.pci ≡ replay s.pci (events_of t))
        × (s'.text_output ≡ s.text_output)
        × (s'.events ≡ add64 s.events 1)
  unfolding dump_trace
  trace_report t s on = let c = text_report t s on in (c.pci, c.text, ap (λ n. add64 n 1) c.events)

  -- With text printed: after any run of records the processor's counters are those of the counted events in the
  -- records, in order, and the number of events has grown, modulo 2^64, by the number of records.
  pub dump_all-replay :
      (records : List IoTrace) (s : Dump)
      → s.text_output ≡ true
      → s.events < 2 ^ 64
      → let s' = dump_all rb hash_pid hash_name garbage records s in
        (s'.pci ≡ replay s.pci (all_events records)) × (s'.events ≡ add64 s.events (length records))
  unfolding dump_all all_events replay
  dump_all-replay [] s on h = (refl, omega (arith, h))
  dump_all-replay (t ∷ records) s on h =
      let (p, q, n) = trace_report t s on in
      let (pci, events) =
        dump_all-replay records (dump_trace rb hash_pid hash_name garbage t s) (q ∙ on)
          (omega (arith, n)) in
      (
        pci
            ∙ ap (λ ios. replay ios (all_events records)) p
            ∙ sym (replay-append (events_of t) (all_events records) s.pci),
        omega (arith, events, n),
      )
