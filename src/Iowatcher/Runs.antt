-- ===== src/Iowatcher/Runs.antt =====
-- The reading of a trace, with a map in place of the hash table.
use iovisualization.Prelude.{
  ℕ, ◌≡◌, refl, Bool, true, false, ◌||◌, not, Option, none, some, List, [], ◌∷◌, arith, ltb, ◌==◌,
  if◌then◌else◌,
}
use mathlib.Core.Path.{subst}
use iovisualization.Trace.{IoTrace}
use iovisualization.Blkparse.Track.{has_class}
use iovisualization.Iowatcher.Table.{
  PendingIo, IoTable, hash_queued_io, hash_dispatched_io, dispatch, del_io,
}
use iovisualization.Iowatcher.{
  Graphs, seconds, action_num, ta_queue, ta_requeue, ta_issue, ta_complete, add_tput, add_iop,
  one_less, count_issue, add_pending_io, count_completion, add_completed_io, read_event,
  read_trace_events,
}
use iovisualization.Iowatcher.Pends.{
  IoMap, Pends, put_io, without_io, queue_io, or_queued, del_io-Pends, hash_queued_io-Pends,
  Dispatched, hash_dispatched_io-Pends, hash_completed_io-Pends, Pends-ext,
}

-- The same graphs, and the table shows the map.
pub record Sim (code : IoTable × Graphs) (abstract : IoMap × Graphs) : Type 0 where
  pub table : Pends code.0 abstract.0
  pub graphs : code.1 ≡ abstract.1

both : (table : IoTable) (m : IoMap) (s : Graphs) → Pends table m → Sim (table, s) (m, s)
both table m s r = record { table = r; graphs = refl }

Sim-if :
    (b : Bool) (a c : IoTable × Graphs) (a' c' : IoMap × Graphs)
    → Sim a a'
    → Sim c c'
    → Sim (if b then a else c) (if b then a' else c')
Sim-if true a c a' c' h k = h
Sim-if false a c a' c' h k = k

without_put :
    (m : IoMap) (k d : ℕ) (pio : PendingIo) (k' d' : ℕ)
    → without_io (put_io m k d pio) k d k' d' ≡ without_io m k d k' d'
without_put m k d pio k' d' = ground arith

kept_if :
    (io : IoTrace) (m : IoMap) (pio : PendingIo) (table : IoTable) (s : Graphs) (b : Bool)
    → Pends table (put_io m io.sector io.device pio)
    → Sim
        (if b then table else del_io io table, s)
        (if b then (put_io m io.sector io.device pio, s) else (without_io m io.sector io.device, s))
kept_if io m pio table s true r = both table (put_io m io.sector io.device pio) s r
kept_if io m pio table s false r =
    let k = io.sector in
    let d = io.device in
    both (del_io io table) (without_io m k d) s (
      Pends-ext (del_io io table) (without_io (put_io m k d pio) k d) (without_io m k d)
        (del_io-Pends io table (put_io m k d pio) r) (without_put m k d pio))

module _ (average : ℕ → ℕ → ℕ) where
  -- An I/O that is queued is kept, if it is not there; one that is issued is kept with its time until it
  -- completes, or not at all when the trace has no completions; and one that completes is taken out.
  abbrev pub pending_io : IoTrace → IoMap × Graphs → IoMap × Graphs
  pending_io io (m, s) =
      if has_class 10 io
      then (m, s)
      else if action_num io == ta_queue
      then (if s.found_issue || s.found_completion
          then (queue_io io (m io.sector io.device) m, s)
          else (m, s))
      else if action_num io == ta_requeue
      then (m, one_less s)
      else if not (action_num io == ta_issue)
      then (m, s)
      else (if s.found_completion
          then (
            put_io m io.sector io.device (dispatch io (or_queued io (m io.sector io.device))),
            count_issue average io s,
          )
          else (without_io m io.sector io.device, count_issue average io s))

  abbrev pub completed_io : IoTrace → IoMap × Graphs → IoMap × Graphs
  completed_io io (m, s) =
      if has_class 10 io
      then (m, s)
      else if not (action_num io == ta_complete)
      then (m, s)
      else elim (m io.sector io.device) as (λ o. IoMap × Graphs) [
        | none ↦ (m, s)
        | some pio ↦ (without_io m io.sector io.device, count_completion average io pio s)
      ]

  abbrev pub event_on : ℕ → IoTrace → IoMap × Graphs → IoMap × Graphs
  event_on max_seconds io (m, s) =
      if ltb max_seconds (seconds io)
      then (m, s)
      else completed_io io (pending_io io (m, add_iop io (add_tput io s)))

  abbrev pub events_on : ℕ → List IoTrace → IoMap × Graphs → IoMap × Graphs
  events_on max_seconds [] ms = ms
  events_on max_seconds (io ∷ ios) ms = events_on max_seconds ios (event_on max_seconds io ms)

  -- the end of `add_pending_io`, for what `hash_dispatched_io` has returned
  abbrev issued : IoTrace → Graphs → Option PendingIo × IoTable → IoTable × Graphs
  issued io s (found, table) = elim found as (λ o. IoTable × Graphs) [
    | none ↦ (table, s)
    | some pio ↦ (if s.found_completion then table else del_io io table, count_issue average io s)
  ]

  issued-Sim :
      (io : IoTrace) (s : Graphs) (m : IoMap) (pio : PendingIo) (out : Option PendingIo × IoTable)
      → Dispatched io m pio out
      → Sim (issued io s out) (
          if s.found_completion
          then (put_io m io.sector io.device (dispatch io pio), count_issue average io s)
          else (without_io m io.sector io.device, count_issue average io s))
  issued-Sim io s m pio (found, table) (e, r) =
      rw e (kept_if io m (dispatch io pio) table (count_issue average io s) s.found_completion r)

  add_pending_io-Sim :
      (io : IoTrace) (table : IoTable) (m : IoMap) (s : Graphs)
      → Pends table m
      → Sim (add_pending_io average io (table, s)) (pending_io io (m, s))
  unfolding add_pending_io
  add_pending_io-Sim io table m s r =
      let same = both table m s r in
      Sim-if (has_class 10 io) _ _ _ _ same (
        Sim-if (action_num io == ta_queue) _ _ _ _
          (Sim-if (s.found_issue || s.found_completion) _ _ _ _
            (both (hash_queued_io io table).1 _ s
              (hash_queued_io-Pends io table m (m io.sector io.device) r refl))
            same)
          (Sim-if (action_num io == ta_requeue) _ _ _ _ (both table m (one_less s) r) (
            Sim-if (not (action_num io == ta_issue)) _ _ _ _ same (
              issued-Sim io s m (or_queued io (m io.sector io.device)) (hash_dispatched_io io table)
                (hash_dispatched_io-Pends io table m (m io.sector io.device) r refl)))))

  -- the end of `add_completed_io`, for what `hash_completed_io` has returned
  completed-Sim :
      (io : IoTrace) (table : IoTable) (m : IoMap) (s : Graphs) (o : Option PendingIo)
      → Pends table m
      → Sim
          (elim o as (λ _. IoTable × Graphs) [
            | none ↦ (table, s)
            | some pio ↦ (del_io io table, count_completion average io pio s)
          ])
          (elim o as (λ _. IoMap × Graphs) [
            | none ↦ (m, s)
            | some pio ↦ (without_io m io.sector io.device, count_completion average io pio s)
          ])
  completed-Sim io table m s none r = both table m s r
  completed-Sim io table m s (some pio) r =
      both (del_io io table) (without_io m io.sector io.device) (count_completion average io pio s)
        (del_io-Pends io table m r)

  add_completed_io-Sim :
      (io : IoTrace) (table : IoTable) (m : IoMap) (s : Graphs)
      → Pends table m
      → Sim (add_completed_io average io (table, s)) (completed_io io (m, s))
  unfolding add_completed_io
  add_completed_io-Sim io table m s r =
      let same = both table m s r in
      Sim-if (has_class 10 io) _ _ _ _ same (
        Sim-if (not (action_num io == ta_complete)) _ _ _ _ same (
          rw (hash_completed_io-Pends io table m r)
            (completed-Sim io table m s (m io.sector io.device) r)))

  then_completed :
      (io : IoTrace) (a : IoTable × Graphs) (b : IoMap × Graphs)
      → Sim a b
      → Sim (add_completed_io average io a) (completed_io io b)
  then_completed io (table, s) (m, s') h =
      subst (λ t. Sim (add_completed_io average io (table, s)) (completed_io io (m, t))) h.graphs
        (add_completed_io-Sim io table m s h.table)

  read_event-Sim :
      (max_seconds : ℕ) (io : IoTrace) (table : IoTable) (m : IoMap) (s : Graphs)
      → Pends table m
      → Sim (read_event average max_seconds io (table, s)) (event_on max_seconds io (m, s))
  unfolding read_event
  read_event-Sim max_seconds io table m s r =
      let s' = add_iop io (add_tput io s) in
      Sim-if (ltb max_seconds (seconds io)) _ _ _ _ (both table m s r) (
        then_completed io (add_pending_io average io (table, s')) (pending_io io (m, s'))
          (add_pending_io-Sim io table m s' r))

  then_event :
      (max_seconds : ℕ) (io : IoTrace) (a : IoTable × Graphs) (b : IoMap × Graphs)
      → Sim a b
      → Sim (read_event average max_seconds io a) (event_on max_seconds io b)
  then_event max_seconds io (table, s) (m, s') h =
      subst
        (λ t. Sim (read_event average max_seconds io (table, s)) (event_on max_seconds io (m, t)))
        h.graphs (read_event-Sim max_seconds io table m s h.table)

  then_events :
      (max_seconds : ℕ) (ios : List IoTrace) (a : IoTable × Graphs) (b : IoMap × Graphs)
      → Sim a b
      → Sim (read_trace_events average max_seconds ios a) (events_on max_seconds ios b)
  unfolding read_trace_events
  then_events max_seconds [] a b h = h
  then_events max_seconds (io ∷ ios) a b h =
      then_events max_seconds ios (read_event average max_seconds io a) (event_on max_seconds io b)
        (then_event max_seconds io a b h)

  -- With a table that shows a map of the I/Os under way by sector and device: after any trace the graphs
  -- are those that the map in place of the table gives, and the table shows the map that is then left.
  pub read_trace_events-Sim :
      (max_seconds : ℕ) (ios : List IoTrace) (table : IoTable) (m : IoMap) (s : Graphs)
      → Pends table m
      → Sim
          (read_trace_events average max_seconds ios (table, s))
          (events_on max_seconds ios (m, s))
  read_trace_events-Sim max_seconds ios table m s r =
      then_events max_seconds ios (table, s) (m, s) (both table m s r)
