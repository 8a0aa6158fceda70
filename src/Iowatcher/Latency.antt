-- ===== src/Iowatcher/Latency.antt =====
-- What the way of one I/O adds to the graphs.
use iovisualization.Prelude.{
  ℕ, ◌+◌, ◌-◌, ◌^◌, ◌≤◌, ◌<◌, ◌≡◌, refl, sym, ap, ◌∙◌, ◌≢◌, inl, inr, true, false, none, [], ◌∷◌,
  arith, leb, ltb, ◌==◌, if◌then◌else◌, Bool-cases, add64, sub64,
}
use mathlib.Core.Path.{subst}
use iovisualization.Trace.{IoTrace}
use iovisualization.Iowatcher.Table.{PendingIo, IoTable, queued_io, dispatch}
use iovisualization.Iowatcher.{
  LinePair, LineData, Graphs, seconds, ta_queue, ta_issue, ta_complete, at_second, add_tput,
  add_iop, raise_avg, add_number, one_less, count_issue, count_completion, read_trace_events,
}
use iovisualization.Iowatcher.Chains.{same_io}
use iovisualization.Iowatcher.Pends.{IoMap, Pends, put_io, without_io, Pends-ext, at_same}
use iovisualization.Iowatcher.Runs.{Sim, event_on, events_on, read_trace_events-Sim}
use iovisualization.Iowatcher.Cycle.{
  IsEvent, if_true, counted-Rest, queue_step, issue_step, complete_step,
}

-- One more number, in one second and in no other.
pub record OneMore (second n : ℕ) (gld gld' : LineData) : Type 0 where
  pub count : (gld'.pairs second).count ≡ add64 (gld.pairs second).count 1
  pub sum : (gld'.pairs second).sum ≡ add64 (gld.pairs second).sum n
  pub others : (i : ℕ) → i ≢ second → gld'.pairs i ≡ gld.pairs i

-- a second for itself
at_second_self : (pairs : ℕ → LinePair) (i : ℕ) (pair : LinePair) → at_second pairs i pair i ≡ pair
unfolding at_second
at_second_self pairs i pair = let same : (i == i) ≡ true = ground arith in if_true (i == i) _ _ same

-- The events are those of one I/O, in the order of their times.
pub record IsWay (max_seconds : ℕ) (q d c : IoTrace) : Type 0 where
  pub queue : IsEvent max_seconds ta_queue q
  pub issue : IsEvent max_seconds ta_issue d
  pub complete : IsEvent max_seconds ta_complete c
  pub sectors : (d.sector ≡ q.sector) × (c.sector ≡ q.sector)
  pub devices : (d.device ≡ q.device) × (c.device ≡ q.device)
  pub later : d.time ≤ c.time
  pub fits : c.time < 2 ^ 64

-- the table shows the map, and the I/O has been counted
pub record Counted (m : IoMap) (s : Graphs) (d c : IoTrace) (after : IoTable) (s' : Graphs)
    : Type 0 where
  pub table : Pends after m
  pub in_flight : s'.ios_in_flight ≡ s.ios_in_flight
  pub latency : OneMore (seconds c) (c.time - d.time) s.latency_gld s'.latency_gld
  pub depth : OneMore (seconds d) (s.ios_in_flight + 1) s.queue_depth_gld s'.queue_depth_gld

gone :
    (m : IoMap) (q d c : IoTrace) (a b : PendingIo) (max_seconds : ℕ)
    → IsWay max_seconds q d c
    → m q.sector q.device ≡ none
    → (k' d' : ℕ)
    → without_io (put_io (put_io m q.sector q.device a) d.sector d.device b) c.sector c.device k' d'
      ≡ m k' d'
gone m q d c a b max_seconds w free k' d' =
    let (ds, cs) = w.sectors in
    let (dd, cd) = w.devices in
    elim (Bool-cases (same_io q.sector q.device k' d')) [
      | inl e ↦
          let here : same_io c.sector c.device k' d' ≡ true = ground (arith, e, cs, cd) in
          rw here (sym (at_same m q.sector q.device k' d' e ∙ free))
      | inr e ↦
          let here : same_io c.sector c.device k' d' ≡ false = ground (arith, e, cs, cd) in
          let there : same_io d.sector d.device k' d' ≡ false = ground (arith, e, ds, dd) in
          rw (here, there, e) refl
    ]

module _ (average : ℕ → ℕ → ℕ) where
  raised-OneMore :
      (second n : ℕ) (gld : LineData)
      → OneMore second n gld (raise_avg average second (add_number average second n gld))
  unfolding raise_avg add_number at_second
  raised-OneMore second n gld =
      let same : (second == second) ≡ true = ground arith in
      record {
        count = rw same refl;
        sum = rw same refl;
        others =
            λ i apart. let other : (i == second) ≡ false = ground (arith, apart) in rw other refl;
      }

  completion_lem :
      (c : IoTrace) (pio : PendingIo) (s : Graphs)
      → pio.dispatch_time ≤ c.time
      → 0 < s.ios_in_flight
      → count_completion average c pio s ≡ record s {
        ios_in_flight = s.ios_in_flight - 1;
        latency_gld =
            raise_avg average
              (seconds c)
              (add_number average (seconds c) (sub64 c.time pio.dispatch_time) s.latency_gld);
      }
  unfolding count_completion one_less
  completion_lem c pio s later some_io =
      ap
        (λ (less : Graphs). record less {
          latency_gld = raise_avg average (seconds c) (
              if leb pio.dispatch_time c.time
              then add_number average (seconds c) (sub64 c.time pio.dispatch_time) less.latency_gld
              else less.latency_gld);
        })
        (if_true (ltb 0 s.ios_in_flight) (record s { ios_in_flight = s.ios_in_flight - 1 }) s
          (ground (arith, some_io)))
      ∙ ap
          (λ (gld : LineData). record s {
            ios_in_flight = s.ios_in_flight - 1;
            latency_gld = raise_avg average (seconds c) gld;
          })
          (if_true (leb pio.dispatch_time c.time)
            (add_number average (seconds c) (sub64 c.time pio.dispatch_time) s.latency_gld)
            s.latency_gld (ground (arith, later)))

  way_map :
      (max_seconds : ℕ) (q d c : IoTrace) (m : IoMap) (s : Graphs)
      → IsWay max_seconds q d c
      → s.found_completion ≡ true
      → m q.sector q.device ≡ none
      → let pio = dispatch d (queued_io q) in
        let m' = put_io (put_io m q.sector q.device (queued_io q)) d.sector d.device pio in
        let s' = count_issue average d s in
        events_on average max_seconds (q ∷ d ∷ c ∷ []) (m, s) ≡ (
          without_io m' c.sector c.device,
          count_completion average c pio (add_iop c (add_tput c s')),
        )
  way_map max_seconds q d c m s w fc free =
      let (ds, cs) = w.sectors in
      let (dd, cd) = w.devices in
      let pio = dispatch d (queued_io q) in
      let m1 = put_io m q.sector q.device (queued_io q) in
      let m2 = put_io m1 d.sector d.device pio in
      let here : same_io q.sector q.device d.sector d.device ≡ true = ground (arith, ds, dd) in
      let there : same_io d.sector d.device c.sector c.device ≡ true =
        ground (arith, ds, dd, cs, cd) in
      ap (λ ms. event_on average max_seconds c (event_on average max_seconds d ms))
        (queue_step average max_seconds q m s w.queue fc free)
      ∙ ap (event_on average max_seconds c)
          (issue_step average max_seconds d m1 s (queued_io q) w.issue fc (if_true _ _ _ here))
      ∙ complete_step average max_seconds c m2 (count_issue average d s) pio w.complete
          (if_true _ _ _ there)

  counted_lem :
      (max_seconds : ℕ) (q d c : IoTrace) (s : Graphs)
      → IsWay max_seconds q d c
      → s.ios_in_flight + 1 < 2 ^ 64
      → let out =
          count_completion average c
            (dispatch d (queued_io q))
            (add_iop c (add_tput c (count_issue average d s))) in
        (out.ios_in_flight ≡ s.ios_in_flight)
        × OneMore (seconds c) (c.time - d.time) s.latency_gld out.latency_gld
        × OneMore (seconds d) (s.ios_in_flight + 1) s.queue_depth_gld out.queue_depth_gld
  unfolding count_issue dispatch
  counted_lem max_seconds q d c s w fits =
      let s' = count_issue average d s in
      let s4 = add_iop c (add_tput c s') in
      let rest = counted-Rest c s' in
      let n : add64 s.ios_in_flight 1 ≡ s.ios_in_flight + 1 = ground (arith, fits) in
      let flight : s4.ios_in_flight ≡ s.ios_in_flight + 1 = rest.ios_in_flight ∙ n in
      let t : sub64 c.time d.time ≡ c.time - d.time = ground (arith, w.later, w.fits) in
      let done = completion_lem c (dispatch d (queued_io q)) s4 w.later (ground (arith, flight)) in
      (
        ap (λ (o : Graphs). o.ios_in_flight) done ∙ ap (λ k. k - 1) flight ∙ ground arith,
        subst (λ (gld : LineData). OneMore (seconds c) (c.time - d.time) s.latency_gld gld)
            (sym (ap (λ (o : Graphs). o.latency_gld) done))
            (subst
              (λ (gld : LineData). OneMore (seconds c) (c.time - d.time) s.latency_gld (
                raise_avg average (seconds c)
                  (add_number average (seconds c) (sub64 c.time d.time) gld)))
              (sym rest.latency)
              (subst
                (λ k. OneMore (seconds c) k s.latency_gld (
                  raise_avg average (seconds c)
                    (add_number average (seconds c) (sub64 c.time d.time) s.latency_gld)))
                t (raised-OneMore (seconds c) (sub64 c.time d.time) s.latency_gld))),
        subst (λ (gld : LineData). OneMore (seconds d) (s.ios_in_flight + 1) s.queue_depth_gld gld)
            (sym (ap (λ (o : Graphs). o.queue_depth_gld) done ∙ rest.depth))
            (subst
              (λ k. OneMore (seconds d) k s.queue_depth_gld (
                raise_avg average (seconds d)
                  (add_number average (seconds d) (add64 s.ios_in_flight 1) s.queue_depth_gld)))
              n (raised-OneMore (seconds d) (add64 s.ios_in_flight 1) s.queue_depth_gld)),
      )

  -- For an I/O that is not under way, in a trace that has completions and with fewer than 2^64 - 1 I/Os in
  -- flight: when it has been queued, issued and completed, the time from its issue to its completion is one
  -- number more of the latencies, in the second of its completion; the number in flight, with it, is one
  -- more of the queue depths, in the second of its issue; as many are in flight as before, and the
  -- table shows the I/Os that it showed before.
  pub way_of_io :
      (max_seconds : ℕ) (q d c : IoTrace) (table : IoTable) (m : IoMap) (s : Graphs)
      → Pends table m
      → IsWay max_seconds q d c
      → s.found_completion ≡ true
      → m q.sector q.device ≡ none
      → s.ios_in_flight + 1 < 2 ^ 64
      → let (table', s') = read_trace_events average max_seconds (q ∷ d ∷ c ∷ []) (table, s) in
        Counted m s d c table' s'
  way_of_io max_seconds q d c table m s r w fc free fits =
      let (flight, latency, depth) = counted_lem max_seconds q d c s w fits in
      let out = read_trace_events average max_seconds (q ∷ d ∷ c ∷ []) (table, s) in
      let sim =
        subst (Sim out) (way_map max_seconds q d c m s w fc free)
          (read_trace_events-Sim average max_seconds (q ∷ d ∷ c ∷ []) table m s r) in
      record {
        table =
            Pends-ext out.0 _ m sim.table
              (gone m q d c (queued_io q) (dispatch d (queued_io q)) max_seconds w free);
        in_flight = ap (λ (o : Graphs). o.ios_in_flight) sim.graphs ∙ flight;
        latency =
            subst
              (λ (o : Graphs). OneMore (seconds c) (c.time - d.time) s.latency_gld o.latency_gld)
              (sym sim.graphs) latency;
        depth =
            subst
              (λ (o : Graphs).
                OneMore (seconds d) (s.ios_in_flight + 1) s.queue_depth_gld o.queue_depth_gld)
              (sym sim.graphs) depth;
      }
