-- ===== src/Blkparse/Track/Events.antt =====
-- What each event of a request does to the tracks.
use iovisualization.Prelude.{
  ℕ, ◌≡◌, refl, sym, ap, ◌∙◌, inl, inr, true, false, Option, none, some, List, arith, ◌==◌,
  if◌then◌else◌, Bool-cases, Option-cases, u64_max, sub64,
}
use iovisualization.Prelude.Tree.{RbTree}
use iovisualization.Trace.{IoTrace}
use iovisualization.Blkparse.Process.{Ppi, ppm_or_unknown}
use iovisualization.Blkparse.Track.{
  raise, is_write, IoTrack, Tracker, is_fs, find_iot, set_iot, new_track, find_track, drop_iot,
  with_ppi, log_track_getrq, log_track_insert, log_track_issue, log_track_complete,
}
use iovisualization.Blkparse.Track.Moves.{
  Tracks, Tracks-ext, with_track, find_iot-Tracks, set_iot-Tracks, drop_iot-Tracks,
  track_rb_insert-Tracks,
}

not_both : {a : IoTrack} → ¬ (some a ≡ none)
not_both e = cc

some_inj : {a b : IoTrack} → some a ≡ some b → a ≡ b
some_inj e = cc

module _ (hash_pid : ℕ → ℕ) (hash_name : List ℕ → ℕ) where
  with_ppi_tree :
      (s : Tracker) (pid : ℕ) (f : Ppi → Ppi)
      → ((with_ppi hash_pid hash_name s pid f).rb_track ≡ s.rb_track)
        × ((with_ppi hash_pid hash_name s pid f).track_ios ≡ s.track_ios)
  unfolding with_ppi
  with_ppi_tree s pid f = ground arith

  with_ppi-Tracks :
      (s : Tracker) (m : ℕ → Option IoTrack) (pid : ℕ) (f : Ppi → Ppi)
      → Tracks s m
      → Tracks (with_ppi hash_pid hash_name s pid f) m
  with_ppi-Tracks s m pid f r =
      let (e, o) = with_ppi_tree s pid f in
      record { on = o ∙ r.on; keyed = rw e r.keyed; shows = λ j. rw e (r.shows j) }

module _ (rb : RbTree IoTrack) (hash_pid : ℕ → ℕ) (hash_name : List ℕ → ℕ) (garbage : IoTrack) where
  new_track-Tracks :
      (s : Tracker) (m : ℕ → Option IoTrack) (pid k : ℕ)
      → Tracks s m
      → m k ≡ none
      → let (iot, s') = new_track rb hash_pid hash_name garbage s pid k in
        Tracks s' (with_track m k (some iot))
        × (iot.sector ≡ k)
        × (iot.allocation_time ≡ garbage.allocation_time)
  unfolding new_track
  new_track-Tracks s m pid k r free =
      let (ppm, procs) = ppm_or_unknown hash_pid hash_name s.procs pid in
      let iot : IoTrack = record garbage { ppm = ppm; sector = k } in
      let r' : Tracks (record s { procs = procs }) m = record {
        on = r.on;
        keyed = r.keyed;
        shows = r.shows;
      } in
      let linked = (track_rb_insert-Tracks rb (record s { procs = procs }) m iot r').0 free in
      (Tracks-ext linked.1 (λ j. ground arith), refl, refl)

  -- The track of a sector, which is made where there is none.
  pub find_track-Tracks :
      (s : Tracker) (m : ℕ → Option IoTrack) (pid k : ℕ)
      → Tracks s m
      → let (iot, s') = find_track rb hash_pid hash_name garbage s pid k in
        Tracks s' (with_track m k (some iot))
        × ((a : IoTrack) → m k ≡ some a → iot ≡ a)
        × (m k ≡ none → iot.allocation_time ≡ garbage.allocation_time)
  unfolding find_track
  find_track-Tracks s m pid k r = elim (Option-cases (m k)) [
    | inl free ↦
        rw (find_track, find_iot-Tracks s m k r ∙ free)
          (let (t, e, z) = new_track-Tracks s m pid k r free in
            (t, λ a taken. absurd (not_both (sym taken ∙ free)), λ q. z))
    | inr (a, e) ↦
        rw (find_track, find_iot-Tracks s m k r ∙ e)
          (
            Tracks-ext r (λ j. ground (arith, e, ap m {x = j} {y = k})),
            λ b taken. some_inj (sym e ∙ taken),
            λ free. absurd (not_both (sym e ∙ free)),
          )
  ]

  -- The steps with tracking on.
  getrq_on :
      (s : Tracker) (t : IoTrace)
      → s.track_ios ≡ true
      → log_track_getrq rb hash_pid hash_name garbage s t
        ≡ set_iot
            (find_track rb hash_pid hash_name garbage s t.pid t.sector).1
            t.sector
            (λ iot. record iot { allocation_time = t.time })
  unfolding log_track_getrq
  getrq_on s t on = ground arith

  pub getrq_lem :
      (s : Tracker) (m : ℕ → Option IoTrack) (t : IoTrace)
      → Tracks s m
      → let iot = record (find_track rb hash_pid hash_name garbage s t.pid t.sector).0 {
        allocation_time = t.time;
      } in
        Tracks
          (log_track_getrq rb hash_pid hash_name garbage s t)
          (with_track m t.sector (some iot))
  getrq_lem s m t r =
      let (iot, s') = find_track rb hash_pid hash_name garbage s t.pid t.sector in
      let (r', same, new) = find_track-Tracks s m t.pid t.sector r in
      rw (getrq_on s t r.on) (
        Tracks-ext
          (set_iot-Tracks s' (with_track m t.sector (some iot)) t.sector
            (λ i. record i { allocation_time = t.time }) {a = iot} r' (λ b. refl) (ground arith))
          (λ j. ground arith))

  insert_unallocated :
      (s : Tracker) (t : IoTrace)
      → s.track_ios ≡ true
      → ((find_track rb hash_pid hash_name garbage s t.pid t.sector).0.allocation_time == 0) ≡ true
      → log_track_insert rb hash_pid hash_name garbage s t ≡ (
        u64_max,
        set_iot
            (find_track rb hash_pid hash_name garbage s t.pid t.sector).1
            t.sector
            (λ i. record i { queue_time = t.time }),
      )
  unfolding log_track_insert
  insert_unallocated s t on e = ground arith

  insert_allocated :
      (s : Tracker) (t : IoTrace)
      → s.track_ios ≡ true
      → ((find_track rb hash_pid hash_name garbage s t.pid t.sector).0.allocation_time == 0) ≡ false
      → let (iot, s') = find_track rb hash_pid hash_name garbage s t.pid t.sector in
        log_track_insert rb hash_pid hash_name garbage s t ≡ (
          sub64 t.time iot.allocation_time,
          with_ppi hash_pid hash_name
              (set_iot s' t.sector (λ i. record i { queue_time = t.time }))
              iot.ppm.pid
              (λ ppi. record ppi {
                longest_allocation_wait =
                    raise ppi.longest_allocation_wait
                      (is_write t)
                      (sub64 t.time iot.allocation_time);
              }),
        )
  unfolding log_track_insert
  insert_allocated s t on e = ground arith

  insert_on :
      (s : Tracker) (t : IoTrace)
      → s.track_ios ≡ true
      → let (iot, s') = find_track rb hash_pid hash_name garbage s t.pid t.sector in
        let queued = set_iot s' t.sector (λ i. record i { queue_time = t.time }) in
        let (elapsed, s'') = log_track_insert rb hash_pid hash_name garbage s t in
        (elapsed ≡ (if iot.allocation_time == 0 then u64_max else sub64 t.time iot.allocation_time))
        × ((m : ℕ → Option IoTrack) → Tracks queued m → Tracks s'' m)
  insert_on s t on =
      elim (Bool-cases
        ((find_track rb hash_pid hash_name garbage s t.pid t.sector).0.allocation_time == 0)) [
          | inl e ↦ rw (insert_unallocated s t on e, e) (refl, λ m r. r)
          | inr e ↦
              rw (insert_allocated s t on e, e)
                (refl, λ m r. with_ppi-Tracks hash_pid hash_name _ _ _ _ r)
        ]

  pub insert_lem :
      (s : Tracker) (m : ℕ → Option IoTrack) (t : IoTrace)
      → Tracks s m
      → let iot = (find_track rb hash_pid hash_name garbage s t.pid t.sector).0 in
        let (elapsed, s') = log_track_insert rb hash_pid hash_name garbage s t in
        Tracks s' (with_track m t.sector (some (record iot { queue_time = t.time })))
        × (elapsed
            ≡ (if iot.allocation_time == 0 then u64_max else sub64 t.time iot.allocation_time))
  insert_lem s m t r =
      let (iot, s') = find_track rb hash_pid hash_name garbage s t.pid t.sector in
      let (r', same, new) = find_track-Tracks s m t.pid t.sector r in
      let (e, keep) = insert_on s t r.on in
      (
        keep _ (
            Tracks-ext
              (set_iot-Tracks s' (with_track m t.sector (some iot)) t.sector
                (λ i. record i { queue_time = t.time }) {a = iot} r' (λ b. refl) (ground arith))
              (λ j. ground arith)),
        e,
      )

  issue_on :
      (s : Tracker) (t : IoTrace) (iot : IoTrack)
      → s.track_ios ≡ true
      → is_fs t ≡ true
      → find_iot s t.sector ≡ some iot
      → log_track_issue hash_pid hash_name s t ≡ (
        sub64 t.time iot.queue_time,
        with_ppi hash_pid hash_name
            (set_iot s t.sector (λ i. record i { dispatch_time = t.time }))
            iot.ppm.pid
            (λ ppi. record ppi {
              longest_dispatch_wait =
                  raise ppi.longest_dispatch_wait (is_write t) (sub64 t.time iot.queue_time);
            }),
      )
  unfolding log_track_issue
  issue_on s t iot on fs e = ground arith

  pub issue_lem :
      (s : Tracker) (m : ℕ → Option IoTrack) (t : IoTrace) {iot : IoTrack}
      → Tracks s m
      → is_fs t ≡ true
      → m t.sector ≡ some iot
      → let (elapsed, s') = log_track_issue hash_pid hash_name s t in
        Tracks s' (with_track m t.sector (some (record iot { dispatch_time = t.time })))
        × (elapsed ≡ sub64 t.time iot.queue_time)
  issue_lem s m t {iot = iot} r fs e =
      rw (issue_on s t iot r.on fs (find_iot-Tracks s m t.sector r ∙ e)) (
        with_ppi-Tracks hash_pid hash_name _ _ _ _ (
            set_iot-Tracks s m t.sector (λ i. record i { dispatch_time = t.time }) r (λ b. refl) e),
        refl,
      )

  complete_on :
      (s : Tracker) (t : IoTrace) (iot : IoTrack)
      → s.track_ios ≡ true
      → find_iot s t.sector ≡ some iot
      → log_track_complete rb hash_pid hash_name s t ≡ (
        sub64 t.time iot.dispatch_time,
        drop_iot rb
            (with_ppi hash_pid hash_name
              (set_iot s t.sector (λ i. record i { completion_time = t.time }))
              iot.ppm.pid
              (λ ppi. record ppi {
                longest_completion_wait =
                    raise ppi.longest_completion_wait (is_write t) (sub64 t.time iot.dispatch_time);
              }))
            t.sector,
      )
  unfolding log_track_complete
  complete_on s t iot on e = ground arith

  pub complete_lem :
      (s : Tracker) (m : ℕ → Option IoTrack) (t : IoTrace) {iot : IoTrack}
      → Tracks s m
      → m t.sector ≡ some iot
      → let (elapsed, s') = log_track_complete rb hash_pid hash_name s t in
        Tracks s' (with_track m t.sector none) × (elapsed ≡ sub64 t.time iot.dispatch_time)
  complete_lem s m t {iot = iot} r e =
      rw (complete_on s t iot r.on (find_iot-Tracks s m t.sector r ∙ e)) (
        Tracks-ext
            (drop_iot-Tracks rb _
              (with_track m t.sector (some (record iot { completion_time = t.time }))) t.sector
              {a = record iot { completion_time = t.time }}
              (with_ppi-Tracks hash_pid hash_name _ _ _ _ (
                set_iot-Tracks s m t.sector (λ i. record i { completion_time = t.time }) r
                  (λ b. refl) e))
              (ground arith))
            (λ j. ground arith),
        refl,
      )
