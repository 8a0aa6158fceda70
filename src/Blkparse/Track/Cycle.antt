-- ===== src/Blkparse/Track/Cycle.antt =====
-- A request from its allocation to its completion.
use iovisualization.Prelude.{
  ℕ, ◌≡◌, refl, sym, ap, ◌∙◌, ◌≢◌, inl, inr, true, Option, none, some, List, arith, ◌==◌,
  Bool-cases, sub64,
}
use iovisualization.Prelude.Tree.{RbTree}
use iovisualization.Trace.{IoTrace}
use iovisualization.Blkparse.Track.{
  IoTrack, Tracker, is_fs, find_track, log_track_getrq, log_track_insert, log_track_issue,
  log_track_complete,
}
use iovisualization.Blkparse.Track.Moves.{Tracks, Tracks-ext, with_track}
use iovisualization.Blkparse.Track.Events.{
  find_track-Tracks, getrq_lem, insert_lem, issue_lem, complete_lem,
}

with_track_back :
    (m : ℕ → Option IoTrack) (k : ℕ) (o₁ o₂ o₃ : Option IoTrack) (i d c j : ℕ)
    → i ≡ k
    → d ≡ k
    → c ≡ k
    → m k ≡ none
    → with_track (with_track (with_track (with_track m k o₁) i o₂) d o₃) c none j ≡ m j
with_track_back m k o₁ o₂ o₃ i d c j is ds cs free = elim (Bool-cases (j == k)) [
  | inl e ↦ rw (is, ds, cs, e) (sym free ∙ sym (ap m (ground (arith, e))))
  | inr e ↦ rw (is, ds, cs, e) refl
]

module _ (rb : RbTree IoTrack) (hash_pid : ℕ → ℕ) (hash_name : List ℕ → ℕ) (garbage : IoTrack) where
  -- With requests tracked, none under way at the sector, and an allocation time that is not 0: the allocation, insertion,
  -- issue and completion of a request of the file system at one sector report the times between each and the next, modulo
  -- 2^64, and leave the tracks of all sectors as they were before the first.
  pub track_cycle :
      (s : Tracker) (m : ℕ → Option IoTrack) (g i d c : IoTrace)
      → Tracks s m
      → m g.sector ≡ none
      → i.sector ≡ g.sector
      → d.sector ≡ g.sector
      → c.sector ≡ g.sector
      → g.time ≢ 0
      → is_fs d ≡ true
      → let s₁ = log_track_getrq rb hash_pid hash_name garbage s g in
        let (waited, s₂) = log_track_insert rb hash_pid hash_name garbage s₁ i in
        let (queued, s₃) = log_track_issue hash_pid hash_name s₂ d in
        let (served, s₄) = log_track_complete rb hash_pid hash_name s₃ c in
        (waited ≡ sub64 i.time g.time)
        × (queued ≡ sub64 d.time i.time)
        × (served ≡ sub64 c.time d.time)
        × Tracks s₄ m
  track_cycle s m g i d c r free is ds cs nz fs =
      let a = record (find_track rb hash_pid hash_name garbage s g.pid g.sector).0 {
        allocation_time = g.time;
      } in
      let s₁ = log_track_getrq rb hash_pid hash_name garbage s g in
      let m₁ = with_track m g.sector (some a) in
      let r₁ : Tracks s₁ m₁ = getrq_lem rb hash_pid hash_name garbage s m g r in
      let found = find_track-Tracks rb hash_pid hash_name garbage s₁ m₁ i.pid i.sector r₁ in
      let iot = (find_track rb hash_pid hash_name garbage s₁ i.pid i.sector).0 in
      let same : iot ≡ a = found.1 a (ground (arith, is)) in
      let (r₂, e₂) = insert_lem rb hash_pid hash_name garbage s₁ m₁ i r₁ in
      let s₂ = (log_track_insert rb hash_pid hash_name garbage s₁ i).1 in
      let m₂ = with_track m₁ i.sector (some (record iot { queue_time = i.time })) in
      let (r₃, e₃) =
        issue_lem rb hash_pid hash_name garbage s₂ m₂ d {iot = record iot { queue_time = i.time }}
          r₂ fs (ground (arith, is, ds)) in
      let s₃ = (log_track_issue hash_pid hash_name s₂ d).1 in
      let b : IoTrack = record iot { queue_time = i.time; dispatch_time = d.time } in
      let m₃ = with_track m₂ d.sector (some b) in
      let (r₄, e₄) =
        complete_lem rb hash_pid hash_name garbage s₃ m₃ c {iot = b} r₃
          (ground (arith, is, ds, cs)) in
      (
        e₂ ∙ ground (arith, ap (λ (o : IoTrack). o.allocation_time) same),
        e₃,
        e₄,
        Tracks-ext r₄
            (λ j. with_track_back m g.sector _ _ _ i.sector d.sector c.sector j is ds cs free),
      )
