-- ===== src/Blkparse/Track/Merge.antt =====
-- A front merge, and an insertion without an allocation.
use iovisualization.Prelude.{
  ℕ, ◌^◌, ◌<◌, ◌≡◌, refl, ap, ◌∙◌, true, Option, none, some, List, arith, ◌==◌, if◌then◌else◌,
  u64_max, add64, sub64,
}
use iovisualization.Prelude.Tree.{inorder, RbTree}
use iovisualization.Prelude.Keyed.Items.{get-some}
use iovisualization.Trace.{IoTrace}
use iovisualization.Blkparse.Track.{
  IoTrack, sector_of, Tracker, t_sec, find_iot, track_rb_insert, drop_iot, log_track_frontmerge,
  log_track_insert,
}
use iovisualization.Blkparse.Track.Moves.{
  Tracks, with_track, find_iot-Tracks, drop_iot-Tracks, track_rb_insert-Tracks,
}
use iovisualization.Blkparse.Track.Events.{find_track-Tracks, insert_lem}

back_again : (x y : ℕ) → x < 2 ^ 64 → y < 2 ^ 64 → sub64 (add64 x y) y ≡ x
back_again x y hx hy = omega arith

module _ (rb : RbTree IoTrack) where
  frontmerge_on :
      (s : Tracker) (t : IoTrace) (iot : IoTrack)
      → s.track_ios ≡ true
      → find_iot s (add64 t.sector (t_sec t)) ≡ some iot
      → log_track_frontmerge rb s t
        ≡ (track_rb_insert rb
            (drop_iot rb s (add64 t.sector (t_sec t)))
            (record iot { sector = sub64 iot.sector (t_sec t) })).1
  unfolding log_track_frontmerge
  frontmerge_on s t iot on e = ground arith

  sector_shown :
      (s : Tracker) (m : ℕ → Option IoTrack) (k : ℕ) {a : IoTrack}
      → Tracks s m
      → m k ≡ some a
      → a.sector ≡ k
  sector_shown s m k {a = a} r e = get-some sector_of (inorder s.rb_track) k {a = a} (r.shows k ∙ e)

  -- With requests tracked, one of them right behind the sectors of an event: a front merge moves
  -- its track to the event's sector when no other track is there, and takes it out of the tree when there is one.
  pub frontmerge-Tracks :
      (s : Tracker) (m : ℕ → Option IoTrack) (t : IoTrace) (iot : IoTrack)
      → Tracks s m
      → m (add64 t.sector (t_sec t)) ≡ some iot
      → t.sector < 2 ^ 64
      → t_sec t < 2 ^ 64
      → let rest = with_track m (add64 t.sector (t_sec t)) none in
        let moved = record iot { sector = t.sector } in
        (rest t.sector ≡ none
          → Tracks (log_track_frontmerge rb s t) (with_track rest t.sector (some moved)))
        × ((a : IoTrack) → rest t.sector ≡ some a → Tracks (log_track_frontmerge rb s t) rest)
  frontmerge-Tracks s m t iot r e ht hs =
      let behind = add64 t.sector (t_sec t) in
      let rest = with_track m behind none in
      let place : sub64 iot.sector (t_sec t) ≡ t.sector =
        ap (λ k. sub64 k (t_sec t)) (sector_shown s m behind r e)
        ∙ back_again t.sector (t_sec t) ht hs in
      let dropped = drop_iot-Tracks rb s m behind r e in
      let moved : IoTrack = record iot { sector = t.sector } in
      let (free, taken) = track_rb_insert-Tracks rb (drop_iot rb s behind) rest moved dropped in
      rw (frontmerge_on s t iot r.on (find_iot-Tracks s m behind r ∙ e), place)
        (λ q. (free q).1, λ a q. rw (taken a q) dropped)

module _ (rb : RbTree IoTrack) (hash_pid : ℕ → ℕ) (hash_name : List ℕ → ℕ) (garbage : IoTrack) where
  -- With requests tracked and none under way at the sector: the wait that an insertion reports is measured from the
  -- allocation time that happens to be in the memory of the new track, and is -1 when that is 0.
  pub insert_reads_garbage :
      (s : Tracker) (m : ℕ → Option IoTrack) (t : IoTrace)
      → Tracks s m
      → m t.sector ≡ none
      → (log_track_insert rb hash_pid hash_name garbage s t).0
        ≡ (if garbage.allocation_time == 0 then u64_max else sub64 t.time garbage.allocation_time)
  insert_reads_garbage s m t r free =
      let (r', same, new) = find_track-Tracks rb hash_pid hash_name garbage s m t.pid t.sector r in
      (insert_lem rb hash_pid hash_name garbage s m t r).1 ∙ rw (new free) refl
