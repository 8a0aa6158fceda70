-- ===== src/Blkparse/Track.antt =====
-- server-proto/blkparse.c, lines 242 to 254 and 912 to 1141: the requests under way of a device, in a
-- tree by their sector, and the times they wait. A time of -1 is 2^64 - 1.
pub mod Moves
pub mod Events
pub mod Cycle
pub mod Merge
pub mod Tests
use iovisualization.Prelude.{
  ℕ, ◌+◌, ◌/◌, ◌%◌, ◌^◌, Bool, true, false, ◌&&◌, ◌||◌, Option, none, some, List, ltb, ◌==◌,
  if◌then◌else◌, u64_max, add64, sub64,
}
use iovisualization.Prelude.Tree.{Tree, RbTree}
use iovisualization.Prelude.Keyed.{find_key, link_key, erase_key, write_key}
use iovisualization.Trace.{IoTrace}
use iovisualization.Blkparse.Process.{Ppm, Ppi, Procs, write, find_ppi, ppm_or_unknown}

-- `struct io_track`, less its links
pub record IoTrack : Type 0 where
  pub ppm : Ppm
  pub sector : ℕ
  pub allocation_time : ℕ
  pub queue_time : ℕ
  pub dispatch_time : ℕ
  pub completion_time : ℕ

abbrev pub sector_of : IoTrack → ℕ
sector_of iot = iot.sector

-- What the functions change: `pdi->rb_track` and the processes. `dev`, `track_ios` and
-- `per_process_stats` stay as they are.
pub record Tracker : Type 0 where
  pub dev : ℕ
  pub track_ios : Bool
  pub per_process_stats : Bool
  pub rb_track : Tree IoTrack
  pub procs : Procs

-- `t_sec`
abbrev pub t_sec : IoTrace → ℕ
t_sec t = t.bytes / 512

-- `(action & BLK_TC_ACT(1 << n)) != 0`
abbrev pub has_class : ℕ → IoTrace → Bool
has_class n t = t.action / 2 ^ (16 + n) % 2 == 1

-- reads and writes of the classes: `BLK_TC_WRITE` and `BLK_TC_FS`
abbrev pub is_write : IoTrace → Bool
is_write = has_class 1

abbrev pub is_fs : IoTrace → Bool
is_fs = has_class 8

-- `__find_track`
unfoldable pub find_iot : Tracker → ℕ → Option IoTrack
find_iot s sector = find_key sector_of s.rb_track sector

-- a write through a pointer to the track of a sector
unfoldable pub set_iot : Tracker → ℕ → (IoTrack → IoTrack) → Tracker
set_iot s sector f = record s { rb_track = write_key sector_of s.rb_track sector f }

-- an array of two with a longer wait put in
unfoldable pub raise : (Bool → ℕ) → Bool → ℕ → Bool → ℕ
raise waits true elapsed true = if ltb (waits true) elapsed then elapsed else waits true
raise waits true elapsed false = waits false
raise waits false elapsed true = waits true
raise waits false elapsed false = if ltb (waits false) elapsed then elapsed else waits false

-- `MAJOR`
abbrev pub major : ℕ → ℕ
major dev = dev / 2 ^ 20

unfoldable pub is_remapper : Tracker → Bool
is_remapper s = major s.dev == 253 || major s.dev == 9

module _ (rb : RbTree IoTrack) where
  -- 1 is an alias, which is left out of the tree
  unfoldable pub track_rb_insert : Tracker → IoTrack → ℕ × Tracker
  track_rb_insert s iot = elim (link_key sector_of s.rb_track iot) [
    | none ↦ (1, s)
    | some t ↦ (0, record s { rb_track = rb.insert_color t })
  ]

  -- `rb_erase`
  unfoldable pub drop_iot : Tracker → ℕ → Tracker
  drop_iot s sector = record s { rb_track = erase_key sector_of rb s.rb_track sector }

module _ (rb : RbTree IoTrack) where
  unfoldable pub log_track_frontmerge : Tracker → IoTrace → Tracker
  log_track_frontmerge s t =
      let behind = add64 t.sector (t_sec t) in
      if s.track_ios
      then elim (find_iot s behind) [
        | none ↦ s
        | some iot ↦
            (track_rb_insert rb (drop_iot rb s behind)
              (record iot { sector = sub64 iot.sector (t_sec t) })).1
      ]
      else s

module _ (hash_pid : ℕ → ℕ) (hash_name : List ℕ → ℕ) where
  -- a change of the process of a track, for `per_process_stats`
  unfoldable pub with_ppi : Tracker → ℕ → (Ppi → Ppi) → Tracker
  with_ppi s pid f =
      let (found, procs) = find_ppi hash_pid hash_name s.procs pid in
      if s.per_process_stats
      then elim found [
        | none ↦ record s { procs = procs }
        | some i ↦ record s {
          procs = record procs { heap = write procs.heap i (f (procs.heap i)) };
        }
      ]
      else s

module _ (hash_pid : ℕ → ℕ) (hash_name : List ℕ → ℕ) where
  -- the result is the time between queueing and issuing
  unfoldable pub log_track_issue : Tracker → IoTrace → ℕ × Tracker
  log_track_issue s t =
      if s.track_ios && is_fs t
      then elim (find_iot s t.sector) [
        | none ↦ (u64_max, s)
        | some iot ↦ (
          sub64 t.time iot.queue_time,
          with_ppi hash_pid hash_name
              (set_iot s t.sector (λ iot. record iot { dispatch_time = t.time })) iot.ppm.pid
              (λ ppi. record ppi {
                longest_dispatch_wait =
                    raise ppi.longest_dispatch_wait (is_write t) (sub64 t.time iot.queue_time);
              }),
        )
      ]
      else (u64_max, s)

module _ (rb : RbTree IoTrack) (hash_pid : ℕ → ℕ) (hash_name : List ℕ → ℕ) where
  -- the result is the time between dispatch and completion
  unfoldable pub log_track_complete : Tracker → IoTrace → ℕ × Tracker
  log_track_complete s t =
      if s.track_ios
      then elim (find_iot s t.sector) [
        | none ↦ (u64_max, s)
        | some iot ↦ (
          sub64 t.time iot.dispatch_time,
          drop_iot rb
              (with_ppi hash_pid hash_name
                (set_iot s t.sector (λ iot. record iot { completion_time = t.time })) iot.ppm.pid
                (λ ppi. record ppi {
                  longest_completion_wait =
                      raise ppi.longest_completion_wait (is_write t)
                        (sub64 t.time iot.dispatch_time);
                }))
              t.sector,
        )
      ]
      else (u64_max, s)

-- `malloc` gives memory with what happens to be in it: the parameter `garbage`.
module _ (rb : RbTree IoTrack) (hash_pid : ℕ → ℕ) (hash_name : List ℕ → ℕ) (garbage : IoTrack) where
  -- the new track of `find_track`
  unfoldable pub new_track : Tracker → ℕ → ℕ → IoTrack × Tracker
  new_track s pid sector =
      let (ppm, procs) = ppm_or_unknown hash_pid hash_name s.procs pid in
      let iot = record garbage { ppm = ppm; sector = sector } in
      (iot, (track_rb_insert rb (record s { procs = procs }) iot).1)

  unfoldable pub find_track : Tracker → ℕ → ℕ → IoTrack × Tracker
  find_track s pid sector = elim (find_iot s sector) [
    | none ↦ new_track s pid sector
    | some iot ↦ (iot, s)
  ]

  unfoldable pub log_track_getrq : Tracker → IoTrace → Tracker
  log_track_getrq s t =
      if s.track_ios
      then set_iot (find_track s t.pid t.sector).1 t.sector
          (λ iot. record iot { allocation_time = t.time })
      else s

  unfoldable pub log_track_queue : Tracker → IoTrace → Tracker
  log_track_queue s t =
      if s.track_ios && is_remapper s
      then set_iot (find_track s t.pid t.sector).1 t.sector
          (λ iot. record iot { dispatch_time = t.time })
      else s

  -- the result is the time between allocation and insertion
  unfoldable pub log_track_insert : Tracker → IoTrace → ℕ × Tracker
  log_track_insert s t =
      let (iot, s') = find_track s t.pid t.sector in
      let queued = set_iot s' t.sector (λ iot. record iot { queue_time = t.time }) in
      let elapsed = sub64 t.time iot.allocation_time in
      if s.track_ios
      then (if iot.allocation_time == 0 then (u64_max, queued) else (
        elapsed,
        with_ppi hash_pid hash_name queued iot.ppm.pid (λ ppi. record ppi {
          longest_allocation_wait = raise ppi.longest_allocation_wait (is_write t) elapsed;
        }),
      ))
      else (u64_max, s)
