-- ===== src/Blkparse/Dump/Counts.antt =====
-- Depths as differences of counts.
use iovisualization.Prelude.{
  ℕ, ◌+◌, ◌-◌, ◌%◌, ◌^◌, ◌≤◌, ◌<◌, ◌≡◌, refl, inl, inr, Bool, true, ◌&&◌, not, List, [], ◌∷◌, arith,
  leb, ltb, if◌then◌else◌, Bool-cases,
}
use iovisualization.Prelude.Tree.{RbTree}
use iovisualization.Trace.{IoTrace}
use iovisualization.Blkparse.Track.{IoTrack}
use iovisualization.Blkparse.Dump.{Act, Dump, act_of, is_message, dump_all}
use iovisualization.Blkparse.Dump.Steps.{move}
use iovisualization.Blkparse.Dump.Depth.{InDepth, goes, depth_after, last_depth, dump_all-depths}

-- requests that an action issues, and that it completes or takes back
unfoldable pub opens : Act → ℕ
opens Act.queue = 0
opens Act.backmerge = 0
opens Act.frontmerge = 0
opens Act.getrq = 0
opens Act.sleeprq = 0
opens Act.requeue = 0
opens Act.issue = 1
opens Act.complete = 0
opens Act.plug = 0
opens Act.unplug_io = 0
opens Act.unplug_timer = 0
opens Act.insert = 0
opens Act.split = 0
opens Act.bounce = 0
opens Act.remap = 0
opens Act.drv_data = 0
opens Act.other = 0

unfoldable pub closes : Act → ℕ
closes Act.queue = 0
closes Act.backmerge = 0
closes Act.frontmerge = 0
closes Act.getrq = 0
closes Act.sleeprq = 0
closes Act.requeue = 1
closes Act.issue = 0
closes Act.complete = 1
closes Act.plug = 0
closes Act.unplug_io = 0
closes Act.unplug_timer = 0
closes Act.insert = 0
closes Act.split = 0
closes Act.bounce = 0
closes Act.remap = 0
closes Act.drv_data = 0
closes Act.other = 0

move-counts :
    (a : Act) (n : ℕ) → closes a ≤ n → n + opens a < 2 ^ 32 → move a n + closes a ≡ n + opens a
unfolding move opens closes
move-counts Act.queue n h k = omega arith
move-counts Act.backmerge n h k = omega arith
move-counts Act.frontmerge n h k = omega arith
move-counts Act.getrq n h k = omega arith
move-counts Act.sleeprq n h k = omega arith
move-counts Act.requeue n h k = omega arith
move-counts Act.issue n h k = omega arith
move-counts Act.complete n h k = omega arith
move-counts Act.plug n h k = omega arith
move-counts Act.unplug_io n h k = omega arith
move-counts Act.unplug_timer n h k = omega arith
move-counts Act.insert n h k = omega arith
move-counts Act.split n h k = omega arith
move-counts Act.bounce n h k = omega arith
move-counts Act.remap n h k = omega arith
move-counts Act.drv_data n h k = omega arith
move-counts Act.other n h k = omega arith

-- the same of an event, in one direction
unfoldable pub opened : Bool → IoTrace → ℕ
opened v t = if goes v t && not (is_message t) then opens (act_of (t.action % 2 ^ 16)) else 0

unfoldable pub closed : Bool → IoTrace → ℕ
closed v t = if goes v t && not (is_message t) then closes (act_of (t.action % 2 ^ 16)) else 0

pub total : (IoTrace → ℕ) → List IoTrace → ℕ
total f [] = 0
total f (t ∷ events) = f t + total f events

-- No event is lost: what ends has been issued, and fewer than 2^32 requests are under way.
unfoldable pub paired : Bool → List IoTrace → ℕ → Bool
paired v [] n = true
paired v (t ∷ events) n =
    leb (closed v t) n
    && ltb (n + opened v t) (2 ^ 32)
    && paired v events (n + opened v t - closed v t)

depth_after-counts :
    (v : Bool) (t : IoTrace) (n : ℕ)
    → closed v t ≤ n
    → n + opened v t < 2 ^ 32
    → depth_after v t n ≡ n + opened v t - closed v t
unfolding opened closed depth_after
depth_after-counts v t n h k = elim (Bool-cases (goes v t && not (is_message t))) [
  | inl e ↦ rw e (ground (arith, e, h, k, move-counts (act_of (t.action % 2 ^ 16)) n))
  | inr e ↦ rw e (omega arith)
]

last_depth-counts :
    (v : Bool) (events : List IoTrace) (n : ℕ)
    → paired v events n ≡ true
    → last_depth v events n + total (closed v) events ≡ n + total (opened v) events
unfolding paired last_depth total
last_depth-counts v [] n p = refl
last_depth-counts v (t ∷ events) n p =
    let h : closed v t ≤ n = ground (arith, p) in
    let k : n + opened v t < 2 ^ 32 = ground (arith, p) in
    let rest : paired v events (n + opened v t - closed v t) ≡ true = ground (arith, p) in
    rw (depth_after-counts v t n h k)
      (omega (arith, h, last_depth-counts v events (n + opened v t - closed v t) rest))

module _ (rb : RbTree IoTrack) (hash_pid : ℕ → ℕ) (hash_name : List ℕ → ℕ) (garbage : IoTrack) where
  -- With text printed, no depth above the greatest, and in one direction no event lost and fewer than 2^32 requests
  -- under way at a time: the depth after a run of events and the completions and requeues in it are
  -- together the depth before it and the issues in it.
  pub dump_all-counts :
      (v : Bool) (events : List IoTrace) (s : Dump)
      → s.text_output ≡ true
      → InDepth s
      → paired v events (s.cur_depth v) ≡ true
      → (dump_all rb hash_pid hash_name garbage events s).cur_depth v + total (closed v) events
        ≡ s.cur_depth v + total (opened v) events
  dump_all-counts v events s on h p =
      rw ((dump_all-depths rb hash_pid hash_name garbage events s on h).0 v)
        (last_depth-counts v events (s.cur_depth v) p)
