-- ===== src/Blkparse/Dump/Depth.antt =====
-- The depths of a device's queue over any run of events.
use iovisualization.Prelude.{
  ℕ, ◌%◌, ◌^◌, ◌≤◌, max, ◌≡◌, refl, ap, ◌∙◌, Bool, true, false, ◌&&◌, not, List, [], ◌∷◌, arith,
  if◌then◌else◌,
}
use iovisualization.Prelude.Tree.{RbTree}
use iovisualization.Trace.{IoTrace}
use iovisualization.Blkparse.Track.{IoTrack, is_write}
use iovisualization.Blkparse.Dump.{Dump, act_of, is_message, at_rw, dump_trace, dump_all}
use iovisualization.Blkparse.Dump.Steps.{move, dump_trace_lem}

-- no depth is above the greatest one
abbrev pub InDepth : Dump → Type 0
InDepth s = (v : Bool) → s.cur_depth v ≤ s.max_depth v

-- the event is of one direction
abbrev pub goes : Bool → IoTrace → Bool
goes true t = is_write t
goes false t = not (is_write t)

-- what an event makes of the depth of a direction
unfoldable pub depth_after : Bool → IoTrace → ℕ → ℕ
depth_after v t n =
    if goes v t && not (is_message t) then move (act_of (t.action % 2 ^ 16)) n else n

-- The specification: the greatest of the depths that the events lead through.
pub greatest : Bool → List IoTrace → ℕ → ℕ
greatest v [] n = n
greatest v (t ∷ events) n = max n (greatest v events (depth_after v t n))

-- the last of these depths
unfoldable pub last_depth : Bool → List IoTrace → ℕ → ℕ
last_depth v [] n = n
last_depth v (t ∷ events) n = last_depth v events (depth_after v t n)

greatest_from : (v : Bool) (events : List IoTrace) (n : ℕ) → n ≤ greatest v events n
unfolding greatest
greatest_from v [] n = omega arith
greatest_from v (t ∷ events) n = omega arith

after_at :
    (d : Bool → ℕ) (w v : Bool) (t : IoTrace)
    → is_write t ≡ w
    → at_rw d w (if is_message t then d w else move (act_of (t.action % 2 ^ 16)) (d w)) v
      ≡ depth_after v t (d v)
unfolding at_rw depth_after
after_at d true true t e = ground (arith, e)
after_at d true false t e = ground (arith, e)
after_at d false true t e = ground (arith, e)
after_at d false false t e = ground (arith, e)

module _ (rb : RbTree IoTrack) (hash_pid : ℕ → ℕ) (hash_name : List ℕ → ℕ) (garbage : IoTrack) where
  step_depth :
      (t : IoTrace) (s : Dump) (v : Bool)
      → s.text_output ≡ true
      → (dump_trace rb hash_pid hash_name garbage t s).cur_depth v ≡ depth_after v t (s.cur_depth v)
  step_depth t s v on =
      (dump_trace_lem rb hash_pid hash_name garbage t s on).current v
      ∙ after_at s.cur_depth (is_write t) v t refl

  -- With text printed and no depth above the greatest: after any run of events the depth of a
  -- direction is the last of those that the events lead through, the greatest depth is the greatest of
  -- them and of its old value, and no depth is above the greatest.
  pub dump_all-depths :
      (events : List IoTrace) (s : Dump)
      → s.text_output ≡ true
      → InDepth s
      → let s' = dump_all rb hash_pid hash_name garbage events s in
        ((v : Bool) → s'.cur_depth v ≡ last_depth v events (s.cur_depth v))
        × ((v : Bool) → s'.max_depth v ≡ max (s.max_depth v) (greatest v events (s.cur_depth v)))
        × InDepth s'
  unfolding dump_all greatest last_depth
  dump_all-depths [] s on h = (λ v. refl, λ v. omega (arith, h v), h)
  dump_all-depths (t ∷ events) s on h =
      let s₁ = dump_trace rb hash_pid hash_name garbage t s in
      let step = dump_trace_lem rb hash_pid hash_name garbage t s on in
      let h₁ : InDepth s₁ = λ v. omega (arith, step.greatest v (h v)) in
      let (current, top, within) = dump_all-depths events s₁ (step.text ∙ on) h₁ in
      (
        λ v. current v ∙ ap (last_depth v events) (step_depth t s v on),
        λ v.
            top v
            ∙ rw (step.greatest v (h v), step_depth t s v on)
                (omega (arith, h v, greatest_from v events (depth_after v t (s.cur_depth v)))),
        within,
      )
