-- ===== src/Blkparse/Dump/Steps.antt =====
-- What one event does to the depths of a device.
use iovisualization.Prelude.{
  ℕ, ◌+◌, ◌-◌, ◌%◌, ◌^◌, ◌≤◌, max, ◌≡◌, refl, ◌∙◌, inl, inr, Bool, true, false, List, arith, ltb,
  ◌==◌, if◌then◌else◌, Bool-cases,
}
use iovisualization.Prelude.Tree.{RbTree}
use iovisualization.Trace.{IoTrace}
use iovisualization.Blkparse.Track.{IoTrack, is_write, has_class}
use iovisualization.Blkparse.Dump.{
  Act, Dump, act_of, is_message, counting, tracking, log_generic, log_pc, log_elapsed, log_message,
  at_rw, depth_down, depth_up, dump_pc_act, dump_trace_pc, dump_fs_act, dump_trace_fs, dump_text,
  dump_trace,
}

-- a depth after an event of its direction
unfoldable pub move : Act → ℕ → ℕ
move Act.queue n = n
move Act.backmerge n = n
move Act.frontmerge n = n
move Act.getrq n = n
move Act.sleeprq n = n
move Act.requeue n = n - 1
move Act.issue n = (n + 1) % 2 ^ 32
move Act.complete n = n - 1
move Act.plug n = n
move Act.unplug_io n = n
move Act.unplug_timer n = n
move Act.insert n = n
move Act.split n = n
move Act.bounce n = n
move Act.remap n = n
move Act.drv_data n = n
move Act.other n = n

-- From `s` to `s'` the depth of one direction changes to `n`, and the greatest depths follow.
pub record Steps (w : Bool) (n : ℕ) (s s' : Dump) : Type 0 where
  pub current : (v : Bool) → s'.cur_depth v ≡ at_rw s.cur_depth w n v
  pub greatest :
      (v : Bool)
      → s.cur_depth v ≤ s.max_depth v
      → s'.max_depth v ≡ max (s.max_depth v) (s'.cur_depth v)
  pub text : s'.text_output ≡ s.text_output

at_rw-same : (d : Bool → ℕ) (w v : Bool) → d v ≡ at_rw d w (d w) v
unfolding at_rw
at_rw-same d true true = refl
at_rw-same d true false = refl
at_rw-same d false true = refl
at_rw-same d false false = refl

pub keep : (w : Bool) (s : Dump) → Steps w (s.cur_depth w) s s
keep w s = record {
  current = λ v. at_rw-same s.cur_depth w v;
  greatest = λ v h. omega arith;
  text = refl;
}

like :
    {w : Bool} {n : ℕ} {s s' s'' : Dump}
    → Steps w n s s'
    → s''.cur_depth ≡ s'.cur_depth
    → s''.max_depth ≡ s'.max_depth
    → s''.text_output ≡ s'.text_output
    → Steps w n s s''
like k c m t = record {
  current = λ v. rw c (k.current v);
  greatest = λ v h. rw (c, m) (k.greatest v h);
  text = t ∙ k.text;
}

at_rw-down : (d : Bool → ℕ) (m : ℕ) (w v : Bool) → d v ≤ m → m ≡ max m (at_rw d w (d w - 1) v)
unfolding at_rw
at_rw-down d m true true h = omega arith
at_rw-down d m true false h = omega arith
at_rw-down d m false true h = omega arith
at_rw-down d m false false h = omega arith

at_rw-up :
    (d m : Bool → ℕ) (n : ℕ) (w v : Bool)
    → d v ≤ m v
    → (if ltb (m w) n then at_rw m w n else m) v ≡ max (m v) (at_rw d w n v)
unfolding at_rw
at_rw-up d m n true true h = ground arith
at_rw-up d m n true false h = ground arith
at_rw-up d m n false true h = ground arith
at_rw-up d m n false false h = ground arith

down_zero : (w : Bool) (s : Dump) → (s.cur_depth w == 0) ≡ true → depth_down w s ≡ s
unfolding depth_down
down_zero w s e = ground arith

down_some :
    (w : Bool) (s : Dump)
    → (s.cur_depth w == 0) ≡ false
    → depth_down w s ≡ record s { cur_depth = at_rw s.cur_depth w (s.cur_depth w - 1) }
unfolding depth_down
down_some w s e = ground arith

down_lem : (w : Bool) (s : Dump) → Steps w (s.cur_depth w - 1) s (depth_down w s)
down_lem w s = elim (Bool-cases (s.cur_depth w == 0)) [
  | inl e ↦
      let still : s.cur_depth w - 1 ≡ s.cur_depth w = ground (arith, e) in
      rw (down_zero w s e, still) (keep w s)
  | inr e ↦ rw (down_some w s e) (record {
    current = λ v. refl;
    greatest = λ v h. at_rw-down s.cur_depth (s.max_depth v) w v h;
    text = refl;
  })
]

up_lem : (w : Bool) (s : Dump) → Steps w ((s.cur_depth w + 1) % 2 ^ 32) s (depth_up w s)
unfolding depth_up
up_lem w s = record {
  current = λ v. refl;
  greatest = λ v h. at_rw-up s.cur_depth s.max_depth ((s.cur_depth w + 1) % 2 ^ 32) w v h;
  text = refl;
}

module _ (hash_pid : ℕ → ℕ) (hash_name : List ℕ → ℕ) where
  pc_lem :
      (a : Act) (w : Bool) (t : IoTrace) (s : Dump)
      → Steps w (move a (s.cur_depth w)) s (dump_pc_act hash_pid hash_name a w t s)
  unfolding dump_pc_act move counting log_generic log_pc depth_up
  pc_lem Act.queue w t s = like (keep w s) refl refl refl
  pc_lem Act.backmerge w t s = like (keep w s) refl refl refl
  pc_lem Act.frontmerge w t s = like (keep w s) refl refl refl
  pc_lem Act.getrq w t s = like (keep w s) refl refl refl
  pc_lem Act.sleeprq w t s = like (keep w s) refl refl refl
  pc_lem Act.requeue w t s = like (down_lem w s) refl refl refl
  pc_lem Act.issue w t s = like (up_lem w s) refl refl refl
  pc_lem Act.complete w t s = like (down_lem w s) refl refl refl
  pc_lem Act.plug w t s = like (keep w s) refl refl refl
  pc_lem Act.unplug_io w t s = like (keep w s) refl refl refl
  pc_lem Act.unplug_timer w t s = like (keep w s) refl refl refl
  pc_lem Act.insert w t s = like (keep w s) refl refl refl
  pc_lem Act.split w t s = like (keep w s) refl refl refl
  pc_lem Act.bounce w t s = like (keep w s) refl refl refl
  pc_lem Act.remap w t s = like (keep w s) refl refl refl
  pc_lem Act.drv_data w t s = like (keep w s) refl refl refl
  pc_lem Act.other w t s = like (keep w s) refl refl refl

module _ (rb : RbTree IoTrack) (hash_pid : ℕ → ℕ) (hash_name : List ℕ → ℕ) (garbage : IoTrack) where
  fs_lem :
      (a : Act) (w : Bool) (t : IoTrace) (s : Dump)
      → Steps w (move a (s.cur_depth w)) s (dump_fs_act rb hash_pid hash_name garbage a w t s)
  unfolding dump_fs_act move counting tracking log_generic log_elapsed depth_up
  fs_lem Act.queue w t s = like (keep w s) refl refl refl
  fs_lem Act.backmerge w t s = like (keep w s) refl refl refl
  fs_lem Act.frontmerge w t s = like (keep w s) refl refl refl
  fs_lem Act.getrq w t s = like (keep w s) refl refl refl
  fs_lem Act.sleeprq w t s = like (keep w s) refl refl refl
  fs_lem Act.requeue w t s = like (down_lem w s) refl refl refl
  fs_lem Act.issue w t s = like (up_lem w s) refl refl refl
  fs_lem Act.complete w t s = like (down_lem w s) refl refl refl
  fs_lem Act.plug w t s = like (keep w s) refl refl refl
  fs_lem Act.unplug_io w t s = like (keep w s) refl refl refl
  fs_lem Act.unplug_timer w t s = like (keep w s) refl refl refl
  fs_lem Act.insert w t s = like (keep w s) refl refl refl
  fs_lem Act.split w t s = like (keep w s) refl refl refl
  fs_lem Act.bounce w t s = like (keep w s) refl refl refl
  fs_lem Act.remap w t s = like (keep w s) refl refl refl
  fs_lem Act.drv_data w t s = like (keep w s) refl refl refl
  fs_lem Act.other w t s = like (keep w s) refl refl refl

  message_lem : (w : Bool) (t : IoTrace) (s : Dump) → Steps w (s.cur_depth w) s (log_message t s)
  unfolding log_message
  message_lem w t s = elim (Bool-cases (t.pdu_len == 0)) [
    | inl e ↦ rw e (keep w s)
    | inr e ↦ rw e (like (keep w s) refl refl refl)
  ]

  pub text_message :
      (t : IoTrace) (s : Dump)
      → s.text_output ≡ true
      → is_message t ≡ true
      → dump_text rb hash_pid hash_name garbage t s ≡ log_message t s
  unfolding dump_text
  text_message t s on e = ground arith

  pub text_pc :
      (t : IoTrace) (s : Dump)
      → s.text_output ≡ true
      → is_message t ≡ false
      → has_class 9 t ≡ true
      → dump_text rb hash_pid hash_name garbage t s ≡ dump_trace_pc hash_pid hash_name t s
  unfolding dump_text
  text_pc t s on e c = ground arith

  pub text_fs :
      (t : IoTrace) (s : Dump)
      → s.text_output ≡ true
      → is_message t ≡ false
      → has_class 9 t ≡ false
      → dump_text rb hash_pid hash_name garbage t s
        ≡ dump_trace_fs rb hash_pid hash_name garbage t s
  unfolding dump_text
  text_fs t s on e c = ground arith

  pc_step :
      (t : IoTrace) (s : Dump)
      → Steps
          (is_write t)
          (move (act_of (t.action % 2 ^ 16)) (s.cur_depth (is_write t)))
          s
          (dump_trace_pc hash_pid hash_name t s)
  unfolding dump_trace_pc
  pc_step t s = pc_lem hash_pid hash_name (act_of (t.action % 2 ^ 16)) (is_write t) t s

  fs_step :
      (t : IoTrace) (s : Dump)
      → Steps
          (is_write t)
          (move (act_of (t.action % 2 ^ 16)) (s.cur_depth (is_write t)))
          s
          (dump_trace_fs rb hash_pid hash_name garbage t s)
  unfolding dump_trace_fs
  fs_step t s = fs_lem (act_of (t.action % 2 ^ 16)) (is_write t) t s

  -- The depth of an event's direction moves as its action says, if text is printed.
  pub dump_text_lem :
      (t : IoTrace) (s : Dump)
      → s.text_output ≡ true
      → Steps
          (is_write t)
          (if is_message t
            then s.cur_depth (is_write t)
            else move (act_of (t.action % 2 ^ 16)) (s.cur_depth (is_write t)))
          s
          (dump_text rb hash_pid hash_name garbage t s)
  dump_text_lem t s on = elim (Bool-cases (is_message t)) [
    | inl e ↦ rw (text_message t s on e, e) (message_lem (is_write t) t s)
    | inr e ↦ elim (Bool-cases (has_class 9 t)) [
      | inl c ↦ rw (text_pc t s on e c, e) (pc_step t s)
      | inr c ↦ rw (text_fs t s on e c, e) (fs_step t s)
    ]
  ]

  pub dump_trace_lem :
      (t : IoTrace) (s : Dump)
      → s.text_output ≡ true
      → Steps
          (is_write t)
          (if is_message t
            then s.cur_depth (is_write t)
            else move (act_of (t.action % 2 ^ 16)) (s.cur_depth (is_write t)))
          s
          (dump_trace rb hash_pid hash_name garbage t s)
  unfolding dump_trace
  dump_trace_lem t s on = like (dump_text_lem t s on) refl refl refl
