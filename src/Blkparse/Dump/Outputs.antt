-- ===== src/Blkparse/Dump/Outputs.antt =====
-- What the outputs get of one record: the letter of its line, and the record itself.
use iovisualization.Prelude.{
  ℕ, ◌%◌, ◌^◌, ◌≡◌, refl, sym, ap, ◌∙◌, inl, inr, Bool, true, false, Option, none, some, List, ◌∷◌,
  arith, ◌==◌, if◌then◌else◌, Bool-cases,
}
use mathlib.Core.Path.{subst}
use iovisualization.Prelude.Tree.{RbTree}
use iovisualization.Trace.{IoTrace}
use iovisualization.Blkparse.Track.{IoTrack, is_write, has_class}
use iovisualization.Blkparse.Dump.{
  Act, Letter, letter_r, letter_c, letter_n, Dump, act_of, is_message, counting, tracking,
  log_generic, log_pc, log_elapsed, log_message, depth_down, depth_up, dump_pc_act, dump_trace_pc,
  dump_fs_act, dump_trace_fs, dump_text, dump_trace,
}
use iovisualization.Blkparse.Dump.Letters.{
  pc_letter, fs_letter, letter_of, heads, add_head, add_binary,
}
use iovisualization.Blkparse.Dump.Steps.{text_message, text_pc, text_fs}

-- a line with the letter, if there is one, and nothing else of the outputs
abbrev Printed : Option Letter → IoTrace → Dump → Dump → Type 0
Printed letter t s s' =
    (heads s'.text ≡ add_head letter t (heads s.text))
    × (s'.binary ≡ s.binary)
    × (s'.bin_output_msgs ≡ s.bin_output_msgs)

-- With text printed, the record's line is added, if it has one; and the record itself to the binary output.
pub record Dumped (t : IoTrace) (s s' : Dump) : Type 0 where
  pub heads :
      heads s'.text ≡ add_head (if s.text_output then letter_of t else none) t (heads s.text)
  pub binary : s'.binary ≡ add_binary s.bin_output_msgs t s.binary

abbrev SameOut : Dump → Dump → Type 0
SameOut s s' =
    (s'.text ≡ s.text) × (s'.binary ≡ s.binary) × (s'.bin_output_msgs ≡ s.bin_output_msgs)

down_same : (w : Bool) (s : Dump) → SameOut s (depth_down w s)
unfolding depth_down
down_same w s = elim (Bool-cases (s.cur_depth w == 0)) [
  | inl e ↦ rw e (refl, refl, refl)
  | inr e ↦ rw e (refl, refl, refl)
]

down-Printed :
    (letter : Letter) (w : Bool) (t : IoTrace) (s : Dump)
    → Printed (some letter) t s (log_generic letter t (depth_down w s))
unfolding log_generic
down-Printed letter w t s =
    let (text, binary, switch) = down_same w s in
    (ap (λ l. (letter, t) ∷ heads l) text, binary, switch)

module _ (hash_pid : ℕ → ℕ) (hash_name : List ℕ → ℕ) where
  pc-Printed :
      (a : Act) (w : Bool) (t : IoTrace) (s : Dump)
      → Printed (pc_letter a) t s (dump_pc_act hash_pid hash_name a w t s)
  unfolding dump_pc_act pc_letter counting log_generic log_pc depth_up
  pc-Printed Act.queue w t s = (refl, refl, refl)
  pc-Printed Act.backmerge w t s = (refl, refl, refl)
  pc-Printed Act.frontmerge w t s = (refl, refl, refl)
  pc-Printed Act.getrq w t s = (refl, refl, refl)
  pc-Printed Act.sleeprq w t s = (refl, refl, refl)
  pc-Printed Act.requeue w t s = down-Printed letter_r w t s
  pc-Printed Act.issue w t s = (refl, refl, refl)
  pc-Printed Act.complete w t s = down-Printed letter_c w t s
  pc-Printed Act.plug w t s = (refl, refl, refl)
  pc-Printed Act.unplug_io w t s = (refl, refl, refl)
  pc-Printed Act.unplug_timer w t s = (refl, refl, refl)
  pc-Printed Act.insert w t s = (refl, refl, refl)
  pc-Printed Act.split w t s = (refl, refl, refl)
  pc-Printed Act.bounce w t s = (refl, refl, refl)
  pc-Printed Act.remap w t s = (refl, refl, refl)
  pc-Printed Act.drv_data w t s = (refl, refl, refl)
  pc-Printed Act.other w t s = (refl, refl, refl)

module _ (rb : RbTree IoTrack) (hash_pid : ℕ → ℕ) (hash_name : List ℕ → ℕ) (garbage : IoTrack) where
  fs-Printed :
      (a : Act) (w : Bool) (t : IoTrace) (s : Dump)
      → Printed (fs_letter a) t s (dump_fs_act rb hash_pid hash_name garbage a w t s)
  unfolding dump_fs_act fs_letter counting tracking log_generic log_elapsed depth_up
  fs-Printed Act.queue w t s = (refl, refl, refl)
  fs-Printed Act.backmerge w t s = (refl, refl, refl)
  fs-Printed Act.frontmerge w t s = (refl, refl, refl)
  fs-Printed Act.getrq w t s = (refl, refl, refl)
  fs-Printed Act.sleeprq w t s = (refl, refl, refl)
  fs-Printed Act.requeue w t s = down-Printed letter_r w t s
  fs-Printed Act.issue w t s = (refl, refl, refl)
  fs-Printed Act.complete w t s = down-Printed letter_c w t s
  fs-Printed Act.plug w t s = (refl, refl, refl)
  fs-Printed Act.unplug_io w t s = (refl, refl, refl)
  fs-Printed Act.unplug_timer w t s = (refl, refl, refl)
  fs-Printed Act.insert w t s = (refl, refl, refl)
  fs-Printed Act.split w t s = (refl, refl, refl)
  fs-Printed Act.bounce w t s = (refl, refl, refl)
  fs-Printed Act.remap w t s = (refl, refl, refl)
  fs-Printed Act.drv_data w t s = (refl, refl, refl)
  fs-Printed Act.other w t s = (refl, refl, refl)

  message-Printed :
      (t : IoTrace) (s : Dump)
      → Printed (if t.pdu_len == 0 then none else some letter_n) t s (log_message t s)
  unfolding log_message
  message-Printed t s = elim (Bool-cases (t.pdu_len == 0)) [
    | inl e ↦ rw e (refl, refl, refl)
    | inr e ↦ rw e (refl, refl, refl)
  ]

  pc_text :
      (t : IoTrace) (s : Dump)
      → Printed (pc_letter (act_of (t.action % 2 ^ 16))) t s (dump_trace_pc hash_pid hash_name t s)
  unfolding dump_trace_pc
  pc_text t s = pc-Printed hash_pid hash_name (act_of (t.action % 2 ^ 16)) (is_write t) t s

  fs_text :
      (t : IoTrace) (s : Dump)
      → Printed
          (fs_letter (act_of (t.action % 2 ^ 16)))
          t
          s
          (dump_trace_fs rb hash_pid hash_name garbage t s)
  unfolding dump_trace_fs
  fs_text t s = fs-Printed (act_of (t.action % 2 ^ 16)) (is_write t) t s

  text-Printed :
      (t : IoTrace) (s : Dump)
      → s.text_output ≡ true
      → Printed (letter_of t) t s (dump_text rb hash_pid hash_name garbage t s)
  text-Printed t s on = elim (Bool-cases (is_message t)) [
    | inl e ↦ rw (text_message rb hash_pid hash_name garbage t s on e, e) (message-Printed t s)
    | inr e ↦ elim (Bool-cases (has_class 9 t)) [
      | inl c ↦ rw (text_pc rb hash_pid hash_name garbage t s on e c, e, c) (pc_text t s)
      | inr c ↦ rw (text_fs rb hash_pid hash_name garbage t s on e c, e, c) (fs_text t s)
    ]
  ]

  text_off :
      (t : IoTrace) (s : Dump)
      → s.text_output ≡ false
      → dump_text rb hash_pid hash_name garbage t s ≡ s
  unfolding dump_text
  text_off t s off = ground arith

  unchanged : (t : IoTrace) (s : Dump) → Printed none t s s
  unchanged t s = (refl, refl, refl)

  any-Printed :
      (t : IoTrace) (s : Dump)
      → Printed
          (if s.text_output then letter_of t else none)
          t
          s
          (dump_text rb hash_pid hash_name garbage t s)
  any-Printed t s = elim (Bool-cases s.text_output) [
    | inl on ↦
        subst
          (λ b.
            Printed (if b then letter_of t else none) t s
              (dump_text rb hash_pid hash_name garbage t s))
          (sym on) (text-Printed t s on)
    | inr off ↦
        subst
          (λ b.
            Printed (if b then letter_of t else none) t s
              (dump_text rb hash_pid hash_name garbage t s))
          (sym off) (subst (Printed none t s) (sym (text_off t s off)) (unchanged t s))
  ]

  -- what `dump_trace` does to the outputs
  pub dump_trace-Dumped :
      (t : IoTrace) (s : Dump) → Dumped t s (dump_trace rb hash_pid hash_name garbage t s)
  unfolding dump_trace
  dump_trace-Dumped t s =
      let p = any-Printed t s in
      record {
        heads = p.0;
        binary =
            ap (λ b. add_binary b t (dump_text rb hash_pid hash_name garbage t s).binary) p.2
            ∙ ap (add_binary s.bin_output_msgs t) p.1;
      }
