-- ===== src/Blkparse/Show/All.antt =====
-- The last run, with `force`.
use iovisualization.Prelude.{
  ℕ, zero, suc, ◌+◌, ◌<◌, ◌≡◌, refl, ap, ◌∙◌, inl, inr, Bool, true, false, ◌&&◌, not, Option, none,
  some, List, [], ◌∷◌, arith, ltb, ◌==◌, if◌then◌else◌, Bool-cases, Option-cases, length, get_or,
  add64, sub64,
}
use iovisualization.Prelude.Tree.{Tree, inorder, RbTree, erase_idx}
use iovisualization.Blkparse.Sort.{Tr}
use iovisualization.Blkparse.Sort.Last.{PerDev, get_cpu_info, cpu_at, rb_first}
use iovisualization.Blkparse.Sort.Slide.{head?, head?-inorder}
use iovisualization.Blkparse.CpuMap.{CpuMap, check_cpu_map}
use iovisualization.Blkparse.Track.{IoTrack}
use iovisualization.Blkparse.Sequence.{trace_rb_find_last, check_sequence}
use iovisualization.Blkparse.Dump.{is_message}
use iovisualization.Blkparse.Entries.{Local, no_dev, device_of}
use iovisualization.Blkparse.Show.{
  Shown, store_dump, check_time, on_dev, is_masked_in, put_trace, show_entry, show_round, show_loop,
  show_entries_rb,
}
use iovisualization.Blkparse.Show.Steps.{show_round_lem}
use iovisualization.Blkparse.Show.Outs.{Printed, Printed-cons}

-- `check_cpu_map` finds no processor lacking, whatever records the tree holds
abbrev pub NoneLacks : (ℕ → Bool) → (ℕ → CpuMap) → Type 0
NoneLacks garbage_map maps = (i : ℕ) (root : Tree Tr) → check_cpu_map garbage_map root (maps i) ≡ 0

module _ (rb : RbTree Tr) (garbage_map : ℕ → Bool) where
  forced_first :
      (root : Tree Tr) (map : CpuMap) (pdi : PerDev) (t : Tr)
      → check_cpu_map garbage_map root map ≡ 0
      → (check_sequence rb garbage_map root map pdi t true).0 ≡ 0
  unfolding check_sequence
  forced_first root map pdi t h =
      let pci = cpu_at (get_cpu_info pdi t.bit.cpu) t.bit.cpu in
      let expected = add64 pci.last_sequence 1 in
      elim (Bool-cases (expected == 0)) [
        | inl e ↦ elim (Bool-cases (t.bit.sequence == 1)) [
          | inl f ↦ rw (e, f) refl
          | inr f ↦ elim (Bool-cases (t.bit.sequence == pci.smallest_seq_read)) [
            | inl g ↦ rw (e, f, g) refl
            | inr g ↦ rw (e, f, g) h
          ]
        ]
        | inr e ↦ elim (Bool-cases (t.bit.sequence == expected)) [
          | inl f ↦ rw (e, f) refl
          | inr f ↦ elim (Bool-cases (ltb expected pci.smallest_seq_read)) [
            | inl g ↦
                elim (Option-cases (trace_rb_find_last (get_cpu_info pdi t.bit.cpu) pci expected)) [
                  | inl k ↦ rw (e, f, g, k) refl
                  | inr (last, k) ↦ rw (e, f, g, k) refl
                ]
            | inr g ↦ rw (e, f, g) refl
          ]
        ]
      ]

cleared : (a b : Bool) → (a && not true && b) ≡ false
cleared a b = ground arith

never : (a : Bool) → (a && not true) ≡ false
never a = ground arith

passes : (a : Bool) (n : ℕ) → n ≡ 0 → (a && not (n == 0)) ≡ false
passes a n e = ground (arith, e)

module _ (rb : RbTree Tr) (rb' : RbTree IoTrack) (hash_pid : ℕ → ℕ) (hash_name : List ℕ → ℕ)
    (garbage : IoTrack) (garbage_map : ℕ → Bool) where
  -- the round goes on, and leaves the maps as they are
  abbrev GoesOn : Shown → Bool × Shown × Local → Type 0
  GoesOn s (again, s', v') = (again ≡ true) × (s'.maps ≡ s.maps)

  entry_maps :
      (i : ℕ) (pci : Option ℕ) (t : Tr) (s : Shown)
      → (show_entry rb rb' hash_pid hash_name garbage garbage_map i pci t s).maps ≡ s.maps
  unfolding show_entry put_trace on_dev check_time store_dump
  entry_maps i pci t s = elim (Bool-cases (is_masked_in s.act_mask t.bit)) [
    | inl e ↦ rw e refl
    | inr e ↦ rw e refl
  ]

  checked_maps :
      (b : Bool) (i : ℕ) (pdi : PerDev) (found : Shown)
      → (if b then found else on_dev i (λ pdi'. pdi) found).maps ≡ found.maps
  unfolding on_dev
  checked_maps true i pdi found = refl
  checked_maps false i pdi found = refl

  going_on :
      (s stop s' : Shown) (v v' : Local) (a b c d : Bool)
      → a ≡ false
      → b ≡ false
      → c ≡ false
      → d ≡ false
      → s'.maps ≡ s.maps
      → GoesOn s (
          if a
          then (false, s, v)
          else if b
          then (false, s, v)
          else if c
          then (false, stop, v)
          else if d
          then (false, stop, v)
          else (true, s', v'))
  going_on s stop s' v v' a b c d e f g h same = rw (e, f, g, h) (refl, same)

  show_round-GoesOn :
      (is_done : Bool) (t : Tr) (s : Shown) (v : Local)
      → NoneLacks garbage_map s.maps
      → GoesOn s (show_round rb rb' hash_pid hash_name garbage garbage_map is_done true t (s, v))
  unfolding show_round
  show_round-GoesOn is_done t s v h =
      let (i, pci, devices) = device_of s.entries.devices v t.bit in
      let found : Shown = record s { entries = record s.entries { devices = devices } } in
      let checked =
        check_sequence rb garbage_map s.entries.rb_sort_root (s.maps i) (get_or devices i no_dev) t
          true in
      let stop : Shown = if is_message t.bit then found else on_dev i (λ pdi'. checked.1) found in
      let first =
        forced_first rb garbage_map s.entries.rb_sort_root (s.maps i) (get_or devices i no_dev) t
          (h i s.entries.rb_sort_root) in
      going_on s stop _ v (record v { pdi = some i; pci = some t.bit.cpu })
        (is_done && not true && not s.pipeline)
        (sub64 s.read_sequence t.read_sequence == 0 && not true)
        (not (is_message t.bit) && not (checked.0 == 0))
        (not true && ltb s.last_allowed_time t.bit.time) (cleared is_done (not s.pipeline))
        (never (sub64 s.read_sequence t.read_sequence == 0))
        (passes (not (is_message t.bit)) checked.0 first) refl
        (entry_maps i pci t stop ∙ checked_maps (is_message t.bit) i checked.1 found)

  module _ (is_done : ℕ → Bool) where
    abbrev loop : ℕ → Shown × Local → Option Shown
    loop fuel sv = show_loop rb rb' hash_pid hash_name garbage garbage_map fuel is_done true sv

    when_empty :
        (fuel : ℕ) (s : Shown) (v : Local)
        → rb_first s.entries.rb_sort_root ≡ none
        → loop (suc fuel) (s, v) ≡ some s
    unfolding show_loop
    when_empty fuel s v e = rw (show_loop, e) refl

    when_first :
        (fuel : ℕ) (s : Shown) (v : Local) (t : Tr) (s' : Shown) (v' : Local)
        → rb_first s.entries.rb_sort_root ≡ some t
        → show_round rb rb' hash_pid hash_name garbage garbage_map (is_done fuel) true t (s, v)
          ≡ (true, s', v')
        → loop (suc fuel) (s, v) ≡ loop fuel (s', v')
    unfolding show_loop
    when_first fuel s v t s' v' e h = rw (show_loop, e, h) refl

    all_shown :
        (fuel : ℕ) (s : Shown) (v : Local) (xs : List Tr)
        → NoneLacks garbage_map s.maps
        → inorder s.entries.rb_sort_root ≡ xs
        → length xs < fuel
        → (s' : Shown) × (loop fuel (s, v) ≡ some s')
          × (inorder s'.entries.rb_sort_root ≡ [])
          × Printed s xs s'
    all_shown zero s v xs n e h = absurd (omega arith)
    all_shown (suc fuel) s v [] n e h = (
      s,
      when_empty fuel s v (head?-inorder s.entries.rb_sort_root ∙ ap head? e),
      e,
      record { lines = refl; records = refl },
    )
    all_shown (suc fuel) s v (t ∷ xs) n e h =
        let out =
          show_round rb rb' hash_pid hash_name garbage garbage_map (is_done fuel) true t (s, v) in
        let (go, same) = show_round-GoesOn (is_done fuel) t s v n in
        let taken =
          (show_round_lem rb rb' hash_pid hash_name garbage garbage_map (is_done fuel) true t s v).0
            go in
        let rest : inorder out.1.entries.rb_sort_root ≡ xs =
          ap inorder taken.root
          ∙ rb.inorder-erase s.entries.rb_sort_root 0
          ∙ ap (λ ys. erase_idx ys 0) e in
        let next : NoneLacks garbage_map out.1.maps = λ i root.
          ap (λ (maps : ℕ → CpuMap). check_cpu_map garbage_map root (maps i)) same ∙ n i root in
        let (s', run, empty, printed) = all_shown fuel out.1 out.2 xs next rest (omega arith) in
        (
          s',
          when_first fuel s v t out.1 out.2 (head?-inorder s.entries.rb_sort_root ∙ ap head? e)
                (ap (λ again. (again, out.1, out.2)) go)
              ∙ run,
          empty,
          Printed-cons t xs s out.1 s' taken.options taken.printed printed,
        )

    -- On the last run, if `check_cpu_map` finds no processor lacking, whatever the tree: the loop ends with
    -- no record left in the tree, whatever sequence numbers are lacking. The records of the tree that
    -- the mask of actions lets through, and no others, were printed, in the tree's order: with text output,
    -- each whose action has a line got it, kept as its letter and the record, and the binary output
    -- got each, but for the messages if the option holds them back.
    pub show_entries_rb-all :
        (s : Shown)
        → NoneLacks garbage_map s.maps
        → (s' : Shown) × (show_entries_rb rb rb' hash_pid hash_name garbage garbage_map is_done true
              s
            ≡ some s')
          × (inorder s'.entries.rb_sort_root ≡ [])
          × Printed s (inorder s.entries.rb_sort_root) s'
    unfolding show_entries_rb
    show_entries_rb-all s n =
        all_shown (length (inorder s.entries.rb_sort_root) + 1) s
          (record { pdi = none; pci = none; youngest = 0 }) (inorder s.entries.rb_sort_root) n refl
          (omega arith)
