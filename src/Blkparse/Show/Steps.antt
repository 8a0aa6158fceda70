-- ===== src/Blkparse/Show/Steps.antt =====
-- What one round does to the tree of records.
use iovisualization.Prelude.{
  ℕ, ◌≡◌, refl, ap, ◌∙◌, inl, inr, Bool, true, false, ◌&&◌, ◌||◌, not, Option, some, List, [], ◌∷◌,
  ltb, ◌==◌, if◌then◌else◌, Bool-cases, get_or, sub64,
}
use iovisualization.Prelude.Tree.{RbTree}
use iovisualization.Blkparse.Sort.{Tr}
use iovisualization.Blkparse.Dump.Outputs.{dump_trace-Dumped}
use iovisualization.Blkparse.Show.Outs.{Printed, SameOptions, Printed-from}
use iovisualization.Blkparse.Sort.Last.{PerDev, at_cpu}
use iovisualization.Blkparse.Track.{IoTrack}
use iovisualization.Blkparse.Sequence.{check_sequence}
use iovisualization.Blkparse.Dump.{is_message}
use iovisualization.Blkparse.Entries.{Local, no_dev, device_of, cpu_of}
use iovisualization.Blkparse.Show.{
  pass_cpu, Shown, load_dump, store_dump, check_time, on_dev, is_masked_in, put_trace, show_entry,
  show_round,
}

-- the tree and its count are those of `s`, and nothing was printed
pub record SameTree (s s' : Shown) : Type 0 where
  pub root : s'.entries.rb_sort_root ≡ s.entries.rb_sort_root
  pub entries : s'.entries.rb_sort_entries ≡ s.entries.rb_sort_entries
  pub text : s'.text ≡ s.text
  pub binary : s'.binary ≡ s.binary
  pub options : SameOptions s s'

-- the record, the first, was printed and taken out of the tree
pub record Taken (rb : RbTree Tr) (t : Tr) (s s' : Shown) : Type 0 where
  pub root : s'.entries.rb_sort_root ≡ rb.erase s.entries.rb_sort_root 0
  pub entries : s'.entries.rb_sort_entries ≡ sub64 s.entries.rb_sort_entries 1
  pub printed : Printed s (t ∷ []) s'
  pub options : SameOptions s s'

same_options : (s : Shown) → SameOptions s s
same_options s = record {
  act_mask = refl;
  text_output = refl;
  bin_output_msgs = refl;
  pipeline = refl;
  read_sequence = refl;
  last_allowed_time = refl;
  maps = refl;
}

pub unchanged : (s : Shown) → SameTree s s
unchanged s = record {
  root = refl;
  entries = refl;
  text = refl;
  binary = refl;
  options = same_options s;
}

-- Why the first record is not shown yet: the program was stopped, the record is of the last
-- reading, its number has to wait for others, or its time is later than is allowed.
pub record Held (rb : RbTree Tr) (garbage_map : ℕ → Bool) (is_done force : Bool) (t : Tr)
    (s : Shown) (v : Local) : Type 0 where
  pub reason :
      let (i, pci, devices) = device_of s.entries.devices v t.bit in
      (is_done && not force && not s.pipeline
        || (sub64 s.read_sequence t.read_sequence == 0 && not force)
        || (not (is_message t.bit)
            && not (
                (check_sequence rb garbage_map s.entries.rb_sort_root
                  (s.maps i)
                  (get_or devices i no_dev)
                  t
                  force).0
                == 0))
        || (not force && ltb s.last_allowed_time t.bit.time))
      ≡ true

module _ (rb : RbTree Tr) (rb' : RbTree IoTrack) (hash_pid : ℕ → ℕ) (hash_name : List ℕ → ℕ)
    (garbage : IoTrack) (garbage_map : ℕ → Bool) where
  show_entry-Taken :
      (i : ℕ) (pci : Option ℕ) (t : Tr) (s : Shown)
      → Taken rb t s (show_entry rb rb' hash_pid hash_name garbage garbage_map i pci t s)
  unfolding show_entry put_trace on_dev check_time store_dump load_dump
  show_entry-Taken i pci t s =
      let out = dump_trace-Dumped rb' hash_pid hash_name garbage t.bit (
        load_dump
          (on_dev i (λ pdi. at_cpu (cpu_of pdi pci t.bit) t.bit.cpu (pass_cpu t.bit))
            (check_time i t.bit s))
          i t.bit.cpu) in
      elim (Bool-cases (is_masked_in s.act_mask t.bit)) [
        | inl e ↦ rw e (record {
          root = refl;
          entries = refl;
          printed = record { lines = rw e out.heads; records = rw e out.binary };
          options = record {
            act_mask = refl;
            text_output = refl;
            bin_output_msgs = refl;
            pipeline = refl;
            read_sequence = refl;
            last_allowed_time = refl;
            maps = refl;
          };
        })
        | inr e ↦ rw e (record {
          root = refl;
          entries = refl;
          printed = record { lines = rw e refl; records = rw e refl };
          options = record {
            act_mask = refl;
            text_output = refl;
            bin_output_msgs = refl;
            pipeline = refl;
            read_sequence = refl;
            last_allowed_time = refl;
            maps = refl;
          };
        })
      ]

  kept_then_erased :
      (t : Tr) (s s' s'' : Shown) → SameTree s s' → Taken rb t s' s'' → Taken rb t s s''
  kept_then_erased t s s' s'' same taken = record {
    root = taken.root ∙ ap (λ root. rb.erase root 0) same.root;
    entries = taken.entries ∙ ap (λ n. sub64 n 1) same.entries;
    printed = Printed-from (t ∷ []) s s' s'' same.text same.binary same.options taken.printed;
    options = record {
      act_mask = taken.options.act_mask ∙ same.options.act_mask;
      text_output = taken.options.text_output ∙ same.options.text_output;
      bin_output_msgs = taken.options.bin_output_msgs ∙ same.options.bin_output_msgs;
      pipeline = taken.options.pipeline ∙ same.options.pipeline;
      read_sequence = taken.options.read_sequence ∙ same.options.read_sequence;
      last_allowed_time = taken.options.last_allowed_time ∙ same.options.last_allowed_time;
      maps = taken.options.maps ∙ same.options.maps;
    };
  }

  -- A round that goes on prints the first record and takes it out of the tree, and one that does not leaves
  -- the tree and the outputs as they are.
  abbrev pub Round : Bool → Bool → Tr → Shown → Local → Bool × Shown × Local → Type 0
  Round is_done force t s v (again, s', v') =
      (again ≡ true → Taken rb t s s')
      × (again ≡ false → SameTree s s' × Held rb garbage_map is_done force t s v)

  abbrev Decided : Tr → Shown → Bool → Bool × Shown × Local → Type 0
  Decided t s held (again, s', v') =
      (again ≡ true → Taken rb t s s') × (again ≡ false → SameTree s s' × (held ≡ true))

  checked_same :
      (b : Bool) (i : ℕ) (pdi : PerDev) (s found : Shown)
      → SameTree s found
      → SameTree s (if b then found else on_dev i (λ pdi'. pdi) found)
  unfolding on_dev
  checked_same true i pdi s found h = h
  checked_same false i pdi s found h = record {
    root = h.root;
    entries = h.entries;
    text = h.text;
    binary = h.binary;
    options = record {
      act_mask = h.options.act_mask;
      text_output = h.options.text_output;
      bin_output_msgs = h.options.bin_output_msgs;
      pipeline = h.options.pipeline;
      read_sequence = h.options.read_sequence;
      last_allowed_time = h.options.last_allowed_time;
      maps = h.options.maps;
    };
  }

  by_stops :
      (t : Tr) (s stop s' : Shown) (v v' : Local) (a b c d : Bool)
      → SameTree s stop
      → Taken rb t s s'
      → Decided t s (a || b || c || d) (
          if a
          then (false, s, v)
          else if b
          then (false, s, v)
          else if c
          then (false, stop, v)
          else if d
          then (false, stop, v)
          else (true, s', v'))
  by_stops t s stop s' v v' true b c d h k = (λ e. cc, λ e. (unchanged s, refl))
  by_stops t s stop s' v v' false true c d h k = (λ e. cc, λ e. (unchanged s, refl))
  by_stops t s stop s' v v' false false true d h k = (λ e. cc, λ e. (h, refl))
  by_stops t s stop s' v v' false false false true h k = (λ e. cc, λ e. (h, refl))
  by_stops t s stop s' v v' false false false false h k = (λ e. k, λ e. cc)

  pub show_round_lem :
      (is_done force : Bool) (t : Tr) (s : Shown) (v : Local)
      → Round is_done force t s v
          (show_round rb rb' hash_pid hash_name garbage garbage_map is_done force t (s, v))
  unfolding show_round
  show_round_lem is_done force t s v =
      let (i, pci, devices) = device_of s.entries.devices v t.bit in
      let found : Shown = record s { entries = record s.entries { devices = devices } } in
      let (waits, pdi) =
        check_sequence rb garbage_map s.entries.rb_sort_root (s.maps i) (get_or devices i no_dev) t
          force in
      let stop : Shown = if is_message t.bit then found else on_dev i (λ pdi'. pdi) found in
      let h : SameTree s stop = checked_same (is_message t.bit) i pdi s found (record {
        root = refl;
        entries = refl;
        text = refl;
        binary = refl;
        options = record {
          act_mask = refl;
          text_output = refl;
          bin_output_msgs = refl;
          pipeline = refl;
          read_sequence = refl;
          last_allowed_time = refl;
          maps = refl;
        };
      }) in
      let decided =
        by_stops t s stop _ v (record v { pdi = some i; pci = some t.bit.cpu })
          (is_done && not force && not s.pipeline)
          (sub64 s.read_sequence t.read_sequence == 0 && not force)
          (not (is_message t.bit) && not (waits == 0))
          (not force && ltb s.last_allowed_time t.bit.time) h
          (kept_then_erased t s stop _ h (show_entry-Taken i pci t stop)) in
      (decided.0, λ e. let (same, held) = decided.1 e in (same, record { reason = held }))
