-- ===== src/Blkparse/Entries.antt =====
-- server-proto/blkparse.c, lines 371 to 406 and 1967 to 2009: the devices, and the records that were read put into
-- the tree by time.
pub mod Genesis
pub mod Kept
pub mod Tests
use iovisualization.Prelude.{
  ℕ, suc, ◌||◌, Option, none, some, List, [], ◌∷◌, ltb, ◌==◌, if◌then◌else◌, set, get_or, add64,
  sub64,
}
use iovisualization.Prelude.Tree.{Tree, RbTree}
use iovisualization.Trace.{IoTrace}
use iovisualization.Blkparse.Sort.{Tr, trace_rb_insert, check_stopwatch, find_genesis}
use iovisualization.Blkparse.Sort.Last.{PerCpu, PerDev, get_cpu_info, cpu_at, at_cpu}

-- What `sort_entries` reads and changes of the globals.
pub record Entries : Type 0 where
  pub devices : List PerDev
  pub rb_sort_root : Tree Tr
  pub rb_sort_entries : ℕ
  pub genesis_time : ℕ
  pub stopwatch_start : ℕ
  pub stopwatch_end : ℕ

-- `get_dev_info`: the index of the device, and the devices, one of which may be new
unfoldable pub get_dev_info : List PerDev → ℕ → ℕ × List PerDev
get_dev_info [] dev = (0, record { dev = dev; nfiles = 0; cpus = [] } ∷ [])
get_dev_info (pdi ∷ devices) dev =
    let (i, rest) = get_dev_info devices dev in
    let named = if pdi.dev == 0 then record pdi { dev = dev } else pdi in
    if named.dev == dev then (0, named ∷ devices) else (suc i, named ∷ rest)

-- the device behind an index, and a write to it
abbrev pub no_dev : PerDev
no_dev = record { dev = 0; nfiles = 0; cpus = [] }

unfoldable pub at_dev : List PerDev → ℕ → (PerDev → PerDev) → List PerDev
at_dev devices i f = set devices i (f (get_or devices i no_dev))

-- the local variables of `sort_entries`: `pdi` and `pci` as indices, `none` where they are NULL
pub record Local : Type 0 where
  pub pdi : Option ℕ
  pub pci : Option ℕ
  pub youngest : ℕ

-- the device of a record, which is looked up when it is not the last one's
unfoldable pub device_of : List PerDev → Local → IoTrace → ℕ × Option ℕ × List PerDev
device_of devices v bit =
    let (i, devices') = get_dev_info devices bit.device in
    elim v.pdi [
      | none ↦ (i, none, devices')
      | some j ↦
          if (get_or devices j no_dev).dev == bit.device
          then (j, v.pci, devices)
          else (i, none, devices')
    ]

-- the processor of a record in its device, which is looked up when it is not the last one's
unfoldable pub cpu_of : PerDev → Option ℕ → IoTrace → PerDev
cpu_of pdi pci bit = elim pci [
  | none ↦ get_cpu_info pdi bit.cpu
  | some c ↦ if (cpu_at pdi c).cpu == bit.cpu then pdi else get_cpu_info pdi bit.cpu
]

unfoldable pub see_sequence : ℕ → PerCpu → PerCpu
see_sequence sequence pci =
    if ltb sequence pci.smallest_seq_read then record pci { smallest_seq_read = sequence } else pci

module _ (rb : RbTree Tr) where
  unfoldable pub trace_rb_insert_sort : Tr → Entries → Entries
  trace_rb_insert_sort t s = record s {
    rb_sort_root = trace_rb_insert rb t s.rb_sort_root;
    rb_sort_entries = add64 s.rb_sort_entries 1;
  }

  -- the body of the loop
  unfoldable pub sort_entry : Tr → Entries × Local → Entries × Local
  sort_entry t (s, v) =
      let bit = record t.bit { time = sub64 t.bit.time s.genesis_time } in
      let youngest = if ltb bit.time v.youngest || v.youngest == 0 then bit.time else v.youngest in
      let (i, pci, devices) = device_of s.devices v bit in
      let seen =
        at_dev devices i (λ pdi. at_cpu (cpu_of pdi pci bit) bit.cpu (see_sequence bit.sequence)) in
      let v' : Local = record { pdi = some i; pci = some bit.cpu; youngest = youngest } in
      let s' : Entries = record s { devices = seen } in
      if check_stopwatch s.stopwatch_start s.stopwatch_end bit == 1
      then (s', v')
      else (trace_rb_insert_sort (record t { bit = bit }) s', v')

  unfoldable pub sort_loop : List Tr → Entries × Local → Entries × Local
  sort_loop [] sv = sv
  sort_loop (t ∷ trace_list) sv = sort_loop trace_list (sort_entry t sv)

  -- with the records of `trace_list`; the result is the youngest time
  unfoldable pub sort_entries : List Tr → Entries → ℕ × Entries
  sort_entries trace_list s =
      let genesis = if s.genesis_time == 0 then find_genesis trace_list else s.genesis_time in
      let (s', v) =
        sort_loop trace_list
          (record s { genesis_time = genesis }, record { pdi = none; pci = none; youngest = 0 }) in
      (v.youngest, s')
