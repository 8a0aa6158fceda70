-- ===== src/Blkparse/Sort/Last.antt =====
-- server-proto/blkparse.c, lines 321 to 370, 780 to 797 and 838 to 857: the processors of a device, and the records that
-- were shown last for each of them. Processor numbers are below 2^31.
use iovisualization.Prelude.{
  ℕ, ◌+◌, ◌-◌, ◌*◌, ◌%◌, ◌^◌, Option, none, some, List, [], ◌∷◌, ◌++◌, leb, ltb, ◌==◌,
  if◌then◌else◌, length, set, get_or, replicate, u64_max, add64, sub64,
}
use iovisualization.Prelude.Tree.{Tree, leaf, node, RbTree}
use iovisualization.Blkparse.Skips.{Skip}
use iovisualization.Blkparse.Sort.{Tr, trace_rb_insert}

-- `struct per_cpu_info`, less its counters and names. `fd` has 32 bits: -1 is 2^32 - 1.
pub record PerCpu : Type 0 where
  pub cpu : ℕ
  pub nelems : ℕ
  pub fd : ℕ
  pub rb_last : Tree Tr
  pub rb_last_entries : ℕ
  pub last_sequence : ℕ
  pub smallest_seq_read : ℕ
  pub skips : List Skip

-- What the functions read and change of `struct per_dev_info`; `ncpus` is the length of `cpus`.
pub record PerDev : Type 0 where
  pub dev : ℕ
  pub nfiles : ℕ
  pub cpus : List PerCpu

-- cleared memory
abbrev pub no_cpu : PerCpu
no_cpu = record {
  cpu = 0;
  nelems = 0;
  fd = 0;
  rb_last = leaf;
  rb_last_entries = 0;
  last_sequence = 0;
  smallest_seq_read = 0;
  skips = [];
}

-- the body of the loop of `resize_cpu_info`
unfoldable pub init_cpu : PerCpu → PerCpu
init_cpu pci =
    if pci.fd == 0
    then record pci {
      fd = 2 ^ 32 - 1;
      rb_last = leaf;
      rb_last_entries = 0;
      last_sequence = u64_max;
    }
    else pci

-- its loop
abbrev pub init_cpus : List PerCpu → List PerCpu
init_cpus [] = []
init_cpus (pci ∷ cpus) = init_cpu pci ∷ init_cpus cpus

unfoldable pub resize_cpu_info : PerDev → ℕ → PerDev
resize_cpu_info pdi cpu = record pdi {
  cpus = init_cpus (pdi.cpus ++ replicate (cpu + 1 - length pdi.cpus) no_cpu);
}

-- The result is the device; the pointer returned is to its processor `cpu`.
unfoldable pub get_cpu_info : PerDev → ℕ → PerDev
get_cpu_info pdi cpu =
    let grown = if leb (length pdi.cpus) cpu then resize_cpu_info pdi cpu else pdi in
    record grown { cpus = set grown.cpus cpu (record (get_or grown.cpus cpu no_cpu) { cpu = cpu }) }

-- what the pointer shows, and a write through it
abbrev pub cpu_at : PerDev → ℕ → PerCpu
cpu_at pdi cpu = get_or pdi.cpus cpu no_cpu

unfoldable pub at_cpu : PerDev → ℕ → (PerCpu → PerCpu) → PerDev
at_cpu pdi cpu f = record pdi { cpus = set pdi.cpus cpu (f (cpu_at pdi cpu)) }

-- `rb_first`
abbrev pub rb_first : Tree Tr → Option Tr
rb_first leaf = none
rb_first (node l x r) = elim (rb_first l) [ none ↦ some x | some y ↦ some y ]

module _ (rb : RbTree Tr) where
  -- `__put_trace_last`, for the record with place `i` in its processor's tree
  unfoldable pub put_trace_last : PerDev → Tr → ℕ → PerDev
  put_trace_last pdi t i = at_cpu (get_cpu_info pdi t.bit.cpu) t.bit.cpu (λ pci. record pci {
    rb_last = rb.erase pci.rb_last i;
    rb_last_entries = sub64 pci.rb_last_entries 1;
  })

module _ (rb : RbTree Tr) (rb_batch : ℕ) where
  unfoldable pub trace_rb_insert_last : PerDev → Tr → PerDev
  trace_rb_insert_last pdi t =
      let added = at_cpu (get_cpu_info pdi t.bit.cpu) t.bit.cpu (λ pci. record pci {
        rb_last = trace_rb_insert rb t pci.rb_last;
        rb_last_entries = add64 pci.rb_last_entries 1;
      }) in
      let pci = cpu_at added t.bit.cpu in
      if ltb (rb_batch * added.nfiles % 2 ^ 32) pci.rb_last_entries
      then elim (rb_first pci.rb_last) [
        | none ↦ added
        | some oldest ↦ put_trace_last rb added oldest 0
      ]
      else added
