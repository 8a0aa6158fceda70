-- ===== src/Blkparse/Sequence.antt =====
-- server-proto/blkparse.c, lines 905 to 910 and 2052 to 2099: may the next record be shown, and which sequence
-- numbers are lacking before it.
pub mod Gap
pub mod Tests
use iovisualization.Prelude.{
  ℕ, ◌+◌, Bool, not, Option, none, some, ltb, ◌==◌, if◌then◌else◌, add64, sub64,
}
use iovisualization.Prelude.Tree.{Tree, leaf, node, size, RbTree}
use iovisualization.Blkparse.Skips.{insert_skip, check_current_skips}
use iovisualization.Blkparse.Sort.{Tr, trace_rb_find}
use iovisualization.Blkparse.Sort.Last.{
  PerCpu, PerDev, get_cpu_info, cpu_at, at_cpu, put_trace_last,
}
use iovisualization.Blkparse.CpuMap.{CpuMap, check_cpu_map}

-- the place of the record that `trace_rb_find` returns, in the order of the tree
unfoldable pub place_found : ℕ → ℕ → Tree Tr → ℕ
place_found device sequence leaf = 0
place_found device sequence (node l x r) =
    let left = place_found device sequence l in
    let right = size l + 1 + place_found device sequence r in
    if ltb device x.bit.device
    then left
    else if ltb x.bit.device device
    then right
    else if ltb sequence x.bit.sequence
    then left
    else if ltb x.bit.sequence sequence
    then right
    else size l

unfoldable pub trace_rb_find_last : PerDev → PerCpu → ℕ → Option Tr
trace_rb_find_last pdi pci seq = trace_rb_find pdi.dev seq pci.rb_last

-- the part behind the label `skip`
unfoldable pub note_skip : ℕ → ℕ → PerCpu → PerCpu
note_skip expected_sequence sequence pci =
    let (found, skips) = check_current_skips pci.skips sequence in
    if found
    then record pci { skips = skips }
    else if ltb expected_sequence sequence
    then record pci { skips = insert_skip skips expected_sequence (sub64 sequence 1) }
    else record pci { skips = skips }

module _ (rb : RbTree Tr) (garbage : ℕ → Bool) (rb_sort_root : Tree Tr) (map : CpuMap) where
  -- 1 is that the record must wait
  unfoldable pub check_sequence : PerDev → Tr → Bool → ℕ × PerDev
  check_sequence pdi t force =
      let found = get_cpu_info pdi t.bit.cpu in
      let pci = cpu_at found t.bit.cpu in
      let expected = add64 pci.last_sequence 1 in
      let noted = at_cpu found t.bit.cpu (note_skip expected t.bit.sequence) in
      if expected == 0
      then (if t.bit.sequence == 1
          then (0, found)
          else if t.bit.sequence == pci.smallest_seq_read
          then (0, found)
          else (check_cpu_map garbage rb_sort_root map, found))
      else if t.bit.sequence == expected
      then (0, found)
      else if ltb expected pci.smallest_seq_read
      then elim (trace_rb_find_last found pci expected) [
        | none ↦ (0, noted)
        | some last ↦ (0, put_trace_last rb found last (place_found found.dev expected pci.rb_last))
      ]
      else if not force
      then (1, found)
      else (0, noted)
