-- ===== src/Blkparse/Sequence/Gap.antt =====
-- A gap in a processor's sequence numbers.
use iovisualization.Prelude.{
  ℕ, ◌^◌, ◌<◌, ◌≡◌, refl, ap, ◌∙◌, Bool, true, false, ◌&&◌, ◌||◌, not, arith, leb, ltb, ◌==◌,
  if◌then◌else◌, add64, sub64,
}
use iovisualization.Prelude.Tree.{Tree, RbTree}
use iovisualization.Blkparse.Skips.{insert_skip, check_current_skips}
use iovisualization.Blkparse.Skips.Cover.{covered, AllRange, covered-insert_skip}
use iovisualization.Blkparse.Skips.Check.{check-covered}
use iovisualization.Blkparse.Sort.{Tr}
use iovisualization.Blkparse.Sort.Last.{PerCpu, PerDev, get_cpu_info, cpu_at, at_cpu}
use iovisualization.Blkparse.Sort.Slots.{get_cpu_info_has}
use iovisualization.Blkparse.Sort.Slide.{at_cpu_self}
use iovisualization.Blkparse.CpuMap.{CpuMap}
use iovisualization.Blkparse.Sequence.{note_skip, check_sequence}

note_skip_new :
    (expected sequence : ℕ) (pci : PerCpu)
    → (check_current_skips pci.skips sequence).0 ≡ false
    → (check_current_skips pci.skips sequence).1 ≡ pci.skips
    → expected < sequence
    → (note_skip expected sequence pci).skips ≡ insert_skip pci.skips expected (sub64 sequence 1)
unfolding note_skip
note_skip_new expected sequence pci e s h =
    let lt : ltb expected sequence ≡ true = ground (arith, h) in
    rw (e, lt) (ap (λ skips. insert_skip skips expected (sub64 sequence 1)) s)

up_to : (n m : ℕ) → 0 < m → m < 2 ^ 32 → leb n (sub64 m 1) ≡ ltb n m
up_to n m h k = ground (arith, h, k)

note_skip_lem :
    (expected sequence : ℕ) (pci : PerCpu)
    → AllRange pci.skips
    → 0 < expected
    → expected < sequence
    → sequence < 2 ^ 32
    → covered pci.skips sequence ≡ false
    → (n : ℕ)
    → covered (note_skip expected sequence pci).skips n
      ≡ ((leb expected n && ltb n sequence) || covered pci.skips n)
note_skip_lem expected sequence pci v lo h hi free n =
    let (found, same) = check-covered pci.skips sequence in
    rw (note_skip_new expected sequence pci (found ∙ free) (same free) h) (
      covered-insert_skip expected (sub64 sequence 1) lo (omega (arith, h, hi))
        (omega (arith, h, hi)) pci.skips n v
      ∙ ap (λ b. (leb expected n && b) || covered pci.skips n)
          (up_to n sequence (omega (arith, h)) hi))

by_force :
    {A : Type 0} (a b : A) (force : Bool) → (if not force then a else b) ≡ (if force then b else a)
by_force a b true = refl
by_force a b false = refl

module _ (rb : RbTree Tr) (garbage : ℕ → Bool) (root : Tree Tr) (map : CpuMap) where
  forced_or_not :
      (pdi : PerDev) (t : Tr) (force : Bool)
      → let found = get_cpu_info pdi t.bit.cpu in
        let pci = cpu_at found t.bit.cpu in
        pci.smallest_seq_read ≡ 0
        → add64 pci.last_sequence 1 < t.bit.sequence
        → 0 < add64 pci.last_sequence 1
        → check_sequence rb garbage root map pdi t force ≡ (
            if force
            then (0, at_cpu found t.bit.cpu (note_skip (add64 pci.last_sequence 1) t.bit.sequence))
            else (1, found))
  unfolding check_sequence
  forced_or_not pdi t force z h lo =
      let pci = cpu_at (get_cpu_info pdi t.bit.cpu) t.bit.cpu in
      let e₁ : (add64 pci.last_sequence 1 == 0) ≡ false = ground (arith, lo) in
      let e₂ : (t.bit.sequence == add64 pci.last_sequence 1) ≡ false = ground (arith, h) in
      let e₃ : ltb (add64 pci.last_sequence 1) pci.smallest_seq_read ≡ false = ground (arith, z) in
      rw (e₁, e₂, e₃) (by_force _ _ force)

  -- Where the smallest number read is 0, the numbers noted so far are proper ranges, and a record's number is behind the
  -- expected one, which is not 0, below 2^32 and not noted: the record must wait, unless the call forces it; then the
  -- numbers noted are those before and those from the expected one up to the record's.
  pub check_sequence_gap :
      (pdi : PerDev) (t : Tr)
      → let found = get_cpu_info pdi t.bit.cpu in
        let pci = cpu_at found t.bit.cpu in
        let expected = add64 pci.last_sequence 1 in
        pci.smallest_seq_read ≡ 0
        → AllRange pci.skips
        → 0 < expected
        → expected < t.bit.sequence
        → t.bit.sequence < 2 ^ 32
        → covered pci.skips t.bit.sequence ≡ false
        → (check_sequence rb garbage root map pdi t false ≡ (1, found))
          × (let (waits, pdi') = check_sequence rb garbage root map pdi t true in
              (waits ≡ 0)
              × ((n : ℕ)
                  → covered (cpu_at pdi' t.bit.cpu).skips n
                    ≡ ((leb expected n && ltb n t.bit.sequence) || covered pci.skips n)))
  check_sequence_gap pdi t z v lo h hi free =
      let found = get_cpu_info pdi t.bit.cpu in
      let pci = cpu_at found t.bit.cpu in
      let expected = add64 pci.last_sequence 1 in
      (
        forced_or_not pdi t false z h lo,
        rw (forced_or_not pdi t true z h lo) (
          refl,
          λ n.
              rw
                (at_cpu_self found t.bit.cpu (note_skip expected t.bit.sequence)
                  (get_cpu_info_has pdi t.bit.cpu))
                (note_skip_lem expected t.bit.sequence pci v lo h hi free n),
        ),
      )
