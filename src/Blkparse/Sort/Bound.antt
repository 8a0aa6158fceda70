-- ===== src/Blkparse/Sort/Bound.antt =====
-- The records kept for each processor are its own, in order, counted right, and no more than the limit.
use mathlib.Core.Path.{subst}
use iovisualization.Prelude.{
  ℕ, ◌+◌, ◌*◌, ◌%◌, ◌^◌, ◌≤◌, ◌<◌, ◌≡◌, refl, sym, ap, ◌∙◌, inl, inr, true, false, none, some, List,
  [], ◌∷◌, arith, ltb, ltb→lt, Bool-cases, Option-cases, length,
}
use iovisualization.Prelude.Tree.{inorder, RbTree}
use iovisualization.Blkparse.Sort.{Tr}
use iovisualization.Blkparse.Sort.Last.{
  PerCpu, PerDev, get_cpu_info, cpu_at, at_cpu, rb_first, put_trace_last, trace_rb_insert_last,
}
use iovisualization.Blkparse.Sort.Slots.{Slot, Slots}
use iovisualization.Blkparse.Sort.Slide.{
  head?, head?-inorder, first_own, raised, raised_self, add_to, add_at, put_trace_last-Slots,
}

-- The entries hold at most `rb_batch * nfiles` records each, in 32 bits, which are their processors' own, in order and counted right.
abbrev pub Held : ℕ → PerDev → Type 0
Held rb_batch pdi = Slots (λ i. rb_batch * pdi.nfiles % 2 ^ 32) pdi.cpus

Held-of :
    (rb_batch nfiles : ℕ) (p : PerDev)
    → p.nfiles ≡ nfiles
    → Slots (λ i. rb_batch * nfiles % 2 ^ 32) p.cpus
    → Held rb_batch p
Held-of rb_batch nfiles p e s = subst (λ n. Slots (λ i. rb_batch * n % 2 ^ 32) p.cpus) (sym e) s

narrow :
    (limit k i : ℕ) (pci : PerCpu)
    → Slot (raised limit k i) i pci
    → (i ≡ k → pci.rb_last_entries ≤ limit)
    → Slot limit i pci
narrow limit k i pci s h = record {
  counted = s.counted;
  within = ground (arith, s.within, h);
  own = s.own;
  sorted = s.sorted;
}

no_first : (xs : List Tr) → head? xs ≡ none → ¬ (0 < length xs)
no_first [] e h = absurd (omega arith)
no_first (x ∷ xs) e h = cc

module _ (rb : RbTree Tr) (rb_batch : ℕ) (pdi : PerDev) (t : Tr) where
  abbrev pub limit : ℕ
  limit = rb_batch * pdi.nfiles % 2 ^ 32

  abbrev pub added : PerDev
  added = at_cpu (get_cpu_info pdi t.bit.cpu) t.bit.cpu (add_to rb t)

  last_kept :
      ltb (rb_batch * added.nfiles % 2 ^ 32) (cpu_at added t.bit.cpu).rb_last_entries ≡ false
      → trace_rb_insert_last rb rb_batch pdi t ≡ added
  unfolding trace_rb_insert_last
  last_kept e = rw e refl

  last_dropped :
      (o : Tr)
      → ltb (rb_batch * added.nfiles % 2 ^ 32) (cpu_at added t.bit.cpu).rb_last_entries ≡ true
      → rb_first (cpu_at added t.bit.cpu).rb_last ≡ some o
      → trace_rb_insert_last rb rb_batch pdi t ≡ put_trace_last rb added o 0
  unfolding trace_rb_insert_last
  last_dropped o e f = rw (e, f) refl

  full_first :
      Slot (limit + 1) t.bit.cpu (cpu_at added t.bit.cpu)
      → limit < (cpu_at added t.bit.cpu).rb_last_entries
      → (o : Tr) × (rb_first (cpu_at added t.bit.cpu).rb_last ≡ some o) × (o.bit.cpu ≡ t.bit.cpu)
  full_first s over =
      let pci = cpu_at added t.bit.cpu in
      elim (Option-cases (rb_first pci.rb_last)) [
        | inl e ↦ absurd (
            no_first (inorder pci.rb_last) (sym (head?-inorder pci.rb_last) ∙ e)
              (omega (arith, s.counted, over)))
        | inr (o, e) ↦ (
          o,
          e,
          first_own rb limit t.bit.cpu (inorder pci.rb_last) s.own
              (sym (head?-inorder pci.rb_last) ∙ e),
        )
      ]

  -- However the trees are rotated: if every processor's entry holds its own records, in order and counted right, and at
  -- most `rb_batch * nfiles` of them, all that is so after a record is put in.
  pub trace_rb_insert_last-Held :
      Held rb_batch pdi → Held rb_batch (trace_rb_insert_last rb rb_batch pdi t)
  trace_rb_insert_last-Held held =
      let k = t.bit.cpu in
      let h : limit + 1 < 2 ^ 64 = omega arith in
      let over =
        λ (nfiles : ℕ). ltb (rb_batch * nfiles % 2 ^ 32) (cpu_at added k).rb_last_entries in
      let (slots, n, same) = add_at rb limit k h pdi t refl held in
      let slot : Slot (limit + 1) k (cpu_at added k) =
        subst (λ m. Slot m k (cpu_at added k)) (raised_self limit k) (slots k) in
      elim (Bool-cases (ltb limit (cpu_at added k).rb_last_entries)) [
        | inl e ↦
            let (o, f, own) = full_first slot (ltb→lt _ _ e) in
            let (out, nf) = put_trace_last-Slots rb limit k h added o own slots n (ltb→lt _ _ e) in
            subst (Held rb_batch) (sym (last_dropped o (ap over same ∙ e) f))
              (Held-of rb_batch pdi.nfiles (put_trace_last rb added o 0) (nf ∙ same) out)
        | inr e ↦ subst (Held rb_batch) (sym (last_kept (ap over same ∙ e))) (
            Held-of rb_batch pdi.nfiles added same (λ i.
              narrow limit k i (cpu_at added i) (slots i) (λ q.
                subst (λ j. (cpu_at added j).rb_last_entries ≤ limit) (sym q) (ground (arith, e)))))
      ]
