-- ===== src/Blkparse/Sort/Slide.antt =====
-- A record put in, and the oldest taken out, for one processor.
use mathlib.Core.Path.{subst}
use iovisualization.Prelude.{
  ℕ, suc, ◌+◌, ◌^◌, ◌<◌, ◌≡◌, refl, sym, ap, ◌∙◌, ◌≢◌, inl, inr, Option, none, some, List, [], ◌∷◌,
  ◌++◌, arith, ◌==◌, if◌then◌else◌, length, length-append, length-set, add64, sub64,
}
use iovisualization.Prelude.Tree.{Tree, leaf, node, inorder, RbTree, erase_idx}
use iovisualization.Blkparse.Sort.{Tr, trace_rb_insert}
use iovisualization.Blkparse.Sort.Order.{IsSorted}
use iovisualization.Blkparse.Sort.Insert.{trace_rb_insert-Placed}
use iovisualization.Blkparse.Sort.Last.{
  PerCpu, PerDev, get_cpu_info, cpu_at, at_cpu, rb_first, put_trace_last, no_cpu,
}
use iovisualization.Blkparse.Sort.Slots.{
  AllCpu, AllCpu-append, append-AllCpu, Slot, Slots, set-Slots, set_cases, get_cpu_info-Slots,
  get_again,
}

-- the first record of a list
abbrev pub head? : List Tr → Option Tr
head? [] = none
head? (x ∷ xs) = some x

head?-append :
    (xs ys : List Tr) (x : Tr)
    → head? (xs ++ (x ∷ ys))
      ≡ elim (head? xs) as (λ o. Option Tr) [ none ↦ some x | some y ↦ some y ]
head?-append [] ys x = refl
head?-append (z ∷ xs) ys x = refl

pub head?-inorder : (t : Tree Tr) → rb_first t ≡ head? (inorder t)
head?-inorder leaf = refl
head?-inorder (node l x r) = rw (head?-inorder l) (sym (head?-append (inorder l) (inorder r) x))

module _ (rb : RbTree Tr) (limit k : ℕ) where
  added-Slot :
      (pci : PerCpu) (t : Tr)
      → Slot limit k pci
      → t.bit.cpu ≡ k
      → limit + 1 < 2 ^ 64
      → Slot (limit + 1) k (record pci {
        rb_last = trace_rb_insert rb t pci.rb_last;
        rb_last_entries = add64 pci.rb_last_entries 1;
      })
  added-Slot pci t s e h =
      let (p, sorted) = trace_rb_insert-Placed rb pci.rb_last t s.sorted in
      let n : length (inorder pci.rb_last) ≡ length p.front + length p.back =
        ap length p.was ∙ length-append p.front p.back in
      let m : length (inorder (trace_rb_insert rb t pci.rb_last))
          ≡ length p.front + suc (length p.back) =
        ap length p.is ∙ length-append p.front (t ∷ p.back) in
      let (a, b) = AllCpu-append k p.front p.back (rw (sym p.was) s.own) in
      record {
        counted = omega (arith, n, m, s.counted, s.within);
        within = omega (arith, s.within);
        own = rw p.is (append-AllCpu k p.front (t ∷ p.back) a (e, b));
        sorted = sorted;
      }

  dropped-first :
      (pci : PerCpu) (xs : List Tr)
      → inorder pci.rb_last ≡ xs
      → Slot (limit + 1) k pci
      → limit < pci.rb_last_entries
      → limit + 1 < 2 ^ 64
      → Slot limit k (record pci {
        rb_last = rb.erase pci.rb_last 0;
        rb_last_entries = sub64 pci.rb_last_entries 1;
      })
  dropped-first pci [] e s h b = absurd (omega (arith, s.counted, ap length e))
  dropped-first pci (x ∷ xs) e s h b =
      let rest = rb.inorder-erase pci.rb_last 0 ∙ ap (λ ys. erase_idx ys 0) e in
      record {
        counted = omega (arith, s.counted, ap length e, ap length rest, s.within);
        within = omega (arith, s.within, h);
        own = rw rest (subst (AllCpu k) e s.own).1;
        sorted = rw rest (subst IsSorted e s.sorted).1;
      }

  pub first_own : (xs : List Tr) {t : Tr} → AllCpu k xs → head? xs ≡ some t → t.bit.cpu ≡ k
  first_own [] a e = cc
  first_own (x ∷ xs) a e = cc (e, a.0)

-- one more for one processor
abbrev pub raised : ℕ → ℕ → ℕ → ℕ
raised limit k i = if i == k then limit + 1 else limit

pub raised_self : (limit k : ℕ) → raised limit k k ≡ limit + 1
raised_self limit k = ground arith

pub raised_other : (limit k i : ℕ) → i ≢ k → raised limit k i ≡ limit
raised_other limit k i d = ground (arith, d)

pub at_cpu_self :
    (pdi : PerDev) (k : ℕ) (f : PerCpu → PerCpu)
    → k < length pdi.cpus
    → cpu_at (at_cpu pdi k f) k ≡ f (cpu_at pdi k)
unfolding at_cpu
at_cpu_self pdi k f h = elim (set_cases pdi.cpus k k (f (cpu_at pdi k)) no_cpu h) [
  | inl (e, g) ↦ g
  | inr (d, g) ↦ absurd (d refl)
]

module _ (rb : RbTree Tr) where
  abbrev pub add_to : Tr → PerCpu → PerCpu
  add_to t pci = record pci {
    rb_last = trace_rb_insert rb t pci.rb_last;
    rb_last_entries = add64 pci.rb_last_entries 1;
  }

module _ (rb : RbTree Tr) (limit k : ℕ) (h : limit + 1 < 2 ^ 64) where
  pub add_at :
      (pdi : PerDev) (t : Tr)
      → t.bit.cpu ≡ k
      → Slots (λ i. limit) pdi.cpus
      → let p = at_cpu (get_cpu_info pdi k) k (add_to rb t) in
        Slots (raised limit k) p.cpus × (k < length p.cpus) × (p.nfiles ≡ pdi.nfiles)
  unfolding at_cpu
  add_at pdi t e s =
      let (s₁, n, same) = get_cpu_info-Slots (λ i. limit) pdi k s in
      let p = get_cpu_info pdi k in
      let new = added-Slot rb limit k (cpu_at p k) t (s₁ k) e h in
      (
        set-Slots (raised limit k) p.cpus k (add_to rb t (cpu_at p k))
            (λ i d. rw (raised_other limit k i d) (s₁ i)) (rw (raised_self limit k) new) n,
        omega (arith, n, length-set p.cpus k (add_to rb t (cpu_at p k))),
        same,
      )

  pub put_trace_last-Slots :
      (pdi : PerDev) (t : Tr)
      → t.bit.cpu ≡ k
      → Slots (raised limit k) pdi.cpus
      → k < length pdi.cpus
      → limit < (cpu_at pdi k).rb_last_entries
      → Slots (λ i. limit) (put_trace_last rb pdi t 0).cpus
        × ((put_trace_last rb pdi t 0).nfiles ≡ pdi.nfiles)
  unfolding put_trace_last at_cpu
  put_trace_last-Slots pdi t e s n over =
      let (s₁, n₁, same) = get_cpu_info-Slots (raised limit k) pdi k s in
      let p = get_cpu_info pdi k in
      let full : Slot (limit + 1) k (cpu_at p k) = rw (sym (raised_self limit k)) (s₁ k) in
      let over₁ : limit < (cpu_at p k).rb_last_entries = omega (arith, over, get_again pdi k n) in
      rw e (
        set-Slots (λ i. limit) p.cpus k _
            (λ i d. subst (λ m. Slot m i (cpu_at p i)) (raised_other limit k i d) (s₁ i))
            (dropped-first rb limit k (cpu_at p k) (inorder (cpu_at p k).rb_last) refl full over₁ h)
            n₁,
        same,
      )
