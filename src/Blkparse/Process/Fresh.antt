-- ===== src/Blkparse/Process/Fresh.antt =====
-- The steps of `find_process_io_stats` for a pid that has no counters yet.
use iovisualization.Prelude.{
  ℕ, ◌+◌, ◌%◌, ◌<◌, ◌≡◌, refl, sym, ap, ◌∙◌, inl, inr, true, List, ◌∷◌, arith, ◌==◌, if◌then◌else◌,
  Option-cases,
}
use mathlib.Core.Path.{subst}
use iovisualization.Blkparse.Account.{no_io}
use iovisualization.Blkparse.Process.{
  Ppm, Ppi, Procs, ppm_in_chain, new_process, link_process, ppm_or_unknown,
}
use iovisualization.Blkparse.Process.Lookup.{AllBelow, ppm_in_chain-some}

-- Processes are told apart by pid, and the chains hold objects that exist.
pub record IsValid (s : Procs) : Type 0 where
  pub by_pid : s.ppi_hash_by_pid ≡ true
  pub old : (h : ℕ) → AllBelow s.fresh (s.ppi_hash_table h)

module _ (hash_pid : ℕ → ℕ) (hash_name : List ℕ → ℕ) where
  ppm_or_unknown_lem :
      (s : Procs) (pid : ℕ)
      → let (ppm, s') = ppm_or_unknown hash_pid hash_name s pid in
        (ppm.pid ≡ pid)
        × (s'.fresh ≡ s.fresh)
        × (s'.ppi_hash_by_pid ≡ s.ppi_hash_by_pid)
        × (s'.ppi_hash_table ≡ s.ppi_hash_table)
        × (s'.heap ≡ s.heap)
  unfolding ppm_or_unknown
  ppm_or_unknown_lem s pid = elim (Option-cases (ppm_in_chain chain pid)) [
    | inl n ↦ ground arith
    | inr (p, h) ↦ ground (arith, ppm_in_chain-some chain pid h)
  ]
    where
      chain : List Ppm
      chain = s.ppm_hash_table (hash_pid pid % 256)

  -- what `find_process_io_stats` does for a pid that has no counters yet
  pub record Fresh (s : Procs) (pid : ℕ) (i : ℕ) (s' : Procs) : Type 0 where
    pub object : i ≡ s.fresh
    pub made : s'.fresh ≡ s.fresh + 1
    pub mode : s'.ppi_hash_by_pid ≡ s.ppi_hash_by_pid
    pub chained :
        (j : ℕ)
        → s'.ppi_hash_table j
          ≡ (if j == hash_pid pid % 256 then s.fresh ∷ s.ppi_hash_table j else s.ppi_hash_table j)
    pub spared : (j : ℕ) → j < s.fresh → s'.heap j ≡ s.heap j
    pub named : (s'.heap s.fresh).ppm.pid ≡ pid
    pub zeroed : (s'.heap s.fresh).io_stats ≡ no_io

  link_process-Fresh :
      (s : Procs) (ppm : Ppm)
      → s.ppi_hash_by_pid ≡ true
      → let (i, s') = link_process hash_pid hash_name s ppm in Fresh s ppm.pid i s'
  unfolding link_process
  link_process-Fresh s ppm e = record {
    object = refl;
    made = refl;
    mode = refl;
    chained = λ j. ground arith;
    spared = λ j h. ground arith;
    named = ground arith;
    zeroed = ground arith;
  }

  -- The step looks at four parts of the state only.
  Fresh-same :
      {s s₁ : Procs} {pid i : ℕ} {s' : Procs}
      → s₁.fresh ≡ s.fresh
      → s₁.ppi_hash_by_pid ≡ s.ppi_hash_by_pid
      → s₁.ppi_hash_table ≡ s.ppi_hash_table
      → s₁.heap ≡ s.heap
      → Fresh s₁ pid i s'
      → Fresh s pid i s'
  Fresh-same {s} {s₁} {pid} {i} {s'} f m t h r = record {
    object = r.object ∙ f;
    made = r.made ∙ ap (λ n. n + 1) f;
    mode = r.mode ∙ m;
    chained = λ j. ground (arith, r.chained j, ap (λ (g : ℕ → List ℕ). g j) t, f);
    spared = λ j lt. r.spared j (omega arith) ∙ ap (λ (g : ℕ → Ppi). g j) h;
    named = ap (λ k. (s'.heap k).ppm.pid) (sym f) ∙ r.named;
    zeroed = ap (λ k. (s'.heap k).io_stats) (sym f) ∙ r.zeroed;
  }

  pub new_process-Fresh :
      (s : Procs) (pid : ℕ)
      → s.ppi_hash_by_pid ≡ true
      → let (i, s') = new_process hash_pid hash_name s pid in Fresh s pid i s'
  unfolding new_process
  new_process-Fresh s pid e =
      let (ppm, s₁) = ppm_or_unknown hash_pid hash_name s pid in
      let (p, f, m, t, h) = ppm_or_unknown_lem s pid in
      Fresh-same f m t h (
        subst
          (λ k.
            Fresh s₁ k (link_process hash_pid hash_name s₁ ppm).0
              (link_process hash_pid hash_name s₁ ppm).1)
          p (link_process-Fresh s₁ ppm (m ∙ e)))
