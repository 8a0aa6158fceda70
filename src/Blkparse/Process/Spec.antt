-- ===== src/Blkparse/Process/Spec.antt =====
-- With one process for each pid the tables are a map from pids to counters.
use iovisualization.Prelude.{
  ℕ, ◌%◌, ◌<◌, ◌≡◌, refl, sym, ap, ◌∙◌, ◌≢◌, inl, inr, true, none, some, List, arith, ◌==◌,
  if◌then◌else◌, Bool-cases, Option-cases,
}
use iovisualization.Blkparse.Account.{IoStats, no_io}
use iovisualization.Blkparse.Process.{
  Ppi, Procs, write, pid_in_chain, new_process, find_ppi_by_pid, find_ppi, find_process_io_stats,
  with_process_io_stats,
}
use iovisualization.Blkparse.Process.Lookup.{AllBelow-suc, pid_in_chain-same, pid_in_chain-some}
use iovisualization.Blkparse.Process.Fresh.{IsValid, Fresh, new_process-Fresh}

module _ (hash_pid : ℕ → ℕ) (hash_name : List ℕ → ℕ) where
  -- the counters that stand for a pid, zero for one not seen yet
  unfoldable pub stats_of : Procs → ℕ → IoStats
  stats_of s pid = elim (find_ppi_by_pid hash_pid hash_name s pid) [
    | none ↦ no_io
    | some i ↦ (s.heap i).io_stats
  ]

  -- A state with an object changed in its counters only.
  abbrev change : Procs → ℕ → (IoStats → IoStats) → Procs
  change s i f = record s {
    heap = write s.heap i (record (s.heap i) { io_stats = f (s.heap i).io_stats });
  }

  stats_of-some :
      (s : Procs) (pid : ℕ) {i : ℕ}
      → find_ppi_by_pid hash_pid hash_name s pid ≡ some i
      → stats_of s pid ≡ (s.heap i).io_stats
  unfolding stats_of
  stats_of-some s pid e = ground arith

  stats_of-none :
      (s : Procs) (pid : ℕ)
      → find_ppi_by_pid hash_pid hash_name s pid ≡ none
      → stats_of s pid ≡ no_io
  unfolding stats_of
  stats_of-none s pid e = ground arith

  find_ppi_by_pid-some :
      (s : Procs) (pid i : ℕ)
      → IsValid s
      → find_ppi_by_pid hash_pid hash_name s pid ≡ some i
      → (i < s.fresh) × ((s.heap i).ppm.pid ≡ pid)
  unfolding find_ppi_by_pid
  find_ppi_by_pid-some s pid i v e =
      pid_in_chain-some s.heap s.fresh (s.ppi_hash_table (hash_pid pid % 256)) pid
        (v.old (hash_pid pid % 256)) e

  change_pids :
      (s : Procs) (i : ℕ) (f : IoStats → IoStats) (j : ℕ)
      → ((change s i f).heap j).ppm.pid ≡ (s.heap j).ppm.pid
  change_pids s i f j = ground arith

  find_ppi_by_pid-change :
      (s : Procs) (i : ℕ) (f : IoStats → IoStats) (q : ℕ)
      → IsValid s
      → find_ppi_by_pid hash_pid hash_name (change s i f) q ≡ find_ppi_by_pid hash_pid hash_name s q
  unfolding find_ppi_by_pid
  find_ppi_by_pid-change s i f q v =
      pid_in_chain-same s.heap (change s i f).heap s.fresh (s.ppi_hash_table (hash_pid q % 256)) q
        (λ j lt. change_pids s i f j) (v.old (hash_pid q % 256))

  change_self :
      (s : Procs) (i : ℕ) (f : IoStats → IoStats)
      → ((change s i f).heap i).io_stats ≡ f (s.heap i).io_stats
  change_self s i f = ground arith

  change_ne :
      (s : Procs) (i : ℕ) (f : IoStats → IoStats) (j : ℕ) → j ≢ i → (change s i f).heap j ≡ s.heap j
  change_ne s i f j ne = ground arith

  -- The pid has counters already.
  stats_of-change :
      (s : Procs) (pid i : ℕ) (f : IoStats → IoStats)
      → IsValid s
      → find_ppi_by_pid hash_pid hash_name s pid ≡ some i
      → (q : ℕ)
      → stats_of (change s i f) q ≡ (if q == pid then f (stats_of s pid) else stats_of s q)
  stats_of-change s pid i f v e q = elim (Bool-cases (q == pid)) [
    | inl same ↦
        let p : q ≡ pid = ground arith in
        rw (same, p)
          (stats_of-some (change s i f) pid (find_ppi_by_pid-change s i f pid v ∙ e)
            ∙ change_self s i f
            ∙ ap f (sym (stats_of-some s pid e)))
    | inr other ↦ rw other (elim (Option-cases (find_ppi_by_pid hash_pid hash_name s q)) [
      | inl n ↦
          stats_of-none (change s i f) q (find_ppi_by_pid-change s i f q v ∙ n)
          ∙ sym (stats_of-none s q n)
      | inr (j, h) ↦
          let a = find_ppi_by_pid-some s pid i v e in
          let b = find_ppi_by_pid-some s q j v h in
          let ne : j ≢ i = λ (r : j ≡ i). ground (arith, ap (λ k. (s.heap k).ppm.pid) r) in
          stats_of-some (change s i f) q (find_ppi_by_pid-change s i f q v ∙ h)
          ∙ ap (λ (o : Ppi). o.io_stats) (change_ne s i f j ne)
          ∙ sym (stats_of-some s q h)
    ])
  ]

  module _ (s : Procs) (pid i : ℕ) (s' : Procs) (v : IsValid s)
      (r : Fresh hash_pid hash_name s pid i s') where
    Fresh-IsValid : IsValid s'
    Fresh-IsValid = record {
      by_pid = r.mode ∙ v.by_pid;
      old = λ h.
          rw (r.chained h, r.made)
            (elim (Bool-cases (h == hash_pid pid % 256)) [
              | inl e ↦ rw e (omega arith, AllBelow-suc s.fresh _ (v.old h))
              | inr e ↦ rw e (AllBelow-suc s.fresh _ (v.old h))
            ]);
    }

    -- The new object is found, and searches for other pids pass it by.
    find_ppi_by_pid-Fresh :
        (q : ℕ)
        → find_ppi_by_pid hash_pid hash_name s' q
          ≡ (if q == pid then some s.fresh else find_ppi_by_pid hash_pid hash_name s q)
    unfolding find_ppi_by_pid pid_in_chain
    find_ppi_by_pid-Fresh q = ground (
      arith,
      r.chained (hash_pid q % 256),
      r.named,
      ap (λ k. hash_pid k % 256) {x = q} {y = pid},
      pid_in_chain-same s.heap s'.heap s.fresh (s.ppi_hash_table (hash_pid q % 256)) q
          (λ j lt. ap (λ (o : Ppi). o.ppm.pid) (r.spared j lt)) (v.old (hash_pid q % 256)),
    )

    stats_of-Fresh :
        (q : ℕ) → find_ppi_by_pid hash_pid hash_name s pid ≡ none → stats_of s' q ≡ stats_of s q
    stats_of-Fresh q absent = elim (Bool-cases (q == pid)) [
      | inl e ↦
          let p : q ≡ pid = ground arith in
          rw p (
            stats_of-some s' pid (find_ppi_by_pid-Fresh pid ∙ ground arith)
            ∙ r.zeroed
            ∙ sym (stats_of-none s pid absent))
      | inr e ↦ elim (Option-cases (find_ppi_by_pid hash_pid hash_name s q)) [
        | inl n ↦ stats_of-none s' q (find_ppi_by_pid-Fresh q ∙ rw e n) ∙ sym (stats_of-none s q n)
        | inr (j, h) ↦
            stats_of-some s' q (find_ppi_by_pid-Fresh q ∙ rw e h)
            ∙ ap (λ (o : Ppi). o.io_stats) (r.spared j (find_ppi_by_pid-some s q j v h).0)
            ∙ sym (stats_of-some s q h)
      ]
    ]

  change-IsValid : (s : Procs) (i : ℕ) (f : IoStats → IoStats) → IsValid s → IsValid (change s i f)
  change-IsValid s i f v = record { by_pid = v.by_pid; old = v.old }

  find_process_io_stats-some :
      (s : Procs) (pid i : ℕ)
      → s.ppi_hash_by_pid ≡ true
      → find_ppi_by_pid hash_pid hash_name s pid ≡ some i
      → find_process_io_stats hash_pid hash_name s pid ≡ (i, s)
  unfolding find_process_io_stats find_ppi
  find_process_io_stats-some s pid i m e = ground arith

  find_process_io_stats-none :
      (s : Procs) (pid : ℕ)
      → s.ppi_hash_by_pid ≡ true
      → find_ppi_by_pid hash_pid hash_name s pid ≡ none
      → find_process_io_stats hash_pid hash_name s pid ≡ new_process hash_pid hash_name s pid
  unfolding find_process_io_stats find_ppi
  find_process_io_stats-none s pid m e = ground arith

  changed : (IoStats → IoStats) → ℕ × Procs → Procs
  changed f (i, s) = change s i f

  with_process_io_stats-changed :
      (s : Procs) (pid : ℕ) (f : IoStats → IoStats)
      → with_process_io_stats hash_pid hash_name s pid f
        ≡ changed f (find_process_io_stats hash_pid hash_name s pid)
  unfolding with_process_io_stats changed
  with_process_io_stats-changed s pid f = refl

  with_process_io_stats-some :
      (s : Procs) (pid i : ℕ) (f : IoStats → IoStats)
      → s.ppi_hash_by_pid ≡ true
      → find_ppi_by_pid hash_pid hash_name s pid ≡ some i
      → with_process_io_stats hash_pid hash_name s pid f ≡ change s i f
  unfolding changed
  with_process_io_stats-some s pid i f m e =
      with_process_io_stats-changed s pid f
      ∙ ap (changed f) (find_process_io_stats-some s pid i m e)

  with_process_io_stats-none :
      (s : Procs) (pid : ℕ) (f : IoStats → IoStats)
      → s.ppi_hash_by_pid ≡ true
      → find_ppi_by_pid hash_pid hash_name s pid ≡ none
      → with_process_io_stats hash_pid hash_name s pid f
        ≡ (let (i, s') = new_process hash_pid hash_name s pid in change s' i f)
  unfolding changed
  with_process_io_stats-none s pid f m e =
      with_process_io_stats-changed s pid f ∙ ap (changed f) (find_process_io_stats-none s pid m e)

  -- With processes told apart by pid, an update through the pointer that `find_process_io_stats`
  -- returns changes the counters of that pid, which count from zero if it is new, and those of
  -- no other pid, whatever the hash functions are; and the tables stay valid.
  pub with_process_io_stats_lem :
      (s : Procs) (pid : ℕ) (f : IoStats → IoStats)
      → IsValid s
      → let s' = with_process_io_stats hash_pid hash_name s pid f in
        IsValid s'
        × ((q : ℕ) → stats_of s' q ≡ (if q == pid then f (stats_of s pid) else stats_of s q))
  with_process_io_stats_lem s pid f v =
      elim (Option-cases (find_ppi_by_pid hash_pid hash_name s pid)) [
        | inl n ↦
            let (i, s') = new_process hash_pid hash_name s pid in
            let r = new_process-Fresh hash_pid hash_name s pid v.by_pid in
            let v' = Fresh-IsValid s pid i s' v r in
            let found = find_ppi_by_pid-Fresh s pid i s' v r pid in
            rw (with_process_io_stats-none s pid f v.by_pid n) (
              change-IsValid s' i f v',
              λ q.
                  stats_of-change s' pid i f v' (found ∙ ground (arith, r.object)) q
                  ∙ ground (
                    arith,
                    ap f (stats_of-Fresh s pid i s' v r pid n),
                    stats_of-Fresh s pid i s' v r q n,
                  ),
            )
        | inr (i, h) ↦
            rw (with_process_io_stats-some s pid i f v.by_pid h)
              (change-IsValid s i f v, stats_of-change s pid i f v h)
      ]
