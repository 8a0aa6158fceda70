-- ===== src/Iowatcher/Pids/First.antt =====
-- The index of the first process.
use iovisualization.Prelude.{ℕ, ◌≡◌, refl, ap, ◌∙◌, true, some, List, [], ◌∷◌, arith, ◌==◌}
use iovisualization.Iowatcher.Pids.{
  PidMap, slot_of, find_pid, write_pid, PidTable, with_pids, process_hash_search, renames,
  new_pid_map, process_hash_insert, Plots, grow_plots, get_pid_map,
}

zero_known :
    (print_pid : ℕ → List ℕ) (pid p : ℕ) (name : List ℕ) (table : PidTable) (tf : Plots)
    → find_pid (table (slot_of pid)) pid ≡ some (record { pid = p; index = 0; name = name })
    → (get_pid_map print_pid pid (table, tf)).0 ≡ tf.io_plots
unfolding get_pid_map process_hash_insert process_hash_search renames
zero_known print_pid pid p name table tf e = rw (process_hash_insert, e) refl

with_pids_same :
    (table : PidTable) (pid : ℕ) (chain : List PidMap)
    → with_pids table pid chain (slot_of pid) ≡ chain
unfolding with_pids
with_pids_same table pid chain =
    let here : (slot_of pid == slot_of pid) ≡ true = ground arith in rw here refl

alone_written :
    (pid : ℕ) (name : List ℕ) (i : ℕ)
    → find_pid
        (write_pid
          (record { pid = pid; index = 0; name = name } ∷ [])
          pid
          (λ p. record p { index = i }))
        pid
      ≡ some (record { pid = pid; index = i; name = name })
unfolding find_pid write_pid
alone_written pid name i = let self : (pid == pid) ≡ true = ground arith in rw self (rw self refl)

-- The first process is taken for a new one again at its next I/O, and gets another index.
pub first_process_split :
    (print_pid : ℕ → List ℕ) (pid : ℕ)
    → let (first, table, tf) =
        get_pid_map print_pid pid (λ slot. [], record { io_plots = 0; io_plots_allocated = 16 }) in
      (first ≡ 0) × ((get_pid_map print_pid pid (table, tf)).0 ≡ 1)
unfolding get_pid_map process_hash_insert process_hash_search new_pid_map find_pid grow_plots
first_process_split print_pid pid =
    let pm : PidMap = record { pid = pid; index = 0; name = print_pid pid } in
    let table : PidTable = with_pids (λ slot. []) pid (pm ∷ []) in
    let written = λ (chain : List PidMap). write_pid chain pid (λ p. record p { index = 0 }) in
    (
      refl,
      zero_known print_pid pid pid (print_pid pid)
          (with_pids table pid (written (table (slot_of pid))))
          (record { io_plots = 1; io_plots_allocated = 16 })
          (ap (λ chain. find_pid chain pid)
              (with_pids_same table pid (written (table (slot_of pid)))
                ∙ ap written (with_pids_same (λ slot. []) pid (pm ∷ [])))
            ∙ alone_written pid (print_pid pid) 0),
    )
