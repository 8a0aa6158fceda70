-- ===== src/Blkparse/Process.antt =====
-- server-proto/blkparse.c, lines 75 to 105, 534 to 573, 625 to 723 and 1144 to 1159: the processes. A
-- pid has an entry with its name in `ppm_hash_table`; a process has its counters in a `Ppi`, which
-- stands in one chain of `ppi_hash_table` and in `ppi_list`. Entries of the first kind never change
-- once made, so they are values; a `Ppi` is an object of the heap, named by a number.
-- The kernel's jhash.h is a parameter: `hash_pid` is `jhash_1word` and `hash_name` is `jhash` of the 16
-- bytes of a name, both with the seed `JHASH_RANDOM`.
pub mod Lookup
pub mod Fresh
pub mod Counters
pub mod Spec
pub mod Tests
use iovisualization.Prelude.{
  ℕ, ◌+◌, ◌%◌, Bool, true, false, ◌&&◌, Option, none, some, List, [], ◌∷◌, ◌==◌, if◌then◌else◌,
  take,
}
use iovisualization.Blkparse.Account.{IoStats, no_io}

-- `struct process_pid_map`; `comm` is the text before the first zero byte
pub record Ppm : Type 0 where
  pub pid : ℕ
  pub comm : List ℕ

-- `struct per_process_info`, less the links. An array of two numbers, of reads and of writes, is a
-- function from whether it is a write.
pub record Ppi : Type 0 where
  pub ppm : Ppm
  pub io_stats : IoStats
  pub more_than_one : Bool
  pub longest_allocation_wait : Bool → ℕ
  pub longest_dispatch_wait : Bool → ℕ
  pub longest_completion_wait : Bool → ℕ

-- memory of a process that `memset` has cleared, with its entry
abbrev pub new_ppi : Ppm → Ppi
new_ppi ppm = record {
  ppm = ppm;
  io_stats = no_io;
  more_than_one = false;
  longest_allocation_wait = λ w. 0;
  longest_dispatch_wait = λ w. 0;
  longest_completion_wait = λ w. 0;
}

-- The tables, the objects made so far (those below `fresh`), and the command line's `ppi_hash_by_pid`.
pub record Procs : Type 0 where
  pub ppi_hash_by_pid : Bool
  pub ppm_hash_table : ℕ → List Ppm
  pub ppi_hash_table : ℕ → List ℕ
  pub ppi_list : List ℕ
  pub ppi_list_entries : ℕ
  pub heap : ℕ → Ppi
  pub fresh : ℕ

-- a table with one entry changed
abbrev pub write {ℓ} : {A : Type ℓ} → (ℕ → A) → ℕ → A → ℕ → A
write table i a j = if j == i then a else table j

-- `strcmp(a, b) == 0`
pub same_name : List ℕ → List ℕ → Bool
same_name [] [] = true
same_name [] (y ∷ ys) = false
same_name (x ∷ xs) [] = false
same_name (x ∷ xs) (y ∷ ys) = x == y && same_name xs ys

-- the loop of `find_ppm`
pub ppm_in_chain : List Ppm → ℕ → Option Ppm
ppm_in_chain [] pid = none
ppm_in_chain (p ∷ chain) pid = if p.pid == pid then some p else ppm_in_chain chain pid

-- the loop of `find_ppi_by_pid`
pub pid_in_chain : (ℕ → Ppi) → List ℕ → ℕ → Option ℕ
pid_in_chain heap [] pid = none
pid_in_chain heap (i ∷ chain) pid =
    if (heap i).ppm.pid == pid then some i else pid_in_chain heap chain pid

-- the loop of `find_ppi_by_name`
pub name_in_chain : (ℕ → Ppi) → List ℕ → List ℕ → Option ℕ
unfolding same_name
name_in_chain heap [] name = none
name_in_chain heap (i ∷ chain) name =
    if same_name (heap i).ppm.comm name then some i else name_in_chain heap chain name

module _ (hash_pid : ℕ → ℕ) (hash_name : List ℕ → ℕ) where
  -- `ppm_hash_pid`, with `PPM_HASH_MASK` 0xff
  abbrev pub ppm_hash_pid : ℕ → ℕ
  ppm_hash_pid pid = hash_pid pid % 256

  pub find_ppm : Procs → ℕ → Option Ppm
  unfolding ppm_in_chain
  find_ppm s pid = ppm_in_chain (s.ppm_hash_table (ppm_hash_pid pid)) pid

  -- `comm` keeps 15 bytes and a zero.
  pub add_ppm_hash : Procs → ℕ → List ℕ → Ppm × Procs
  unfolding find_ppm
  add_ppm_hash s pid name =
      let hash_idx = ppm_hash_pid pid in
      let ppm : Ppm = record { pid = pid; comm = take 15 name } in
      elim (find_ppm s pid) [
        | some old ↦ (old, s)
        | none ↦ (
          ppm,
          record s {
            ppm_hash_table = write s.ppm_hash_table hash_idx (ppm ∷ s.ppm_hash_table hash_idx);
          },
        )
      ]

  pub find_process_name : Procs → ℕ → Option (List ℕ)
  unfolding find_ppm
  find_process_name s pid = elim (find_ppm s pid) [ none ↦ none | some ppm ↦ some ppm.comm ]

  abbrev pub ppi_hash_pid : ℕ → ℕ
  ppi_hash_pid pid = hash_pid pid % 256

  abbrev pub ppi_hash_name : List ℕ → ℕ
  ppi_hash_name name = hash_name name % 256

  pub ppi_hash : Procs → Ppi → ℕ
  ppi_hash s ppi =
      if s.ppi_hash_by_pid then ppi_hash_pid ppi.ppm.pid else ppi_hash_name ppi.ppm.comm

  pub add_ppi_to_hash : Procs → ℕ → Procs
  unfolding ppi_hash
  add_ppi_to_hash s i =
      let hash_idx = ppi_hash s (s.heap i) in
      record s { ppi_hash_table = write s.ppi_hash_table hash_idx (i ∷ s.ppi_hash_table hash_idx) }

  pub find_ppi_by_name : Procs → List ℕ → Option ℕ
  unfolding name_in_chain
  find_ppi_by_name s name = name_in_chain s.heap (s.ppi_hash_table (ppi_hash_name name)) name

  pub find_ppi_by_pid : Procs → ℕ → Option ℕ
  unfolding pid_in_chain
  find_ppi_by_pid s pid = pid_in_chain s.heap (s.ppi_hash_table (ppi_hash_pid pid)) pid

  -- `ppi->more_than_one = 1` where the process that bears the name has another pid
  pub mark_shared : Procs → ℕ → ℕ → Procs
  mark_shared s i pid =
      if (s.heap i).ppm.pid == pid
      then s
      else record s { heap = write s.heap i (record (s.heap i) { more_than_one = true }) }

  pub find_ppi : Procs → ℕ → Option ℕ × Procs
  find_ppi s pid =
      if s.ppi_hash_by_pid then (find_ppi_by_pid s pid, s) else elim (find_process_name s pid) [
        | none ↦ (none, s)
        | some name ↦ elim (find_ppi_by_name s name) [
          | none ↦ (none, s)
          | some i ↦ (some i, mark_shared s i pid)
        ]
      ]

  pub add_ppi_to_list : Procs → ℕ → Procs
  add_ppi_to_list s i = record s {
    ppi_list = i ∷ s.ppi_list;
    ppi_list_entries = s.ppi_list_entries + 1;
  }

  -- "unknown"
  abbrev pub unknown : List ℕ
  unknown = 117 ∷ 110 ∷ 107 ∷ 110 ∷ 111 ∷ 119 ∷ 110 ∷ []

  -- `malloc` and `memset`, with the entry of the pid
  pub alloc_ppi : Procs → Ppm → ℕ × Procs
  alloc_ppi s ppm =
      (s.fresh, record s { heap = write s.heap s.fresh (new_ppi ppm); fresh = s.fresh + 1 })

  -- the entry of the pid, made where there is none
  pub ppm_or_unknown : Procs → ℕ → Ppm × Procs
  unfolding find_ppm add_ppm_hash
  ppm_or_unknown s pid = elim (find_ppm s pid) [
    | none ↦ add_ppm_hash s pid unknown
    | some ppm ↦ (ppm, s)
  ]

  pub link_process : Procs → Ppm → ℕ × Procs
  unfolding add_ppi_to_hash add_ppi_to_list alloc_ppi
  link_process s ppm = let (i, s) = alloc_ppi s ppm in (i, add_ppi_to_list (add_ppi_to_hash s i) i)

  -- `find_process_io_stats` where `find_ppi` has found nothing
  pub new_process : Procs → ℕ → ℕ × Procs
  unfolding ppm_or_unknown link_process
  new_process s pid = let (ppm, s) = ppm_or_unknown s pid in link_process s ppm

  -- the object whose `io_stats` the source returns a pointer to
  pub find_process_io_stats : Procs → ℕ → ℕ × Procs
  find_process_io_stats s pid =
      let (found, s) = find_ppi s pid in elim found [ none ↦ new_process s pid | some i ↦ (i, s) ]

  -- `ios = find_process_io_stats(pid)` and an update through `ios`
  pub with_process_io_stats : Procs → ℕ → (IoStats → IoStats) → Procs
  with_process_io_stats s pid f =
      let (i, s) = find_process_io_stats s pid in
      record s { heap = write s.heap i (record (s.heap i) { io_stats = f (s.heap i).io_stats }) }
