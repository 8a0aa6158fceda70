-- ===== src/Iowatcher/Pids.antt =====
-- server-proto/iowatcher/blkparse.c, lines 296 to 359 and 1019 to 1050: the processes of a trace, each with the index
-- of its plots. `print_pid` is what sprintf prints of a pid.
pub mod Bounds
pub mod First
pub mod Tests
use Prim.Native.Nat.{bit_xor}
use iovisualization.Prelude.{
  ℕ, ◌+◌, ◌/◌, ◌%◌, ◌^◌, Bool, true, false, ◌&&◌, not, Option, none, some, List, [], ◌∷◌, ◌++◌,
  ◌==◌, if◌then◌else◌,
}

-- `struct pid_map`
pub record PidMap : Type 0 where
  pub pid : ℕ
  pub index : ℕ
  pub name : List ℕ

-- `strcmp`
unfoldable pub same_text : List ℕ → List ℕ → Bool
same_text [] [] = true
same_text [] (c ∷ cs) = false
same_text (b ∷ bs) [] = false
same_text (b ∷ bs) (c ∷ cs) = let rest = same_text bs cs in b == c && rest

-- the slot of a pid
unfoldable pub slot_of : ℕ → ℕ
slot_of pid =
    bit_xor (bit_xor (bit_xor (bit_xor pid (pid / 2 ^ 3)) (pid / 2 ^ 3)) (pid / 2 ^ 4))
      (pid / 2 ^ 6)
    % 128

-- the first node of a chain with the pid; what is written through the pointer to it; and `list_del` of it
unfoldable pub find_pid : List PidMap → ℕ → Option PidMap
find_pid [] pid = none
find_pid (pm ∷ chain) pid = let rest = find_pid chain pid in if pm.pid == pid then some pm else rest

unfoldable pub write_pid : List PidMap → ℕ → (PidMap → PidMap) → List PidMap
write_pid [] pid f = []
write_pid (pm ∷ chain) pid f =
    let rest = write_pid chain pid f in if pm.pid == pid then f pm ∷ chain else pm ∷ rest

unfoldable pub del_pid : List PidMap → ℕ → List PidMap
del_pid [] pid = []
del_pid (pm ∷ chain) pid =
    let rest = del_pid chain pid in if pm.pid == pid then chain else pm ∷ rest

abbrev pub PidTable : Type 0
PidTable = ℕ → List PidMap

unfoldable pub with_pids : PidTable → ℕ → List PidMap → PidTable
with_pids table pid chain = λ slot. if slot == slot_of pid then chain else table slot

unfoldable pub process_hash_search : ℕ → PidTable → Option PidMap
process_hash_search pid table = find_pid (table (slot_of pid)) pid

-- whether the name, if there is one, is another
unfoldable pub renames : Option (List ℕ) → PidMap → Bool
renames none pm = false
renames (some name) pm = not (same_text name pm.name)

-- the end of `process_hash_insert`, with the chain without the old node
unfoldable pub new_pid_map :
    (ℕ → List ℕ) → ℕ → Option (List ℕ) → ℕ → List PidMap → PidTable → PidMap × PidTable
new_pid_map print_pid pid name old_index chain table =
    let text = elim name as (λ _. List ℕ) [ none ↦ print_pid pid | some n ↦ n ] in
    let pm : PidMap = record { pid = pid; index = old_index; name = text } in
    (pm, with_pids table pid (chain ++ (pm ∷ [])))

unfoldable pub process_hash_insert :
    (ℕ → List ℕ) → ℕ → Option (List ℕ) → PidTable → PidMap × PidTable
process_hash_insert print_pid pid name table =
    let chain = table (slot_of pid) in
    elim (process_hash_search pid table) [
      | none ↦ new_pid_map print_pid pid name 0 chain table
      | some pm ↦
          if renames name pm
          then new_pid_map print_pid pid name pm.index (del_pid chain pid) table
          else (pm, table)
    ]

-- the numbers of plots of a trace, and those that there is room for
pub record Plots : Type 0 where
  pub io_plots : ℕ
  pub io_plots_allocated : ℕ

-- one more plot
unfoldable pub grow_plots : Plots → Plots
grow_plots tf = record {
  io_plots = tf.io_plots + 1;
  io_plots_allocated =
      if tf.io_plots == tf.io_plots_allocated
      then tf.io_plots_allocated + 16
      else tf.io_plots_allocated;
}

-- `get_pid_map` with the processes told apart: the index of the process
unfoldable pub get_pid_map : (ℕ → List ℕ) → ℕ → PidTable × Plots → ℕ × PidTable × Plots
get_pid_map print_pid pid (table, tf) =
    let (pm, table') = process_hash_insert print_pid pid none table in
    if pm.index == 0
    then (
      tf.io_plots,
      with_pids table' pid
          (write_pid (table' (slot_of pid)) pid (λ p. record p { index = tf.io_plots })),
      grow_plots tf,
    )
    else (pm.index, table', tf)
