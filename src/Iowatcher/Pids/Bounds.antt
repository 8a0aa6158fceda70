-- ===== src/Iowatcher/Pids/Bounds.antt =====
-- The indices of the processes are inside the arrays of plots.
use iovisualization.Prelude.{
  ℕ, ◌≤◌, ◌<◌, ◌≡◌, refl, sym, ◌∙◌, inl, inr, Option, none, some, List, [], ◌∷◌, ◌++◌, arith, ◌==◌,
  if◌then◌else◌, Bool-cases,
}
use mathlib.Core.Path.{subst}
use iovisualization.Iowatcher.Pids.{
  PidMap, slot_of, find_pid, write_pid, del_pid, PidTable, with_pids, process_hash_search, renames,
  new_pid_map, process_hash_insert, Plots, grow_plots, get_pid_map,
}

-- every index of the chain is below `n`
abbrev pub Below : ℕ → List PidMap → Type 0
Below n [] = Unit
Below n (pm ∷ chain) = (pm.index < n) × Below n chain

-- The plots fit their arrays, of which there is at least one place, and so do the indices given out.
pub record IsPlotted (table : PidTable) (tf : Plots) : Type 0 where
  pub room : tf.io_plots ≤ tf.io_plots_allocated
  pub some_room : 0 < tf.io_plots_allocated
  pub indices : (slot : ℕ) → Below tf.io_plots_allocated (table slot)

is_there : {a : PidMap} → ¬ (some a ≡ none)
is_there e = cc

wider-Below : (n n' : ℕ) (chain : List PidMap) → n ≤ n' → Below n chain → Below n' chain
wider-Below n n' [] h r = tt
wider-Below n n' (pm ∷ chain) h (lt, r) = (omega (arith, lt, h), wider-Below n n' chain h r)

added-Below :
    (n : ℕ) (chain : List PidMap) (pm : PidMap)
    → Below n chain
    → pm.index < n
    → Below n (chain ++ (pm ∷ []))
added-Below n [] pm r lt = (lt, tt)
added-Below n (x ∷ chain) pm (lt', r) lt = (lt', added-Below n chain pm r lt)

del_pid-Below :
    (n : ℕ) (chain : List PidMap) (pid : ℕ) → Below n chain → Below n (del_pid chain pid)
unfolding del_pid
del_pid-Below n [] pid r = tt
del_pid-Below n (pm ∷ chain) pid (lt, r) = elim (Bool-cases (pm.pid == pid)) [
  | inl e ↦ rw e r
  | inr e ↦ rw e (lt, del_pid-Below n chain pid r)
]

write_pid-Below :
    (n i : ℕ) (chain : List PidMap) (pid : ℕ)
    → i < n
    → Below n chain
    → Below n (write_pid chain pid (λ p. record p { index = i }))
unfolding write_pid
write_pid-Below n i [] pid h r = tt
write_pid-Below n i (pm ∷ chain) pid h (lt, r) = elim (Bool-cases (pm.pid == pid)) [
  | inl e ↦ rw e (h, r)
  | inr e ↦ rw e (lt, write_pid-Below n i chain pid h r)
]

found-Below :
    (n : ℕ) (chain : List PidMap) (pid : ℕ) (pm : PidMap)
    → Below n chain
    → find_pid chain pid ≡ some pm
    → pm.index < n
unfolding find_pid
found-Below n [] pid pm r e = absurd (is_there (sym e))
found-Below n (x ∷ chain) pid pm (lt, r) e = elim (Bool-cases (x.pid == pid)) [
  | inl h ↦
      let same : some x ≡ some pm = sym (rw h refl) ∙ e in
      let same' : x ≡ pm = cc in subst (λ (y : PidMap). y.index < n) same' lt
  | inr h ↦ found-Below n chain pid pm r (sym (rw h refl) ∙ e)
]

with_pids-Below :
    (n : ℕ) (table : PidTable) (pid : ℕ) (chain : List PidMap)
    → ((slot : ℕ) → Below n (table slot))
    → Below n chain
    → (slot : ℕ) → Below n (with_pids table pid chain slot)
unfolding with_pids
with_pids-Below n table pid chain r c slot = elim (Bool-cases (slot == slot_of pid)) [
  | inl e ↦ rw e c
  | inr e ↦ rw e (r slot)
]

-- all indices below `n`, that of the node returned too
abbrev AllBelow : ℕ → PidMap × PidTable → Type 0
AllBelow n (pm, table) = (pm.index < n) × ((slot : ℕ) → Below n (table slot))

new_pid_map-AllBelow :
    (print_pid : ℕ → List ℕ) (n pid : ℕ) (name : Option (List ℕ)) (i : ℕ) (chain : List PidMap)
    (table : PidTable)
    → i < n
    → Below n chain
    → ((slot : ℕ) → Below n (table slot))
    → AllBelow n (new_pid_map print_pid pid name i chain table)
unfolding new_pid_map
new_pid_map-AllBelow print_pid n pid name i chain table lt c r =
    (lt, with_pids-Below n table pid _ r (added-Below n chain _ c lt))

-- what `process_hash_insert` does with what its search has found
after_search :
    (print_pid : ℕ → List ℕ) (n pid : ℕ) (name : Option (List ℕ)) (table : PidTable)
    (o : Option PidMap)
    → 0 < n
    → ((slot : ℕ) → Below n (table slot))
    → find_pid (table (slot_of pid)) pid ≡ o
    → AllBelow n (elim o as (λ _. PidMap × PidTable) [
      | none ↦ new_pid_map print_pid pid name 0 (table (slot_of pid)) table
      | some pm ↦
          if renames name pm
          then new_pid_map print_pid pid name pm.index (del_pid (table (slot_of pid)) pid) table
          else (pm, table)
    ])
after_search print_pid n pid name table none lt r e =
    new_pid_map-AllBelow print_pid n pid name 0 (table (slot_of pid)) table lt (r (slot_of pid)) r
after_search print_pid n pid name table (some pm) lt r e =
    let inside = found-Below n (table (slot_of pid)) pid pm (r (slot_of pid)) e in
    elim (Bool-cases (renames name pm)) [
      | inl h ↦ rw h (
          new_pid_map-AllBelow print_pid n pid name pm.index (del_pid (table (slot_of pid)) pid)
            table inside (del_pid-Below n (table (slot_of pid)) pid (r (slot_of pid))) r)
      | inr h ↦ rw h (inside, r)
    ]

insert-AllBelow :
    (print_pid : ℕ → List ℕ) (n pid : ℕ) (name : Option (List ℕ)) (table : PidTable)
    → 0 < n
    → ((slot : ℕ) → Below n (table slot))
    → AllBelow n (process_hash_insert print_pid pid name table)
unfolding process_hash_insert process_hash_search
insert-AllBelow print_pid n pid name table lt r =
    after_search print_pid n pid name table (find_pid (table (slot_of pid)) pid) lt r refl

grow_plots_lem :
    (tf : Plots)
    → tf.io_plots ≤ tf.io_plots_allocated
    → let tf' = grow_plots tf in
      (tf.io_plots < tf'.io_plots_allocated)
      × (tf'.io_plots ≤ tf'.io_plots_allocated)
      × (tf.io_plots_allocated ≤ tf'.io_plots_allocated)
unfolding grow_plots
grow_plots_lem tf h = elim (Bool-cases (tf.io_plots == tf.io_plots_allocated)) [
  | inl e ↦ rw e (ground (arith, e), ground (arith, e), omega arith)
  | inr e ↦ rw e (ground (arith, e, h), ground (arith, e, h), omega arith)
]

-- the index is inside the arrays, and so are all indices after
abbrev pub Inside : ℕ × PidTable × Plots → Type 0
Inside (i, table, tf) = (i < tf.io_plots_allocated) × IsPlotted table tf

-- what `get_pid_map` does with the node that it has got
after_insert :
    (pid : ℕ) (tf : Plots) (out : PidMap × PidTable)
    → tf.io_plots ≤ tf.io_plots_allocated
    → 0 < tf.io_plots_allocated
    → AllBelow tf.io_plots_allocated out
    → Inside (
        if out.0.index == 0
        then (
          tf.io_plots,
          with_pids out.1 pid
              (write_pid (out.1 (slot_of pid)) pid (λ p. record p { index = tf.io_plots })),
          grow_plots tf,
        )
        else (out.0.index, out.1, tf))
after_insert pid tf (pm, table) h some_room (lt, r) = elim (Bool-cases (pm.index == 0)) [
  | inl e ↦
      let (new, room, more) = grow_plots_lem tf h in
      let n = (grow_plots tf).io_plots_allocated in
      let wide : (slot : ℕ) → Below n (table slot) =
        λ slot. wider-Below tf.io_plots_allocated n (table slot) more (r slot) in
      rw e (
        new,
        record {
          room = room;
          some_room = omega (arith, some_room, more);
          indices =
              with_pids-Below n table pid _ wide
                (write_pid-Below n tf.io_plots (table (slot_of pid)) pid new (wide (slot_of pid)));
        },
      )
  | inr e ↦ rw e (lt, record { room = h; some_room = some_room; indices = r })
]

-- With the plots and the indices given out inside the arrays of plots: the index that `get_pid_map` gives for
-- any process is inside them too, and they stay so, also when the arrays grow.
pub get_pid_map-Inside :
    (print_pid : ℕ → List ℕ) (pid : ℕ) (table : PidTable) (tf : Plots)
    → IsPlotted table tf
    → Inside (get_pid_map print_pid pid (table, tf))
unfolding get_pid_map
get_pid_map-Inside print_pid pid table tf r =
    after_insert pid tf (process_hash_insert print_pid pid none table) r.room r.some_room
      (insert-AllBelow print_pid tf.io_plots_allocated pid none table r.some_room r.indices)

-- A name that a notify record gives to a process keeps the indices inside.
pub named-IsPlotted :
    (print_pid : ℕ → List ℕ) (pid : ℕ) (name : List ℕ) (table : PidTable) (tf : Plots)
    → IsPlotted table tf
    → IsPlotted (process_hash_insert print_pid pid (some name) table).1 tf
named-IsPlotted print_pid pid name table tf r = record {
  room = r.room;
  some_room = r.some_room;
  indices =
      (insert-AllBelow print_pid tf.io_plots_allocated pid (some name) table r.some_room
        r.indices).1;
}
