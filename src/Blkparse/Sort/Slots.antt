-- ===== src/Blkparse/Sort/Slots.antt =====
-- What the entries of the processors hold, and that making and finding an entry keeps it.
use iovisualization.Prelude.{
  ℕ, zero, suc, ◌+◌, ◌-◌, ◌≤◌, ◌<◌, ◌≡◌, refl, ap, ◌≢◌, ◌⊎◌, inl, inr, true, false, List, [], ◌∷◌,
  ◌++◌, arith, leb, ◌==◌, Bool-cases, length, set, get_or, replicate, length-append, length-set,
  length-replicate,
}
use iovisualization.Prelude.Tree.{inorder}
use iovisualization.Blkparse.Sort.{Tr}
use iovisualization.Blkparse.Sort.Order.{IsSorted}
use iovisualization.Blkparse.Sort.Last.{
  PerCpu, PerDev, no_cpu, init_cpu, init_cpus, resize_cpu_info, get_cpu_info, cpu_at,
}

-- all records of a list are a processor's
abbrev pub AllCpu : ℕ → List Tr → Type 0
AllCpu i [] = Unit {0}
AllCpu i (t ∷ ts) = (t.bit.cpu ≡ i) × AllCpu i ts

pub AllCpu-append : (i : ℕ) (xs ys : List Tr) → AllCpu i (xs ++ ys) → AllCpu i xs × AllCpu i ys
AllCpu-append i [] ys a = (tt, a)
AllCpu-append i (x ∷ xs) ys a = let (b, c) = AllCpu-append i xs ys a.1 in ((a.0, b), c)

pub append-AllCpu : (i : ℕ) (xs ys : List Tr) → AllCpu i xs → AllCpu i ys → AllCpu i (xs ++ ys)
append-AllCpu i [] ys a b = b
append-AllCpu i (x ∷ xs) ys a b = (a.0, append-AllCpu i xs ys a.1 b)

-- the entry of processor `i` holds its own records, in order, and at most `limit` of them
pub record Slot (limit i : ℕ) (pci : PerCpu) : Type 0 where
  pub counted : pci.rb_last_entries ≡ length (inorder pci.rb_last)
  pub within : pci.rb_last_entries ≤ limit
  pub own : AllCpu i (inorder pci.rb_last)
  pub sorted : IsSorted (inorder pci.rb_last)

-- A slot depends on the records alone.
pub like :
    {limit i : ℕ} {pci pci' : PerCpu}
    → Slot limit i pci
    → pci'.rb_last ≡ pci.rb_last
    → pci'.rb_last_entries ≡ pci.rb_last_entries
    → Slot limit i pci'
like s t e = record {
  counted = rw (t, e) s.counted;
  within = rw e s.within;
  own = rw t s.own;
  sorted = rw t s.sorted;
}

no_cpu-Slot : (limit i : ℕ) → Slot limit i no_cpu
no_cpu-Slot limit i = record { counted = refl; within = omega arith; own = tt; sorted = tt }

init_cpu-Slot : (limit i : ℕ) (pci : PerCpu) → Slot limit i pci → Slot limit i (init_cpu pci)
unfolding init_cpu
init_cpu-Slot limit i pci s = elim (Bool-cases (pci.fd == 0)) [
  | inl e ↦ rw e (like (no_cpu-Slot limit i) refl refl)
  | inr e ↦ rw e s
]

-- The slots of a list, with a limit for each.
abbrev pub Slots : (ℕ → ℕ) → List PerCpu → Type 0
Slots limit cpus = (i : ℕ) → Slot (limit i) i (get_or cpus i no_cpu)

get_or-replicate :
    {A : Type 0} (xs : List A) (n i : ℕ) (d : A) → get_or (xs ++ replicate n d) i d ≡ get_or xs i d
get_or-replicate [] zero i d = refl
get_or-replicate [] (suc n) zero d = refl
get_or-replicate [] (suc n) (suc i) d = get_or-replicate [] n i d
get_or-replicate (x ∷ xs) n zero d = refl
get_or-replicate (x ∷ xs) n (suc i) d = get_or-replicate xs n i d

init_cpus_cases :
    (cpus : List PerCpu) (i : ℕ)
    → (get_or (init_cpus cpus) i no_cpu ≡ init_cpu (get_or cpus i no_cpu))
      ⊎ (get_or (init_cpus cpus) i no_cpu ≡ no_cpu)
init_cpus_cases [] i = inr refl
init_cpus_cases (pci ∷ cpus) zero = inl refl
init_cpus_cases (pci ∷ cpus) (suc i) = init_cpus_cases cpus i

pub set_cases :
    {A : Type 0} (xs : List A) (k i : ℕ) (v d : A)
    → k < length xs
    → ((i ≡ k) × (get_or (set xs k v) i d ≡ v))
      ⊎ ((i ≢ k) × (get_or (set xs k v) i d ≡ get_or xs i d))
set_cases [] k i v d h = absurd (omega arith)
set_cases (x ∷ xs) zero zero v d h = inl (refl, refl)
set_cases (x ∷ xs) zero (suc i) v d h = inr (omega arith, refl)
set_cases (x ∷ xs) (suc k) zero v d h = inr (omega arith, refl)
set_cases (x ∷ xs) (suc k) (suc i) v d h = elim (set_cases xs k i v d (omega arith)) [
  | inl (e, g) ↦ inl (ap suc e, g)
  | inr (n, g) ↦ inr (omega (arith, n), g)
]

pub set-Slots :
    (limit : ℕ → ℕ) (cpus : List PerCpu) (k : ℕ) (v : PerCpu)
    → ((i : ℕ) → i ≢ k → Slot (limit i) i (get_or cpus i no_cpu))
    → Slot (limit k) k v
    → k < length cpus
    → Slots limit (set cpus k v)
set-Slots limit cpus k v s n h i = elim (set_cases cpus k i v no_cpu h) [
  | inl (e, g) ↦ rw (g, e) n
  | inr (d, g) ↦ rw g (s i d)
]

resize_cpu_info-Slots :
    (limit : ℕ → ℕ) (pdi : PerDev) (cpu : ℕ)
    → Slots limit pdi.cpus
    → Slots limit (resize_cpu_info pdi cpu).cpus
unfolding resize_cpu_info
resize_cpu_info-Slots limit pdi cpu s i =
    let new = replicate (cpu + 1 - length pdi.cpus) no_cpu in
    elim (init_cpus_cases (pdi.cpus ++ new) i) [
      | inl e ↦
          rw (e, get_or-replicate pdi.cpus (cpu + 1 - length pdi.cpus) i no_cpu)
            (init_cpu-Slot (limit i) i _ (s i))
      | inr e ↦ rw e (no_cpu-Slot (limit i) i)
    ]

length-init_cpus : (cpus : List PerCpu) → length (init_cpus cpus) ≡ length cpus
length-init_cpus [] = refl
length-init_cpus (pci ∷ cpus) = ap suc (length-init_cpus cpus)

length-resize :
    (pdi : PerDev) (cpu : ℕ)
    → length pdi.cpus ≤ cpu
    → length (resize_cpu_info pdi cpu).cpus ≡ cpu + 1
unfolding resize_cpu_info
length-resize pdi cpu h = omega (
  arith,
  h,
  length-init_cpus (pdi.cpus ++ replicate (cpu + 1 - length pdi.cpus) no_cpu),
  length-append pdi.cpus (replicate (cpu + 1 - length pdi.cpus) no_cpu),
  length-replicate (cpu + 1 - length pdi.cpus) no_cpu,
)

resize_nfiles : (pdi : PerDev) (cpu : ℕ) → (resize_cpu_info pdi cpu).nfiles ≡ pdi.nfiles
unfolding resize_cpu_info
resize_nfiles pdi cpu = refl

-- The two ways of `get_cpu_info`.
grow_on :
    (pdi : PerDev) (cpu : ℕ)
    → leb (length pdi.cpus) cpu ≡ true
    → let p = resize_cpu_info pdi cpu in
      get_cpu_info pdi cpu
      ≡ record p { cpus = set p.cpus cpu (record (get_or p.cpus cpu no_cpu) { cpu = cpu }) }
unfolding get_cpu_info
grow_on pdi cpu e = rw e refl

grow_off :
    (pdi : PerDev) (cpu : ℕ)
    → leb (length pdi.cpus) cpu ≡ false
    → get_cpu_info pdi cpu
      ≡ record pdi { cpus = set pdi.cpus cpu (record (get_or pdi.cpus cpu no_cpu) { cpu = cpu }) }
unfolding get_cpu_info
grow_off pdi cpu e = rw e refl

pub get_cpu_info_has : (pdi : PerDev) (cpu : ℕ) → cpu < length (get_cpu_info pdi cpu).cpus
get_cpu_info_has pdi cpu = elim (Bool-cases (leb (length pdi.cpus) cpu)) [
  | inl e ↦
      let p = resize_cpu_info pdi cpu in
      rw (grow_on pdi cpu e) (
        omega (
          arith,
          length-resize pdi cpu (ground (arith, e)),
          length-set p.cpus cpu (record (get_or p.cpus cpu no_cpu) { cpu = cpu }),
        ))
  | inr e ↦
      let h : cpu < length pdi.cpus = ground (arith, e) in
      rw (grow_off pdi cpu e) (
        omega
          (arith, h, length-set pdi.cpus cpu (record (get_or pdi.cpus cpu no_cpu) { cpu = cpu })))
]

touch-Slots :
    (limit : ℕ → ℕ) (cpus : List PerCpu) (cpu : ℕ)
    → Slots limit cpus
    → cpu < length cpus
    → Slots limit (set cpus cpu (record (get_or cpus cpu no_cpu) { cpu = cpu }))
touch-Slots limit cpus cpu s h = set-Slots limit cpus cpu _ (λ i d. s i) (like (s cpu) refl refl) h

pub get_cpu_info-Slots :
    (limit : ℕ → ℕ) (pdi : PerDev) (cpu : ℕ)
    → Slots limit pdi.cpus
    → Slots limit (get_cpu_info pdi cpu).cpus
      × (cpu < length (get_cpu_info pdi cpu).cpus)
      × ((get_cpu_info pdi cpu).nfiles ≡ pdi.nfiles)
get_cpu_info-Slots limit pdi cpu s = elim (Bool-cases (leb (length pdi.cpus) cpu)) [
  | inl e ↦
      let p = resize_cpu_info pdi cpu in
      let n : length p.cpus ≡ cpu + 1 = length-resize pdi cpu (ground (arith, e)) in
      rw (grow_on pdi cpu e) (
        touch-Slots limit p.cpus cpu (resize_cpu_info-Slots limit pdi cpu s) (omega (arith, n)),
        omega (arith, n, length-set p.cpus cpu (record (get_or p.cpus cpu no_cpu) { cpu = cpu })),
        resize_nfiles pdi cpu,
      )
  | inr e ↦
      let h : cpu < length pdi.cpus = ground (arith, e) in
      rw (grow_off pdi cpu e) (
        touch-Slots limit pdi.cpus cpu s h,
        omega
            (arith, h, length-set pdi.cpus cpu (record (get_or pdi.cpus cpu no_cpu) { cpu = cpu })),
        refl,
      )
]

pub get_again :
    (pdi : PerDev) (cpu : ℕ)
    → cpu < length pdi.cpus
    → (cpu_at (get_cpu_info pdi cpu) cpu).rb_last_entries ≡ (cpu_at pdi cpu).rb_last_entries
get_again pdi cpu h =
    rw (grow_off pdi cpu (ground (arith, h)))
      (elim (set_cases pdi.cpus cpu cpu (record (get_or pdi.cpus cpu no_cpu) { cpu = cpu }) no_cpu
        h) [ inl (e, g) ↦ ap (λ (c : PerCpu). c.rb_last_entries) g | inr (n, g) ↦ absurd (n refl) ])
