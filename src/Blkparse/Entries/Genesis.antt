-- ===== src/Blkparse/Entries/Genesis.antt =====
-- The start of a trace: the earliest of the times read.
use iovisualization.Prelude.{
  ℕ, ◌≤◌, ◌≡◌, refl, sym, ◌⊎◌, inl, inr, Bool, true, false, List, [], ◌∷◌, arith, ltb,
  if◌then◌else◌, u64_max,
}
use iovisualization.Blkparse.Sort.{Tr, genesis_from, find_genesis}

-- no record is earlier than a time
abbrev pub AllFrom : ℕ → List Tr → Type 0
AllFrom g [] = Unit {0}
AllFrom g (t ∷ ts) = (g ≤ t.bit.time) × AllFrom g ts

-- the time of one of the records
abbrev pub IsTimeOf : ℕ → List Tr → Type 0
IsTimeOf g [] = ⊥
IsTimeOf g (t ∷ ts) = (t.bit.time ≡ g) ⊎ IsTimeOf g ts

-- The earliest time of the records, where 2^64 - 1 stands for that of none.
pub record IsEarliest (g : ℕ) (ts : List Tr) : Type 0 where
  pub below : AllFrom g ts
  pub met : IsTimeOf g ts ⊎ (g ≡ u64_max)

earliest_from :
    (trace_list : List Tr) (g : ℕ)
    → (genesis_from g trace_list ≤ g) × AllFrom (genesis_from g trace_list) trace_list
unfolding genesis_from
earliest_from [] g = (omega arith, tt)
earliest_from (t ∷ trace_list) g =
    let (le, all) = earliest_from trace_list (if ltb t.bit.time g then t.bit.time else g) in
    (ground (arith, le), (ground (arith, le), all))

-- the time of one of the records, or the one that stood before them
abbrev Met : ℕ → ℕ → List Tr → Type 0
Met r g ts = IsTimeOf r ts ⊎ (r ≡ g)

Met-first :
    (t : Tr) (ts : List Tr) (g r : ℕ) (b : Bool)
    → Met r (if b then t.bit.time else g) ts
    → Met r g (t ∷ ts)
Met-first t ts g r b (inl h) = inl (inr h)
Met-first t ts g r true (inr h) = inl (inl (sym h))
Met-first t ts g r false (inr h) = inr h

Met-from : (trace_list : List Tr) (g : ℕ) → Met (genesis_from g trace_list) g trace_list
unfolding genesis_from
Met-from [] g = inr refl
Met-from (t ∷ trace_list) g =
    let next = if ltb t.bit.time g then t.bit.time else g in
    Met-first t trace_list g (genesis_from next trace_list) (ltb t.bit.time g)
      (Met-from trace_list next)

pub find_genesis-IsEarliest :
    (trace_list : List Tr) → IsEarliest (find_genesis trace_list) trace_list
unfolding find_genesis
find_genesis-IsEarliest trace_list = record {
  below = (earliest_from trace_list u64_max).1;
  met = Met-from trace_list u64_max;
}
