-- ===== src/Blkparse/CpuMap/Laws.antt =====
-- What the maps of processors tell.
use iovisualization.Prelude.{
  ℕ, zero, suc, ◌*◌, ◌/◌, ◌≤◌, ◌<◌, ◌≡◌, refl, sym, ap, ◌∙◌, ◌↔◌, inl, inr, Bool, true, false, ◌||◌,
  List, [], ◌∷◌, arith, ltb, ◌==◌, ltb→lt, Bool-cases, set,
}
use iovisualization.Prelude.Tree.{Tree, inorder}
use iovisualization.Blkparse.Sort.{Tr}
use iovisualization.Blkparse.CpuMap.{
  CpuMap, with_bit, mark_seen, lacking, new_map, check_cpu_map, cpu_is_online,
}

-- a record of the processor is among them
unfoldable pub has_cpu : ℕ → List Tr → Bool
has_cpu i [] = false
has_cpu i (t ∷ traces) = i == t.bit.cpu || has_cpu i traces

mark_seen_lem :
    (traces : List Tr) (map : ℕ → Bool) (i : ℕ)
    → mark_seen traces map i ≡ (has_cpu i traces || map i)
unfolding mark_seen has_cpu with_bit
mark_seen_lem [] map i = refl
mark_seen_lem (t ∷ traces) map i =
    ground (arith, mark_seen_lem traces (with_bit map t.bit.cpu true) i)

-- Nothing is lacking exactly if every bit of the first map is in the second.
lacking_none :
    (online seen : ℕ → Bool) (n : ℕ)
    → ((i : ℕ) → i < n → online i ≡ true → seen i ≡ true)
    → lacking online seen n ≡ false
unfolding lacking
lacking_none online seen zero h = refl
lacking_none online seen (suc n) h =
    ground (arith, h n (omega arith), lacking_none online seen n (λ i lt. h i (omega arith)))

lacking_all :
    (online seen : ℕ → Bool) (n i : ℕ)
    → lacking online seen n ≡ false
    → i < n
    → online i ≡ true
    → seen i ≡ true
unfolding lacking
lacking_all online seen zero i e lt on = absurd (omega arith)
lacking_all online seen (suc n) i e lt on = elim (Bool-cases (i == n)) [
  | inl same ↦ ground (arith, same, e, on, ap online {x = i} {y = n}, ap seen {x = i} {y = n})
  | inr other ↦ lacking_all online seen n i (ground (arith, e)) (ground (arith, other, lt)) on
]

check_zero :
    (garbage : ℕ → Bool) (root : Tree Tr) (pdi : CpuMap)
    → (check_cpu_map garbage root pdi ≡ 0) ↔ (
        lacking pdi.bits (mark_seen (inorder root) (new_map garbage)) (pdi.cpu_map_max / 64 * 64)
        ≡ false)
unfolding check_cpu_map
check_zero garbage root pdi = (λ e. ground (arith, e), λ e. ground (arith, e))

new_map_low : (garbage : ℕ → Bool) (i : ℕ) → i < 64 → new_map garbage i ≡ false
unfolding new_map
new_map_low garbage i h = ground (arith, h)

new_map_high : (garbage : ℕ → Bool) (i : ℕ) → 64 ≤ i → new_map garbage i ≡ garbage i
unfolding new_map
new_map_high garbage i h = ground (arith, h)

seen_low :
    (garbage : ℕ → Bool) (traces : List Tr) (i : ℕ)
    → i < 64
    → mark_seen traces (new_map garbage) i ≡ has_cpu i traces
seen_low garbage traces i h =
    mark_seen_lem traces (new_map garbage) i ∙ rw (new_map_low garbage i h) (ground arith)

-- For a map of one word: the result is 0 exactly if every processor that is online has a record in
-- the tree, whatever `malloc` gives.
pub check_cpu_map_lem :
    (garbage : ℕ → Bool) (root : Tree Tr) (pdi : CpuMap)
    → pdi.cpu_map_max ≡ 64
    → (check_cpu_map garbage root pdi ≡ 0)
      ↔ ((i : ℕ) → i < 64 → cpu_is_online pdi i ≡ true → has_cpu i (inorder root) ≡ true)
check_cpu_map_lem garbage root pdi one =
    let seen = mark_seen (inorder root) (new_map garbage) in
    let n = pdi.cpu_map_max / 64 * 64 in
    let (to, from) = check_zero garbage root pdi in
    (
      λ e i lt on.
          sym (seen_low garbage (inorder root) i lt)
          ∙ lacking_all pdi.bits seen n i (to e) (omega (arith, one, lt)) on,
      λ all. from (
          lacking_none pdi.bits seen n (λ i lt on.
            let low : i < 64 = omega (arith, one, lt) in
            seen_low garbage (inorder root) i low ∙ all i low on)),
    )

-- Where the memory that `malloc` gives has all its bits set behind the first word: the result is 0 as
-- soon as the online processors below 64 have records in the tree, whether or not the others have.
pub check_cpu_map_reads_garbage :
    (garbage : ℕ → Bool) (root : Tree Tr) (pdi : CpuMap)
    → ((i : ℕ) → 64 ≤ i → garbage i ≡ true)
    → ((i : ℕ) → i < 64 → cpu_is_online pdi i ≡ true → has_cpu i (inorder root) ≡ true)
    → check_cpu_map garbage root pdi ≡ 0
check_cpu_map_reads_garbage garbage root pdi set all =
    let seen = mark_seen (inorder root) (new_map garbage) in
    (check_zero garbage root pdi).1 (
      lacking_none pdi.bits seen (pdi.cpu_map_max / 64 * 64) (λ i lt on.
        elim (Bool-cases (ltb i 64)) [
          | inl low ↦ seen_low garbage (inorder root) i (ltb→lt _ _ low) ∙ all i (ltb→lt _ _ low) on
          | inr high ↦
              let h : 64 ≤ i = ground (arith, high) in
              mark_seen_lem (inorder root) (new_map garbage) i
              ∙ rw (new_map_high garbage i h ∙ set i h) (ground arith)
        ]))
