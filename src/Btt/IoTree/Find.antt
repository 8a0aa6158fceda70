-- ===== src/Btt/IoTree/Find.antt =====
-- Finding the I/O that holds a sector.
use iovisualization.Prelude.{
  ℕ, ◌+◌, ◌≤◌, ◌<◌, ◌≡◌, refl, ◌∙◌, inl, inr, Bool, ◌&&◌, none, some, List, [], ◌∷◌, ◌++◌, arith,
  leb, ltb, if◌then◌else◌, ltb→lt, Bool-cases, find?, find?-append_none, find?-append_left,
}
use iovisualization.Prelude.Tree.{Tree, leaf, node, inorder}
use iovisualization.Prelude.Ordered.{IsOrdered, Before, After, Around, IsOrdered-Around}
use iovisualization.Btt.IoTree.{Io, bit_start, bit_end, rb_find_sec}

-- one past the first sector of an I/O
abbrev pub after_start : Io → ℕ
after_start iop = bit_start iop + 1

-- I/Os of at least one sector, in order and apart
abbrev pub IsExtents : List Io → Type 0
IsExtents = IsOrdered after_start bit_end

-- the I/O has the sector
abbrev pub holds : ℕ → Io → Bool
holds sec iop = leb (bit_start iop) sec && ltb sec (bit_end iop)

find-Before :
    (xs : List Io) (t sec : ℕ)
    → Before after_start bit_end t xs
    → t ≤ sec + 1
    → find? (holds sec) xs ≡ none
find-Before [] t sec v h = refl
find-Before (x ∷ xs) t sec v h = ground (arith, find-Before xs t sec v.1 h)

find-After :
    (xs : List Io) (t sec : ℕ)
    → After after_start bit_end t xs
    → sec < t
    → find? (holds sec) xs ≡ none
find-After [] t sec v h = refl
find-After (x ∷ xs) t sec v h = ground (arith, find-After xs t sec v.1 h)

find-middle :
    (l r : Tree Io) (x : Io) (sec : ℕ)
    → Around after_start bit_end (inorder l) x (inorder r)
    → find? (holds sec) (inorder l ++ (x ∷ inorder r)) ≡ (
        if ltb sec (bit_start x)
        then find? (holds sec) (inorder l)
        else if leb (bit_end x) sec
        then find? (holds sec) (inorder r)
        else some x)
find-middle l r x sec w = elim (Bool-cases (ltb sec (bit_start x))) [
  | inl lt ↦ rw lt (
      find?-append_left (holds sec) (inorder l) (x ∷ inorder r) (
        ground (
          arith,
          lt,
          find-After (inorder r) (bit_end x) sec w.above (omega (arith, ltb→lt _ _ lt, w.whole)),
        )))
  | inr ge ↦ rw ge (
      find?-append_none (holds sec) (inorder l) (x ∷ inorder r)
        (find-Before (inorder l) (after_start x) sec w.below (ground (arith, ge)))
      ∙ ground (arith, ge, w.whole))
]

-- With the I/Os of the tree of at least one sector each, in order and apart, `rb_find_sec`
-- returns the first I/O in the tree's order that has the sector, and none when no I/O has it.
pub rb_find_sec-find? :
    (t : Tree Io) (sec : ℕ)
    → IsExtents (inorder t)
    → rb_find_sec t sec ≡ find? (holds sec) (inorder t)
unfolding rb_find_sec
rb_find_sec-find? leaf sec v = refl
rb_find_sec-find? (node l x r) sec v =
    let w = IsOrdered-Around after_start bit_end (inorder l) x (inorder r) v in
    rw (rb_find_sec-find? l sec w.front, rb_find_sec-find? r sec w.back, find-middle l r x sec w)
      refl
