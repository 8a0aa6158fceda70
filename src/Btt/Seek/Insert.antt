-- ===== src/Btt/Seek/Insert.antt =====
-- The tree of buckets against the list of buckets.
use iovisualization.Prelude.{ℕ, ◌≡◌, refl, sym, ◌∙◌, inl, inr, arith, ltb, ltb→lt, Bool-cases}
use iovisualization.Prelude.Tree.{Tree, leaf, node, inorder, RbTree}
use iovisualization.Prelude.Ordered.{IsOrdered-Around}
use iovisualization.Btt.Seek.{SeekBkt, find_bkt, insert}
use iovisualization.Btt.Seek.Tally.{
  sectors_of, IsKeyed, tally, tally-before, tally-after, tally-here, tally-new,
}

find_bkt-tally :
    (t : Tree SeekBkt) (d : ℕ)
    → IsKeyed (inorder t)
    → inorder (find_bkt t d).1 ≡ tally (inorder t) d
unfolding find_bkt
find_bkt-tally leaf d v = tally-new d
find_bkt-tally (node l x r) d v =
    let w = IsOrdered-Around sectors_of sectors_of (inorder l) x (inorder r) v in
    elim (Bool-cases (ltb d x.sectors)) [
      | inl lt ↦
          rw
            (
              lt,
              tally-before x (inorder r) d (inorder l) (ltb→lt _ _ lt),
              find_bkt-tally l d w.front,
            )
            refl
      | inr ge ↦ elim (Bool-cases (ltb x.sectors d)) [
        | inl gt ↦
            rw
              (
                ge,
                gt,
                tally-after x (inorder r) d (inorder l) w.below (ltb→lt _ _ gt),
                find_bkt-tally r d w.back,
              )
              refl
        | inr le ↦
            rw (ge, le)
              (sym (tally-here x (inorder r) d (inorder l) w.below (ground (arith, ge, le))))
      ]
    ]

-- With the buckets in order of their distances, `__insert` tallies a seek of the distance, whatever the rotations do.
pub insert-tally :
    (rb : RbTree SeekBkt) (t : Tree SeekBkt) (d : ℕ)
    → IsKeyed (inorder t)
    → inorder (insert rb t d) ≡ tally (inorder t) d
unfolding insert
insert-tally rb t d v = elim (Bool-cases (find_bkt t d).0) [
  | inl new ↦ rw new (rb.inorder-insert_color (find_bkt t d).1 ∙ find_bkt-tally t d v)
  | inr old ↦ rw old (find_bkt-tally t d v)
]
