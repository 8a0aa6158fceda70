-- ===== src/Blkparse/Skips/Total.antt =====
-- The statistics of the lacking sequence numbers.
use iovisualization.Prelude.{
  ℕ, ◌+◌, ◌-◌, ◌^◌, ◌≤◌, ◌<◌, ◌≡◌, inl, inr, some, List, [], ◌∷◌, arith, Option-cases, add64,
}
use iovisualization.Blkparse.Skips.{Skip, widen, insert_skip, collect_skips}
use iovisualization.Blkparse.Skips.Cover.{AllRange}

module _ (start end : ℕ) (lo : 0 < start) (le : start ≤ end) (hi : end < 2 ^ 32) where
  collect_skips-widen :
      (skips : List Skip) (seq : ℕ)
      → AllRange skips
      → {out : List Skip} → widen skips start end ≡ some out
      → ((collect_skips out).0 ≡ (collect_skips skips).0)
        × ((collect_skips out).1 ≡ add64 (collect_skips skips).1 (end - start + 1))
  unfolding widen collect_skips
  collect_skips-widen [] seq v e = cc
  collect_skips-widen (sip ∷ skips) seq v {out} e = elim (Option-cases (widen skips start end)) [
    | inl n ↦ ground arith
    | inr (o, h) ↦ ground (arith, collect_skips-widen skips seq v.1 h)
  ]

  -- Putting a range of 32-bit numbers from 1 on into a list of proper nodes raises the total by
  -- the length of the range, whether a node is widened or a new one made.
  pub collect_skips-insert_skip :
      (skips : List Skip)
      → AllRange skips
      → (collect_skips (insert_skip skips start end)).1
        ≡ add64 (collect_skips skips).1 (end - start + 1)
  unfolding insert_skip collect_skips
  collect_skips-insert_skip skips v = elim (Option-cases (widen skips start end)) [
    | inl n ↦ ground arith
    | inr (o, h) ↦ ground (arith, collect_skips-widen skips 0 v h)
  ]
