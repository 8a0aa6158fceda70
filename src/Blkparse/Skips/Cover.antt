-- ===== src/Blkparse/Skips/Cover.antt =====
-- Which sequence numbers a list of skips stands for, and what `insert_skip` adds to them.
use iovisualization.Prelude.{
  ℕ, ◌^◌, ◌≤◌, ◌<◌, ◌≡◌, inl, inr, Bool, false, ◌&&◌, ◌||◌, some, List, [], ◌∷◌, arith, leb,
  Option-cases,
}
use iovisualization.Blkparse.Skips.{Skip, in_skip, widen, insert_skip}

-- some node holds the number
abbrev pub covered : List Skip → ℕ → Bool
covered [] seq = false
covered (sip ∷ skips) seq = in_skip sip seq || covered skips seq

-- Sequence numbers have 32 bits in the trace, and 0 is the first.
abbrev pub IsRange : Skip → Type 0
IsRange sip = (0 < sip.start) × (sip.start ≤ sip.end) × (sip.end < 2 ^ 32)

abbrev pub AllRange : List Skip → Type 0
AllRange [] = Unit {0}
AllRange (sip ∷ skips) = IsRange sip × AllRange skips

module _ (start end : ℕ) (lo : 0 < start) (le : start ≤ end) (hi : end < 2 ^ 32) where
  covered-widen :
      (skips : List Skip) (seq : ℕ)
      → AllRange skips
      → {out : List Skip} → widen skips start end ≡ some out
      → covered out seq ≡ ((leb start seq && leb seq end) || covered skips seq)
  unfolding widen
  covered-widen [] seq v e = ground arith
  covered-widen (sip ∷ skips) seq v {out} e = elim (Option-cases (widen skips start end)) [
    | inl n ↦ ground arith
    | inr (o, h) ↦ ground (arith, covered-widen skips seq v.1 h)
  ]

  -- Putting a range of 32-bit numbers from 1 on into a list of proper nodes covers exactly the
  -- numbers of the range besides those covered before.
  pub covered-insert_skip :
      (skips : List Skip) (seq : ℕ)
      → AllRange skips
      → covered (insert_skip skips start end) seq
        ≡ ((leb start seq && leb seq end) || covered skips seq)
  unfolding insert_skip
  covered-insert_skip skips seq v = elim (Option-cases (widen skips start end)) [
    | inl n ↦ ground arith
    | inr (o, h) ↦ ground (arith, covered-widen skips seq v h)
  ]
