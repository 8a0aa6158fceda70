-- ===== src/Btt/Range/Laws.antt =====
-- What the ranges of a region say of the times that were given.
use iovisualization.Prelude.{
  ℕ, ◌-◌, ◌≤◌, ◌<◌, ◌≡◌, Bool, true, false, ◌&&◌, ◌||◌, List, [], ◌∷◌, arith, leb,
}
use iovisualization.Btt.Range.{RangeInfo, update_range}

abbrev pub in_ranges : List RangeInfo → ℕ → Bool
in_ranges [] t = false
in_ranges (r ∷ ranges) t = (leb r.start t && leb t r.end) || in_ranges ranges t

-- no time is after the last range
abbrev pub Reaches : List RangeInfo → ℕ → Type 0
Reaches [] t = ⊥
Reaches (r ∷ ranges) t = t < r.end

module _ (near : ℕ → Bool) where
  -- a range begins far from the end of the one before
  abbrev pub Apart : ℕ → List RangeInfo → Type 0
  Apart start [] = Unit {0}
  Apart start (r ∷ ranges) = (r.end ≤ start) × (near (start - r.end) ≡ false)

  -- Ranges are in order, and the gap before each is one that `near` refuses.
  abbrev pub IsRegion : List RangeInfo → Type 0
  IsRegion [] = Unit {0}
  IsRegion (r ∷ ranges) = (r.start ≤ r.end) × Apart r.start ranges × IsRegion ranges

  -- Whatever time comes next, ranges that are in order with gaps that `near` refuses stay so; a
  -- time before the end of the last range changes nothing, any other is in a range afterwards;
  -- and no time that was in a range leaves it.
  pub update_range_lem :
      (ranges : List RangeInfo) (time : ℕ)
      → IsRegion ranges
      → IsRegion (update_range near ranges time)
        × (Reaches ranges time → update_range near ranges time ≡ ranges)
        × (¬ Reaches ranges time → in_ranges (update_range near ranges time) time ≡ true)
        × ((t : ℕ) → in_ranges ranges t ≡ true → in_ranges (update_range near ranges time) t ≡ true)
  unfolding update_range
  update_range_lem [] time v = ((omega arith, tt, tt), λ h. absurd h, λ h. ground arith, λ t h. cc)
  update_range_lem (r ∷ ranges) time v =
      (ground arith, λ h. ground arith, λ h. ground arith, λ t h. ground arith)
