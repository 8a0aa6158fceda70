-- ===== src/Btt/Range.antt =====
-- server-proto/btt/inlines.h, lines 28 to 80: the times at which a device or process was active, as
-- ranges in the order of time. The list has the last range first.
-- `near` is the test `BIT_TIME(delta) < range_delta` of C's doubles, at a difference of times.
pub mod Laws
pub mod Tests
use iovisualization.Prelude.{ℕ, ◌-◌, Bool, List, [], ◌∷◌, ltb, if◌then◌else◌}

-- `struct range_info`
pub record RangeInfo : Type 0 where
  pub start : ℕ
  pub end : ℕ

-- `struct region_info`
pub record RegionInfo : Type 0 where
  pub qranges : List RangeInfo
  pub cranges : List RangeInfo

unfoldable pub region_init : RegionInfo
region_init = record { qranges = []; cranges = [] }

module _ (near : ℕ → Bool) where
  unfoldable pub update_range : List RangeInfo → ℕ → List RangeInfo
  update_range [] time = record { start = time; end = time } ∷ []
  update_range (rip ∷ ranges) time =
      if ltb time rip.end
      then rip ∷ ranges
      else if near (time - rip.end)
      then record rip { end = time } ∷ ranges
      else record { start = time; end = time } ∷ rip ∷ ranges

  unfoldable pub update_qregion : RegionInfo → ℕ → RegionInfo
  unfolding update_range
  update_qregion reg time = record reg { qranges = update_range reg.qranges time }

  unfoldable pub update_cregion : RegionInfo → ℕ → RegionInfo
  unfolding update_range
  update_cregion reg time = record reg { cranges = update_range reg.cranges time }
