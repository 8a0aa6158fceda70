-- ===== src/Btt/Range/Tests.antt =====
-- Ranges at concrete times, with gaps of less than 10.
use iovisualization.Prelude.{ℕ, ◌≡◌, refl, Bool, [], ◌∷◌, ltb}
use iovisualization.Btt.Range.{RangeInfo, update_range}

abbrev near : ℕ → Bool
near delta = ltb delta 10

abbrev range : ℕ → ℕ → RangeInfo
range a b = record { start = a; end = b }

extends : update_range near (range 3 8 ∷ []) 12 ≡ range 3 12 ∷ []
unfolding update_range
extends = refl
