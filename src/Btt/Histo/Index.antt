-- ===== src/Btt/Histo/Index.antt =====
-- Which sizes have a place in the histogram.
use iovisualization.Prelude.{ℕ, ◌≡◌, List, ◌==◌, if◌then◌else◌, length, get_or, add64}

-- the histogram after one more request of the size `i`
pub record Bumped (histo : List ℕ) (i : ℕ) (histo' : List ℕ) : Type 0 where
  pub size : length histo' ≡ length histo
  pub each :
      (j : ℕ)
      → get_or histo' j 0 ≡ (if j == i then add64 (get_or histo j 0) 1 else get_or histo j 0)
