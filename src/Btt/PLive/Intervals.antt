-- ===== src/Btt/PLive/Intervals.antt =====
-- Lists of intervals in order, and the times in them.
use iovisualization.Prelude.{ℕ, ◌≡◌, refl, Bool, false, ◌&&◌, ◌||◌, List, [], ◌∷◌, ◌++◌, arith, leb}
use iovisualization.Prelude.Ordered.{IsOrdered}
use iovisualization.Btt.PLive.{PLive}

-- some interval holds the time
abbrev pub live : List PLive → ℕ → Bool
live [] t = false
live (x ∷ xs) t = (leb x.dt t && leb t x.ct) || live xs t

abbrev pub dt_of : PLive → ℕ
dt_of x = x.dt

abbrev pub ct_of : PLive → ℕ
ct_of x = x.ct

-- Each interval is one, and they come in order and do not meet.
abbrev pub IsLive : List PLive → Type 0
IsLive = IsOrdered dt_of ct_of

pub live-append : (xs ys : List PLive) (t : ℕ) → live (xs ++ ys) t ≡ (live xs t || live ys t)
live-append [] ys t = refl
live-append (x ∷ xs) ys t = ground (arith, live-append xs ys t)
