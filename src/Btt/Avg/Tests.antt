-- ===== src/Btt/Avg/Tests.antt =====
-- Averages at concrete times.
use iovisualization.Prelude.{◌≡◌, refl, [], ◌∷◌}
use iovisualization.Btt.Avg.{AvgInfo, avg_update}
use iovisualization.Btt.Avg.Laws.{update_all}

abbrev seen : AvgInfo
seen = record { min_time = 2; max_time = 9; total = 16; n = 3 }

three_times : update_all (2 ∷ 9 ∷ 5 ∷ []) ≡ seen
unfolding update_all avg_update
three_times = refl
