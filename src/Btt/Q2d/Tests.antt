-- ===== src/Btt/Q2d/Tests.antt =====
-- Waits of 3, 80 and 2000 milliseconds.
use iovisualization.Prelude.{ℕ, ◌/◌, ◌≡◌, refl, List, [], ◌∷◌}
use iovisualization.Btt.Q2d.{q2d_alloc, q2d_histo_add, q2d_index, bump_histo}
use iovisualization.Btt.Q2d.Buckets.{add_all, Counts, q2d_alloc-IsQ2d, add_all-Counts}

-- whole milliseconds of nanoseconds
abbrev to_msec : ℕ → ℕ
to_msec t = t / 1000000

abbrev waits : List ℕ
waits = 3000000 ∷ 80000000 ∷ 2000000000 ∷ []

three_buckets :
    (add_all to_msec q2d_alloc waits).histos ≡ 1 ∷ 0 ∷ 0 ∷ 0 ∷ 0 ∷ 1 ∷ 0 ∷ 0 ∷ 0 ∷ 1 ∷ []
unfolding add_all q2d_histo_add q2d_index bump_histo
three_buckets = refl

add_all-Counts_example : Counts to_msec q2d_alloc (add_all to_msec q2d_alloc waits) waits
add_all-Counts_example = add_all-Counts to_msec q2d_alloc waits q2d_alloc-IsQ2d
