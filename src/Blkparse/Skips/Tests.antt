-- ===== src/Blkparse/Skips/Tests.antt =====
-- The lists of skips at concrete numbers.
use iovisualization.Prelude.{
  ℕ, ◌+◌, ◌-◌, ◌≡◌, refl, true, false, ◌&&◌, ◌||◌, not, List, [], ◌∷◌, arith, leb, ◌==◌, add64,
}
use iovisualization.Blkparse.Skips.{
  Skip, insert_skip, find_skip, check_current_skips, collect_skips,
}
use iovisualization.Blkparse.Skips.Cover.{covered, covered-insert_skip}
use iovisualization.Blkparse.Skips.Check.{AllApart, check-covered_edge, check-covered_split}
use iovisualization.Blkparse.Skips.Total.{collect_skips-insert_skip}

abbrev skip : ℕ → ℕ → Skip
skip a b = record { start = a; end = b }

abbrev two_skips : List Skip
two_skips = skip 10 12 ∷ skip 3 8 ∷ []

widens : insert_skip two_skips 9 9 ≡ skip 9 12 ∷ skip 3 8 ∷ []
unfolding insert_skip
widens = refl

-- the upper half of the node becomes an empty range
splits : check_current_skips two_skips 5 ≡ (true, skip 6 4 ∷ skip 10 12 ∷ skip 3 4 ∷ [])
unfolding check_current_skips
splits = refl

-- 3 + 2 lacking numbers and the empty range, which counts -1
split_total : collect_skips (check_current_skips two_skips 5).1 ≡ (3, 4)
unfolding check_current_skips collect_skips
split_total = refl

covered-insert_skip_example :
    covered (insert_skip two_skips 9 9) 9 ≡ ((leb 9 9 && leb 9 9) || covered two_skips 9)
covered-insert_skip_example =
    covered-insert_skip 9 9 (omega arith) (omega arith) (omega arith) two_skips 9 (omega arith)

two_skips_apart : AllApart two_skips
two_skips_apart = (λ n h. ground arith, (λ n h. refl, tt))

check-covered_edge_example :
    covered (check_current_skips two_skips 8).1 7 ≡ (covered two_skips 7 && not (7 == 8))
unfolding find_skip
check-covered_edge_example =
    check-covered_edge two_skips 8 (omega arith) two_skips_apart (skip 10 12 ∷ []) (skip 3 8) []
      refl refl 7

check-covered_split_example :
    (covered two_skips 7 ≡ true) × (covered (check_current_skips two_skips 5).1 7 ≡ false)
unfolding find_skip
check-covered_split_example =
    check-covered_split two_skips 5 (omega arith) two_skips_apart (skip 10 12 ∷ []) (skip 3 8) []
      refl (omega arith) (omega arith) 7 (omega arith) (omega arith)

collect_skips-insert_skip_example :
    (collect_skips (insert_skip two_skips 9 9)).1 ≡ add64 (collect_skips two_skips).1 (9 - 9 + 1)
collect_skips-insert_skip_example =
    collect_skips-insert_skip 9 9 (omega arith) (omega arith) (omega arith) two_skips (omega arith)
