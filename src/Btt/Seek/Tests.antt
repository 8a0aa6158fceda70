-- ===== src/Btt/Seek/Tests.antt =====
-- The seeks of four I/Os.
use iovisualization.Prelude.{
  ℕ, ◌/◌, ◌^◌, ◌<◌, ◌≡◌, refl, false, none, some, List, [], ◌∷◌, arith, find?,
}
use iovisualization.Prelude.Plain.{plain}
use iovisualization.Prelude.Tree.{Tree, leaf, node}
use iovisualization.Btt.IoTree.{Io}
use iovisualization.Btt.Seek.{
  SeekBkt, Seeki, find_bkt, insert, seeki_median, median, mode_node, mode, seek_dist, seeki_add,
  seeki_alloc,
}
use iovisualization.Btt.Seek.Tally.{nseeks_of}
use iovisualization.Btt.Seek.Modes.{best, postorder, mode-best}
use iovisualization.Btt.Seek.Median.{reaches, preorder, seeki_median-find?}
use iovisualization.Btt.Seek.Total.{distances, adds, Counted, adds-Counted}

abbrev at_sector : ℕ → Io
at_sector n = record { sector = n; bytes = 4096; id = n }

abbrev four : List Io
four = at_sector 100 ∷ at_sector 208 ∷ at_sector 316 ∷ at_sector 0 ∷ []

hundreds : distances false seeki_alloc four ≡ 100 ∷ 100 ∷ 100 ∷ 316 ∷ []
unfolding distances seek_dist
hundreds = refl

abbrev two_bkts : Tree SeekBkt
two_bkts =
    node leaf (record { sectors = 100; nseeks = 3 })
      (node leaf (record { sectors = 316; nseeks = 1 }) leaf)

four_bkts : (adds plain false seeki_alloc four).root ≡ two_bkts
unfolding adds seeki_add seek_dist insert find_bkt
four_bkts = refl

four_modes :
    mode two_bkts (record { most_seeks = 0; modes = none })
    ≡ record { most_seeks = 3; modes = some (100 ∷ []) }
unfolding mode mode_node
four_modes = refl

-- Three distances with two seeks each: no bucket has half of them.
no_median :
    seeki_median
      (node
        (node leaf (record { sectors = 1; nseeks = 2 }) leaf)
        (record { sectors = 5; nseeks = 2 })
        (node leaf (record { sectors = 9; nseeks = 2 }) leaf))
      6
    ≡ 0
unfolding seeki_median median
no_median = refl

nseeks_of-none : (n : ℕ) → nseeks_of [] n < 2 ^ 32
unfolding nseeks_of
nseeks_of-none n = omega arith

adds-Counted_example :
    Counted seeki_alloc (adds plain false seeki_alloc four) (distances false seeki_alloc four)
adds-Counted_example = adds-Counted plain false seeki_alloc four tt (omega arith) nseeks_of-none

mode-best_example :
    mode two_bkts (record { most_seeks = 0; modes = none }) ≡ best (postorder two_bkts)
mode-best_example = mode-best two_bkts

seeki_median-find?_example :
    seeki_median two_bkts 4
    ≡ elim (find? (reaches (4 / 2)) (preorder two_bkts)) [ none ↦ 0 | some sbp ↦ sbp.sectors ]
seeki_median-find?_example = seeki_median-find? two_bkts 4

abbrev after_100 : Seeki
after_100 = record { root = leaf; tot_seeks = 1; last_start = 100; last_end = 108 }

-- from sector 96 to sector 112
abbrev wide : Io
wide = record { sector = 96; bytes = 8192; id = 5 }
