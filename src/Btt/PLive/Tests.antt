-- ===== src/Btt/PLive/Tests.antt =====
-- Intervals at concrete times, over a tree that is never rebalanced.
use iovisualization.Prelude.{◌%◌, ◌^◌, ◌≡◌, refl, some, arith}
use iovisualization.Prelude.Plain.{plain}
use iovisualization.Prelude.Tree.{Tree, leaf, node, inorder}
use iovisualization.Btt.PLive.{PLive, descend, p_live_add_fuel, p_live_add, p_live_visit, get_info}
use iovisualization.Btt.PLive.Descend.{interval}
use iovisualization.Btt.PLive.Add.{Added, p_live_add-Added}
use iovisualization.Btt.PLive.Visit.{p_live_visit-totals, total_live}

abbrev two_lives : Tree PLive
two_lives = node leaf (interval 10 20) (node leaf (interval 30 40) leaf)

bridges : p_live_add plain two_lives 15 35 ≡ some (node leaf (interval 10 40) leaf)
unfolding p_live_add p_live_add_fuel descend
bridges = refl

p_live_add-Added_example :
    (t : Tree PLive) × (p_live_add plain two_lives 15 35 ≡ some t)
    × Added (inorder two_lives) 15 35 t
p_live_add-Added_example = p_live_add-Added plain two_lives 15 35 (omega arith) (omega arith)

p_live_visit-totals_example :
    ((p_live_visit two_lives get_info).nlives ≡ 2 % 2 ^ 64)
    × ((p_live_visit two_lives get_info).tot_live ≡ total_live (inorder two_lives) % 2 ^ 64)
p_live_visit-totals_example = p_live_visit-totals two_lives (omega arith) (omega arith)
