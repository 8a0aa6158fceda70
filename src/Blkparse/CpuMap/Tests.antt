-- ===== src/Blkparse/CpuMap/Tests.antt =====
-- Maps of processors at concrete numbers.
use iovisualization.Prelude.{ℕ, ◌<◌, ◌≡◌, refl, ◌↔◌, true, arith, ◌==◌}
use iovisualization.Prelude.Tree.{Tree, leaf, node, inorder}
use iovisualization.Blkparse.Sort.{Tr}
use iovisualization.Blkparse.Sort.Tests.{at_time}
use iovisualization.Blkparse.CpuMap.{CpuMap, check_cpu_map, cpu_is_online}
use iovisualization.Blkparse.CpuMap.Laws.{has_cpu, check_cpu_map_lem}
use iovisualization.Blkparse.CpuMap.Online.{IsMap}

-- processor 1 of 64, and processor 70 of 128
abbrev small : CpuMap
small = record { present = true; bits = λ i. i == 1; cpu_map_max = 64 }

abbrev large : CpuMap
large = record { present = true; bits = λ i. i == 70; cpu_map_max = 128 }

-- one record of processor 1
abbrev tree : Tree Tr
tree = node leaf (at_time 10 1) leaf

check_cpu_map_lem_example :
    (check_cpu_map (λ i. true) tree small ≡ 0)
    ↔ ((i : ℕ) → i < 64 → cpu_is_online small i ≡ true → has_cpu i (inorder tree) ≡ true)
check_cpu_map_lem_example = check_cpu_map_lem (λ i. true) tree small refl

far : (i : ℕ) → i < 64 → ¬ ((i == 70) ≡ true)
far i lt e = ground (arith, lt, e)

small-IsMap : IsMap small
small-IsMap = record { null = λ e. cc; inside = λ i h. ground arith }
