-- ===== src/Blkparse/Sequence/Tests.antt =====
-- A record that is two numbers ahead.
use iovisualization.Prelude.{ℕ, ◌≡◌, refl, true, false, ◌&&◌, ◌||◌, [], ◌∷◌, arith, leb, ltb}
use iovisualization.Prelude.Plain.{plain}
use iovisualization.Prelude.Tree.{leaf}
use iovisualization.Blkparse.Skips.Cover.{covered}
use iovisualization.Blkparse.Sort.Last.{PerDev, no_cpu, get_cpu_info, cpu_at}
use iovisualization.Blkparse.Sort.Tests.{at_time}
use iovisualization.Blkparse.CpuMap.{CpuMap}
use iovisualization.Blkparse.Sequence.{check_sequence}
use iovisualization.Blkparse.Sequence.Gap.{check_sequence_gap}

abbrev device : PerDev
device = record {
  dev = 1;
  nfiles = 1;
  cpus =
      record no_cpu { fd = 3 }
      ∷ record no_cpu {
        cpu = 1;
        fd = 4;
        last_sequence = 4;
        skips = record { start = 2; end = 2 } ∷ [];
      }
      ∷ [];
}

abbrev no_map : CpuMap
no_map = record { present = false; bits = λ i. false; cpu_map_max = 0 }

check_sequence_gap_example :
    (check_sequence plain (λ i. false) leaf no_map device (at_time 90 8) false
      ≡ (1, get_cpu_info device 1))
    × (let (waits, pdi') =
          check_sequence plain (λ i. false) leaf no_map device (at_time 90 8) true in
        (waits ≡ 0)
        × ((n : ℕ)
            → covered (cpu_at pdi' 1).skips n
              ≡ ((leb 5 n && ltb n 8) || covered (cpu_at (get_cpu_info device 1) 1).skips n)))
unfolding get_cpu_info
check_sequence_gap_example =
    check_sequence_gap plain (λ i. false) leaf no_map device (at_time 90 8) refl (omega arith)
      (omega arith) (omega arith) (omega arith) refl
