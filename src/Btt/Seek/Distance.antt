-- ===== src/Btt/Seek/Distance.antt =====
-- The distance from an I/O to the next.
use iovisualization.Prelude.{◌-◌, ◌≤◌, ◌<◌, ◌≡◌, false, arith}
use iovisualization.Prelude.Int.{pos, negsuc}
use iovisualization.Btt.IoTree.{Io, bit_start, bit_end}
use iovisualization.Btt.Seek.{Seeki, seek_dist}

module _ (sip : Seeki) (iop : Io) (lo : sip.last_start ≤ sip.last_end)
    (le : bit_start iop ≤ bit_end iop) where
  -- With `seek_absolute` off and both I/Os from a start to a later or equal end, the distance to
  -- an I/O wholly behind the last one is positive, from the last end to its start; to one wholly
  -- before it is negative, from the last start to its start; and to one that starts or ends in
  -- the last one, the ends included, it is 0.
  pub seek_dist_lem :
      (sip.last_end < bit_start iop
        → (seek_dist false sip iop).0 ≡ pos (bit_start iop - sip.last_end))
      × (bit_end iop < sip.last_start
          → (seek_dist false sip iop).0 ≡ negsuc (sip.last_start - bit_start iop - 1))
      × (sip.last_start ≤ bit_start iop
          → bit_start iop ≤ sip.last_end
          → (seek_dist false sip iop).0 ≡ pos 0)
      × (sip.last_start ≤ bit_end iop
          → bit_end iop ≤ sip.last_end
          → (seek_dist false sip iop).0 ≡ pos 0)
  unfolding seek_dist
  seek_dist_lem = (λ h. ground arith, λ h. ground arith, λ h k. ground arith, λ h k. ground arith)

  -- With `seek_absolute` off, an I/O that reaches beyond the last one on both sides, and so
  -- overlaps it, counts as a backward seek from the last start to its start.
  pub seek_dist_engulfs :
      bit_start iop < sip.last_start
      → sip.last_end < bit_end iop
      → (seek_dist false sip iop).0 ≡ negsuc (sip.last_start - bit_start iop - 1)
  unfolding seek_dist
  seek_dist_engulfs h k = ground arith
