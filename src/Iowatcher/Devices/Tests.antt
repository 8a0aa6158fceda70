-- ===== src/Iowatcher/Devices/Tests.antt =====
-- Two devices with one I/O each.
use iovisualization.Prelude.{ℕ, ◌+◌, ◌*◌, ◌^◌, ◌≡◌, refl, inl, inr, some, List, [], ◌∷◌, arith}
use iovisualization.Trace.{IoTrace}
use iovisualization.Iowatcher.Devices.{
  DevInfo, find_dev, write_dev, lookup_dev, widen_dev, scan_event, scan_devices, place_devices,
  map_devices,
}
use iovisualization.Iowatcher.Devices.Offsets.{Displayed, map_io-Displayed}

abbrev queued_on : ℕ → ℕ → IoTrace
queued_on device sector = record {
  magic = 0;
  sequence = 0;
  time = 1000;
  sector = sector;
  bytes = 4096;
  action = (2 ^ 4 + 1) * 2 ^ 16 + 1;
  pid = 1;
  device = device;
  cpu = 0;
  error = 0;
  pdu_len = 0;
}

abbrev two_disks : List DevInfo
two_disks =
    record { device = 8; min = 0; max = 12288; map = 0 }
    ∷ record { device = 9; min = 0; max = 8192; map = 12288 }
    ∷ []

two_mapped : map_devices (queued_on 8 16 ∷ queued_on 9 8 ∷ []) [] ≡ some two_disks
unfolding map_devices scan_devices scan_event lookup_dev find_dev write_dev widen_dev place_devices
two_mapped = refl

map_io-Displayed_example : Displayed two_disks (queued_on 8 16) (queued_on 9 8)
map_io-Displayed_example =
    map_io-Displayed (queued_on 8 16 ∷ queued_on 9 8 ∷ []) two_disks (queued_on 8 16)
      (queued_on 9 8) two_mapped (omega arith) (inl refl) (inr (inl refl)) refl refl
      (λ e. omega (arith, e)) (omega arith) (omega arith)
