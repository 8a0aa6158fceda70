-- ===== src/Iowatcher/Devices.antt =====
-- server-proto/iowatcher/blkparse.c, lines 520 to 578: the devices of a trace, each with a range of offsets.
pub mod Scan
pub mod Ranges
pub mod Offsets
pub mod Tests
use iovisualization.Prelude.{
  ℕ, ◌*◌, ◌%◌, ◌^◌, min, max, Option, none, some, List, [], ◌∷◌, ◌++◌, ltb, ◌==◌, if◌then◌else◌,
  length, add64, sub64,
}
use iovisualization.Trace.{IoTrace}
use iovisualization.Blkparse.Track.{has_class}

-- `struct dev_info`
pub record DevInfo : Type 0 where
  pub device : ℕ
  pub min : ℕ
  pub max : ℕ
  pub map : ℕ

-- the first device of the array that the loop of `lookup_dev` finds, and what is written through the pointer
unfoldable pub find_dev : List DevInfo → ℕ → Option DevInfo
find_dev [] dev = none
find_dev (di ∷ devices) dev =
    let rest = find_dev devices dev in if di.device == dev then some di else rest

unfoldable pub write_dev : List DevInfo → ℕ → (DevInfo → DevInfo) → List DevInfo
write_dev [] dev f = []
write_dev (di ∷ devices) dev f =
    let rest = write_dev devices dev f in if di.device == dev then f di ∷ devices else di ∷ rest

-- an entry of the array, which calloc has cleared
abbrev pub new_dev : ℕ → DevInfo
new_dev dev = record { device = dev; min = 0; max = 0; map = 0 }

-- The array with the device in it; `none` is the exit when there are too many.
unfoldable pub lookup_dev : List DevInfo → ℕ → Option (List DevInfo)
lookup_dev devices dev = elim (find_dev devices dev) [
  | some di ↦ some devices
  | none ↦ if ltb (length devices) 64 then some (devices ++ (new_dev dev ∷ [])) else none
]

-- the first sector of an I/O and the first behind it, in bytes
abbrev pub start_of : IoTrace → ℕ
start_of io = io.sector * 2 ^ 9 % 2 ^ 64

abbrev pub end_of : IoTrace → ℕ
end_of io = add64 (start_of io) io.bytes

unfoldable pub widen_dev : IoTrace → DevInfo → DevInfo
widen_dev io di = record di {
  min = if ltb (start_of io) di.min then start_of io else di.min;
  max = if ltb di.max (end_of io) then end_of io else di.max;
}

-- the body of the first loop of `map_devices`, and the loop
unfoldable pub scan_event : IoTrace → List DevInfo → Option (List DevInfo)
scan_event io devices =
    if has_class 10 io then some devices else elim (lookup_dev devices io.device) [
      | none ↦ none
      | some devices' ↦ some (write_dev devices' io.device (widen_dev io))
    ]

unfoldable pub scan_devices : List IoTrace → List DevInfo → Option (List DevInfo)
scan_devices [] devices = some devices
scan_devices (io ∷ ios) devices = elim (scan_event io devices) [
  | none ↦ none
  | some devices' ↦ scan_devices ios devices'
]

-- and the second
unfoldable pub place_devices : ℕ → List DevInfo → List DevInfo
place_devices map_start [] = []
place_devices map_start (di ∷ devices) =
    record di { map = map_start } ∷ place_devices (add64 map_start (sub64 di.max di.min)) devices

unfoldable pub map_devices : List IoTrace → List DevInfo → Option (List DevInfo)
map_devices ios devices = elim (scan_devices ios devices) [
  | none ↦ none
  | some devices' ↦ some (place_devices 0 devices')
]

-- `map_io`, for a device of the array
unfoldable pub map_io : IoTrace → DevInfo → ℕ
map_io io di = sub64 (add64 di.map (start_of io)) di.min
