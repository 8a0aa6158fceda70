-- ===== src/Iowatcher/Devices/Offsets.antt =====
-- Where the I/Os of a trace are shown.
use iovisualization.Prelude.{
  ℕ, ◌+◌, ◌^◌, ◌≤◌, ◌<◌, ◌≡◌, refl, sym, ap, ◌∙◌, ◌≢◌, ◌⊎◌, inl, inr, false, none, some, List, [],
  ◌∷◌, arith, Bool-cases, Option-cases, add64, sub64,
}
use mathlib.Core.Path.{subst}
use iovisualization.Trace.{IoTrace}
use iovisualization.Blkparse.Track.{has_class}
use iovisualization.Iowatcher.Devices.{
  DevInfo, find_dev, start_of, end_of, scan_event, scan_devices, place_devices, map_devices, map_io,
}
use iovisualization.Iowatcher.Devices.Scan.{
  is_there, Covered, Grows-Covered, same-Grows, then-Grows, Scanned, event_on_io, event_on_notify,
}
use iovisualization.Iowatcher.Devices.Ranges.{total_of, Apart, place_devices-Apart}

-- the record is one of the list
abbrev pub Among : IoTrace → List IoTrace → Type 0
Among io [] = ⊥
Among io (x ∷ ios) = (io ≡ x) ⊎ Among io ios

scan_devices-step :
    (io : IoTrace) (ios : List IoTrace) (ds ds' mid : List DevInfo)
    → scan_event io ds ≡ some mid
    → scan_devices (io ∷ ios) ds ≡ some ds'
    → scan_devices ios mid ≡ some ds'
unfolding scan_devices
scan_devices-step io ios ds ds' mid e h = sym (rw (scan_devices, e) refl) ∙ h

scan_devices-stop :
    (io : IoTrace) (ios : List IoTrace) (ds ds' : List DevInfo)
    → scan_event io ds ≡ none
    → ¬ (scan_devices (io ∷ ios) ds ≡ some ds')
unfolding scan_devices
scan_devices-stop io ios ds ds' e h = is_there (sym h ∙ rw (scan_devices, e) refl)

event-Scanned :
    (io : IoTrace) (ds mid : List DevInfo) → scan_event io ds ≡ some mid → Scanned ds mid
event-Scanned io ds mid e = elim (Bool-cases (has_class 10 io)) [
  | inl n ↦
      let both : some ds ≡ some mid = sym (event_on_notify io ds n) ∙ e in
      let same : ds ≡ mid = cc in
      subst (Scanned ds) same (record { grows = same-Grows ds; zero = λ z. z })
  | inr n ↦ (event_on_io io ds mid n e).0
]

scan_devices-Scanned :
    (ios : List IoTrace) (ds ds' : List DevInfo) → scan_devices ios ds ≡ some ds' → Scanned ds ds'
unfolding scan_devices
scan_devices-Scanned [] ds ds' h =
    let same : ds ≡ ds' = cc in
    subst (Scanned ds) same (record { grows = same-Grows ds; zero = λ z. z })
scan_devices-Scanned (io ∷ ios) ds ds' h = elim (Option-cases (scan_event io ds)) [
  | inl e ↦ absurd (scan_devices-stop io ios ds ds' e h)
  | inr (mid, e) ↦
      let a = event-Scanned io ds mid e in
      let b = scan_devices-Scanned ios mid ds' (scan_devices-step io ios ds ds' mid e h) in
      record { grows = then-Grows ds mid ds' a.grows b.grows; zero = λ z. b.zero (a.zero z) }
]

scan_devices-Covered :
    (ios : List IoTrace) (ds ds' : List DevInfo) (io : IoTrace)
    → scan_devices ios ds ≡ some ds'
    → Among io ios
    → has_class 10 io ≡ false
    → Covered io ds'
scan_devices-Covered [] ds ds' io h m n = absurd m
scan_devices-Covered (x ∷ ios) ds ds' io h m n = elim (Option-cases (scan_event x ds)) [
  | inl e ↦ absurd (scan_devices-stop x ios ds ds' e h)
  | inr (mid, e) ↦
      let later = scan_devices-step x ios ds ds' mid e h in
      elim m [
        | inl same ↦
            Grows-Covered io mid ds' (scan_devices-Scanned ios mid ds' later).grows
              (event_on_io io ds mid n (ap (λ y. scan_event y ds) same ∙ e)).1
        | inr m' ↦ scan_devices-Covered ios mid ds' io later m' n
      ]
]

-- the range of a device has room for an I/O, at its sector
offset_lem :
    (io : IoTrace) (di info : DevInfo) (place stop : ℕ)
    → info.map ≡ place
    → info.min ≡ 0
    → start_of io + io.bytes < 2 ^ 64
    → end_of io ≤ di.max
    → place + di.max ≤ stop
    → stop < 2 ^ 64
    → (place ≤ map_io io info) × (map_io io info + io.bytes ≤ place + di.max)
unfolding map_io
offset_lem io di info place stop e z fits reach room small =
    rw (e, z) (omega (arith, fits, reach, room, small), omega (arith, fits, reach, room, small))

total_of-place_devices : (s : ℕ) (ds : List DevInfo) → total_of (place_devices s ds) ≡ total_of ds
unfolding place_devices
total_of-place_devices s [] = refl
total_of-place_devices s (di ∷ ds) =
    ap (λ n. di.max + n) (total_of-place_devices (add64 s (sub64 di.max di.min)) ds)

map_devices_done :
    (ios : List IoTrace) (ds devices : List DevInfo)
    → map_devices ios ds ≡ some devices
    → (mid : List DevInfo) × (scan_devices ios ds ≡ some mid) × (place_devices 0 mid ≡ devices)
unfolding map_devices
map_devices_done ios ds devices h = elim (Option-cases (scan_devices ios ds)) [
  | inl e ↦ absurd (is_there (sym h ∙ rw (map_devices, e) refl))
  | inr (mid, e) ↦
      let both : some (place_devices 0 mid) ≡ some devices = sym (rw (map_devices, e) refl) ∙ h in
      (mid, e, cc)
]

-- Where two I/Os are shown, on devices of the array: one behind the other.
pub record Displayed (devices : List DevInfo) (a b : IoTrace) : Type 0 where
  pub first : DevInfo
  pub second : DevInfo
  pub found_first : find_dev devices a.device ≡ some first
  pub found_second : find_dev devices b.device ≡ some second
  pub apart :
      (map_io a first + a.bytes ≤ map_io b second) ⊎ (map_io b second + b.bytes ≤ map_io a first)

Apart-Displayed :
    (a b : IoTrace) (x y : DevInfo) (placed : List DevInfo) (stop : ℕ)
    → Apart 0 stop a.device b.device x y placed
    → stop < 2 ^ 64
    → start_of a + a.bytes < 2 ^ 64
    → start_of b + b.bytes < 2 ^ 64
    → end_of a ≤ x.max
    → end_of b ≤ y.max
    → Displayed placed a b
Apart-Displayed a b x y placed stop r small fits fits' reach reach' =
    let p = r.first in
    let q = r.second in
    let (lo, hi) = offset_lem a x p.info r.place stop p.starts p.min fits reach p.before small in
    let (lo', hi') =
      offset_lem b y q.info r.place' stop q.starts q.min fits' reach' q.before small in
    record {
      first = p.info;
      second = q.info;
      found_first = p.found;
      found_second = q.found;
      apart = elim r.apart [
        | inl e ↦ inl (omega (arith, e, lo', hi))
        | inr e ↦ inr (omega (arith, e, lo, hi'))
      ];
    }

-- When `map_devices` has not exited, with the ranges together below 2^64: two I/Os of the trace on different
-- devices, whose ends are below 2^64, are shown at offsets where neither overlaps the other.
pub map_io-Displayed :
    (ios : List IoTrace) (devices : List DevInfo) (a b : IoTrace)
    → map_devices ios [] ≡ some devices
    → total_of devices < 2 ^ 64
    → Among a ios
    → Among b ios
    → has_class 10 a ≡ false
    → has_class 10 b ≡ false
    → a.device ≢ b.device
    → start_of a + a.bytes < 2 ^ 64
    → start_of b + b.bytes < 2 ^ 64
    → Displayed devices a b
map_io-Displayed ios devices a b h small in_a in_b na nb ne fits fits' =
    let (mid, scanned, placed) = map_devices_done ios [] devices h in
    let total : total_of devices ≡ total_of mid =
      ap total_of (sym placed) ∙ total_of-place_devices 0 mid in
    let small' : 0 + total_of mid < 2 ^ 64 = omega (arith, small, total) in
    let zero = (scan_devices-Scanned ios [] mid scanned).zero tt in
    let ca = scan_devices-Covered ios [] mid a scanned in_a na in
    let cb = scan_devices-Covered ios [] mid b scanned in_b nb in
    subst (λ ds. Displayed ds a b) placed
      (Apart-Displayed a b ca.info cb.info (place_devices 0 mid) (0 + total_of mid)
        (place_devices-Apart 0 a.device b.device ca.info cb.info mid zero small' ne ca.found
          cb.found)
        small' fits fits' ca.reaches cb.reaches)
