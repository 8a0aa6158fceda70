-- ===== src/Iowatcher/Devices/Ranges.antt =====
-- The ranges that the second loop of `map_devices` gives to the devices.
use iovisualization.Prelude.{
  ℕ, ◌+◌, ◌^◌, ◌≤◌, ◌<◌, ◌≡◌, refl, sym, ap, ◌∙◌, ◌≢◌, ◌⊎◌, inl, inr, true, false, some, List, [],
  ◌∷◌, arith, ◌==◌, Bool-cases, add64, sub64,
}
use mathlib.Core.Path.{subst}
use iovisualization.Iowatcher.Devices.{DevInfo, find_dev, place_devices}
use iovisualization.Iowatcher.Devices.Scan.{
  FromZero, find_dev-nil, find_dev-here, find_dev-past, is_there,
}

-- the lengths of the ranges, one after the other
abbrev pub total_of : List DevInfo → ℕ
total_of [] = 0
total_of (di ∷ ds) = di.max + total_of ds

-- The device placed: its range is the one it had, from its place on, inside the bounds.
pub record Placed (start stop dev : ℕ) (di : DevInfo) (place : ℕ) (placed : List DevInfo)
    : Type 0 where
  pub info : DevInfo
  pub found : find_dev placed dev ≡ some info
  pub max : info.max ≡ di.max
  pub min : info.min ≡ 0
  pub starts : info.map ≡ place
  pub after : start ≤ place
  pub before : place + di.max ≤ stop

next_start :
    (s : ℕ) (di : DevInfo) (ds : List DevInfo)
    → di.min ≡ 0
    → s + total_of (di ∷ ds) < 2 ^ 64
    → add64 s (sub64 di.max di.min) ≡ s + di.max
next_start s di ds z fits = rw z (omega (arith, fits))

place_devices-step :
    (s : ℕ) (di : DevInfo) (ds : List DevInfo)
    → di.min ≡ 0
    → s + total_of (di ∷ ds) < 2 ^ 64
    → place_devices s (di ∷ ds) ≡ record di { map = s } ∷ place_devices (s + di.max) ds
unfolding place_devices
place_devices-step s di ds z fits =
    ap (λ n. record di { map = s } ∷ place_devices n ds) (next_start s di ds z fits)

first-Placed :
    (s dev : ℕ) (di : DevInfo) (ds : List DevInfo)
    → FromZero (di ∷ ds)
    → s + total_of (di ∷ ds) < 2 ^ 64
    → (di.device == dev) ≡ true
    → Placed s (s + di.max) dev di s (place_devices s (di ∷ ds))
first-Placed s dev di ds (z, zs) fits here = record {
  info = record di { map = s };
  found =
      ap (λ l. find_dev l dev) (place_devices-step s di ds z fits)
      ∙ find_dev-here (record di { map = s }) (place_devices (s + di.max) ds) dev here;
  max = refl;
  min = z;
  starts = refl;
  after = omega arith;
  before = omega arith;
}

later-Placed :
    (s stop dev : ℕ) (d di : DevInfo) (place : ℕ) (ds : List DevInfo)
    → FromZero (d ∷ ds)
    → s + total_of (d ∷ ds) < 2 ^ 64
    → (d.device == dev) ≡ false
    → Placed (s + d.max) stop dev di place (place_devices (s + d.max) ds)
    → Placed (s + d.max) stop dev di place (place_devices s (d ∷ ds))
later-Placed s stop dev d di place ds (z, zs) fits past p = record {
  info = p.info;
  found =
      ap (λ l. find_dev l dev) (place_devices-step s d ds z fits)
      ∙ find_dev-past (record d { map = s }) (place_devices (s + d.max) ds) dev past
      ∙ p.found;
  max = p.max;
  min = p.min;
  starts = p.starts;
  after = p.after;
  before = p.before;
}

wider-Placed :
    (start start' stop stop' dev : ℕ) (di : DevInfo) (place : ℕ) (placed : List DevInfo)
    → start' ≤ start
    → stop ≤ stop'
    → Placed start stop dev di place placed
    → Placed start' stop' dev di place placed
wider-Placed start start' stop stop' dev di place placed a b p = record {
  info = p.info;
  found = p.found;
  max = p.max;
  min = p.min;
  starts = p.starts;
  after = omega (arith, a, p.after);
  before = omega (arith, b, p.before);
}

found_first :
    (d di : DevInfo) (ds : List DevInfo) (dev : ℕ)
    → find_dev (d ∷ ds) dev ≡ some di
    → (d.device == dev) ≡ true
    → d ≡ di
found_first d di ds dev e here =
    let same : some d ≡ some di = sym (find_dev-here d ds dev here) ∙ e in cc

pub place_devices-Placed :
    (s dev : ℕ) (di : DevInfo) (ds : List DevInfo)
    → FromZero ds
    → s + total_of ds < 2 ^ 64
    → find_dev ds dev ≡ some di
    → (place : ℕ) × Placed s (s + total_of ds) dev di place (place_devices s ds)
place_devices-Placed s dev di [] z fits e = absurd (is_there (sym e ∙ find_dev-nil dev))
place_devices-Placed s dev di (d ∷ ds) (z, zs) fits e =
    let placed = place_devices s (d ∷ ds) in
    elim (Bool-cases (d.device == dev)) [
      | inl here ↦
          let same = found_first d di ds dev e here in
          let max : d.max ≡ di.max = ap (λ (x : DevInfo). x.max) same in
          (
            s,
            wider-Placed s s (s + di.max) (s + total_of (d ∷ ds)) dev di s placed (omega arith)
                (omega (arith, max))
                (subst (λ x. Placed s (s + x.max) dev x s placed) same
                  (first-Placed s dev d ds (z, zs) fits here)),
          )
      | inr past ↦
          let stop = s + d.max + total_of ds in
          let (place, p) =
            place_devices-Placed (s + d.max) dev di ds zs (omega (arith, fits))
              (sym (find_dev-past d ds dev past) ∙ e) in
          (
            place,
            wider-Placed (s + d.max) s stop (s + total_of (d ∷ ds)) dev di place placed
                (omega arith) (omega arith)
                (later-Placed s stop dev d di place ds (z, zs) fits past p),
          )
    ]

-- The ranges of two devices, which do not overlap.
pub record Apart (start stop a b : ℕ) (x y : DevInfo) (placed : List DevInfo) : Type 0 where
  pub place : ℕ
  pub place' : ℕ
  pub first : Placed start stop a x place placed
  pub second : Placed start stop b y place' placed
  pub apart : (place + x.max ≤ place') ⊎ (place' + y.max ≤ place)

swap-Apart :
    (start stop a b : ℕ) (x y : DevInfo) (placed : List DevInfo)
    → Apart start stop a b x y placed
    → Apart start stop b a y x placed
swap-Apart start stop a b x y placed r = record {
  place = r.place';
  place' = r.place;
  first = r.second;
  second = r.first;
  apart = elim r.apart [ inl e ↦ inr e | inr e ↦ inl e ];
}

head-Apart :
    (s a b : ℕ) (d x y : DevInfo) (ds : List DevInfo)
    → FromZero (d ∷ ds)
    → s + total_of (d ∷ ds) < 2 ^ 64
    → find_dev (d ∷ ds) a ≡ some x
    → find_dev (d ∷ ds) b ≡ some y
    → (d.device == a) ≡ true
    → (d.device == b) ≡ false
    → Apart s (s + total_of (d ∷ ds)) a b x y (place_devices s (d ∷ ds))
head-Apart s a b d x y ds (z, zs) fits e f here past =
    let same = found_first d x ds a e here in
    let max : d.max ≡ x.max = ap (λ (di : DevInfo). di.max) same in
    let placed = place_devices s (d ∷ ds) in
    let stop = s + d.max + total_of ds in
    let p : Placed s (s + x.max) a x s placed =
      subst (λ di. Placed s (s + di.max) a di s placed) same
        (first-Placed s a d ds (z, zs) fits here) in
    let (place, q) =
      place_devices-Placed (s + d.max) b y ds zs (omega (arith, fits))
        (sym (find_dev-past d ds b past) ∙ f) in
    record {
      place = s;
      place' = place;
      first =
          wider-Placed s s (s + x.max) (s + total_of (d ∷ ds)) a x s placed (omega arith)
            (omega (arith, max)) p;
      second =
          wider-Placed (s + d.max) s stop (s + total_of (d ∷ ds)) b y place placed (omega arith)
            (omega arith) (later-Placed s stop b d y place ds (z, zs) fits past q);
      apart = inl (omega (arith, q.after, max));
    }

pub place_devices-Apart :
    (s a b : ℕ) (x y : DevInfo) (ds : List DevInfo)
    → FromZero ds
    → s + total_of ds < 2 ^ 64
    → a ≢ b
    → find_dev ds a ≡ some x
    → find_dev ds b ≡ some y
    → Apart s (s + total_of ds) a b x y (place_devices s ds)
place_devices-Apart s a b x y [] z fits ne e f = absurd (is_there (sym e ∙ find_dev-nil a))
place_devices-Apart s a b x y (d ∷ ds) (z, zs) fits ne e f =
    let stop = s + d.max + total_of ds in
    let end = s + total_of (d ∷ ds) in
    let placed = place_devices s (d ∷ ds) in
    elim (Bool-cases (d.device == a)) [
      | inl here ↦ head-Apart s a b d x y ds (z, zs) fits e f here (ground (arith, here, ne))
      | inr past ↦ elim (Bool-cases (d.device == b)) [
        | inl here ↦
            swap-Apart s end b a y x placed (head-Apart s b a d y x ds (z, zs) fits f e here past)
        | inr past' ↦
            let r =
              place_devices-Apart (s + d.max) a b x y ds zs (omega (arith, fits)) ne
                (sym (find_dev-past d ds a past) ∙ e) (sym (find_dev-past d ds b past') ∙ f) in
            record {
              place = r.place;
              place' = r.place';
              first =
                  wider-Placed (s + d.max) s stop end a x r.place placed (omega arith) (omega arith)
                    (later-Placed s stop a d x r.place ds (z, zs) fits past r.first);
              second =
                  wider-Placed (s + d.max) s stop end b y r.place' placed (omega arith)
                    (omega arith)
                    (later-Placed s stop b d y r.place' ds (z, zs) fits past' r.second);
              apart = r.apart;
            }
      ]
    ]
