-- ===== src/Iowatcher/Devices/Scan.antt =====
-- What the first loop of `map_devices` finds.
use iovisualization.Prelude.{
  ℕ, ◌≤◌, ◌≡◌, refl, sym, ap, ◌∙◌, inl, inr, Bool, true, false, Option, none, some, List, [], ◌∷◌,
  ◌++◌, arith, ltb, ◌==◌, if◌then◌else◌, Bool-cases, Option-cases, length,
}
use mathlib.Core.Path.{subst}
use iovisualization.Trace.{IoTrace}
use iovisualization.Blkparse.Track.{has_class}
use iovisualization.Iowatcher.Devices.{
  DevInfo, find_dev, write_dev, new_dev, lookup_dev, end_of, widen_dev, scan_event,
}

-- one after the other
abbrev first_of : Option DevInfo → Option DevInfo → Option DevInfo
first_of none o = o
first_of (some di) o = some di

pub is_there : {A : Type 0} {a : A} → ¬ (some a ≡ none)
is_there e = cc

find_dev-append :
    (ds more : List DevInfo) (dev : ℕ)
    → find_dev (ds ++ more) dev ≡ first_of (find_dev ds dev) (find_dev more dev)
unfolding find_dev
find_dev-append [] more dev = refl
find_dev-append (di ∷ ds) more dev = elim (Bool-cases (di.device == dev)) [
  | inl e ↦ rw e refl
  | inr e ↦ rw e (find_dev-append ds more dev)
]

pub find_dev-nil : (dev : ℕ) → find_dev [] dev ≡ none
unfolding find_dev
find_dev-nil dev = refl

pub find_dev-here :
    (di : DevInfo) (ds : List DevInfo) (dev : ℕ)
    → (di.device == dev) ≡ true
    → find_dev (di ∷ ds) dev ≡ some di
unfolding find_dev
find_dev-here di ds dev e = rw e refl

pub find_dev-past :
    (di : DevInfo) (ds : List DevInfo) (dev : ℕ)
    → (di.device == dev) ≡ false
    → find_dev (di ∷ ds) dev ≡ find_dev ds dev
unfolding find_dev
find_dev-past di ds dev e = rw e refl

widen_device : (io : IoTrace) (di : DevInfo) → (widen_dev io di).device ≡ di.device
unfolding widen_dev
widen_device io di = refl

find_written :
    (ds : List DevInfo) (dev : ℕ) (io : IoTrace) (di : DevInfo)
    → find_dev ds dev ≡ some di
    → find_dev (write_dev ds dev (widen_dev io)) dev ≡ some (widen_dev io di)
unfolding write_dev
find_written [] dev io di e = absurd (is_there (sym e ∙ find_dev-nil dev))
find_written (d ∷ ds) dev io di e = elim (Bool-cases (d.device == dev)) [
  | inl here ↦
      let same : some d ≡ some di = sym (find_dev-here d ds dev here) ∙ e in
      rw here (
        find_dev-here (widen_dev io d) ds dev (ap (λ n. n == dev) (widen_device io d) ∙ here)
        ∙ ap
            (λ (o : Option DevInfo). elim o as (λ _. Option DevInfo) [
              | none ↦ none
              | some x ↦ some (widen_dev io x)
            ])
            same)
  | inr past ↦ rw past (
      find_dev-past d (write_dev ds dev (widen_dev io)) dev past
      ∙ find_written ds dev io di (sym (find_dev-past d ds dev past) ∙ e))
]

find_unwritten :
    (ds : List DevInfo) (dev dev' : ℕ) (io : IoTrace)
    → (dev' == dev) ≡ false
    → find_dev (write_dev ds dev (widen_dev io)) dev' ≡ find_dev ds dev'
unfolding write_dev
find_unwritten [] dev dev' io e = refl
find_unwritten (d ∷ ds) dev dev' io e = elim (Bool-cases (d.device == dev)) [
  | inl here ↦
      let other : (d.device == dev') ≡ false = ground (arith, here, e) in
      rw here (
        find_dev-past (widen_dev io d) ds dev' (ap (λ n. n == dev') (widen_device io d) ∙ other)
        ∙ sym (find_dev-past d ds dev' other))
  | inr past ↦ elim (Bool-cases (d.device == dev')) [
    | inl f ↦
        rw past (
          find_dev-here d (write_dev ds dev (widen_dev io)) dev' f
          ∙ sym (find_dev-here d ds dev' f))
    | inr f ↦ rw past (
        find_dev-past d (write_dev ds dev (widen_dev io)) dev' f
        ∙ find_unwritten ds dev dev' io e
        ∙ sym (find_dev-past d ds dev' f))
  ]
]

widen_max :
    (io : IoTrace) (di : DevInfo)
    → (end_of io ≤ (widen_dev io di).max) × (di.max ≤ (widen_dev io di).max)
unfolding widen_dev
widen_max io di = elim (Bool-cases (ltb di.max (end_of io))) [
  | inl e ↦ (rw e (omega arith), rw e (ground (arith, e)))
  | inr e ↦ (rw e (ground (arith, e)), rw e (omega arith))
]

-- the device of an I/O is in the array, and its range reaches to the end of the I/O
pub record Covered (io : IoTrace) (ds : List DevInfo) : Type 0 where
  pub info : DevInfo
  pub found : find_dev ds io.device ≡ some info
  pub reaches : end_of io ≤ info.max

-- What is in the array stays there, and the ranges grow.
abbrev pub Grows : List DevInfo → List DevInfo → Type 0
Grows ds ds' =
    (dev : ℕ) (di : DevInfo)
    → find_dev ds dev ≡ some di
    → (di' : DevInfo) × (find_dev ds' dev ≡ some di') × (di.max ≤ di'.max)

pub Grows-Covered :
    (io : IoTrace) (ds ds' : List DevInfo) → Grows ds ds' → Covered io ds → Covered io ds'
Grows-Covered io ds ds' g c =
    let (di', e, le) = g io.device c.info c.found in
    record { info = di'; found = e; reaches = omega (arith, le, c.reaches) }

written-Grows :
    (ds : List DevInfo) (dev : ℕ) (io : IoTrace) → Grows ds (write_dev ds dev (widen_dev io))
written-Grows ds dev io dev' di e = elim (Bool-cases (dev' == dev)) [
  | inl same ↦
      let dev≡ : dev' ≡ dev = ground (arith, same) in
      (
        widen_dev io di,
        ap (find_dev (write_dev ds dev (widen_dev io))) dev≡
            ∙ find_written ds dev io di (ap (find_dev ds) (sym dev≡) ∙ e),
        (widen_max io di).1,
      )
  | inr other ↦ (di, find_unwritten ds dev dev' io other ∙ e, omega arith)
]

-- no range begins behind 0
abbrev pub FromZero : List DevInfo → Type 0
FromZero [] = Unit
FromZero (di ∷ ds) = (di.min ≡ 0) × FromZero ds

widen_zero : (io : IoTrace) (di : DevInfo) → di.min ≡ 0 → (widen_dev io di).min ≡ 0
unfolding widen_dev
widen_zero io di e = ground (arith, e)

written-FromZero :
    (ds : List DevInfo) (dev : ℕ) (io : IoTrace)
    → FromZero ds
    → FromZero (write_dev ds dev (widen_dev io))
unfolding write_dev
written-FromZero [] dev io z = tt
written-FromZero (d ∷ ds) dev io (e, z) = elim (Bool-cases (d.device == dev)) [
  | inl here ↦ rw here (widen_zero io d e, z)
  | inr past ↦ rw past (e, written-FromZero ds dev io z)
]

added-FromZero : (ds : List DevInfo) (dev : ℕ) → FromZero ds → FromZero (ds ++ (new_dev dev ∷ []))
added-FromZero [] dev z = (refl, tt)
added-FromZero (d ∷ ds) dev (e, z) = (e, added-FromZero ds dev z)

pub same-Grows : (ds : List DevInfo) → Grows ds ds
same-Grows ds dev di e = (di, e, omega arith)

pub then-Grows : (ds ds' ds'' : List DevInfo) → Grows ds ds' → Grows ds' ds'' → Grows ds ds''
then-Grows ds ds' ds'' g h dev di e =
    let (di', e', le) = g dev di e in
    let (di'', e'', le') = h dev di' e' in (di'', e'', omega (arith, le, le'))

-- What `lookup_dev` returns has the device, and what was there.
record Looked (dev : ℕ) (ds ds' : List DevInfo) : Type 0 where
  pub info : DevInfo
  pub found : find_dev ds' dev ≡ some info
  pub grows : Grows ds ds'
  pub zero : FromZero ds → FromZero ds'

lookup_known :
    (ds : List DevInfo) (dev : ℕ) (di : DevInfo)
    → find_dev ds dev ≡ some di
    → lookup_dev ds dev ≡ some ds
unfolding lookup_dev
lookup_known ds dev di e = rw (lookup_dev, e) refl

lookup_new :
    (ds : List DevInfo) (dev : ℕ)
    → find_dev ds dev ≡ none
    → lookup_dev ds dev ≡ (if ltb (length ds) 64 then some (ds ++ (new_dev dev ∷ [])) else none)
unfolding lookup_dev
lookup_new ds dev e = rw (lookup_dev, e) refl

added-Grows : (ds : List DevInfo) (dev : ℕ) → Grows ds (ds ++ (new_dev dev ∷ []))
added-Grows ds dev dev' di e = (
  di,
  find_dev-append ds (new_dev dev ∷ []) dev'
      ∙ ap (λ o. first_of o (find_dev (new_dev dev ∷ []) dev')) e,
  omega arith,
)

from_if : (b : Bool) (ds ds' : List DevInfo) → (if b then some ds else none) ≡ some ds' → ds ≡ ds'
from_if true ds ds' e = cc
from_if false ds ds' e = absurd (is_there (sym e))

lookup_dev-Looked :
    (ds ds' : List DevInfo) (dev : ℕ) → lookup_dev ds dev ≡ some ds' → Looked dev ds ds'
lookup_dev-Looked ds ds' dev e = elim (Option-cases (find_dev ds dev)) [
  | inl free ↦
      let new = ds ++ (new_dev dev ∷ []) in
      let out : new ≡ ds' =
        from_if (ltb (length ds) 64) new ds' (sym (lookup_new ds dev free) ∙ e) in
      let same : (dev == dev) ≡ true = ground arith in
      subst (Looked dev ds) out (record {
        info = new_dev dev;
        found =
            find_dev-append ds (new_dev dev ∷ []) dev
            ∙ ap (λ o. first_of o (find_dev (new_dev dev ∷ []) dev)) free
            ∙ find_dev-here (new_dev dev) [] dev same;
        grows = added-Grows ds dev;
        zero = added-FromZero ds dev;
      })
  | inr (di, known) ↦
      let both : some ds ≡ some ds' = sym (lookup_known ds dev di known) ∙ e in
      let out : ds ≡ ds' = cc in
      subst (Looked dev ds) out
        (record { info = di; found = known; grows = same-Grows ds; zero = λ z. z })
]

-- what the loop has done when it has read the records `ios`
pub record Scanned (ds ds' : List DevInfo) : Type 0 where
  pub grows : Grows ds ds'
  pub zero : FromZero ds → FromZero ds'

pub event_on_io :
    (io : IoTrace) (ds ds' : List DevInfo)
    → has_class 10 io ≡ false
    → scan_event io ds ≡ some ds'
    → Scanned ds ds' × Covered io ds'
unfolding scan_event
event_on_io io ds ds' n e = elim (Option-cases (lookup_dev ds io.device)) [
  | inl exits ↦ absurd (is_there (sym e ∙ rw (n, exits) refl))
  | inr (mid, found) ↦
      let out : some (write_dev mid io.device (widen_dev io)) ≡ some ds' =
        sym (rw (n, found) refl) ∙ e in
      let out' : write_dev mid io.device (widen_dev io) ≡ ds' = cc in
      let l = lookup_dev-Looked ds mid io.device found in
      subst (λ d. Scanned ds d × Covered io d) out'
        (
          record {
            grows = then-Grows ds mid _ l.grows (written-Grows mid io.device io);
            zero = λ z. written-FromZero mid io.device io (l.zero z);
          },
          record {
            info = widen_dev io l.info;
            found = find_written mid io.device io l.info l.found;
            reaches = (widen_max io l.info).0;
          },
        )
]

pub event_on_notify :
    (io : IoTrace) (ds : List DevInfo) → has_class 10 io ≡ true → scan_event io ds ≡ some ds
unfolding scan_event
event_on_notify io ds n = rw n refl
