-- ===== src/Btt/Seek/Tally.antt =====
-- Buckets in order of their distances, without the tree.
use iovisualization.Prelude.{
  ◌≤◌, inl, inr, Bool-cases, ==_iff, ltb→lt, refl, ℕ, ◌<◌, ◌≡◌, List, [], ◌∷◌, ◌++◌, arith, ltb,
  ◌==◌, if◌then◌else◌, add32,
}
use iovisualization.Prelude.Ordered.{IsOrdered, Before, After, After-mono}
use iovisualization.Btt.Seek.{SeekBkt}

abbrev pub sectors_of : SeekBkt → ℕ
sectors_of sbp = sbp.sectors

abbrev pub IsKeyed : List SeekBkt → Type 0
IsKeyed = IsOrdered sectors_of sectors_of

-- a bucket with one seek more
abbrev pub bumped : SeekBkt → SeekBkt
bumped sbp = record sbp { nseeks = add32 sbp.nseeks 1 }

-- one more seek of a distance
unfoldable pub tally : List SeekBkt → ℕ → List SeekBkt
tally [] d = record { sectors = d; nseeks = 1 } ∷ []
tally (x ∷ xs) d =
    if ltb d x.sectors
    then record { sectors = d; nseeks = 1 } ∷ x ∷ xs
    else if ltb x.sectors d
    then x ∷ tally xs d
    else bumped x ∷ xs

-- how many seeks of a distance the buckets tell of
unfoldable pub nseeks_of : List SeekBkt → ℕ → ℕ
nseeks_of [] n = 0
nseeks_of (x ∷ xs) n = if x.sectors == n then x.nseeks else nseeks_of xs n

module _ (x : SeekBkt) (after : List SeekBkt) (d : ℕ) where
  pub tally-before :
      (before : List SeekBkt)
      → d < x.sectors
      → tally (before ++ (x ∷ after)) d ≡ tally before d ++ (x ∷ after)
  unfolding tally
  tally-before [] lt = ground arith
  tally-before (y ∷ before) lt = ground (arith, tally-before before lt)

  pub tally-after :
      (before : List SeekBkt)
      → Before sectors_of sectors_of x.sectors before
      → x.sectors < d
      → tally (before ++ (x ∷ after)) d ≡ before ++ (x ∷ tally after d)
  unfolding tally
  tally-after [] b gt = ground arith
  tally-after (y ∷ before) b gt = ground (arith, tally-after before b.1 gt)

  pub tally-here :
      (before : List SeekBkt)
      → Before sectors_of sectors_of x.sectors before
      → x.sectors ≡ d
      → tally (before ++ (x ∷ after)) d ≡ before ++ (bumped x ∷ after)
  unfolding tally
  tally-here [] b e = ground arith
  tally-here (y ∷ before) b e = ground (arith, tally-here before b.1 e)

tally-After :
    (xs : List SeekBkt) (d t : ℕ)
    → After sectors_of sectors_of t xs
    → t < d
    → After sectors_of sectors_of t (tally xs d)
unfolding tally
tally-After [] d t a lt = (lt, tt)
tally-After (x ∷ xs) d t a lt = ground (arith, tally-After xs d t a.1 lt)

pub tally-IsKeyed : (xs : List SeekBkt) (d : ℕ) → IsKeyed xs → IsKeyed (tally xs d)
unfolding tally
tally-IsKeyed [] d v = (omega arith, tt, tt)
tally-IsKeyed (x ∷ xs) d v = elim (Bool-cases (ltb d x.sectors)) [
  | inl lt ↦ rw lt (
    omega arith,
    (ltb→lt _ _ lt, After-mono sectors_of sectors_of xs (omega (arith, ltb→lt _ _ lt)) v.1),
    v,
  )
  | inr ge ↦ elim (Bool-cases (ltb x.sectors d)) [
    | inl gt ↦
        rw (ge, gt) (v.0, tally-After xs d x.sectors v.1 (ltb→lt _ _ gt), tally-IsKeyed xs d v.2)
    | inr le ↦ rw (ge, le) v
  ]
]

nseeks_of-After :
    (xs : List SeekBkt) (n t : ℕ) → After sectors_of sectors_of t xs → n ≤ t → nseeks_of xs n ≡ 0
unfolding nseeks_of
nseeks_of-After [] n t a h = refl
nseeks_of-After (x ∷ xs) n t a h = ground (arith, nseeks_of-After xs n t a.1 h)

-- the buckets behind the first one, after a seek that goes to them
tally_behind :
    (x : SeekBkt) (rest rest' d n : ℕ)
    → x.sectors < d
    → rest' ≡ (if n == d then add32 rest 1 else rest)
    → (if x.sectors == n then x.nseeks else rest') ≡ (
        if n == d
        then add32 (if x.sectors == n then x.nseeks else rest) 1
        else if x.sectors == n
        then x.nseeks
        else rest)
tally_behind x rest rest' d n gt e = elim (Bool-cases (x.sectors == n)) [
  | inl same ↦ rw same (ground (arith, same))
  | inr other ↦ rw other e
]

nseeks_of-behind :
    (x : SeekBkt) (xs : List SeekBkt) (d n : ℕ)
    → x.sectors < d
    → nseeks_of (tally xs d) n ≡ (if n == d then add32 (nseeks_of xs n) 1 else nseeks_of xs n)
    → nseeks_of (x ∷ tally xs d) n
      ≡ (if n == d then add32 (nseeks_of (x ∷ xs) n) 1 else nseeks_of (x ∷ xs) n)
unfolding nseeks_of
nseeks_of-behind x xs d n gt e = tally_behind x (nseeks_of xs n) (nseeks_of (tally xs d) n) d n gt e

nseeks_of-bumped :
    (x : SeekBkt) (xs : List SeekBkt) (d n : ℕ)
    → x.sectors ≡ d
    → nseeks_of (bumped x ∷ xs) n
      ≡ (if n == d then add32 (nseeks_of (x ∷ xs) n) 1 else nseeks_of (x ∷ xs) n)
unfolding nseeks_of
nseeks_of-bumped x xs d n e = elim (Bool-cases (x.sectors == n)) [
  | inl same ↦ rw same (ground (arith, same))
  | inr other ↦ rw other (ground (arith, other))
]

nseeks_of-new :
    (xs : List SeekBkt) (d n : ℕ)
    → nseeks_of xs d ≡ 0
    → nseeks_of (record { sectors = d; nseeks = 1 } ∷ xs) n
      ≡ (if n == d then add32 (nseeks_of xs n) 1 else nseeks_of xs n)
unfolding nseeks_of
nseeks_of-new xs d n e = elim (Bool-cases (n == d)) [
  | inl same ↦ ground (arith, same, e, (==_iff n d).0 same)
  | inr other ↦ rw other (ground (arith, other))
]

pub nseeks_of-tally :
    (xs : List SeekBkt) (d n : ℕ)
    → IsKeyed xs
    → nseeks_of (tally xs d) n ≡ (if n == d then add32 (nseeks_of xs n) 1 else nseeks_of xs n)
unfolding tally
nseeks_of-tally [] d n v = nseeks_of-new [] d n (nseeks_of-After [] d d tt (omega arith))
nseeks_of-tally (x ∷ xs) d n v = elim (Bool-cases (ltb d x.sectors)) [
  | inl lt ↦ rw lt (
      nseeks_of-new (x ∷ xs) d n (
        nseeks_of-After (x ∷ xs) d d
          (ltb→lt _ _ lt, After-mono sectors_of sectors_of xs (omega (arith, ltb→lt _ _ lt)) v.1)
          (omega arith)))
  | inr ge ↦ elim (Bool-cases (ltb x.sectors d)) [
    | inl gt ↦ rw (ge, gt) (nseeks_of-behind x xs d n (ltb→lt _ _ gt) (nseeks_of-tally xs d n v.2))
    | inr le ↦ rw (ge, le) (nseeks_of-bumped x xs d n (ground (arith, ge, le)))
  ]
]

pub tally-new : (d : ℕ) → (record { sectors = d; nseeks = 1 } ∷ []) ≡ tally [] d
unfolding tally
tally-new d = refl
