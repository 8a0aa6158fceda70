-- ===== src/Btt/Q2d/Buckets.antt =====
-- What the buckets count.
use iovisualization.Prelude.{
  ℕ, zero, suc, ◌+◌, ◌%◌, ◌^◌, ◌<◌, ◌≡◌, refl, sym, ap, ◌∙◌, List, [], ◌∷◌, ◌++◌, arith, leb, ◌==◌,
  if◌then◌else◌, length, replicate, length-append, count, count-append, add64,
}
use iovisualization.Btt.Q2d.{
  Q2dInfo, q2d_index, bump_histo, q2d_histo_add, acc_histos, q2d_acc, q2d_alloc,
}

-- the milliseconds at which the buckets but the first begin
abbrev pub limits : List ℕ
limits = 5 ∷ 10 ∷ 25 ∷ 50 ∷ 75 ∷ 100 ∷ 250 ∷ 500 ∷ 1000 ∷ []

-- the bucket of a number of milliseconds: the number of the limits that it reaches
abbrev pub bucket_of : ℕ → ℕ
bucket_of msec = count (λ limit. leb limit msec) limits

-- The switch finds the bucket.
pub q2d_index-limits : (msec : ℕ) → q2d_index msec ≡ bucket_of msec
unfolding q2d_index
q2d_index-limits msec = ground arith

-- the number in a bucket, zero beyond the last
abbrev pub at : List ℕ → ℕ → ℕ
at [] i = 0
at (h ∷ histos) zero = h
at (h ∷ histos) (suc i) = at histos i

at-bump_histo :
    (histos : List ℕ) (index i : ℕ)
    → index < length histos
    → at (bump_histo histos index) i ≡ (if i == index then add64 (at histos i) 1 else at histos i)
unfolding bump_histo
at-bump_histo [] index i h = absurd (omega arith)
at-bump_histo (x ∷ histos) zero zero h = refl
at-bump_histo (x ∷ histos) zero (suc i) h = ground arith
at-bump_histo (x ∷ histos) (suc index) zero h = ground arith
at-bump_histo (x ∷ histos) (suc index) (suc i) h = ground (arith, at-bump_histo histos index i)

at-acc_histos :
    (ap_histos ts : List ℕ) (i : ℕ)
    → length ts ≡ length ap_histos
    → i < length ap_histos
    → at (acc_histos ap_histos ts) i ≡ add64 (at ap_histos i) (at ts i)
unfolding acc_histos
at-acc_histos [] ts i e h = absurd (omega arith)
at-acc_histos (a ∷ ap_histos) [] i e h = absurd (omega arith)
at-acc_histos (a ∷ ap_histos) (t ∷ ts) zero e h = refl
at-acc_histos (a ∷ ap_histos) (t ∷ ts) (suc i) e h =
    at-acc_histos ap_histos ts i (omega arith) (omega arith)

length-bump_histo : (histos : List ℕ) (index : ℕ) → length (bump_histo histos index) ≡ length histos
unfolding bump_histo
length-bump_histo [] index = refl
length-bump_histo (x ∷ histos) zero = refl
length-bump_histo (x ∷ histos) (suc index) = ap suc (length-bump_histo histos index)

index-lt : (msec : ℕ) → q2d_index msec < 10
unfolding q2d_index
index-lt msec = ground arith

-- `q2d_histo_add` for a run of times
unfoldable pub add_all : (ℕ → ℕ) → Q2dInfo → List ℕ → Q2dInfo
add_all to_msec q2dp [] = q2dp
add_all to_msec q2dp (t ∷ times) = add_all to_msec (q2d_histo_add to_msec q2dp t) times

-- what `q2dp'` counts besides `q2dp`
pub record Counts (to_msec : ℕ → ℕ) (q2dp q2dp' : Q2dInfo) (times : List ℕ) : Type 0 where
  pub size : length q2dp'.histos ≡ 10
  pub total : q2dp'.nhistos ≡ (q2dp.nhistos + length times) % 2 ^ 64
  pub each :
      (i : ℕ)
      → i < 10
      → at q2dp'.histos i
        ≡ (at q2dp.histos i + count (λ t. i == bucket_of (to_msec t)) times) % 2 ^ 64

-- the numbers of a histogram fit their type
pub record IsQ2d (q2dp : Q2dInfo) : Type 0 where
  pub size : length q2dp.histos ≡ 10
  pub total : q2dp.nhistos < 2 ^ 64
  pub each : (i : ℕ) → i < 10 → at q2dp.histos i < 2 ^ 64

at-zeros : (n i : ℕ) → at (replicate n 0) i ≡ 0
at-zeros zero i = refl
at-zeros (suc n) zero = refl
at-zeros (suc n) (suc i) = at-zeros n i

length-acc_histos : (ap_histos ts : List ℕ) → length (acc_histos ap_histos ts) ≡ length ap_histos
unfolding acc_histos
length-acc_histos [] ts = refl
length-acc_histos (a ∷ ap_histos) [] = refl
length-acc_histos (a ∷ ap_histos) (t ∷ ts) = ap suc (length-acc_histos ap_histos ts)

pub q2d_alloc-IsQ2d : IsQ2d q2d_alloc
q2d_alloc-IsQ2d = record {
  size = refl;
  total = omega arith;
  each = λ i h. rw (at-zeros 10 i) (omega arith);
}

module _ (to_msec : ℕ → ℕ) where
  add_size :
      (q2dp : Q2dInfo) (t : ℕ) → length (q2d_histo_add to_msec q2dp t).histos ≡ length q2dp.histos
  unfolding q2d_histo_add
  add_size q2dp t = length-bump_histo q2dp.histos (q2d_index (to_msec t))

  add_total :
      (q2dp : Q2dInfo) (t : ℕ) → (q2d_histo_add to_msec q2dp t).nhistos ≡ add64 q2dp.nhistos 1
  unfolding q2d_histo_add
  add_total q2dp t = refl

  add_each :
      (q2dp : Q2dInfo) (t i : ℕ)
      → length q2dp.histos ≡ 10
      → at (q2d_histo_add to_msec q2dp t).histos i
        ≡ (if i == bucket_of (to_msec t) then add64 (at q2dp.histos i) 1 else at q2dp.histos i)
  unfolding q2d_histo_add
  add_each q2dp t i n =
      at-bump_histo q2dp.histos (q2d_index (to_msec t)) i (omega (arith, n, index-lt (to_msec t)))
      ∙ ap (λ k. if i == k then add64 (at q2dp.histos i) 1 else at q2dp.histos i)
          (q2d_index-limits (to_msec t))

  add_IsQ2d : (q2dp : Q2dInfo) (t : ℕ) → IsQ2d q2dp → IsQ2d (q2d_histo_add to_msec q2dp t)
  add_IsQ2d q2dp t v = record {
    size = add_size q2dp t ∙ v.size;
    total = rw (add_total q2dp t) (omega arith);
    each = λ i h. ground (arith, add_each q2dp t i v.size, v.each i h);
  }

  -- From a histogram of ten buckets whose numbers fit their type, after any run of times `nhistos` has
  -- grown by the number of all, and each bucket by the number of the times whose milliseconds reach as many of
  -- the limits 5, 10, 25, 50, 75, 100, 250, 500 and 1000 as its index says, modulo 2^64.
  pub add_all-Counts :
      (q2dp : Q2dInfo) (times : List ℕ)
      → IsQ2d q2dp
      → Counts to_msec q2dp (add_all to_msec q2dp times) times
  unfolding add_all
  add_all-Counts q2dp [] v = record {
    size = v.size;
    total = omega (arith, v.total);
    each = λ i h. omega (arith, v.each i h);
  }
  add_all-Counts q2dp (t ∷ times) v =
      let r = add_all-Counts (q2d_histo_add to_msec q2dp t) times (add_IsQ2d q2dp t v) in
      record {
        size = r.size;
        total = omega (arith, r.total, add_total q2dp t);
        each = λ i h. ground (arith, r.each i h, add_each q2dp t i v.size);
      }

  acc_Counts :
      (z a1 a2 : Q2dInfo) (xs ys : List ℕ)
      → ((i : ℕ) → at z.histos i ≡ 0)
      → z.nhistos ≡ 0
      → Counts to_msec z a1 xs
      → Counts to_msec z a2 ys
      → Counts to_msec z (q2d_acc a1 a2) (xs ++ ys)
  unfolding q2d_acc
  acc_Counts z a1 a2 xs ys zeros fresh p q = record {
    size = length-acc_histos a1.histos a2.histos ∙ p.size;
    total = omega (arith, fresh, p.total, q.total, length-append xs ys);
    each = λ i h.
        at-acc_histos a1.histos a2.histos i (q.size ∙ sym p.size) (omega (arith, p.size))
        ∙ omega (
          arith,
          p.each i h,
          q.each i h,
          zeros i,
          count-append (λ t. i == bucket_of (to_msec t)) xs ys,
        );
  }

  -- Accumulating the histogram of one run of times into that of another gives the counts of both
  -- runs, modulo 2^64.
  pub q2d_acc-Counts :
      (xs ys : List ℕ)
      → Counts to_msec q2d_alloc
          (q2d_acc (add_all to_msec q2d_alloc xs) (add_all to_msec q2d_alloc ys))
          (xs ++ ys)
  q2d_acc-Counts xs ys =
      acc_Counts q2d_alloc _ _ xs ys (at-zeros 10) refl
        (add_all-Counts q2d_alloc xs q2d_alloc-IsQ2d) (add_all-Counts q2d_alloc ys q2d_alloc-IsQ2d)
