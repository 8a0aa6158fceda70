-- ===== src/Btt/Q2d.antt =====
-- server-proto/btt/q2d.c: how long requests wait from queueing to issuing, in ten buckets.
pub mod Buckets
pub mod Tests
use iovisualization.Prelude.{
  ℕ, zero, suc, ap, Bool, ◌&&◌, List, [], ◌∷◌, leb, ltb, if◌then◌else◌, replicate, add64,
}

-- `struct q2d_info`, all numbers of 64 bits
pub record Q2dInfo : Type 0 where
  pub nhistos : ℕ
  pub histos : List ℕ

-- the switch of `q2d_histo_add`
unfoldable pub q2d_index : ℕ → ℕ
q2d_index msec =
    if leb 500 msec && leb msec 999
    then 8
    else if leb 250 msec && leb msec 499
    then 7
    else if leb 100 msec && leb msec 249
    then 6
    else if leb 75 msec && leb msec 99
    then 5
    else if leb 50 msec && leb msec 74
    then 4
    else if leb 25 msec && leb msec 49
    then 3
    else if leb 10 msec && leb msec 24
    then 2
    else if leb 5 msec && leb msec 9
    then 1
    else if leb msec 4
    then 0
    else 9

-- `histos[index]++`
unfoldable pub bump_histo : List ℕ → ℕ → List ℕ
bump_histo [] index = []
bump_histo (h ∷ histos) zero = add64 h 1 ∷ histos
bump_histo (h ∷ histos) (suc index) = h ∷ bump_histo histos index

-- The milliseconds of a time, which the source computes in floating point, are a parameter.
unfoldable pub q2d_histo_add : (ℕ → ℕ) → Q2dInfo → ℕ → Q2dInfo
unfolding q2d_index bump_histo
q2d_histo_add to_msec q2dp q2d_in = record {
  histos = bump_histo q2dp.histos (q2d_index (to_msec q2d_in));
  nhistos = add64 q2dp.nhistos 1;
}

abbrev pub q2d_alloc : Q2dInfo
q2d_alloc = record { nhistos = 0; histos = replicate 10 0 }

-- `q2d_ok`, where there is a histogram
abbrev pub q2d_ok : Q2dInfo → Bool
q2d_ok q2dp = ltb 0 q2dp.nhistos

-- the loop of `q2d_acc`
unfoldable pub acc_histos : List ℕ → List ℕ → List ℕ
acc_histos [] ts = []
acc_histos (a ∷ ap_histos) [] = a ∷ ap_histos
acc_histos (a ∷ ap_histos) (t ∷ ts) = add64 a t ∷ acc_histos ap_histos ts

unfoldable pub q2d_acc : Q2dInfo → Q2dInfo → Q2dInfo
unfolding acc_histos
q2d_acc a1 a2 = record {
  histos = acc_histos a1.histos a2.histos;
  nhistos = add64 a1.nhistos a2.nhistos;
}
