-- ===== src/Stats/Tests.antt =====
-- Accounts and histograms at concrete values.
use iovisualization.Prelude.{ℕ, ◌-◌, ◌≡◌, refl, List, [], ◌∷◌, replicate}
use iovisualization.Stats.{
  HistLog2, histlog2_upper_limit, histlog2_index_from, histlog2_index, bump, histlog2_account,
  histlog2_merge,
}
use iovisualization.Stats.Histogram
use iovisualization.Stats.Histogram.{IsBucket, histlog2_index-IsBucket, histlog2_merge-account_all}

-- blkiomon's histogram of sizes, with fewer buckets
abbrev size_hist : HistLog2
size_hist = record { first = 0; delta = 1024; num = 5 }

abbrev ones : List ℕ
ones = 3 ∷ 4 ∷ []

abbrev twos : List ℕ
twos = 5 ∷ []

buckets :
    Histogram.account_all size_hist (replicate 5 0) (0 ∷ 1 ∷ 1024 ∷ 1025 ∷ 99999 ∷ [])
    ≡ 1 ∷ 2 ∷ 1 ∷ 0 ∷ 1 ∷ []
unfolding Histogram.account_all histlog2_account histlog2_index histlog2_index_from
    histlog2_upper_limit bump
buckets = refl

histlog2_index-IsBucket_example : IsBucket size_hist 1500 0 (5 - 1) (histlog2_index 1500 size_hist)
histlog2_index-IsBucket_example = histlog2_index-IsBucket size_hist 1500

histlog2_merge-account_all_example :
    let zeros : List ℕ = replicate 5 0 in
    histlog2_merge
      (Histogram.account_all size_hist zeros ones)
      (Histogram.account_all size_hist zeros twos)
    ≡ Histogram.account_all size_hist zeros (3 ∷ 4 ∷ 5 ∷ [])
histlog2_merge-account_all_example = histlog2_merge-account_all size_hist ones twos
