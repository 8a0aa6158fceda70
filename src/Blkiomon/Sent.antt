-- ===== src/Blkiomon/Sent.antt =====
-- What is sent of the statistics of a device: every number in big-endian order, on a little-endian host.
use iovisualization.Prelude.{ℕ, ◌≡◌, refl, List, [], ◌∷◌}
use iovisualization.Trace.{bswap32, bswap64}
use iovisualization.Stats.{MinMax, minmax_to_be, histlog2_to_be}
use iovisualization.Blkiomon.Stat.{BlkiomonStat, blkiomon_stat_to_be}
use iovisualization.Blkiomon.{blkiomon_output}

pub record SentMinMax (mm out : MinMax) : Type 0 where
  pub min_value : out.min_value ≡ bswap64 mm.min_value
  pub max_value : out.max_value ≡ bswap64 mm.max_value
  pub sum : out.sum ≡ bswap64 mm.sum
  pub sos : out.sos ≡ bswap64 mm.sos
  pub num : out.num ≡ bswap64 mm.num

-- the counts of a histogram, one by one
abbrev pub SentHist : List ℕ → List ℕ → Type 0
SentHist [] [] = Unit {0}
SentHist [] (b ∷ out) = ⊥
SentHist (a ∷ hist) [] = ⊥
SentHist (a ∷ hist) (b ∷ out) = (b ≡ bswap32 a) × SentHist hist out

pub record Sent (tv_sec : ℕ) (p out : BlkiomonStat) : Type 0 where
  pub time : out.time ≡ bswap64 tv_sec
  pub device : out.device ≡ bswap32 p.device
  pub size_hist : SentHist p.size_hist out.size_hist
  pub d2c_hist : SentHist p.d2c_hist out.d2c_hist
  pub size_r : SentMinMax p.size_r out.size_r
  pub size_w : SentMinMax p.size_w out.size_w
  pub d2c_r : SentMinMax p.d2c_r out.d2c_r
  pub d2c_w : SentMinMax p.d2c_w out.d2c_w
  pub thrput_r : SentMinMax p.thrput_r out.thrput_r
  pub thrput_w : SentMinMax p.thrput_w out.thrput_w
  pub bidir : out.bidir ≡ bswap64 p.bidir

-- each of the statistics with the time, in their order, and no others
abbrev pub SentAll : ℕ → List BlkiomonStat → List BlkiomonStat → Type 0
SentAll tv_sec [] [] = Unit {0}
SentAll tv_sec [] (q ∷ out) = ⊥
SentAll tv_sec (p ∷ stats) [] = ⊥
SentAll tv_sec (p ∷ stats) (q ∷ out) = Sent tv_sec p q × SentAll tv_sec stats out

minmax_to_be-SentMinMax : (mm : MinMax) → SentMinMax mm (minmax_to_be mm)
unfolding minmax_to_be
minmax_to_be-SentMinMax mm = record {
  min_value = refl;
  max_value = refl;
  sum = refl;
  sos = refl;
  num = refl;
}

histlog2_to_be-SentHist : (hist : List ℕ) → SentHist hist (histlog2_to_be hist)
unfolding histlog2_to_be
histlog2_to_be-SentHist [] = tt
histlog2_to_be-SentHist (a ∷ hist) = (refl, histlog2_to_be-SentHist hist)

to_be-Sent :
    (tv_sec : ℕ) (p : BlkiomonStat)
    → Sent tv_sec p (blkiomon_stat_to_be (record p { time = tv_sec }))
unfolding blkiomon_stat_to_be
to_be-Sent tv_sec p = record {
  time = refl;
  device = refl;
  size_hist = histlog2_to_be-SentHist p.size_hist;
  d2c_hist = histlog2_to_be-SentHist p.d2c_hist;
  size_r = minmax_to_be-SentMinMax p.size_r;
  size_w = minmax_to_be-SentMinMax p.size_w;
  d2c_r = minmax_to_be-SentMinMax p.d2c_r;
  d2c_w = minmax_to_be-SentMinMax p.d2c_w;
  thrput_r = minmax_to_be-SentMinMax p.thrput_r;
  thrput_w = minmax_to_be-SentMinMax p.thrput_w;
  bidir = refl;
}

pub blkiomon_output-SentAll :
    (tv_sec : ℕ) (stats : List BlkiomonStat) → SentAll tv_sec stats (blkiomon_output tv_sec stats)
unfolding blkiomon_output
blkiomon_output-SentAll tv_sec [] = tt
blkiomon_output-SentAll tv_sec (p ∷ stats) =
    (to_be-Sent tv_sec p, blkiomon_output-SentAll tv_sec stats)
