-- ===== src/Blkiomon/Stat.antt =====
-- server-proto/blkiomon.h: the statistics of a device.
use iovisualization.Prelude.{ℕ, List, replicate, add64}
use iovisualization.Trace.{bswap32, bswap64}
use iovisualization.Stats.{
  MinMax, minmax_init, minmax_merge, minmax_to_be, HistLog2, histlog2_merge, histlog2_to_be,
}

-- `struct blkiomon_stat`
pub record BlkiomonStat : Type 0 where
  pub time : ℕ
  pub size_hist : List ℕ
  pub d2c_hist : List ℕ
  pub device : ℕ
  pub size_r : MinMax
  pub size_w : MinMax
  pub d2c_r : MinMax
  pub d2c_w : MinMax
  pub thrput_r : MinMax
  pub thrput_w : MinMax
  pub bidir : ℕ

-- the parameters `size_hist` and `d2c_hist`
abbrev pub size_hist_of : HistLog2
size_hist_of = record { first = 0; delta = 1024; num = 16 }

abbrev pub d2c_hist_of : HistLog2
d2c_hist_of = record { first = 0; delta = 8; num = 25 }

abbrev pub blkiomon_stat_init : BlkiomonStat
blkiomon_stat_init = record {
  time = 0;
  size_hist = replicate 16 0;
  d2c_hist = replicate 25 0;
  device = 0;
  size_r = minmax_init;
  size_w = minmax_init;
  d2c_r = minmax_init;
  d2c_w = minmax_init;
  thrput_r = minmax_init;
  thrput_w = minmax_init;
  bidir = 0;
}

unfoldable pub blkiomon_stat_to_be : BlkiomonStat → BlkiomonStat
blkiomon_stat_to_be bstat = record {
  size_hist = histlog2_to_be bstat.size_hist;
  d2c_hist = histlog2_to_be bstat.d2c_hist;
  size_r = minmax_to_be bstat.size_r;
  size_w = minmax_to_be bstat.size_w;
  d2c_r = minmax_to_be bstat.d2c_r;
  d2c_w = minmax_to_be bstat.d2c_w;
  thrput_r = minmax_to_be bstat.thrput_r;
  thrput_w = minmax_to_be bstat.thrput_w;
  bidir = bswap64 bstat.bidir;
  time = bswap64 bstat.time;
  device = bswap32 bstat.device;
}

unfoldable pub blkiomon_stat_merge : BlkiomonStat → BlkiomonStat → BlkiomonStat
blkiomon_stat_merge dst src = record dst {
  size_hist = histlog2_merge dst.size_hist src.size_hist;
  d2c_hist = histlog2_merge dst.d2c_hist src.d2c_hist;
  size_r = minmax_merge dst.size_r src.size_r;
  size_w = minmax_merge dst.size_w src.size_w;
  d2c_r = minmax_merge dst.d2c_r src.d2c_r;
  d2c_w = minmax_merge dst.d2c_w src.d2c_w;
  thrput_r = minmax_merge dst.thrput_r src.thrput_r;
  thrput_w = minmax_merge dst.thrput_w src.thrput_w;
  bidir = add64 dst.bidir src.bidir;
}
