-- ===== src/Stats.antt =====
-- server-proto/stats.h: running minimum, maximum and sums, and histograms with doubling buckets.
pub mod Merge
pub mod Histogram
pub mod Tests
use iovisualization.Prelude.{
  ℕ, zero, suc, ◌+◌, ◌-◌, ◌*◌, ◌^◌, List, [], ◌∷◌, ltb, ◌==◌, if◌then◌else◌, u64_max, add64, mul64,
  add32,
}
use iovisualization.Trace.{bswap32, bswap64}

-- `struct minmax`, of 64-bit numbers
pub record MinMax : Type 0 where
  pub min_value : ℕ
  pub max_value : ℕ
  pub sum : ℕ
  pub sos : ℕ
  pub num : ℕ

unfoldable pub minmax_init : MinMax
minmax_init = record { min_value = u64_max; max_value = 0; sum = 0; sos = 0; num = 0 }

unfoldable pub minmax_account : MinMax → ℕ → MinMax
minmax_account mm value = record mm {
  sum = add64 mm.sum value;
  sos = add64 mm.sos (mul64 value value);
  min_value = if ltb value mm.min_value then value else mm.min_value;
  max_value = if ltb mm.max_value value then value else mm.max_value;
  num = add64 mm.num 1;
}

unfoldable pub minmax_merge : MinMax → MinMax → MinMax
minmax_merge dst src = record dst {
  sum = add64 dst.sum src.sum;
  sos = add64 dst.sos src.sos;
  min_value = if ltb src.min_value dst.min_value then src.min_value else dst.min_value;
  max_value = if ltb dst.max_value src.max_value then src.max_value else dst.max_value;
  num = add64 dst.num src.num;
}

-- `cpu_to_be64` on a little-endian host
unfoldable pub minmax_to_be : MinMax → MinMax
minmax_to_be mm = record mm {
  sum = bswap64 mm.sum;
  sos = bswap64 mm.sos;
  min_value = bswap64 mm.min_value;
  max_value = bswap64 mm.max_value;
  num = bswap64 mm.num;
}

-- `struct histlog2`. The fields are `int`s of which the programs give small positive ones, so the
-- limits do not overflow.
pub record HistLog2 : Type 0 where
  pub first : ℕ
  pub delta : ℕ
  pub num : ℕ

unfoldable pub histlog2_upper_limit : ℕ → HistLog2 → ℕ
histlog2_upper_limit index h = h.first + (if index == 0 then 0 else h.delta * 2 ^ (index - 1))

-- The loop, at `i`, with `rounds` = `num - 1 - i`.
unfoldable pub histlog2_index_from : HistLog2 → ℕ → ℕ → ℕ → ℕ
histlog2_index_from h val zero i = i
histlog2_index_from h val (suc rounds) i =
    let next = histlog2_index_from h val rounds (i + 1) in
    if ltb (histlog2_upper_limit i h) val then next else i

unfoldable pub histlog2_index : ℕ → HistLog2 → ℕ
histlog2_index val h = histlog2_index_from h val (h.num - 1) 0

-- `bucket[i]++`
unfoldable pub bump : List ℕ → ℕ → List ℕ
bump [] i = []
bump (b ∷ bucket) zero = add32 b 1 ∷ bucket
bump (b ∷ bucket) (suc i) = b ∷ bump bucket i

unfoldable pub histlog2_account : List ℕ → ℕ → HistLog2 → List ℕ
histlog2_account bucket val h = bump bucket (histlog2_index val h)

-- `dst[i] += src[i]` for the buckets of two arrays of one length `num`
unfoldable pub histlog2_merge : List ℕ → List ℕ → List ℕ
histlog2_merge [] src = []
histlog2_merge (d ∷ dst) [] = d ∷ dst
histlog2_merge (d ∷ dst) (s ∷ src) = add32 d s ∷ histlog2_merge dst src

unfoldable pub histlog2_to_be : List ℕ → List ℕ
histlog2_to_be [] = []
histlog2_to_be (b ∷ bucket) = bswap32 b ∷ histlog2_to_be bucket
