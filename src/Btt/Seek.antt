-- ===== src/Btt/Seek.antt =====
-- server-proto/btt/seek.c: the distances between the I/Os of a device, counted in a tree of
-- buckets, one for each distance.
pub mod Tally
pub mod Insert
pub mod Modes
pub mod Distance
pub mod Total
pub mod Median
pub mod Tests
use iovisualization.Prelude.{
  ◌&&◌, ◌||◌, add64, ℕ, ◌+◌, ◌/◌, Bool, true, false, Option, none, some, List, [], ◌∷◌, ◌++◌, leb,
  ltb, ◌==◌, if◌then◌else◌, add32,
}
use iovisualization.Prelude.Tree.{Tree, leaf, node, RbTree}
use iovisualization.Prelude.Int.{ℤ, pos, pos_part, neg_part, sub_ℕ}
use iovisualization.Btt.IoTree.{Io, bit_start, bit_end}

-- `struct seek_bkt`, less its links. `nseeks` is an `int`, below 2^31 here.
pub record SeekBkt : Type 0 where
  pub sectors : ℕ
  pub nseeks : ℕ

-- The loop of `__insert` and `rb_link_node`, and whether the bucket is new. A distance is not
-- negative: `seeki_add` takes it by `llabs`.
unfoldable pub find_bkt : Tree SeekBkt → ℕ → Bool × Tree SeekBkt
find_bkt leaf sectors = (true, node leaf (record { sectors = sectors; nseeks = 1 }) leaf)
find_bkt (node l sbp r) sectors =
    let left = find_bkt l sectors in
    let right = find_bkt r sectors in
    if ltb sectors sbp.sectors
    then (left.0, node left.1 sbp r)
    else if ltb sbp.sectors sectors
    then (right.0, node l sbp right.1)
    else (false, node l (record sbp { nseeks = add32 sbp.nseeks 1 }) r)

-- `__insert`
unfoldable pub insert : RbTree SeekBkt → Tree SeekBkt → ℕ → Tree SeekBkt
unfolding find_bkt
insert rb root sectors =
    let (new, t) = find_bkt root sectors in if new then rb.insert_color t else t

-- `__median`; `none` is its result 0, else `*rvp`. The source does not call it without a node.
unfoldable pub median : Tree SeekBkt → ℕ → ℕ → Option ℕ
median leaf sofar target = none
median (node l sbp r) sofar target =
    let left = median l sofar target in
    let right = median r sofar target in
    if leb target (sofar + sbp.nseeks)
    then some sbp.sectors
    else elim left [ none ↦ right | some found ↦ some found ]

-- `seeki_median`, for a device with `tot_seeks` seeks
unfoldable pub seeki_median : Tree SeekBkt → ℕ → ℕ
unfolding median
seeki_median root tot_seeks = elim (median root 0 (tot_seeks / 2)) [ none ↦ 0 | some found ↦ found ]

-- `struct mode`: `modes` is `none` for a null pointer, and `nmds` is its length.
pub record Mode : Type 0 where
  pub most_seeks : ℕ
  pub modes : Option (List ℕ)

-- what `__mode` does at a node after its children
unfoldable pub mode_node : SeekBkt → Mode → Mode
mode_node sbp mp = elim mp.modes [
  | none ↦ record { most_seeks = sbp.nseeks; modes = some (sbp.sectors ∷ []) }
  | some modes ↦
      if ltb mp.most_seeks sbp.nseeks
      then record { most_seeks = sbp.nseeks; modes = some (sbp.sectors ∷ []) }
      else if sbp.nseeks == mp.most_seeks
      then record { most_seeks = sbp.nseeks; modes = some (modes ++ (sbp.sectors ∷ [])) }
      else mp
]

-- `__mode`
unfoldable pub mode : Tree SeekBkt → Mode → Mode
unfolding mode_node
mode leaf mp = mp
mode (node l sbp r) mp = mode_node sbp (mode r (mode l mp))

-- the numbers of `struct seeki` that count seeks; the sectors stay below 2^63
pub record Seeki : Type 0 where
  pub root : Tree SeekBkt
  pub tot_seeks : ℕ
  pub last_start : ℕ
  pub last_end : ℕ

-- what `seeki_alloc` makes
abbrev pub seeki_alloc : Seeki
seeki_alloc = record { root = leaf; tot_seeks = 0; last_start = 0; last_end = 0 }

-- The distance and the state afterwards. `absolute` is the global `seek_absolute`.
unfoldable pub seek_dist : Bool → Seeki → Io → ℤ × Seeki
seek_dist absolute sip iop =
    let start = bit_start iop in
    let end = bit_end iop in
    (
      if absolute
          then sub_ℕ start sip.last_end
          else if (leb sip.last_start start && leb start sip.last_end)
              || (leb sip.last_start end && leb end sip.last_end)
          then pos 0
          else if ltb sip.last_end start
          then sub_ℕ start sip.last_end
          else sub_ℕ start sip.last_start,
      record sip { last_start = start; last_end = end },
    )

abbrev pub llabs : ℤ → ℕ
llabs dist = pos_part dist + neg_part dist

-- `seeki_add`, less its output
unfoldable pub seeki_add : RbTree SeekBkt → Bool → Seeki → Io → Seeki
unfolding seek_dist insert
seeki_add rb absolute sip iop =
    let (dist, sip) = seek_dist absolute sip iop in
    record sip { tot_seeks = add64 sip.tot_seeks 1; root = insert rb sip.root (llabs dist) }
