-- ===== src/Blkiomon.antt =====
-- server-proto/blkiomon.h and server-proto/blkiomon.c: the issue and the completion of each request are matched, and
-- counted for the device; each interval the counts are handed out and begun anew.
pub mod Stat
pub mod Trees
pub mod Counts
pub mod Pairs
pub mod Sent
pub mod Intervals
pub mod Tests
use Prim.Native.Nat.{bit_and}
use iovisualization.Prelude.{
  ℕ, ◌+◌, ◌-◌, ◌*◌, ◌/◌, ◌%◌, ◌^◌, Bool, true, false, ◌&&◌, ◌||◌, not, Option, none, some, List, [],
  ◌∷◌, ltb, ◌==◌, if◌then◌else◌, add64, sub64,
}
use iovisualization.Prelude.Tree.{Tree, leaf, node, RbTree}
use iovisualization.Stats.{minmax_account, histlog2_account}
use iovisualization.Trace.{IoTrace}
use iovisualization.Blkparse.Track.{has_class}
use iovisualization.Blkiomon.Stat.{
  BlkiomonStat, size_hist_of, d2c_hist_of, blkiomon_stat_init, blkiomon_stat_to_be,
}

-- The globals. `vacant_traces` is also the length of the list of vacant traces; `dstat_list` holds the
-- devices of its entries, which are the nodes of the tree.
pub record Monitor : Type 0 where
  pub thash : ℕ → List IoTrace
  pub vacant_traces : ℕ
  pub dstat_tree : Bool → Tree BlkiomonStat
  pub dstat_list : Bool → List ℕ
  pub dstat_curr : Bool
  pub matched : ℕ
  pub mismatched : ℕ
  pub driverdata : ℕ

-- The walks of the tree of devices, whose greater devices are on the left.
unfoldable pub find_dstat : Tree BlkiomonStat → ℕ → Option BlkiomonStat
find_dstat leaf device = none
find_dstat (node l x r) device =
    let left = find_dstat l device in
    let right = find_dstat r device in
    if ltb x.device device then left else if ltb device x.device then right else some x

unfoldable pub link_dstat : Tree BlkiomonStat → BlkiomonStat → Option (Tree BlkiomonStat)
link_dstat leaf stat = some (node leaf stat leaf)
link_dstat (node l x r) stat =
    let left = link_dstat l stat in
    let right = link_dstat r stat in
    if ltb x.device stat.device
    then elim left [ none ↦ none | some l' ↦ some (node l' x r) ]
    else if ltb stat.device x.device
    then elim right [ none ↦ none | some r' ↦ some (node l x r') ]
    else none

-- a write through a pointer to the node of a device
unfoldable pub write_dstat :
    Tree BlkiomonStat → ℕ → (BlkiomonStat → BlkiomonStat) → Tree BlkiomonStat
write_dstat leaf device f = leaf
write_dstat (node l x r) device f =
    let left = write_dstat l device f in
    let right = write_dstat r device f in
    if ltb x.device device
    then node left x r
    else if ltb device x.device
    then node l x right
    else node l (f x) r

-- one of the two trees, or lists, changed
unfoldable pub at_curr : {A : Type 0} → (Bool → A) → Bool → A → Bool → A
at_curr a true v true = v
at_curr a true v false = a false
at_curr a false v true = a true
at_curr a false v false = v

-- `action`: the direction, and whether it is the file system's or a packet command
unfoldable pub action_of : ℕ → ℕ
action_of a = bit_and a (771 * 2 ^ 16)

-- the test of `blkiomon_fetch_trace`
unfoldable pub same_request : IoTrace → IoTrace → Bool
same_request bit t =
    t.device == bit.device && t.sector == bit.sector && action_of t.action == action_of bit.action

-- its walk: the trace that it finds, and the chain without it
unfoldable pub fetch_from : List IoTrace → IoTrace → Option (IoTrace × List IoTrace)
fetch_from [] bit = none
fetch_from (t ∷ chain) bit =
    let rest = fetch_from chain bit in
    if same_request bit t
    then some (t, chain)
    else elim rest [ none ↦ none | some (found, chain') ↦ some (found, t ∷ chain') ]

-- the index into `thash`
abbrev pub hash_of : IoTrace → ℕ
hash_of bit = bit.sector % 128

unfoldable pub with_chain : ℕ → List IoTrace → Monitor → Monitor
with_chain i chain s = record s { thash = λ j. if j == i then chain else s.thash j }

unfoldable pub blkiomon_fetch_trace : IoTrace → Monitor → Option (IoTrace × Monitor)
blkiomon_fetch_trace bit s = elim (fetch_from (s.thash (hash_of bit)) bit) [
  | none ↦ none
  | some (t, chain) ↦ some (t, with_chain (hash_of bit) chain s)
]

unfoldable pub blkiomon_store_trace : IoTrace → Monitor → Monitor
blkiomon_store_trace t s = with_chain (hash_of t) (t ∷ s.thash (hash_of t)) s

-- what both do to the vacant traces
unfoldable pub blkiomon_alloc_trace : Monitor → Monitor
blkiomon_alloc_trace s = record s { vacant_traces = s.vacant_traces - 1 }

unfoldable pub blkiomon_free_trace : Monitor → Monitor
blkiomon_free_trace s =
    if ltb s.vacant_traces 256 then record s { vacant_traces = s.vacant_traces + 1 } else s

-- what the statistics of a device get from a pair, with its times and sizes
unfoldable pub account_stat : IoTrace → ℕ → ℕ → ℕ → BlkiomonStat → BlkiomonStat
account_stat bit_c size d2c thrput p =
    let q =
      if has_class 0 bit_c
      then record p {
        thrput_r = minmax_account p.thrput_r thrput;
        size_r = minmax_account p.size_r size;
        d2c_r = minmax_account p.d2c_r d2c;
      }
      else if has_class 1 bit_c
      then record p {
        thrput_w = minmax_account p.thrput_w thrput;
        size_w = minmax_account p.size_w size;
        d2c_w = minmax_account p.d2c_w d2c;
      }
      else record p { bidir = add64 p.bidir 1 } in
    record q {
      size_hist = histlog2_account q.size_hist size size_hist_of;
      d2c_hist = histlog2_account q.d2c_hist (d2c % 2 ^ 32) d2c_hist_of;
    }

module _ (rb : RbTree BlkiomonStat) where
  -- `blkiomon_get_dstat`; the pointer returned is to the node of the device
  unfoldable pub blkiomon_get_dstat : ℕ → Monitor → Monitor
  blkiomon_get_dstat device s =
      let tree = s.dstat_tree s.dstat_curr in
      elim (find_dstat tree device) [
        | some p ↦ s
        | none ↦ elim (link_dstat tree (record blkiomon_stat_init { device = device })) [
          | none ↦ s
          | some tree' ↦ record s {
            dstat_tree = at_curr s.dstat_tree s.dstat_curr (rb.insert_color tree');
            dstat_list = at_curr s.dstat_list s.dstat_curr (device ∷ s.dstat_list s.dstat_curr);
          }
        ]
      ]

  -- microseconds between the two events
  abbrev pub d2c_of : IoTrace → IoTrace → ℕ
  d2c_of bit_d bit_c = sub64 bit_c.time bit_d.time / 1000

  -- `none` is the division by a `d2c` of 0
  unfoldable pub blkiomon_account : IoTrace → IoTrace → Monitor → Option Monitor
  blkiomon_account bit_d bit_c s =
      let d2c = d2c_of bit_d bit_c in
      let found = blkiomon_get_dstat bit_d.device s in
      let curr = found.dstat_curr in
      if d2c == 0
      then none
      else some (record found {
        dstat_tree = at_curr found.dstat_tree curr (
            write_dstat (found.dstat_tree curr) bit_d.device
              (account_stat bit_c bit_d.bytes d2c (bit_d.bytes * 1000 % 2 ^ 32 / d2c)));
      })

  -- `blkiomon_do_trace`; the trace returned is only memory for the next record
  unfoldable pub blkiomon_do_trace : IoTrace → Monitor → Option Monitor
  blkiomon_do_trace t s = elim (blkiomon_fetch_trace t s) [
    | none ↦ some (blkiomon_alloc_trace (blkiomon_store_trace t s))
    | some (t_stored, s') ↦
        let (t_old, t_young) = if ltb t_stored.time t.time then (t_stored, t) else (t, t_stored) in
        if has_class 6 t_old && has_class 7 t_young
        then elim (blkiomon_account t_old t_young (record s' { matched = s'.matched + 1 })) [
          | none ↦ none
          | some s'' ↦ some (blkiomon_free_trace s'')
        ]
        else some (blkiomon_store_trace t_young (record s' { mismatched = s'.mismatched + 1 }))
  ]

  -- what the loop of `blkiomon_do_fifo` does with a record that it has read
  unfoldable pub handle_record : IoTrace → Monitor → Option Monitor
  handle_record bit s =
      if has_class 14 bit
      then some (record s { driverdata = s.driverdata + 1 })
      else if not (has_class 6 bit || has_class 7 bit)
      then some s
      else blkiomon_do_trace bit s

-- The part of `blkiomon_interval` between two sleeps: the statistics that are handed out.
unfoldable pub list_dstats : Tree BlkiomonStat → List ℕ → List BlkiomonStat
list_dstats tree [] = []
list_dstats tree (device ∷ devices) =
    let rest = list_dstats tree devices in
    elim (find_dstat tree device) [ none ↦ rest | some p ↦ p ∷ rest ]

-- `blkiomon_output`: what the binary file and the message queue get, if there are any
unfoldable pub blkiomon_output : ℕ → List BlkiomonStat → List BlkiomonStat
blkiomon_output tv_sec [] = []
blkiomon_output tv_sec (p ∷ stats) =
    blkiomon_stat_to_be (record p { time = tv_sec }) ∷ blkiomon_output tv_sec stats

unfoldable pub blkiomon_interval : ℕ → Monitor → List BlkiomonStat × Monitor
blkiomon_interval tv_sec s =
    let finished = s.dstat_curr in
    let switched : Monitor = record s { dstat_curr = not finished } in
    elim (s.dstat_list finished) [
      | [] ↦ ([], switched)
      | head ∷ _ ↦ (
        blkiomon_output tv_sec (list_dstats (s.dstat_tree finished) (s.dstat_list finished)),
        record switched {
          dstat_list = at_curr s.dstat_list finished [];
          dstat_tree = at_curr s.dstat_tree finished leaf;
        },
      )
    ]
