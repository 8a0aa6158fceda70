-- ===== src/Blkparse/Sort.antt =====
-- server-proto/blkparse.c, lines 224 to 234, 799 to 828, 859 to 880 and 1923 to 1962: the trees of records in order
-- of time, device and sequence number.
pub mod Order
pub mod Insert
pub mod Last
pub mod Slots
pub mod Slide
pub mod Bound
pub mod Tests
use iovisualization.Prelude.{
  ℕ, Bool, true, false, ◌&&◌, Option, none, some, List, [], ◌∷◌, leb, ltb, if◌then◌else◌, u64_max,
}
use iovisualization.Prelude.Tree.{Tree, leaf, node, RbTree}
use iovisualization.Trace.{IoTrace}

-- `struct trace`, less its links
pub record Tr : Type 0 where
  pub bit : IoTrace
  pub read_sequence : ℕ

-- the way to the left in `trace_rb_insert`; all else goes to the right
unfoldable pub goes_left : Tr → Tr → Bool
goes_left t x =
    if ltb t.bit.time x.bit.time
    then true
    else if ltb x.bit.time t.bit.time
    then false
    else if ltb t.bit.device x.bit.device
    then true
    else if ltb x.bit.device t.bit.device
    then false
    else ltb t.bit.sequence x.bit.sequence

-- the walk to an empty link and `rb_link_node`
unfoldable pub link_trace : Tree Tr → Tr → Tree Tr
link_trace leaf t = node leaf t leaf
link_trace (node l x r) t =
    let left = link_trace l t in
    let right = link_trace r t in if goes_left t x then node left x r else node l x right

module _ (rb : RbTree Tr) where
  unfoldable pub trace_rb_insert : Tr → Tree Tr → Tree Tr
  trace_rb_insert t root = rb.insert_color (link_trace root t)

-- `trace_rb_find` with an `order` of 0, as its only caller has it
unfoldable pub trace_rb_find : ℕ → ℕ → Tree Tr → Option Tr
trace_rb_find device sequence leaf = none
trace_rb_find device sequence (node l x r) =
    let left = trace_rb_find device sequence l in
    let right = trace_rb_find device sequence r in
    if ltb device x.bit.device
    then left
    else if ltb x.bit.device device
    then right
    else if ltb sequence x.bit.sequence
    then left
    else if ltb x.bit.sequence sequence
    then right
    else some x

-- 1 is outside
unfoldable pub check_stopwatch : ℕ → ℕ → IoTrace → ℕ
check_stopwatch stopwatch_start stopwatch_end bit =
    if ltb bit.time stopwatch_end && leb stopwatch_start bit.time then 0 else 1

-- the loop of `find_genesis`
unfoldable pub genesis_from : ℕ → List Tr → ℕ
genesis_from genesis_time [] = genesis_time
genesis_from genesis_time (t ∷ trace_list) =
    genesis_from (if ltb t.bit.time genesis_time then t.bit.time else genesis_time) trace_list

unfoldable pub find_genesis : List Tr → ℕ
find_genesis trace_list = genesis_from u64_max trace_list
