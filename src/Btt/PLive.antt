-- ===== src/Btt/PLive.antt =====
-- server-proto/btt/p_live.c: the times when a device has I/O in flight, as a tree of intervals that do not meet.
pub mod Intervals
pub mod Descend
pub mod Add
pub mod Visit
pub mod Tests
use iovisualization.Prelude.{
  ℕ, zero, suc, ◌+◌, min, max, Bool, true, ◌&&◌, Option, none, some, leb, ltb, if◌then◌else◌, add64,
  sub64,
}
use iovisualization.Prelude.Tree.{Tree, leaf, node, size, RbTree}

-- `struct p_live`, less its links
pub record PLive : Type 0 where
  pub dt : ℕ
  pub ct : ℕ

pub inside : PLive → ℕ → ℕ → Bool
inside plp dt ct =
    if leb plp.dt dt && leb dt plp.ct
    then true
    else if leb plp.dt ct && leb ct plp.ct
    then true
    else ltb dt plp.dt && ltb plp.ct ct

-- Where the loop of `__p_live_add` stops: at a node that meets the interval, given with its place
-- in the order of the tree, or at an empty link, where `rb_link_node` puts a new node.
pub data Stop : Type 0 where
  hit : ℕ → PLive → Stop
  linked : Tree PLive → Stop

-- the stops below a left and a right link
abbrev pub stop_left : PLive → Tree PLive → Stop → Stop
stop_left x r (hit i y) = hit i y
stop_left x r (linked l) = linked (node l x r)

abbrev pub stop_right : Tree PLive → PLive → Stop → Stop
stop_right l x (hit i y) = hit (size l + 1 + i) y
stop_right l x (linked r) = linked (node l x r)

pub descend : Tree PLive → ℕ → ℕ → Stop
unfolding inside
descend leaf dt ct = linked (node leaf (record { dt = dt; ct = ct }) leaf)
descend (node l x r) dt ct =
    let left = descend l dt ct in
    let right = descend r dt ct in
    if inside x dt ct
    then hit (size l) x
    else if ltb ct x.dt
    then stop_left x r left
    else stop_right l x right

module _ (rb : RbTree PLive) where
  -- `__p_live_add` calls itself with a node less each time; `none` means that the fuel ran out.
  pub p_live_add_fuel : ℕ → Tree PLive → ℕ → ℕ → Option (Tree PLive)
  p_live_add_fuel zero root dt ct = none
  p_live_add_fuel (suc fuel) root dt ct = elim (descend root dt ct) [
    | hit i plp ↦ p_live_add_fuel fuel (rb.erase root i) (min plp.dt dt) (max plp.ct ct)
    | linked t ↦ some (rb.insert_color t)
  ]

  -- `__p_live_add`
  pub p_live_add : Tree PLive → ℕ → ℕ → Option (Tree PLive)
  p_live_add root dt ct = p_live_add_fuel (size root + 1) root dt ct

-- The numbers of `struct get_info` and of its `plip` that `p_live_visit` keeps, less the plotted output.
pub record GetInfo : Type 0 where
  pub nlives : ℕ
  pub tot_live : ℕ
  pub t_start : ℕ
  pub t_end : ℕ

-- What a visit does at one node. `t_start` and `t_end` are unsigned, so `t_start < 0.0` and `t_end < 0.0` never hold.
abbrev pub visit_node : PLive → GetInfo → GetInfo
visit_node plp gi = record {
  nlives = add64 gi.nlives 1;
  tot_live = add64 gi.tot_live (sub64 plp.ct plp.dt);
  t_start = if ltb plp.dt gi.t_start then plp.dt else gi.t_start;
  t_end = if ltb gi.t_end plp.ct then plp.ct else gi.t_end;
}

pub p_live_visit : Tree PLive → GetInfo → GetInfo
p_live_visit leaf gi = gi
p_live_visit (node l x r) gi = p_live_visit r (visit_node x (p_live_visit l gi))

-- the state that `p_live_get` begins with
abbrev pub get_info : GetInfo
get_info = record { nlives = 0; tot_live = 0; t_start = 0; t_end = 0 }
