-- ===== src/Prelude/Keyed.antt =====
-- Trees of rbtree.h whose nodes are in order of a number: the walks that their clients write out.
pub mod Items
pub mod Walks
pub mod Maps
use Prim.Native.Nat.{ℕ, ◌+◌}
use mathlib.Core.Bool.{Bool}
use mathlib.Core.Option.{Option, none, some}
use iovisualization.Prelude.Tests.{ltb, if◌then◌else◌}
use iovisualization.Prelude.Tree.{Tree, leaf, node, size, RbTree}

module _ {A : Type 0} (key : A → ℕ) where
  -- the node with a number
  unfoldable pub find_key : Tree A → ℕ → Option A
  find_key leaf k = none
  find_key (node l x r) k =
      let left = find_key l k in
      let right = find_key r k in
      if ltb k (key x) then left else if ltb (key x) k then right else some x

  -- the walk to an empty link and `rb_link_node`; `none` where a node has the number already
  unfoldable pub link_key : Tree A → A → Option (Tree A)
  link_key leaf a = some (node leaf a leaf)
  link_key (node l x r) a =
      let left = link_key l a in
      let right = link_key r a in
      if ltb (key a) (key x)
      then elim left [ none ↦ none | some l' ↦ some (node l' x r) ]
      else if ltb (key x) (key a)
      then elim right [ none ↦ none | some r' ↦ some (node l x r') ]
      else none

  -- the place of the node with a number, in the order of the tree
  pub place_key : Tree A → ℕ → ℕ
  place_key leaf k = 0
  place_key (node l x r) k =
      let left = place_key l k in
      let right = place_key r k in
      if ltb k (key x) then left else if ltb (key x) k then size l + 1 + right else size l

  -- `rb_erase` of the node with a number
  pub erase_key : RbTree A → Tree A → ℕ → Tree A
  unfolding place_key
  erase_key rb t k = rb.erase t (place_key t k)

  -- a write through a pointer to the node with a number
  unfoldable pub write_key : Tree A → ℕ → (A → A) → Tree A
  write_key leaf k f = leaf
  write_key (node l x r) k f =
      let left = write_key l k f in
      let right = write_key r k f in
      if ltb k (key x)
      then node left x r
      else if ltb (key x) k
      then node l x right
      else node l (f x) r
