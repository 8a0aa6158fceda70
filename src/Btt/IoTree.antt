-- ===== src/Btt/IoTree.antt =====
-- server-proto/btt/dip_rb.c and the macros `BIT_START` and `BIT_END` of server-proto/btt/globals.h: the I/Os of a device in
-- a tree by their first sector.
pub mod Insert
pub mod Find
pub mod Foreach
pub mod Tests
use iovisualization.Prelude.{
  ℕ, ◌/◌, Bool, true, false, ◌&&◌, Option, none, some, List, [], ◌∷◌, ◌++◌, leb, ltb, if◌then◌else◌,
  add64,
}
use iovisualization.Prelude.Tree.{Tree, leaf, node, RbTree}

-- What the tree reads of `struct io`: `iop->t.sector`, `iop->t.bytes`, and `id` for the object itself.
pub record Io : Type 0 where
  pub sector : ℕ
  pub bytes : ℕ
  pub id : ℕ

-- `BIT_START` and `BIT_END`
abbrev pub bit_start : Io → ℕ
bit_start iop = iop.sector

abbrev pub bit_end : Io → ℕ
bit_end iop = add64 iop.sector (iop.bytes / 512)

-- The loop of `rb_insert` and `rb_link_node`; `none` where it returns 0.
unfoldable pub link : Tree Io → Io → Option (Tree Io)
link leaf iop = some (node leaf iop leaf)
link (node l x r) iop =
    let left = link l iop in
    let right = link r iop in
    if ltb (bit_start iop) (bit_start x)
    then elim left [ none ↦ none | some l' ↦ some (node l' x r) ]
    else if ltb (bit_start x) (bit_start iop)
    then elim right [ none ↦ none | some r' ↦ some (node l x r') ]
    else none

-- the tree afterwards, and whether the I/O was put in
unfoldable pub rb_insert : RbTree Io → Tree Io → Io → Bool × Tree Io
rb_insert rb root iop = elim (link root iop) [
  | none ↦ (false, root)
  | some t ↦ (true, rb.insert_color t)
]

unfoldable pub rb_find_sec : Tree Io → ℕ → Option Io
rb_find_sec leaf sec = none
rb_find_sec (node l x r) sec =
    let left = rb_find_sec l sec in
    let right = rb_find_sec r sec in
    if ltb sec (bit_start x) then left else if leb (bit_end x) sec then right else some x

-- `this` lies inside `iop`
abbrev pub contained : Io → Io → Bool
contained iop this = leb (bit_start iop) (bit_start this) && leb (bit_end this) (bit_end iop)

-- The nodes that `rb_foreach` adds to the tail of `head`, in that order. No call in btt passes a `fnc`.
unfoldable pub rb_foreach : Tree Io → Io → List Io
rb_foreach leaf iop = []
rb_foreach (node l this r) iop =
    let left = rb_foreach l iop in
    let right = rb_foreach r iop in
    (if contained iop this then this ∷ [] else [])
    ++ ((if ltb (bit_start iop) (bit_start this) then left else [])
        ++ (if ltb (bit_end this) (bit_end iop) then right else []))
