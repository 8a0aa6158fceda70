-- ===== src/Btt/IoTree/Tests.antt =====
-- A tree of three I/Os.
use iovisualization.Prelude.{◌≡◌, refl, true, some, [], ◌∷◌, arith, count, find?}
use iovisualization.Prelude.Plain.{plain}
use iovisualization.Prelude.Tree.{Tree, leaf, node, inorder}
use iovisualization.Btt.IoTree.{Io, rb_insert, rb_find_sec, rb_foreach}
use iovisualization.Btt.IoTree.Insert.{IsKeyed, Inserted, rb_insert-Inserted}
use iovisualization.Btt.IoTree.Find.{IsExtents, holds, rb_find_sec-find?}
use iovisualization.Btt.IoTree.Foreach.{contained_in, count-rb_foreach}

abbrev low : Io
low = record { sector = 8; bytes = 4096; id = 1 }

abbrev middle : Io
middle = record { sector = 16; bytes = 4096; id = 2 }

abbrev high : Io
high = record { sector = 32; bytes = 4096; id = 3 }

-- from sector 16 to sector 40
abbrev wide : Io
wide = record { sector = 16; bytes = 12288; id = 4 }

abbrev three : Tree Io
three = node (node leaf low leaf) middle (node leaf high leaf)

three-IsKeyed : IsKeyed (inorder three)
three-IsKeyed = (
  omega arith,
  (omega arith, (omega arith, tt)),
  (omega arith, (omega arith, tt), (omega arith, tt, tt)),
)

three-IsExtents : IsExtents (inorder three)
three-IsExtents = (
  omega arith,
  (omega arith, (omega arith, tt)),
  (omega arith, (omega arith, tt), (omega arith, tt, tt)),
)

rb_insert-Inserted_example :
    let (done, t) = rb_insert plain three wide in Inserted (inorder three) wide done t
rb_insert-Inserted_example = rb_insert-Inserted plain three wide three-IsKeyed

rb_find_sec-find?_example : rb_find_sec three 35 ≡ find? (holds 35) (inorder three)
rb_find_sec-find?_example = rb_find_sec-find? three 35 three-IsExtents

count-rb_foreach_example :
    count (λ x. true) (rb_foreach three wide)
    ≡ count (contained_in wide (λ x. true)) (inorder three)
count-rb_foreach_example = count-rb_foreach three wide (λ x. true) three-IsExtents

finds : rb_find_sec three 35 ≡ some high
unfolding rb_find_sec
finds = refl

lists : rb_foreach three wide ≡ middle ∷ high ∷ []
unfolding rb_foreach
lists = refl
