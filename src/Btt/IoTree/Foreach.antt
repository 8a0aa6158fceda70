-- ===== src/Btt/IoTree/Foreach.antt =====
-- The I/Os inside another one.
use iovisualization.Prelude.{
  ℕ, ◌+◌, ◌≤◌, ◌≡◌, refl, ◌∙◌, Bool, true, false, ◌&&◌, List, [], ◌∷◌, ◌++◌, arith, ltb,
  if◌then◌else◌, count, count-append,
}
use iovisualization.Prelude.Tree.{Tree, leaf, node, inorder}
use iovisualization.Prelude.Ordered.{Before, After, IsOrdered-Around}
use iovisualization.Btt.IoTree.{Io, bit_start, bit_end, contained, rb_foreach}
use iovisualization.Btt.IoTree.Find.{after_start, IsExtents}

-- the I/Os of a list inside `iop` that pass a test
abbrev pub contained_in : Io → (Io → Bool) → Io → Bool
contained_in iop p x = contained iop x && p x

none-Before :
    (iop : Io) (p : Io → Bool) (xs : List Io) (t : ℕ)
    → IsExtents xs
    → Before after_start bit_end t xs
    → t ≤ after_start iop
    → count (contained_in iop p) xs ≡ 0
none-Before iop p [] t e v h = refl
none-Before iop p (x ∷ xs) t e v h = ground (arith, none-Before iop p xs t e.2 v.1 h, e.0, v.0)

none-After :
    (iop : Io) (p : Io → Bool) (xs : List Io) (t : ℕ)
    → IsExtents xs
    → After after_start bit_end t xs
    → bit_end iop ≤ t
    → count (contained_in iop p) xs ≡ 0
none-After iop p [] t e v h = refl
none-After iop p (x ∷ xs) t e v h = ground (arith, none-After iop p xs t e.2 v.1 h, e.0, v.0)

count-if :
    (p : Io → Bool) (b : Bool) (xs : List Io)
    → count p (if b then xs else []) ≡ (if b then count p xs else 0)
count-if p true xs = refl
count-if p false xs = refl

parts-sum :
    (iop x : Io) (p : Io → Bool) (left right : ℕ)
    → (after_start x ≤ after_start iop → left ≡ 0)
    → (bit_end iop ≤ bit_end x → right ≡ 0)
    → (if contained iop x then (if p x then 1 else 0) + 0 else 0)
        + ((if ltb (bit_start iop) (bit_start x) then left else 0)
            + (if ltb (bit_end x) (bit_end iop) then right else 0))
      ≡ left + ((if contained_in iop p x then 1 else 0) + right)
parts-sum iop x p left right hl hr = ground arith

-- With the I/Os of the tree of at least one sector each, in order and apart, `rb_foreach` lists
-- each I/O that lies inside `iop` and no other: for every test, as many of the listed I/Os pass
-- it as of the tree's I/Os inside `iop`.
pub count-rb_foreach :
    (t : Tree Io) (iop : Io) (p : Io → Bool)
    → IsExtents (inorder t)
    → count p (rb_foreach t iop) ≡ count (contained_in iop p) (inorder t)
unfolding rb_foreach
count-rb_foreach leaf iop p v = refl
count-rb_foreach (node l x r) iop p v =
    let w = IsOrdered-Around after_start bit_end (inorder l) x (inorder r) v in
    let left = if ltb (bit_start iop) (bit_start x) then rb_foreach l iop else [] in
    let right = if ltb (bit_end x) (bit_end iop) then rb_foreach r iop else [] in
    let none_left = none-Before iop p (inorder l) (after_start x) w.front w.below in
    let none_right = none-After iop p (inorder r) (bit_end x) w.back w.above in
    count-append p (if contained iop x then x ∷ [] else []) (left ++ right)
    ∙ rw
        (
          count-if p (contained iop x) (x ∷ []),
          count-append p left right,
          count-if p (ltb (bit_start iop) (bit_start x)) (rb_foreach l iop),
          count-if p (ltb (bit_end x) (bit_end iop)) (rb_foreach r iop),
          count-rb_foreach l iop p w.front,
          count-rb_foreach r iop p w.back,
          count-append (contained_in iop p) (inorder l) (x ∷ inorder r),
        )
        (parts-sum iop x p _ _ none_left none_right)
