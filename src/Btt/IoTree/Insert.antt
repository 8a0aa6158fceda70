-- ===== src/Btt/IoTree/Insert.antt =====
-- Putting an I/O into a tree by first sectors.
use iovisualization.Prelude.{
  ℕ, ◌+◌, ◌≤◌, ◌<◌, ◌≡◌, refl, sym, ◌∙◌, inl, inr, Bool, true, false, ◌&&◌, Option, none, some,
  List, [], ◌∷◌, ◌++◌, arith, ltb, ◌==◌, if◌then◌else◌, ltb→lt, Bool-cases, count, count-append,
}
use mathlib.Core.List.{append_assoc}
use iovisualization.Prelude.Tree.{Tree, leaf, node, inorder, RbTree}
use iovisualization.Prelude.Ordered.{
  IsOrdered, Before, After, Around, IsOrdered-Around, Around-IsOrdered, append-IsOrdered,
  After-append, After-mono, Before-append, Before-mono,
}
use iovisualization.Btt.IoTree.{Io, bit_start, link, rb_insert}

-- strictly in order of the first sectors
abbrev pub IsKeyed : List Io → Type 0
IsKeyed = IsOrdered bit_start bit_start

abbrev pub same_start : Io → Io → Bool
same_start iop x = bit_start x == bit_start iop

-- what the walk of `rb_insert` makes of a list of I/Os
abbrev Linked : List Io → Io → Option (Tree Io) → Type 0
Linked xs iop none = count (same_start iop) xs ≡ 1
Linked xs iop (some t) =
    (b : List Io) × (a : List Io) × (xs ≡ b ++ a)
    × (inorder t ≡ b ++ (iop ∷ a))
    × Before bit_start bit_start (bit_start iop) b
    × After bit_start bit_start (bit_start iop) a

count-Before :
    (iop : Io) (xs : List Io) (t : ℕ)
    → Before bit_start bit_start t xs
    → t ≤ bit_start iop
    → count (same_start iop) xs ≡ 0
count-Before iop [] t v h = refl
count-Before iop (x ∷ xs) t v h = ground (arith, count-Before iop xs t v.1 h)

count-After :
    (iop : Io) (xs : List Io) (t : ℕ)
    → After bit_start bit_start t xs
    → bit_start iop ≤ t
    → count (same_start iop) xs ≡ 0
count-After iop [] t v h = refl
count-After iop (x ∷ xs) t v h = ground (arith, count-After iop xs t v.1 h)

module _ (iop x : Io) (l r : Tree Io)
    (w : Around bit_start bit_start (inorder l) x (inorder r)) where
  Linked-left :
      (out : Option (Tree Io))
      → bit_start iop < bit_start x
      → Linked (inorder l) iop out
      → Linked
          (inorder l ++ (x ∷ inorder r))
          iop
          (elim out [ none ↦ none | some l' ↦ some (node l' x r) ])
  Linked-left none lt e = ground (
    arith,
    count-append (same_start iop) (inorder l) (x ∷ inorder r),
    count-After iop (inorder r) (bit_start x) w.above,
  )
  Linked-left (some t) lt (b, a, e, k, below, above) = (
    b,
    a ++ (x ∷ inorder r),
    rw e (append_assoc b a (x ∷ inorder r)),
    rw k (append_assoc b (iop ∷ a) (x ∷ inorder r)),
    below,
    After-append bit_start bit_start (bit_start iop) a (x ∷ inorder r) above
        (lt, After-mono bit_start bit_start (inorder r) (omega arith) w.above),
  )

  Linked-right :
      (out : Option (Tree Io))
      → bit_start x < bit_start iop
      → Linked (inorder r) iop out
      → Linked
          (inorder l ++ (x ∷ inorder r))
          iop
          (elim out [ none ↦ none | some r' ↦ some (node l x r') ])
  Linked-right none lt e = ground (
    arith,
    count-append (same_start iop) (inorder l) (x ∷ inorder r),
    count-Before iop (inorder l) (bit_start x) w.below,
  )
  Linked-right (some t) lt (b, a, e, k, below, above) = (
    inorder l ++ (x ∷ b),
    a,
    rw e (sym (append_assoc (inorder l) (x ∷ b) a)),
    rw k (sym (append_assoc (inorder l) (x ∷ b) (iop ∷ a))),
    Before-append bit_start bit_start (bit_start iop) (inorder l) (x ∷ b)
        (Before-mono bit_start bit_start (inorder l) (omega arith) w.below) (lt, below),
    above,
  )

link-Linked : (t : Tree Io) (iop : Io) → IsKeyed (inorder t) → Linked (inorder t) iop (link t iop)
unfolding link
link-Linked leaf iop v = ([], [], refl, refl, tt, tt)
link-Linked (node l x r) iop v =
    let w = IsOrdered-Around bit_start bit_start (inorder l) x (inorder r) v in
    elim (Bool-cases (ltb (bit_start iop) (bit_start x))) [
      | inl lt ↦
          rw lt (Linked-left iop x l r w (link l iop) (ltb→lt _ _ lt) (link-Linked l iop w.front))
      | inr ge ↦ elim (Bool-cases (ltb (bit_start x) (bit_start iop))) [
        | inl gt ↦
            rw (ge, gt)
              (Linked-right iop x l r w (link r iop) (ltb→lt _ _ gt) (link-Linked r iop w.back))
        | inr le ↦
            rw (ge, le)
              (ground (
                arith,
                count-append (same_start iop) (inorder l) (x ∷ inorder r),
                count-Before iop (inorder l) (bit_start x) w.below,
                count-After iop (inorder r) (bit_start x) w.above,
              ))
      ]
    ]

-- what an insertion leaves
pub record Inserted (xs : List Io) (iop : Io) (done : Bool) (t : Tree Io) : Type 0 where
  pub keyed : IsKeyed (inorder t)
  pub refused : done ≡ (count (same_start iop) xs == 0)
  pub items : (p : Io → Bool) → count p (inorder t) ≡ (if done && p iop then 1 else 0) + count p xs

Inserted-refused :
    (xs : List Io) (t : Tree Io) (iop : Io)
    → inorder t ≡ xs
    → IsKeyed xs
    → count (same_start iop) xs ≡ 1
    → Inserted xs iop false t
Inserted-refused xs t iop e v k = record {
  keyed = rw e v;
  refused = ground (arith, k);
  items = λ p. rw e (omega arith);
}

Inserted-done :
    (xs b a : List Io) (t : Tree Io) (iop : Io)
    → xs ≡ b ++ a
    → inorder t ≡ b ++ (iop ∷ a)
    → IsKeyed (b ++ a)
    → Before bit_start bit_start (bit_start iop) b
    → After bit_start bit_start (bit_start iop) a
    → Inserted xs iop true t
Inserted-done xs b a t iop e k v below above =
    let ends = append-IsOrdered bit_start bit_start b a v in
    record {
      keyed = rw k (
          Around-IsOrdered bit_start bit_start b iop a (record {
            front = ends.0;
            below = below;
            whole = omega arith;
            above = above;
            back = ends.1;
          }));
      refused = rw e (
          ground (
            arith,
            count-append (same_start iop) b a,
            count-Before iop b (bit_start iop) below (omega arith),
            count-After iop a (bit_start iop) above (omega arith),
          ));
      items = λ p. rw (k, e) (ground (arith, count-append p b a, count-append p b (iop ∷ a)));
    }

rb_insert-cases :
    (rb : RbTree Io) (root : Tree Io) (iop : Io) (out : Option (Tree Io))
    → link root iop ≡ out
    → IsKeyed (inorder root)
    → Linked (inorder root) iop out
    → Inserted (inorder root) iop (rb_insert rb root iop).0 (rb_insert rb root iop).1
unfolding rb_insert
rb_insert-cases rb root iop none e v k =
    rw (e, rb_insert) (Inserted-refused (inorder root) root iop refl v k)
rb_insert-cases rb root iop (some t) e v (b, a, es, k, below, above) =
    rw (e, rb_insert)
      (Inserted-done (inorder root) b a (rb.insert_color t) iop es (rb.inorder-insert_color t ∙ k)
        (rw es at v) below above)

-- With the I/Os of the tree strictly in order of their first sectors, `rb_insert` keeps them so,
-- refuses exactly an I/O whose first sector the tree has already, and otherwise adds that I/O
-- and nothing else (as the counts by any test show).
pub rb_insert-Inserted :
    (rb : RbTree Io) (root : Tree Io) (iop : Io)
    → IsKeyed (inorder root)
    → let (done, t) = rb_insert rb root iop in Inserted (inorder root) iop done t
rb_insert-Inserted rb root iop v =
    rb_insert-cases rb root iop (link root iop) refl v (link-Linked root iop v)
