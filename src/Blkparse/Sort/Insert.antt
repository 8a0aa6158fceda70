-- ===== src/Blkparse/Sort/Insert.antt =====
-- `trace_rb_insert` puts a record into its place in the order, behind its equals.
use iovisualization.Prelude.{
  ◌≡◌, refl, sym, ap, ◌∙◌, inl, inr, true, List, [], ◌∷◌, ◌++◌, arith, Bool-cases,
}
use iovisualization.Prelude.Tree.{Tree, leaf, node, inorder, RbTree}
use iovisualization.Blkparse.Sort.{Tr, goes_left, link_trace, trace_rb_insert}
use iovisualization.Blkparse.Sort.Order.{
  Leq, Leq-left, AllBefore, AllBehind, AllBehind-append, append-AllBehind, IsSorted, AllBefore-mono,
  IsSorted-Parts,
}

-- all of a list stand strictly behind `t`
abbrev pub StrictlyBehind : Tr → List Tr → Type 0
StrictlyBehind t [] = Unit {0}
StrictlyBehind t (x ∷ xs) = (goes_left t x ≡ true) × StrictlyBehind t xs

-- `zs` is `xs` with `t` in the last place where the order allows it
pub record Placed (t : Tr) (xs zs : List Tr) : Type 0 where
  pub front : List Tr
  pub back : List Tr
  pub was : xs ≡ front ++ back
  pub is : zs ≡ front ++ (t ∷ back)
  pub before : AllBefore t front
  pub behind : StrictlyBehind t back

append_assoc : (xs ys zs : List Tr) → (xs ++ ys) ++ zs ≡ xs ++ (ys ++ zs)
append_assoc [] ys zs = refl
append_assoc (x ∷ xs) ys zs = ap (λ l. x ∷ l) (append_assoc xs ys zs)

AllBefore-append :
    (t : Tr) (xs ys : List Tr) → AllBefore t xs → AllBefore t ys → AllBefore t (xs ++ ys)
AllBefore-append t [] ys a b = b
AllBefore-append t (x ∷ xs) ys a b = (a.0, AllBefore-append t xs ys a.1 b)

Strictly-append :
    (t : Tr) (xs ys : List Tr)
    → StrictlyBehind t xs
    → StrictlyBehind t ys
    → StrictlyBehind t (xs ++ ys)
Strictly-append t [] ys a b = b
Strictly-append t (x ∷ xs) ys a b = (a.0, Strictly-append t xs ys a.1 b)

left-Leq : (t x y : Tr) → goes_left t x ≡ true → Leq x y → goes_left t y ≡ true
unfolding goes_left
left-Leq t x y h k = ground (arith, h, k)

strictly : (t x : Tr) (ys : List Tr) → goes_left t x ≡ true → AllBehind x ys → StrictlyBehind t ys
strictly t x [] h a = tt
strictly t x (y ∷ ys) h a = (left-Leq t x y h a.0, strictly t x ys h a.1)

weakly : (t : Tr) (xs : List Tr) → StrictlyBehind t xs → AllBehind t xs
weakly t [] a = tt
weakly t (x ∷ xs) a = (Leq-left t x a.0, weakly t xs a.1)

link_trace-Placed :
    (root : Tree Tr) (t : Tr)
    → IsSorted (inorder root)
    → Placed t (inorder root) (inorder (link_trace root t))
unfolding link_trace
link_trace-Placed leaf t s = record {
  front = [];
  back = [];
  was = refl;
  is = refl;
  before = tt;
  behind = tt;
}
link_trace-Placed (node l x r) t s =
    let p = IsSorted-Parts (inorder l) x (inorder r) s in
    elim (Bool-cases (goes_left t x)) [
      | inl e ↦
          let q = link_trace-Placed l t p.front in
          rw e (record {
            front = q.front;
            back = q.back ++ (x ∷ inorder r);
            was =
                ap (λ xs. xs ++ (x ∷ inorder r)) q.was
                ∙ append_assoc q.front q.back (x ∷ inorder r);
            is =
                ap (λ xs. xs ++ (x ∷ inorder r)) q.is
                ∙ append_assoc q.front (t ∷ q.back) (x ∷ inorder r);
            before = q.before;
            behind =
                Strictly-append t q.back (x ∷ inorder r) q.behind
                  (e, strictly t x (inorder r) e p.behind);
          })
      | inr e ↦
          let q = link_trace-Placed r t p.back in
          rw e (record {
            front = inorder l ++ (x ∷ q.front);
            back = q.back;
            was =
                ap (λ xs. inorder l ++ (x ∷ xs)) q.was
                ∙ sym (append_assoc (inorder l) (x ∷ q.front) q.back);
            is =
                ap (λ xs. inorder l ++ (x ∷ xs)) q.is
                ∙ sym (append_assoc (inorder l) (x ∷ q.front) (t ∷ q.back));
            before =
                AllBefore-append t (inorder l) (x ∷ q.front)
                  (AllBefore-mono x t (inorder l) e p.before) (e, q.before);
            behind = q.behind;
          })
    ]

IsSorted-between :
    (t : Tr) (xs ys : List Tr)
    → IsSorted (xs ++ ys)
    → AllBefore t xs
    → StrictlyBehind t ys
    → IsSorted (xs ++ (t ∷ ys))
IsSorted-between t [] ys s b a = (weakly t ys a, s)
IsSorted-between t (x ∷ xs) ys s b a =
    let (near, far) = AllBehind-append x xs ys s.0 in
    (append-AllBehind x xs (t ∷ ys) near (b.0, far), IsSorted-between t xs ys s.1 b.1 a)

module _ (rb : RbTree Tr) where
  -- With the records of the tree in order of time, device and sequence number: an insertion puts the new record
  -- between those that may stand before it and those that are strictly behind it, changes nothing
  -- else, and the records stay in order.
  pub trace_rb_insert-Placed :
      (root : Tree Tr) (t : Tr)
      → IsSorted (inorder root)
      → Placed t (inorder root) (inorder (trace_rb_insert rb t root))
        × IsSorted (inorder (trace_rb_insert rb t root))
  unfolding trace_rb_insert
  trace_rb_insert-Placed root t s =
      let p = link_trace-Placed root t s in
      rw (rb.inorder-insert_color (link_trace root t))
        (p, rw p.is (IsSorted-between t p.front p.back (rw (sym p.was) s) p.before p.behind))
