-- ===== src/Btt/PLive/Add.antt =====
-- Adding an interval to a tree of intervals.
use iovisualization.Prelude.{
  ℕ, zero, suc, ◌+◌, ◌≤◌, ◌<◌, min, max, ◌≡◌, refl, true, ◌&&◌, ◌||◌, Option, some, List, ◌∷◌, ◌++◌,
  arith, leb, length, length-append,
}
use iovisualization.Prelude.Tree.{Tree, size, inorder, RbTree, length-inorder, erase_idx-append}
use iovisualization.Btt.PLive.{
  PLive, inside, Stop, hit, linked, descend, p_live_add_fuel, p_live_add,
}
use iovisualization.Prelude.Ordered.{
  Around-IsOrdered, IsOrdered-Around, IsOrdered-append, append-IsOrdered,
}
use iovisualization.Btt.PLive.Intervals.{live, IsLive, live-append, dt_of, ct_of}
use iovisualization.Btt.PLive.Descend.{interval, Stops, descend-Stops}

-- Two intervals that meet make one.
live_merge :
    (y : PLive) (dt ct n : ℕ)
    → dt ≤ ct
    → y.dt ≤ y.ct
    → inside y dt ct ≡ true
    → (leb (min y.dt dt) n && leb n (max y.ct ct))
      ≡ ((leb dt n && leb n ct) || (leb y.dt n && leb n y.ct))
unfolding inside
live_merge y dt ct n h k m = ground arith

-- what the code promises of the tree that it returns
pub record Added (xs : List PLive) (dt ct : ℕ) (t : Tree PLive) : Type 0 where
  pub ordered : IsLive (inorder t)
  pub covers : (n : ℕ) → live (inorder t) n ≡ ((leb dt n && leb n ct) || live xs n)

linked-Added :
    (xs : List PLive) (dt ct : ℕ) (t t' : Tree PLive)
    → dt ≤ ct
    → IsLive xs
    → inorder t' ≡ inorder t
    → Stops xs dt ct (linked t)
    → Added xs dt ct t'
linked-Added xs dt ct t t' le v same (b, a, e, k, below, above) =
    let v' = append-IsOrdered dt_of ct_of b a (rw e at v) in
    record {
      ordered =
          rw (same, k)
            (Around-IsOrdered dt_of ct_of b (interval dt ct) a
              (record { front = v'.0; below = below; whole = le; above = above; back = v'.1 }));
      covers = λ n.
          rw (same, k, e) (ground (arith, live-append b (interval dt ct ∷ a) n, live-append b a n));
    }

-- a tree from which an interval that meets the new one is gone
erased_rest :
    (b : List PLive) (y : PLive) (a : List PLive)
    → IsLive (b ++ (y ∷ a))
    → IsLive (b ++ a) × (y.dt ≤ y.ct)
erased_rest b y a v =
    let w = IsOrdered-Around dt_of ct_of b y a v in
    (IsOrdered-append dt_of ct_of b a y.dt y.ct w.whole w.front w.below w.above w.back, w.whole)

hit-Added :
    (b : List PLive) (y : PLive) (a : List PLive) (dt ct : ℕ) (t : Tree PLive)
    → dt ≤ ct
    → y.dt ≤ y.ct
    → inside y dt ct ≡ true
    → Added (b ++ a) (min y.dt dt) (max y.ct ct) t
    → Added (b ++ (y ∷ a)) dt ct t
hit-Added b y a dt ct t le whole meets r = record {
  ordered = r.ordered;
  covers = λ n. ground (
    arith,
    r.covers n,
    live_merge y dt ct n le whole meets,
    live-append b (y ∷ a) n,
    live-append b a n,
  );
}

module _ (rb : RbTree PLive) where
  -- a run that returns a right tree
  abbrev Adds : Tree PLive → ℕ → ℕ → Option (Tree PLive) → Type 0
  Adds root dt ct out = (t : Tree PLive) × (out ≡ some t) × Added (inorder root) dt ct t

  p_live_add_fuel-linked :
      (fuel : ℕ) (root t : Tree PLive) (dt ct : ℕ)
      → descend root dt ct ≡ linked t
      → p_live_add_fuel rb (suc fuel) root dt ct ≡ some (rb.insert_color t)
  unfolding p_live_add_fuel
  p_live_add_fuel-linked fuel root t dt ct e = ground arith

  p_live_add_fuel-hit :
      (fuel : ℕ) (root : Tree PLive) (dt ct i : ℕ) (y : PLive)
      → descend root dt ct ≡ hit i y
      → p_live_add_fuel rb (suc fuel) root dt ct
        ≡ p_live_add_fuel rb fuel (rb.erase root i) (min y.dt dt) (max y.ct ct)
  unfolding p_live_add_fuel
  p_live_add_fuel-hit fuel root dt ct i y e = ground arith

  inorder-erase_at :
      (t : Tree PLive) (i : ℕ) (b : List PLive) (y : PLive) (a : List PLive)
      → inorder t ≡ b ++ (y ∷ a)
      → length b ≡ i
      → inorder (rb.erase t i) ≡ b ++ a
  inorder-erase_at t i b y a e n = rw (rb.inorder-erase t i, e, ← n) (erase_idx-append b a y)

  -- the call with the two intervals made one
  Adds-hit :
      (root : Tree PLive) (dt ct : ℕ) (i : ℕ) (y : PLive) (out : Option (Tree PLive))
      → dt ≤ ct
      → IsLive (inorder root)
      → Stops (inorder root) dt ct (hit i y)
      → Adds (rb.erase root i) (min y.dt dt) (max y.ct ct) out
      → Adds root dt ct out
  Adds-hit root dt ct i y out le v (b, a, e, n, meets) (t, ran, r) =
      let gone = inorder-erase_at root i b y a e n in
      let whole = (erased_rest b y a (rw e at v)).1 in
      (t, ran, rw e (hit-Added b y a dt ct t le whole meets (rw gone at r)))

  -- the tree left for that call
  erased :
      (root : Tree PLive) (dt ct : ℕ) (i : ℕ) (y : PLive)
      → IsLive (inorder root)
      → Stops (inorder root) dt ct (hit i y)
      → IsLive (inorder (rb.erase root i))
        × (length (inorder (rb.erase root i)) + 1 ≡ length (inorder root))
  erased root dt ct i y v (b, a, e, n, meets) =
      let gone = inorder-erase_at root i b y a e n in
      rw (gone, e)
        (
          (erased_rest b y a (rw e at v)).0,
          omega (arith, length-append b a, length-append b (y ∷ a)),
        )

  p_live_add_fuel-Added :
      (fuel : ℕ) (root : Tree PLive) (dt ct : ℕ)
      → dt ≤ ct
      → IsLive (inorder root)
      → length (inorder root) < fuel
      → Adds root dt ct (p_live_add_fuel rb fuel root dt ct)
  p_live_add_fuel-Added zero root dt ct le v enough = absurd (omega arith)
  p_live_add_fuel-Added (suc fuel) root dt ct le v enough =
      go (descend root dt ct) refl (descend-Stops dt ct le root v) (p_live_add_fuel-Added fuel)
    where
      go :
          (s : Stop)
          → descend root dt ct ≡ s
          → Stops (inorder root) dt ct s
          → ((r : Tree PLive) (d c : ℕ)
              → d ≤ c
              → IsLive (inorder r)
              → length (inorder r) < fuel
              → Adds r d c (p_live_add_fuel rb fuel r d c))
          → Adds root dt ct (p_live_add_fuel rb (suc fuel) root dt ct)
      go (linked t) d st again = rw (p_live_add_fuel-linked fuel root t dt ct d) (
        rb.insert_color t,
        refl,
        linked-Added (inorder root) dt ct t (rb.insert_color t) le v (rb.inorder-insert_color t) st,
      )
      go (hit i y) d st again =
          let (v', shorter) = erased root dt ct i y v st in
          rw (p_live_add_fuel-hit fuel root dt ct i y d) (
            Adds-hit root dt ct i y _ le v st
              (again (rb.erase root i) (min y.dt dt) (max y.ct ct) (omega arith) v' (omega arith)))

  -- Adding an interval whose ends are in order to a tree of intervals that come in order and do
  -- not meet returns a tree, whatever the rotations do; it is again such a tree, and a time is
  -- in flight in it exactly if it was before or lies in the new interval.
  pub p_live_add-Added :
      (root : Tree PLive) (dt ct : ℕ)
      → dt ≤ ct
      → IsLive (inorder root)
      → (t : Tree PLive) × (p_live_add rb root dt ct ≡ some t) × Added (inorder root) dt ct t
  unfolding p_live_add
  p_live_add-Added root dt ct le v =
      p_live_add_fuel-Added (size root + 1) root dt ct le v (omega (arith, length-inorder root))
