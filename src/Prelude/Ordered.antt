-- ===== src/Prelude/Ordered.antt =====
-- Lists of items that stand for intervals of numbers, in order and apart. `lo` and `hi` are the ends of an item.
use Prim.Native.Nat.{ℕ, ◌≤◌, ◌<◌}
use mathlib.Core.List.{List, [], ◌∷◌, ◌++◌}
use native.Mathlib.Omega.{arith}

module _ {A : Type 0} (lo hi : A → ℕ) where
  abbrev pub Before : ℕ → List A → Type 0
  Before t [] = Unit {0}
  Before t (x ∷ xs) = (hi x < t) × Before t xs

  abbrev pub After : ℕ → List A → Type 0
  After t [] = Unit {0}
  After t (x ∷ xs) = (t < lo x) × After t xs

  -- Each item ends no earlier than it begins, and the items come in order and do not meet.
  abbrev pub IsOrdered : List A → Type 0
  IsOrdered [] = Unit {0}
  IsOrdered (x ∷ xs) = (lo x ≤ hi x) × After (hi x) xs × IsOrdered xs

  pub After-mono : {s t : ℕ} (xs : List A) → s ≤ t → After t xs → After s xs
  After-mono [] h a = tt
  After-mono (x ∷ xs) h a = (omega arith, After-mono xs h a.1)

  pub Before-mono : {s t : ℕ} (xs : List A) → s ≤ t → Before s xs → Before t xs
  Before-mono [] h a = tt
  Before-mono (x ∷ xs) h a = (omega arith, Before-mono xs h a.1)

  pub After-append : (t : ℕ) (xs ys : List A) → After t xs → After t ys → After t (xs ++ ys)
  After-append t [] ys a b = b
  After-append t (x ∷ xs) ys a b = (a.0, After-append t xs ys a.1 b)

  pub Before-append : (t : ℕ) (xs ys : List A) → Before t xs → Before t ys → Before t (xs ++ ys)
  Before-append t [] ys a b = b
  Before-append t (x ∷ xs) ys a b = (a.0, Before-append t xs ys a.1 b)

  pub append-After : (t : ℕ) (xs ys : List A) → After t (xs ++ ys) → After t xs × After t ys
  append-After t [] ys a = (tt, a)
  append-After t (x ∷ xs) ys a = let r = append-After t xs ys a.1 in ((a.0, r.0), r.1)

  -- a list in order round one of its items
  pub record Around (before : List A) (x : A) (after : List A) : Type 0 where
    pub front : IsOrdered before
    pub below : Before (lo x) before
    pub whole : lo x ≤ hi x
    pub above : After (hi x) after
    pub back : IsOrdered after

  pub Around-IsOrdered :
      (before : List A) (x : A) (after : List A)
      → Around before x after
      → IsOrdered (before ++ (x ∷ after))
  Around-IsOrdered [] x after v = (v.whole, v.above, v.back)
  Around-IsOrdered (y ∷ before) x after v = (
    v.front.0,
    After-append (hi y) before (x ∷ after) v.front.1
        (v.below.0, After-mono after (omega (arith, v.below.0, v.whole)) v.above),
    Around-IsOrdered before x after (record {
      front = v.front.2;
      below = v.below.1;
      whole = v.whole;
      above = v.above;
      back = v.back;
    }),
  )

  pub IsOrdered-Around :
      (before : List A) (x : A) (after : List A)
      → IsOrdered (before ++ (x ∷ after))
      → Around before x after
  IsOrdered-Around [] x after v = record {
    front = tt;
    below = tt;
    whole = v.0;
    above = v.1;
    back = v.2;
  }
  IsOrdered-Around (y ∷ before) x after v =
      let r = IsOrdered-Around before x after v.2 in
      let a = append-After (hi y) before (x ∷ after) v.1 in
      record {
        front = (v.0, a.0, r.front);
        below = (a.1.0, r.below);
        whole = r.whole;
        above = r.above;
        back = r.back;
      }

  -- Two parts on two sides of a time.
  pub IsOrdered-append :
      (before after : List A) (below above : ℕ)
      → below ≤ above
      → IsOrdered before
      → Before below before
      → After above after
      → IsOrdered after
      → IsOrdered (before ++ after)
  IsOrdered-append [] after below above le f b a k = k
  IsOrdered-append (y ∷ before) after below above le f b a k = (
    f.0,
    After-append (hi y) before after f.1 (After-mono after (omega (arith, b.0)) a),
    IsOrdered-append before after below above le f.2 b.1 a k,
  )

  pub append-IsOrdered : (xs ys : List A) → IsOrdered (xs ++ ys) → IsOrdered xs × IsOrdered ys
  append-IsOrdered [] ys v = (tt, v)
  append-IsOrdered (x ∷ xs) ys v =
      let r = append-IsOrdered xs ys v.2 in ((v.0, (append-After (hi x) xs ys v.1).0, r.0), r.1)
