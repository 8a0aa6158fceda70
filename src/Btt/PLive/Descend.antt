-- ===== src/Btt/PLive/Descend.antt =====
-- Where the search of `__p_live_add` stops.
use iovisualization.Prelude.{
  ℕ, ◌≤◌, ◌<◌, ◌≡◌, refl, sym, ◌∙◌, inl, inr, true, false, List, [], ◌∷◌, ◌++◌, arith, ltb, ltb→lt,
  Bool-cases, length, length-append,
}
use mathlib.Core.List.{append_assoc}
use iovisualization.Prelude.Tree.{Tree, leaf, node, inorder, length-inorder}
use iovisualization.Btt.PLive.{PLive, inside, Stop, hit, linked, stop_left, stop_right, descend}
use iovisualization.Prelude.Ordered.{
  After, After-append, After-mono, Around, Before, Before-append, Before-mono, IsOrdered-Around,
}
use iovisualization.Btt.PLive.Intervals.{IsLive, dt_of, ct_of}

abbrev pub interval : ℕ → ℕ → PLive
interval dt ct = record { dt = dt; ct = ct }

-- what a stop says of a list of intervals
abbrev pub Stops : List PLive → ℕ → ℕ → Stop → Type 0
Stops xs dt ct (hit i y) =
    (before : List PLive) × (after : List PLive) × (xs ≡ before ++ (y ∷ after))
    × (length before ≡ i)
    × (inside y dt ct ≡ true)
Stops xs dt ct (linked t) =
    (before : List PLive) × (after : List PLive) × (xs ≡ before ++ after)
    × (inorder t ≡ before ++ (interval dt ct ∷ after))
    × Before dt_of ct_of dt before
    × After dt_of ct_of ct after

module _ (dt ct : ℕ) (le : dt ≤ ct) where
  outside_left :
      (x : PLive) → x.dt ≤ x.ct → inside x dt ct ≡ false → ltb ct x.dt ≡ false → x.ct < dt
  unfolding inside
  outside_left x w h k = ground arith

  Stops-left :
      (l : Tree PLive) (x : PLive) (r : Tree PLive) (s : Stop)
      → Around dt_of ct_of (inorder l) x (inorder r)
      → ct < x.dt
      → Stops (inorder l) dt ct s
      → Stops (inorder l ++ (x ∷ inorder r)) dt ct (stop_left x r s)
  Stops-left l x r (hit i y) v lt (b, a, e, n, h) =
      (b, a ++ (x ∷ inorder r), rw e (append_assoc b (y ∷ a) (x ∷ inorder r)), n, h)
  Stops-left l x r (linked t) v lt (b, a, e, k, below, above) = (
    b,
    a ++ (x ∷ inorder r),
    rw e (append_assoc b a (x ∷ inorder r)),
    rw k (append_assoc b (interval dt ct ∷ a) (x ∷ inorder r)),
    below,
    After-append dt_of ct_of ct a (x ∷ inorder r) above
        (lt, After-mono dt_of ct_of (inorder r) (omega (arith, v.whole)) v.above),
  )

  Stops-right :
      (l : Tree PLive) (x : PLive) (r : Tree PLive) (s : Stop)
      → Around dt_of ct_of (inorder l) x (inorder r)
      → x.ct < dt
      → Stops (inorder r) dt ct s
      → Stops (inorder l ++ (x ∷ inorder r)) dt ct (stop_right l x s)
  Stops-right l x r (hit i y) v lt (b, a, e, n, h) = (
    inorder l ++ (x ∷ b),
    a,
    rw e (sym (append_assoc (inorder l) (x ∷ b) (y ∷ a))),
    length-append (inorder l) (x ∷ b) ∙ omega (arith, length-inorder l),
    h,
  )
  Stops-right l x r (linked t) v lt (b, a, e, k, below, above) = (
    inorder l ++ (x ∷ b),
    a,
    rw e (sym (append_assoc (inorder l) (x ∷ b) a)),
    rw k (sym (append_assoc (inorder l) (x ∷ b) (interval dt ct ∷ a))),
    Before-append dt_of ct_of dt (inorder l) (x ∷ b)
        (Before-mono dt_of ct_of (inorder l) (omega (arith, v.whole)) v.below) (lt, below),
    above,
  )

  -- The search ends at an interval that meets the new one, or at the place between those before
  -- and those after it.
  pub descend-Stops :
      (t : Tree PLive) → IsLive (inorder t) → Stops (inorder t) dt ct (descend t dt ct)
  unfolding descend
  descend-Stops leaf v = ([], [], refl, refl, tt, tt)
  descend-Stops (node l x r) v =
      let w = IsOrdered-Around dt_of ct_of (inorder l) x (inorder r) v in
      elim (Bool-cases (inside x dt ct)) [
        | inl meets ↦ rw meets (inorder l, inorder r, refl, length-inorder l, meets)
        | inr no_meet ↦ elim (Bool-cases (ltb ct x.dt)) [
          | inl before ↦
              rw (no_meet, before)
                (Stops-left l x r (descend l dt ct) w (ltb→lt ct x.dt before)
                  (descend-Stops l w.front))
          | inr after ↦
              rw (no_meet, after)
                (Stops-right l x r (descend r dt ct) w (outside_left x w.whole no_meet after)
                  (descend-Stops r w.back))
        ]
      ]
