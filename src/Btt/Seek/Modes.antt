-- ===== src/Btt/Seek/Modes.antt =====
-- The distances with the most seeks.
use iovisualization.Prelude.{
  ap, ◌∙◌, sym, ltb, ltb→lt, ==_iff, ℕ, ◌<◌, max, ◌≡◌, refl, inl, inr, none, some, List, [], ◌∷◌,
  ◌++◌, arith, ◌==◌, if◌then◌else◌, Bool-cases,
}
use mathlib.Core.List.{append_assoc, append-nil}
use iovisualization.Prelude.Tree.{Tree, leaf, node}
use iovisualization.Btt.Seek.{SeekBkt, Mode, mode_node, mode}

-- the buckets in the order of the walk
abbrev pub postorder : Tree SeekBkt → List SeekBkt
postorder leaf = []
postorder (node l x r) = (postorder l ++ postorder r) ++ (x ∷ [])

-- the greatest number of seeks of a bucket
abbrev pub top : List SeekBkt → ℕ
top [] = 0
top (x ∷ xs) = max x.nseeks (top xs)

-- the distances that have so many seeks
abbrev pub having : ℕ → List SeekBkt → List ℕ
having n [] = []
having n (x ∷ xs) = if x.nseeks == n then x.sectors ∷ having n xs else having n xs

-- what the walk should find
abbrev pub best : List SeekBkt → Mode
best [] = record { most_seeks = 0; modes = none }
best (x ∷ xs) = record { most_seeks = top (x ∷ xs); modes = some (having (top (x ∷ xs)) (x ∷ xs)) }

top-snoc : (xs : List SeekBkt) (x : SeekBkt) → top (xs ++ (x ∷ [])) ≡ max (top xs) x.nseeks
top-snoc [] x = omega arith
top-snoc (y ∷ xs) x = omega (arith, top-snoc xs x)

having-append : (n : ℕ) (xs ys : List SeekBkt) → having n (xs ++ ys) ≡ having n xs ++ having n ys
having-append n [] ys = refl
having-append n (x ∷ xs) ys = elim (Bool-cases (x.nseeks == n)) [
  | inl e ↦ rw (e, having-append n xs ys) refl
  | inr e ↦ rw (e, having-append n xs ys) refl
]

having-none : (n : ℕ) (xs : List SeekBkt) → top xs < n → having n xs ≡ []
having-none n [] h = refl
having-none n (x ∷ xs) h = ground (arith, having-none n xs (omega (arith, h)))

having-here : (x : SeekBkt) → having x.nseeks (x ∷ []) ≡ x.sectors ∷ []
having-here x = rw ((==_iff x.nseeks x.nseeks).1 refl) refl

abbrev modes_of : List SeekBkt → Mode
modes_of xs = record { most_seeks = top xs; modes = some (having (top xs) xs) }

modes_of-snoc :
    (xs : List SeekBkt) (x : SeekBkt) (m : ℕ)
    → max (top xs) x.nseeks ≡ m
    → modes_of (xs ++ (x ∷ []))
      ≡ record { most_seeks = m; modes = some (having m xs ++ having m (x ∷ [])) }
modes_of-snoc xs x m e = rw (top-snoc xs x ∙ e, having-append m xs (x ∷ [])) refl

mode_node-modes_of :
    (xs : List SeekBkt) (x : SeekBkt) → mode_node x (modes_of xs) ≡ modes_of (xs ++ (x ∷ []))
unfolding mode_node
mode_node-modes_of xs x = elim (Bool-cases (ltb (top xs) x.nseeks)) [
  | inl lt ↦ rw lt (
      sym (
        modes_of-snoc xs x x.nseeks (omega (arith, ltb→lt _ _ lt))
        ∙ rw (having-none x.nseeks xs (ltb→lt _ _ lt), having-here x) refl))
  | inr ge ↦ elim (Bool-cases (x.nseeks == top xs)) [
    | inl same ↦
        rw (ge, same)
          (sym (
            modes_of-snoc xs x x.nseeks (omega (arith, (==_iff _ _).0 same))
            ∙ rw (having-here x, (==_iff x.nseeks (top xs)).0 same) refl))
    | inr less ↦
        rw (ge, less)
          (sym (
            modes_of-snoc xs x (top xs) (ground (arith, ge, less))
            ∙ rw (less, append-nil (having (top xs) xs)) refl))
  ]
]

mode_node-best : (xs : List SeekBkt) (x : SeekBkt) → mode_node x (best xs) ≡ best (xs ++ (x ∷ []))
unfolding mode_node
mode_node-best [] x = sym (modes_of-snoc [] x x.nseeks (omega arith) ∙ rw (having-here x) refl)
mode_node-best (y ∷ xs) x = mode_node-modes_of (y ∷ xs) x

mode_from-best :
    (t : Tree SeekBkt) (before : List SeekBkt) → mode t (best before) ≡ best (before ++ postorder t)
unfolding mode
mode_from-best leaf before = ap best (sym (append-nil before))
mode_from-best (node l x r) before =
    rw (mode_from-best l before, mode_from-best r (before ++ postorder l))
      (mode_node-best ((before ++ postorder l) ++ postorder r) x
        ∙ ap best (
            append_assoc (before ++ postorder l) (postorder r) (x ∷ [])
            ∙ append_assoc before (postorder l) (postorder r ++ (x ∷ []))
            ∙ ap (λ xs. before ++ xs) (sym (append_assoc (postorder l) (postorder r) (x ∷ [])))))

-- From no mode, the walk of `__mode` finds the greatest number of seeks of any distance and all
-- the distances with so many, in its order; without a node it leaves the null pointer.
pub mode-best :
    (t : Tree SeekBkt) → mode t (record { most_seeks = 0; modes = none }) ≡ best (postorder t)
mode-best t = mode_from-best t []
