-- ===== src/Btt/Seek/Median.antt =====
-- What the search for the median finds.
use iovisualization.Prelude.{
  ℕ, ◌+◌, ◌/◌, ◌≡◌, refl, sym, ap, ◌∙◌, inl, inr, Bool, Option, none, some, List, [], ◌∷◌, ◌++◌,
  arith, leb, Bool-cases, find?,
}
use iovisualization.Prelude.Tree.{Tree, leaf, node}
use iovisualization.Btt.Seek.{SeekBkt, median, seeki_median}

-- the buckets in the order of the search
abbrev pub preorder : Tree SeekBkt → List SeekBkt
preorder leaf = []
preorder (node l x r) = x ∷ (preorder l ++ preorder r)

-- the bucket alone has at least as many seeks as the target
abbrev pub reaches : ℕ → SeekBkt → Bool
reaches target sbp = leb target sbp.nseeks

abbrev pub sectors_found : Option SeekBkt → Option ℕ
sectors_found none = none
sectors_found (some sbp) = some sbp.sectors

find?-append :
    (target : ℕ) (xs ys : List SeekBkt)
    → sectors_found (find? (reaches target) (xs ++ ys))
      ≡ elim (sectors_found (find? (reaches target) xs)) [
        | none ↦ sectors_found (find? (reaches target) ys)
        | some found ↦ some found
      ]
find?-append target [] ys = refl
find?-append target (x ∷ xs) ys = elim (Bool-cases (reaches target x)) [
  | inl hit ↦ rw hit refl
  | inr miss ↦ rw miss (find?-append target xs ys)
]

abbrev distance : Option ℕ → ℕ
distance none = 0
distance (some d) = d

found_sectors :
    (found : Option SeekBkt)
    → distance (sectors_found found) ≡ elim found [ none ↦ 0 | some sbp ↦ sbp.sectors ]
found_sectors none = refl
found_sectors (some sbp) = refl

first-reaches : (target : ℕ) (sbp : SeekBkt) → leb target (0 + sbp.nseeks) ≡ reaches target sbp
first-reaches target sbp = ground arith

either_found :
    {a a' b b' : Option ℕ}
    → a ≡ a'
    → b ≡ b'
    → (elim a as (λ o. Option ℕ) [ none ↦ b | some found ↦ some found ])
      ≡ elim a' as (λ o. Option ℕ) [ none ↦ b' | some found ↦ some found ]
either_found p q i = elim (p i) [ none ↦ q i | some found ↦ some found ]

median-find? :
    (t : Tree SeekBkt) (target : ℕ)
    → median t 0 target ≡ sectors_found (find? (reaches target) (preorder t))
unfolding median
median-find? leaf target = refl
median-find? (node l x r) target = elim (Bool-cases (reaches target x)) [
  | inl hit ↦ rw (first-reaches target x, hit) refl
  | inr miss ↦
      rw (first-reaches target x, miss)
        (either_found (median-find? l target) (median-find? r target)
          ∙ sym (find?-append target (preorder l) (preorder r)))
]

median_distance :
    (found : Option ℕ) → (elim found as (λ o. ℕ) [ none ↦ 0 | some d ↦ d ]) ≡ distance found
median_distance none = refl
median_distance (some d) = refl

-- The median that btt reports is the distance of the first bucket, in the order of a node, its
-- left part and its right part, that alone has at least half of the seeks, the half rounded down, and 0
-- where no bucket has as many: the seeks of other buckets are never added up.
pub seeki_median-find? :
    (t : Tree SeekBkt) (tot_seeks : ℕ)
    → seeki_median t tot_seeks
      ≡ elim (find? (reaches (tot_seeks / 2)) (preorder t)) [ none ↦ 0 | some sbp ↦ sbp.sectors ]
unfolding seeki_median
seeki_median-find? t tot_seeks =
    median_distance (median t 0 (tot_seeks / 2))
    ∙ ap distance (median-find? t (tot_seeks / 2))
    ∙ found_sectors (find? (reaches (tot_seeks / 2)) (preorder t))
