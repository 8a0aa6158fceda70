-- ===== src/Stats/Histogram.antt =====
-- The bucket of a value, and merging histograms.
use iovisualization.Prelude.{
  ℕ, zero, suc, ◌+◌, ◌-◌, ◌^◌, ◌≤◌, ◌<◌, ◌≡◌, refl, sym, ap, ◌∙◌, inl, inr, List, [], ◌∷◌, ◌++◌,
  arith, ltb, ltb→lt, Bool-cases, length, replicate, length-replicate, add32,
}
use mathlib.Core.Path.{subst, ap₂}
use native.Mathlib.Decide.{ℕ_discrete}
use iovisualization.Stats.{
  HistLog2, histlog2_upper_limit, histlog2_index_from, histlog2_index, bump, histlog2_account,
  histlog2_merge,
}

module _ (h : HistLog2) (val : ℕ) where
  -- `i` is the first bucket from `start` on, below `last`, whose limit the value does not pass, or `last`.
  pub record IsBucket (start last i : ℕ) : Type 0 where
    pub from : start ≤ i
    pub within : i ≤ last
    pub passed : (j : ℕ) → start ≤ j → j < i → histlog2_upper_limit j h < val
    pub fits : i < last → val ≤ histlog2_upper_limit i h

  next-IsBucket :
      (rounds i : ℕ) {k : ℕ}
      → IsBucket (i + 1) (i + 1 + rounds) k
      → histlog2_upper_limit i h < val
      → IsBucket i (i + suc rounds) k
  next-IsBucket rounds i r pass = record {
    from = omega arith;
    within = omega arith;
    passed =
        λ j a b. elim (ℕ_discrete j i) [ yes e ↦ rw e pass | no ne ↦ r.passed j (omega arith) b ];
    fits = λ lt. r.fits (omega arith);
  }

  index_from-IsBucket :
      (rounds i : ℕ) → IsBucket i (i + rounds) (histlog2_index_from h val rounds i)
  unfolding histlog2_index_from
  index_from-IsBucket zero i = record {
    from = omega arith;
    within = omega arith;
    passed = λ j a b. absurd (omega arith);
    fits = λ lt. absurd (omega arith);
  }
  index_from-IsBucket (suc rounds) i = elim (Bool-cases (ltb (histlog2_upper_limit i h) val)) [
    | inl pass ↦
        rw pass (next-IsBucket rounds i (index_from-IsBucket rounds (i + 1)) (ltb→lt _ _ pass))
    | inr stop ↦ rw stop (record {
      from = omega arith;
      within = omega arith;
      passed = λ j a b. absurd (omega arith);
      fits = λ lt. ground arith;
    })
  ]

-- The bucket of a value is the first whose upper limit the value does not exceed, or the last
-- where it exceeds the limits of all before that.
pub histlog2_index-IsBucket :
    (h : HistLog2) (val : ℕ) → IsBucket h val 0 (h.num - 1) (histlog2_index val h)
unfolding histlog2_index
histlog2_index-IsBucket h val =
    subst (λ last. IsBucket h val 0 last (histlog2_index_from h val (h.num - 1) 0)) (omega arith)
      (index_from-IsBucket h val (h.num - 1) 0)

-- the values of a list in turn
unfoldable pub account_all : HistLog2 → List ℕ → List ℕ → List ℕ
account_all h bucket [] = bucket
account_all h bucket (v ∷ values) = account_all h (histlog2_account bucket v h) values

abbrev pub AllBelow32 : List ℕ → Type 0
AllBelow32 [] = Unit {0}
AllBelow32 (b ∷ bucket) = (b < 2 ^ 32) × AllBelow32 bucket

length-bump : (bucket : List ℕ) (i : ℕ) → length (bump bucket i) ≡ length bucket
unfolding bump
length-bump [] i = refl
length-bump (b ∷ bucket) zero = refl
length-bump (b ∷ bucket) (suc i) = ap suc (length-bump bucket i)

bump-AllBelow32 : (bucket : List ℕ) (i : ℕ) → AllBelow32 bucket → AllBelow32 (bump bucket i)
unfolding bump
bump-AllBelow32 [] i v = tt
bump-AllBelow32 (b ∷ bucket) zero v = (omega arith, v.1)
bump-AllBelow32 (b ∷ bucket) (suc i) v = (v.0, bump-AllBelow32 bucket i v.1)

merge-bump :
    (dst src : List ℕ) (i : ℕ)
    → length src ≡ length dst
    → histlog2_merge dst (bump src i) ≡ bump (histlog2_merge dst src) i
unfolding bump histlog2_merge
merge-bump [] src i e = refl
merge-bump (d ∷ dst) [] i e = absurd (omega arith)
merge-bump (d ∷ dst) (s ∷ src) zero e = ap (λ x. x ∷ histlog2_merge dst src) (omega arith)
merge-bump (d ∷ dst) (s ∷ src) (suc i) e =
    ap (λ l. add32 d s ∷ l) (merge-bump dst src i (omega arith))

length-merge : (dst src : List ℕ) → length (histlog2_merge dst src) ≡ length dst
unfolding histlog2_merge
length-merge [] src = refl
length-merge (d ∷ dst) [] = refl
length-merge (d ∷ dst) (s ∷ src) = ap suc (length-merge dst src)

merge-zeros : (dst : List ℕ) → AllBelow32 dst → histlog2_merge dst (replicate (length dst) 0) ≡ dst
unfolding histlog2_merge
merge-zeros [] v = refl
merge-zeros (d ∷ dst) v = ap₂ ◌∷◌ (omega arith) (merge-zeros dst v.1)

module _ (h : HistLog2) where
  length-account_all :
      (bucket values : List ℕ) → length (account_all h bucket values) ≡ length bucket
  unfolding account_all histlog2_account
  length-account_all bucket [] = refl
  length-account_all bucket (v ∷ values) =
      length-account_all (bump bucket (histlog2_index v h)) values
      ∙ length-bump bucket (histlog2_index v h)

  account_all-AllBelow32 :
      (bucket values : List ℕ) → AllBelow32 bucket → AllBelow32 (account_all h bucket values)
  unfolding account_all histlog2_account
  account_all-AllBelow32 bucket [] v = v
  account_all-AllBelow32 bucket (x ∷ values) v =
      account_all-AllBelow32 (bump bucket (histlog2_index x h)) values
        (bump-AllBelow32 bucket (histlog2_index x h) v)

  account_all-append :
      (bucket xs ys : List ℕ)
      → account_all h bucket (xs ++ ys) ≡ account_all h (account_all h bucket xs) ys
  unfolding account_all
  account_all-append bucket [] ys = refl
  account_all-append bucket (x ∷ xs) ys = account_all-append (histlog2_account bucket x h) xs ys

  merge-account_all :
      (dst src values : List ℕ)
      → length src ≡ length dst
      → histlog2_merge dst (account_all h src values)
        ≡ account_all h (histlog2_merge dst src) values
  unfolding account_all histlog2_account
  merge-account_all dst src [] e = refl
  merge-account_all dst src (v ∷ values) e =
      merge-account_all dst (bump src (histlog2_index v h)) values
        (length-bump src (histlog2_index v h) ∙ e)
      ∙ ap (λ b. account_all h b values) (merge-bump dst src (histlog2_index v h) e)

  zeros-AllBelow32 : (n : ℕ) → AllBelow32 (replicate n 0)
  zeros-AllBelow32 zero = tt
  zeros-AllBelow32 (suc n) = (omega arith, zeros-AllBelow32 n)

  -- Merging the histograms of two lists of values gives the histogram of both lists, for any
  -- parameters of the histogram.
  pub histlog2_merge-account_all :
      (xs ys : List ℕ)
      → let zeros : List ℕ = replicate h.num 0 in
        histlog2_merge (account_all h zeros xs) (account_all h zeros ys)
        ≡ account_all h zeros (xs ++ ys)
  histlog2_merge-account_all xs ys =
      let zeros : List ℕ = replicate h.num 0 in
      let first = account_all h zeros xs in
      let n : length first ≡ h.num = length-account_all zeros xs ∙ length-replicate h.num 0 in
      merge-account_all first zeros ys (length-replicate h.num 0 ∙ sym n)
      ∙ ap (λ b. account_all h b ys)
          (ap (λ k. histlog2_merge first (replicate k 0)) (sym n)
            ∙ merge-zeros first (account_all-AllBelow32 zeros xs (zeros-AllBelow32 h.num)))
      ∙ sym (account_all-append zeros xs ys)
