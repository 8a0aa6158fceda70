-- ===== src/Blkiomon/Pairs.antt =====
-- The issue and the completion of a request.
use iovisualization.Prelude.{
  ℕ, ◌+◌, ◌^◌, ◌<◌, ◌≡◌, refl, sym, ap, ◌∙◌, inl, inr, true, false, ◌&&◌, Option, none, some, List,
  ◌∷◌, arith, ltb, ◌==◌, Bool-cases,
}
use mathlib.Core.Path.{subst}
use iovisualization.Prelude.Tree.{RbTree}
use iovisualization.Prelude.Keyed.Maps.{put}
use iovisualization.Trace.{IoTrace}
use iovisualization.Blkparse.Track.{has_class}
use iovisualization.Blkiomon.Stat.{BlkiomonStat}
use iovisualization.Blkiomon.{
  Monitor, action_of, same_request, fetch_from, hash_of, with_chain, blkiomon_fetch_trace,
  blkiomon_store_trace, blkiomon_alloc_trace, blkiomon_free_trace, d2c_of, blkiomon_account,
  blkiomon_do_trace,
}
use iovisualization.Blkiomon.Trees.{Devices}
use iovisualization.Blkiomon.Counts.{Counts, or_new, SameTraces, counted, account_lem, account_zero}

-- The events are the issue and the completion of one request.
pub record IsPair (d c : IoTrace) : Type 0 where
  pub device : c.device ≡ d.device
  pub sector : c.sector ≡ d.sector
  pub action : action_of c.action ≡ action_of d.action
  pub issue : has_class 6 d ≡ true
  pub complete : has_class 7 c ≡ true
  pub later : d.time < c.time

fetch_none :
    (t : IoTrace) (s : Monitor)
    → fetch_from (s.thash (hash_of t)) t ≡ none
    → blkiomon_fetch_trace t s ≡ none
unfolding blkiomon_fetch_trace
fetch_none t s e = rw (blkiomon_fetch_trace, e) refl

-- A chain whose head is the request gives it back.
fetch_head :
    (d c : IoTrace) (chain : List IoTrace)
    → same_request c d ≡ true
    → fetch_from (d ∷ chain) c ≡ some (d, chain)
unfolding fetch_from
fetch_head d c chain e = rw e refl

pair-same_request : (d c : IoTrace) → IsPair d c → same_request c d ≡ true
unfolding same_request
pair-same_request d c p = ground (arith, p.device, p.sector, p.action)

fetch_some :
    (t f : IoTrace) (chain : List IoTrace) (s : Monitor)
    → fetch_from (s.thash (hash_of t)) t ≡ some (f, chain)
    → blkiomon_fetch_trace t s ≡ some (f, with_chain (hash_of t) chain s)
unfolding blkiomon_fetch_trace
fetch_some t f chain s e = rw (blkiomon_fetch_trace, e) refl

-- the state after the issue, and then with the issue taken out again
abbrev stored : IoTrace → Monitor → Monitor
stored d s = blkiomon_alloc_trace (blkiomon_store_trace d s)

abbrev fetched : IoTrace → IoTrace → Monitor → Monitor
fetched d c s = with_chain (hash_of c) (s.thash (hash_of d)) (stored d s)

fetch_stored :
    (d c : IoTrace) (s : Monitor)
    → IsPair d c
    → blkiomon_fetch_trace c (stored d s) ≡ some (d, fetched d c s)
unfolding blkiomon_alloc_trace blkiomon_store_trace with_chain
fetch_stored d c s p =
    let here : (hash_of c == hash_of d) ≡ true = ground (arith, p.sector) in
    let chain : (stored d s).thash (hash_of c) ≡ d ∷ s.thash (hash_of d) = rw here refl in
    fetch_some c d (s.thash (hash_of d)) (stored d s) (
      ap (λ ts. fetch_from ts c) chain
      ∙ fetch_head d c (s.thash (hash_of d)) (pair-same_request d c p))

fetched_thash :
    (d c : IoTrace) (s : Monitor) → IsPair d c → (j : ℕ) → (fetched d c s).thash j ≡ s.thash j
unfolding blkiomon_alloc_trace blkiomon_store_trace with_chain
fetched_thash d c s p j = elim (Bool-cases (j == hash_of c)) [
  | inl e ↦ let same : hash_of d ≡ j = ground (arith, e, p.sector) in rw e (ap s.thash same)
  | inr e ↦ let other : (j == hash_of d) ≡ false = ground (arith, e, p.sector) in rw (e, other) refl
]

fetched_rest :
    (d c : IoTrace) (s : Monitor)
    → ((fetched d c s).dstat_tree ≡ s.dstat_tree)
      × ((fetched d c s).dstat_curr ≡ s.dstat_curr)
      × ((fetched d c s).matched ≡ s.matched)
      × ((fetched d c s).mismatched ≡ s.mismatched)
unfolding blkiomon_alloc_trace blkiomon_store_trace with_chain
fetched_rest d c s = (refl, refl, refl, refl)

Counts-same :
    (s s' : Monitor) (m : ℕ → Option BlkiomonStat)
    → s'.dstat_tree ≡ s.dstat_tree
    → s'.dstat_curr ≡ s.dstat_curr
    → Counts s m
    → Counts s' m
Counts-same s s' m e f r =
    subst (λ tree. Devices (tree s'.dstat_curr) m) (sym e)
      (subst (λ b. Devices (s.dstat_tree b) m) (sym f) r)

free_rest :
    (s : Monitor)
    → SameTraces s (blkiomon_free_trace s) × ((blkiomon_free_trace s).dstat_tree ≡ s.dstat_tree)
unfolding blkiomon_free_trace
free_rest s = elim (Bool-cases (ltb s.vacant_traces 256)) [
  | inl e ↦ rw e (record { thash = refl; matched = refl; mismatched = refl; curr = refl }, refl)
  | inr e ↦ rw e (record { thash = refl; matched = refl; mismatched = refl; curr = refl }, refl)
]

module _ (rb : RbTree BlkiomonStat) where
  do_none :
      (t : IoTrace) (s : Monitor)
      → blkiomon_fetch_trace t s ≡ none
      → blkiomon_do_trace rb t s ≡ some (stored t s)
  unfolding blkiomon_do_trace
  do_none t s e = rw (blkiomon_do_trace, e) refl

  do_pair :
      (d c : IoTrace) (s s' : Monitor)
      → IsPair d c
      → blkiomon_fetch_trace c s ≡ some (d, s')
      → blkiomon_do_trace rb c s
        ≡ elim (blkiomon_account rb d c (record s' { matched = s'.matched + 1 }))
            as (λ o. Option Monitor) [ none ↦ none | some s'' ↦ some (blkiomon_free_trace s'') ]
  unfolding blkiomon_do_trace
  do_pair d c s s' p e =
      let lt : ltb d.time c.time ≡ true = ground (arith, p.later) in
      let both : (has_class 6 d && has_class 7 c) ≡ true = ground (arith, p.issue, p.complete) in
      rw (blkiomon_do_trace, e, lt, both) refl

  -- With no trace stored for the request and its completion at least a microsecond behind its
  -- issue: the two events are one match, the traces stored are those from before, and the statistics
  -- of the current interval are as they were but for the device's, in which the pair is counted once.
  pub request_pair :
      (s : Monitor) (m : ℕ → Option BlkiomonStat) (d c : IoTrace)
      → Counts s m
      → fetch_from (s.thash (hash_of d)) d ≡ none
      → IsPair d c
      → 0 < d2c_of rb d c
      → (s₁ : Monitor) × (s₂ : Monitor) × (blkiomon_do_trace rb d s ≡ some s₁)
        × (blkiomon_do_trace rb c s₁ ≡ some s₂)
        × Counts s₂ (put m d.device (counted rb d c (or_new (m d.device) d.device)))
        × ((j : ℕ) → s₂.thash j ≡ s.thash j)
        × (s₂.matched ≡ s.matched + 1)
        × (s₂.mismatched ≡ s.mismatched)
  request_pair s m d c r free p apart =
      let s' = fetched d c s in
      let (trees, curr, matched, mismatched) = fetched_rest d c s in
      let t : Monitor = record s' { matched = s'.matched + 1 } in
      let r' : Counts t m = Counts-same s t m trees curr r in
      let (out, e, counts, same) = account_lem rb d c t m r' (ground (arith, apart)) in
      let (kept, tree) = free_rest out in
      (
        stored d s,
        blkiomon_free_trace out,
        do_none d s (fetch_none d s free),
        do_pair d c (stored d s) s' p (fetch_stored d c s p) ∙ rw e refl,
        Counts-same out (blkiomon_free_trace out) _ tree kept.curr counts,
        λ j. ap (λ (h : ℕ → List IoTrace). h j) (kept.thash ∙ same.thash) ∙ fetched_thash d c s p j,
        kept.matched ∙ same.matched ∙ ap (λ n. n + 1) matched,
        kept.mismatched ∙ same.mismatched ∙ mismatched,
      )

  -- With no trace stored for the request and its completion less than a microsecond behind its
  -- issue, the completion divides by zero.
  pub pair_divides_by_zero :
      (s : Monitor) (d c : IoTrace)
      → fetch_from (s.thash (hash_of d)) d ≡ none
      → IsPair d c
      → c.time < 2 ^ 64
      → c.time < d.time + 1000
      → (s₁ : Monitor) × (blkiomon_do_trace rb d s ≡ some s₁) × (blkiomon_do_trace rb c s₁ ≡ none)
  pair_divides_by_zero s d c free p hi near =
      let s' = fetched d c s in
      let t : Monitor = record s' { matched = s'.matched + 1 } in
      let zero_time : d2c_of rb d c ≡ 0 = omega (arith, p.later, hi, near) in
      (
        stored d s,
        do_none d s (fetch_none d s free),
        do_pair d c (stored d s) s' p (fetch_stored d c s p)
            ∙ rw (account_zero rb d c t (ground (arith, zero_time))) refl,
      )
