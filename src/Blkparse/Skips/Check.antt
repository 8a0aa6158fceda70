-- ===== src/Blkparse/Skips/Check.antt =====
-- What `check_current_skips` takes out of the sequence numbers that lack.
use iovisualization.Prelude.{
  ℕ, ◌^◌, ◌≤◌, ◌<◌, ◌≡◌, refl, ◌≢◌, inl, inr, true, false, ◌&&◌, ◌||◌, not, none, some, List, [],
  ◌∷◌, ◌++◌, arith, ◌==◌, Option-cases, add64, sub64,
}
use iovisualization.Blkparse.Skips.{
  Skip, in_skip, widen, insert_skip, find_skip, take_out, check_current_skips,
}
use iovisualization.Blkparse.Skips.Cover.{covered, IsRange, AllRange}

-- No two nodes hold the same number.
abbrev pub AllApart : List Skip → Type 0
AllApart [] = Unit {0}
AllApart (sip ∷ skips) = ((n : ℕ) → in_skip sip n ≡ true → covered skips n ≡ false) × AllApart skips

covered-append : (xs ys : List Skip) (n : ℕ) → covered (xs ++ ys) n ≡ (covered xs n || covered ys n)
covered-append [] ys n = refl
covered-append (x ∷ xs) ys n = ground (arith, covered-append xs ys n)

AllRange-append : (xs ys : List Skip) → AllRange (xs ++ ys) → AllRange xs × AllRange ys
AllRange-append [] ys v = (tt, v)
AllRange-append (x ∷ xs) ys v = let r = AllRange-append xs ys v.1 in ((v.0, r.0), r.1)

append-AllRange : (xs ys : List Skip) → AllRange xs → AllRange ys → AllRange (xs ++ ys)
append-AllRange [] ys v w = w
append-AllRange (x ∷ xs) ys v w = (v.0, append-AllRange xs ys v.1 w)

-- The other nodes hold none of the numbers of a node in the middle.
apart_middle :
    (before : List Skip) (sip : Skip) (after : List Skip) (n : ℕ)
    → AllApart (before ++ (sip ∷ after))
    → in_skip sip n ≡ true
    → (covered before n ≡ false) × (covered after n ≡ false)
apart_middle [] sip after n v h = (refl, v.0 n h)
apart_middle (x ∷ before) sip after n v h =
    ground
      (arith, apart_middle before sip after n v.1 h, v.0 n, covered-append before (sip ∷ after) n)

-- The search finds a node that holds the number, and the list is cut there.
pub find_skip-some :
    (skips : List Skip) (seq : ℕ) {before : List Skip} {sip : Skip} {after : List Skip}
    → find_skip skips seq ≡ some (before, sip, after)
    → (skips ≡ before ++ (sip ∷ after)) × (in_skip sip seq ≡ true)
unfolding find_skip
find_skip-some [] seq e = cc
find_skip-some (x ∷ skips) seq e = elim (Option-cases (find_skip skips seq)) [
  | inl n ↦ ground arith
  | inr ((b, s, a), h) ↦ ground (arith, find_skip-some skips seq h)
]

find_skip-none :
    (skips : List Skip) (seq : ℕ) → find_skip skips seq ≡ none → covered skips seq ≡ false
unfolding find_skip
find_skip-none [] seq e = refl
find_skip-none (x ∷ skips) seq e = elim (Option-cases (find_skip skips seq)) [
  | inl n ↦ ground (arith, find_skip-none skips seq n)
  | inr ((b, s, a), h) ↦ ground arith
]

-- Where no node holds `seq`, none borders the empty range round it.
widen_round :
    (skips : List Skip) (seq : ℕ)
    → AllRange skips
    → 0 < seq
    → seq < 2 ^ 32
    → covered skips seq ≡ false
    → widen skips (add64 seq 1) (sub64 seq 1) ≡ none
unfolding widen
widen_round [] seq v lo hi h = refl
widen_round (x ∷ skips) seq v lo hi h = ground (arith, widen_round skips seq v.1 lo hi)

module _ (before : List Skip) (sip : Skip) (after : List Skip) (seq : ℕ)
    (v : AllRange (before ++ (sip ∷ after))) (apart : AllApart (before ++ (sip ∷ after)))
    (hit : in_skip sip seq ≡ true) where
  sip-IsRange : IsRange sip
  sip-IsRange = (AllRange-append before (sip ∷ after) v).1.0

  hit_bounds : (sip.start ≤ seq) × (seq ≤ sip.end)
  hit_bounds = ground arith

  -- At an end of the node exactly the number is gone.
  covered-take_out_edge :
      (n : ℕ)
      → ((sip.start == seq) || (sip.end == seq)) ≡ true
      → covered (take_out before sip after seq) n
        ≡ (covered (before ++ (sip ∷ after)) n && not (n == seq))
  unfolding take_out
  covered-take_out_edge n e = ground (
    arith,
    sip-IsRange,
    apart_middle before sip after n apart,
    covered-append before (sip ∷ after) n,
    covered-append before after n,
    covered-append before (record sip { start = add64 sip.start 1 } ∷ after) n,
    covered-append before (record sip { end = sub64 sip.end 1 } ∷ after) n,
  )

  split-IsRange : sip.start ≢ seq → IsRange (record sip { end = sub64 seq 1 })
  split-IsRange ns = omega (arith, sip-IsRange, hit_bounds)

  -- Inside the node all that is behind the number goes with it.
  take_out_split :
      sip.start ≢ seq
      → sip.end ≢ seq
      → take_out before sip after seq
        ≡ record { start = add64 seq 1; end = sub64 seq 1 }
          ∷ (before ++ (record sip { end = sub64 seq 1 } ∷ after))
  unfolding take_out insert_skip
  take_out_split ns ne = ground (
    arith,
    sip-IsRange,
    hit_bounds,
    apart_middle before sip after seq apart hit,
    covered-append before (record sip { end = sub64 seq 1 } ∷ after) seq,
    widen_round (before ++ (record sip { end = sub64 seq 1 } ∷ after)) seq
        (append-AllRange before (record sip { end = sub64 seq 1 } ∷ after)
          (AllRange-append before (sip ∷ after) v).0
          (split-IsRange ns, (AllRange-append before (sip ∷ after) v).1.1))
        (omega (arith, sip-IsRange, hit_bounds)) (omega (arith, sip-IsRange, hit_bounds)),
  )

  split_lem :
      (n : ℕ)
      → seq < n
      → n ≤ sip.end
      → (covered (before ++ (sip ∷ after)) n ≡ true)
        × (covered
              (record { start = add64 seq 1; end = sub64 seq 1 }
                ∷ (before ++ (record sip { end = sub64 seq 1 } ∷ after)))
              n
            ≡ false)
  split_lem n lt le = ground (
    arith,
    sip-IsRange,
    hit_bounds,
    apart_middle before sip after n apart,
    covered-append before (sip ∷ after) n,
    covered-append before (record sip { end = sub64 seq 1 } ∷ after) n,
  )

check-some :
    (skips : List Skip) (seq : ℕ) {before : List Skip} {sip : Skip} {after : List Skip}
    → find_skip skips seq ≡ some (before, sip, after)
    → check_current_skips skips seq ≡ (true, take_out before sip after seq)
unfolding check_current_skips
check-some skips seq h = ground arith

-- The result is whether the number was covered, and the list stays as it is when it was not.
pub check-covered :
    (skips : List Skip) (seq : ℕ)
    → ((check_current_skips skips seq).0 ≡ covered skips seq)
      × (covered skips seq ≡ false → (check_current_skips skips seq).1 ≡ skips)
unfolding check_current_skips
check-covered skips seq = elim (Option-cases (find_skip skips seq)) [
  | inl n ↦ ground (arith, find_skip-none skips seq n)
  | inr ((b, s, a), h) ↦ ground (arith, find_skip-some skips seq h, covered-append b (s ∷ a) seq)
]

module _ (skips : List Skip) (seq : ℕ) (v : AllRange skips) (apart : AllApart skips) where
  -- In a list of proper nodes that do not overlap, a number that is an end of the node found for
  -- it is taken out, and no other number is touched.
  pub check-covered_edge :
      (before : List Skip) (sip : Skip) (after : List Skip)
      → find_skip skips seq ≡ some (before, sip, after)
      → ((sip.start == seq) || (sip.end == seq)) ≡ true
      → (n : ℕ) → covered (check_current_skips skips seq).1 n ≡ (covered skips n && not (n == seq))
  check-covered_edge b s a h e n =
      let (split, hit) = find_skip-some skips seq h in
      rw (check-some skips seq h)
        (rw split (covered-take_out_edge b s a seq (rw split at v) (rw split at apart) hit n e))

  -- In a list of proper nodes that do not overlap, a number strictly inside the node found for
  -- it takes along all the numbers behind it in that node: they were covered before and are not
  -- afterwards.
  pub check-covered_split :
      (before : List Skip) (sip : Skip) (after : List Skip)
      → find_skip skips seq ≡ some (before, sip, after)
      → sip.start ≢ seq
      → sip.end ≢ seq
      → (n : ℕ) → seq < n
      → n ≤ sip.end
      → (covered skips n ≡ true) × (covered (check_current_skips skips seq).1 n ≡ false)
  check-covered_split b s a h ns ne n lt le =
      let (split, hit) = find_skip-some skips seq h in
      let v' = rw split at v in
      let apart' = rw split at apart in
      rw (check-some skips seq h) (
        rw (split, take_out_split b s a seq v' apart' hit ns ne)
          (split_lem b s a seq v' apart' hit n lt le))
