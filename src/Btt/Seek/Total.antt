-- ===== src/Btt/Seek/Total.antt =====
-- All the seeks of a device.
use mathlib.Core.Path.{ap₂}
use iovisualization.Prelude.{
  if◌then◌else◌, add32, add64, sym, ap, ◌∙◌, ℕ, ◌+◌, ◌%◌, ◌^◌, ◌<◌, ◌≡◌, refl, Bool, List, [], ◌∷◌,
  arith, ◌==◌, length, count, add64,
}
use iovisualization.Prelude.Tree.{inorder, RbTree}
use iovisualization.Btt.IoTree.{Io}
use iovisualization.Btt.Seek.{SeekBkt, Seeki, seek_dist, seeki_add, llabs}
use iovisualization.Btt.Seek.Tally.{IsKeyed, tally, tally-IsKeyed, nseeks_of, nseeks_of-tally}
use iovisualization.Btt.Seek.Insert.{insert-tally}

-- the distances of a run of I/Os, without their signs
unfoldable pub distances : Bool → Seeki → List Io → List ℕ
distances absolute sip [] = []
distances absolute sip (iop ∷ iops) =
    let (dist, sip) = seek_dist absolute sip iop in llabs dist ∷ distances absolute sip iops

-- `seeki_add` for a run of I/Os
unfoldable pub adds : RbTree SeekBkt → Bool → Seeki → List Io → Seeki
adds rb absolute sip [] = sip
adds rb absolute sip (iop ∷ iops) = adds rb absolute (seeki_add rb absolute sip iop) iops

-- the buckets of `sip'` tell of the distances besides what those of `sip` told
pub record Counted (sip sip' : Seeki) (ds : List ℕ) : Type 0 where
  pub keyed : IsKeyed (inorder sip'.root)
  pub total : sip'.tot_seeks ≡ (sip.tot_seeks + length ds) % 2 ^ 64
  pub each :
      (n : ℕ)
      → nseeks_of (inorder sip'.root) n
        ≡ (nseeks_of (inorder sip.root) n + count (λ d. n == d) ds) % 2 ^ 32

Counted-step :
    (sip sip' sip'' : Seeki) (d : ℕ) (ds : List ℕ)
    → sip'.tot_seeks ≡ add64 sip.tot_seeks 1
    → ((n : ℕ)
        → nseeks_of (inorder sip'.root) n ≡ (
            if n == d
            then add32 (nseeks_of (inorder sip.root) n) 1
            else nseeks_of (inorder sip.root) n))
    → Counted sip' sip'' ds
    → Counted sip sip'' (d ∷ ds)
Counted-step sip sip' sip'' d ds t e r = record {
  keyed = r.keyed;
  total = omega (arith, t, r.total);
  each = λ n. ground (arith, e n, r.each n);
}

module _ (rb : RbTree SeekBkt) (absolute : Bool) where
  add_one :
      (sip : Seeki) (iop : Io)
      → IsKeyed (inorder sip.root)
      → inorder (seeki_add rb absolute sip iop).root
        ≡ tally (inorder sip.root) (llabs (seek_dist absolute sip iop).0)
  unfolding seeki_add seek_dist
  add_one sip iop v = insert-tally rb sip.root _ v

  same_dist :
      (s s' : Seeki) (iop : Io)
      → s.last_start ≡ s'.last_start
      → s.last_end ≡ s'.last_end
      → (seek_dist absolute s iop).0 ≡ (seek_dist absolute s' iop).0
  unfolding seek_dist
  same_dist s s' iop e f = rw (e, f) refl

  -- The distances depend on the place of the last I/O only.
  same_distances :
      (s s' : Seeki) (iops : List Io)
      → s.last_start ≡ s'.last_start
      → s.last_end ≡ s'.last_end
      → distances absolute s iops ≡ distances absolute s' iops
  unfolding seek_dist distances
  same_distances s s' [] e f = refl
  same_distances s s' (x ∷ iops) e f =
      ap₂ ◌∷◌ (ap llabs (same_dist s s' x e f))
        (same_distances (seek_dist absolute s x).1 (seek_dist absolute s' x).1 iops refl refl)

  behind_distances :
      (sip : Seeki) (iop : Io) (iops : List Io)
      → distances absolute (seeki_add rb absolute sip iop) iops
        ≡ distances absolute (seek_dist absolute sip iop).1 iops
  unfolding seeki_add seek_dist
  behind_distances sip iop iops = same_distances _ _ iops refl refl

  add_total :
      (sip : Seeki) (iop : Io) → (seeki_add rb absolute sip iop).tot_seeks ≡ add64 sip.tot_seeks 1
  unfolding seeki_add seek_dist
  add_total sip iop = refl

  -- From any state with its buckets in order and its counts in range, after any run of I/Os the
  -- buckets are in order, `tot_seeks` has grown by the number of the I/Os modulo 2^64, and the
  -- count of each distance by the number of seeks of that distance modulo 2^32, whatever the
  -- rotations do.
  pub adds-Counted :
      (sip : Seeki) (iops : List Io)
      → IsKeyed (inorder sip.root)
      → sip.tot_seeks < 2 ^ 64
      → ((n : ℕ) → nseeks_of (inorder sip.root) n < 2 ^ 32)
      → Counted sip (adds rb absolute sip iops) (distances absolute sip iops)
  unfolding adds distances
  adds-Counted sip [] v t b = record {
    keyed = v;
    total = omega arith;
    each = λ n. omega (arith, b n);
  }
  adds-Counted sip (iop ∷ iops) v t b =
      let d = llabs (seek_dist absolute sip iop).0 in
      let sip' = seeki_add rb absolute sip iop in
      let v' : IsKeyed (inorder sip'.root) =
        rw (add_one sip iop v) (tally-IsKeyed (inorder sip.root) d v) in
      let bucket : (n : ℕ)
          → nseeks_of (inorder sip'.root) n ≡ (
              if n == d
              then add32 (nseeks_of (inorder sip.root) n) 1
              else nseeks_of (inorder sip.root) n) =
        λ n.
          ap (λ xs. nseeks_of xs n) (add_one sip iop v)
          ∙ nseeks_of-tally (inorder sip.root) d n v in
      Counted-step sip sip' _ d _ (add_total sip iop) bucket (
        rw (sym (behind_distances sip iop iops)) (
          adds-Counted sip' iops v' (rw (add_total sip iop) (omega arith))
            (λ n. ground (arith, bucket n, b n))))
