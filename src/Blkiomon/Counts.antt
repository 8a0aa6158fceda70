-- ===== src/Blkiomon/Counts.antt =====
-- What counting a pair does to the statistics of the devices.
use iovisualization.Prelude.{
  ℕ, ◌*◌, ◌/◌, ◌%◌, ◌^◌, ◌≡◌, refl, sym, ap, ◌∙◌, inl, inr, Bool, true, false, Option, none, some,
  ◌∷◌, arith, ◌==◌, Bool-cases, Option-cases,
}
use mathlib.Core.Path.{subst}
use iovisualization.Prelude.Tree.{Tree, RbTree}
use iovisualization.Prelude.Keyed.Maps.{Maps-ext, put}
use iovisualization.Trace.{IoTrace}
use iovisualization.Blkparse.Track.{has_class}
use iovisualization.Blkiomon.Stat.{BlkiomonStat, blkiomon_stat_init}
use iovisualization.Blkiomon.{
  Monitor, find_dstat, link_dstat, at_curr, account_stat, blkiomon_get_dstat, d2c_of,
  blkiomon_account, write_dstat,
}
use iovisualization.Blkiomon.Trees.{
  device_of, Devices, find_dstat-Devices, link_dstat-Devices, write_dstat-Devices,
}

-- the statistics of the current interval
abbrev pub Counts : Monitor → (ℕ → Option BlkiomonStat) → Type 0
Counts s m = Devices (s.dstat_tree s.dstat_curr) m

-- the statistics that a device starts with, if it has none
abbrev pub or_new : Option BlkiomonStat → ℕ → BlkiomonStat
or_new none device = record blkiomon_stat_init { device = device }
or_new (some p) device = p

at_curr_self : {A : Type 0} (f : Bool → A) (b : Bool) (v : A) → at_curr f b v b ≡ v
unfolding at_curr
at_curr_self f true v = refl
at_curr_self f false v = refl

-- The traces and the numbers of pairs are those of `s`.
pub record SameTraces (s s' : Monitor) : Type 0 where
  pub thash : s'.thash ≡ s.thash
  pub matched : s'.matched ≡ s.matched
  pub mismatched : s'.mismatched ≡ s.mismatched
  pub curr : s'.dstat_curr ≡ s.dstat_curr

module _ (rb : RbTree BlkiomonStat) where
  get_known :
      (s : Monitor) (device : ℕ) (p : BlkiomonStat)
      → find_dstat (s.dstat_tree s.dstat_curr) device ≡ some p
      → blkiomon_get_dstat rb device s ≡ s
  unfolding blkiomon_get_dstat
  get_known s device p e = rw (blkiomon_get_dstat, e) refl

  get_new :
      (s : Monitor) (device : ℕ) (t' : Tree BlkiomonStat)
      → find_dstat (s.dstat_tree s.dstat_curr) device ≡ none
      → link_dstat (s.dstat_tree s.dstat_curr) (record blkiomon_stat_init { device = device })
        ≡ some t'
      → blkiomon_get_dstat rb device s ≡ record s {
        dstat_tree = at_curr s.dstat_tree s.dstat_curr (rb.insert_color t');
        dstat_list = at_curr s.dstat_list s.dstat_curr (device ∷ s.dstat_list s.dstat_curr);
      }
  unfolding blkiomon_get_dstat
  get_new s device t' e f = rw (blkiomon_get_dstat, e, f) refl

  get_lem :
      (s : Monitor) (m : ℕ → Option BlkiomonStat) (device : ℕ)
      → Counts s m
      → Counts (blkiomon_get_dstat rb device s) (put m device (or_new (m device) device))
        × SameTraces s (blkiomon_get_dstat rb device s)
  get_lem s m device r =
      let tree = s.dstat_tree s.dstat_curr in
      elim (Option-cases (m device)) [
        | inl free ↦
            let (t', e, r') =
              link_dstat-Devices rb tree m (record blkiomon_stat_init { device = device }) r free in
            subst (λ s'. Counts s' (put m device (or_new (m device) device)) × SameTraces s s')
              (sym (get_new s device t' (find_dstat-Devices tree m device r ∙ free) e))
              (
                rw free (
                    subst
                      (λ t.
                        Devices t (put m device (record blkiomon_stat_init { device = device })))
                      (sym (at_curr_self s.dstat_tree s.dstat_curr (rb.insert_color t'))) r'),
                record { thash = refl; matched = refl; mismatched = refl; curr = refl },
              )
        | inr (p, e) ↦
            subst (λ s'. Counts s' (put m device (or_new (m device) device)) × SameTraces s s')
              (sym (get_known s device p (find_dstat-Devices tree m device r ∙ e)))
              (
                rw e (Maps-ext device_of r (λ j. ground (arith, e, ap m {x = j} {y = device}))),
                record { thash = refl; matched = refl; mismatched = refl; curr = refl },
              )
      ]

  -- the statistics of a device with a pair counted
  abbrev pub counted : IoTrace → IoTrace → BlkiomonStat → BlkiomonStat
  counted d c = account_stat c d.bytes (d2c_of rb d c) (d.bytes * 1000 % 2 ^ 32 / d2c_of rb d c)

  counted_device : (d c : IoTrace) (p : BlkiomonStat) → (counted d c p).device ≡ p.device
  unfolding account_stat
  counted_device d c p = elim (Bool-cases (has_class 0 c)) [
    | inl e ↦ rw e refl
    | inr e ↦ elim (Bool-cases (has_class 1 c)) [ inl f ↦ rw (e, f) refl | inr f ↦ rw (e, f) refl ]
  ]

  account_on :
      (d c : IoTrace) (s : Monitor)
      → (d2c_of rb d c == 0) ≡ false
      → let found = blkiomon_get_dstat rb d.device s in
        blkiomon_account rb d c s
        ≡ some (record found {
          dstat_tree =
              at_curr found.dstat_tree found.dstat_curr
                (write_dstat (found.dstat_tree found.dstat_curr) d.device (counted d c));
        })
  unfolding blkiomon_account
  account_on d c s e = rw e refl

  pub account_zero :
      (d c : IoTrace) (s : Monitor) → (d2c_of rb d c == 0) ≡ true → blkiomon_account rb d c s ≡ none
  unfolding blkiomon_account
  account_zero d c s e = rw e refl

  pub account_lem :
      (d c : IoTrace) (s : Monitor) (m : ℕ → Option BlkiomonStat)
      → Counts s m
      → (d2c_of rb d c == 0) ≡ false
      → (s' : Monitor) × (blkiomon_account rb d c s ≡ some s')
        × Counts s' (put m d.device (counted d c (or_new (m d.device) d.device)))
        × SameTraces s s'
  account_lem d c s m r e =
      let (r', same) = get_lem s m d.device r in
      let found = blkiomon_get_dstat rb d.device s in
      let new = or_new (m d.device) d.device in
      let put_at : put m d.device new d.device ≡ some new = ground arith in
      (
        _,
        account_on d c s e,
        subst (λ t. Devices t (put m d.device (counted d c new)))
            (sym (
              at_curr_self found.dstat_tree found.dstat_curr
                (write_dstat (found.dstat_tree found.dstat_curr) d.device (counted d c))))
            (Maps-ext device_of
              (write_dstat-Devices (found.dstat_tree found.dstat_curr) (put m d.device new) d.device
                (counted d c) r' (counted_device d c) put_at)
              (λ j. ground arith)),
        record {
          thash = same.thash;
          matched = same.matched;
          mismatched = same.mismatched;
          curr = same.curr;
        },
      )
