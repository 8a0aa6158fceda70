-- ===== src/Blkiomon/Intervals.antt =====
-- The end of an interval.
use mathlib.Core.Path.{subst}
use iovisualization.Prelude.{
  ℕ, ◌≡◌, refl, sym, ap, ◌∙◌, ◌⊎◌, inl, inr, Bool, true, false, not, Option, none, some, List, [],
  ◌∷◌,
}
use iovisualization.Prelude.Tree.{Tree, leaf}
use iovisualization.Blkiomon.Stat.{BlkiomonStat}
use iovisualization.Blkiomon.{Monitor, at_curr, list_dstats, blkiomon_output, blkiomon_interval}
use iovisualization.Blkiomon.Trees.{Devices, leaf-Devices, find_dstat-Devices}
use iovisualization.Blkiomon.Counts.{Counts}
use iovisualization.Blkiomon.Sent.{SentAll, blkiomon_output-SentAll}

-- What holds between two intervals: the tree and the list that are not in use are empty, and a device of
-- the tree is one of the list.
pub record IsIdle (s : Monitor) : Type 0 where
  pub tree : s.dstat_tree (not s.dstat_curr) ≡ leaf
  pub list : s.dstat_list (not s.dstat_curr) ≡ []
  pub filed : s.dstat_list s.dstat_curr ≡ [] → s.dstat_tree s.dstat_curr ≡ leaf

-- the statistics of the devices of a list, in a map
abbrev pub stats_of : (ℕ → Option BlkiomonStat) → List ℕ → List BlkiomonStat
stats_of m [] = []
stats_of m (device ∷ devices) =
    let rest = stats_of m devices in
    elim (m device) as (λ o. List BlkiomonStat) [ none ↦ rest | some p ↦ p ∷ rest ]

-- an entry, if there is one, before the rest
abbrev or_rest : Option BlkiomonStat → List BlkiomonStat → List BlkiomonStat
or_rest o rest = elim o as (λ _. List BlkiomonStat) [ none ↦ rest | some p ↦ p ∷ rest ]

listed :
    (tree : Tree BlkiomonStat) (m : ℕ → Option BlkiomonStat) (devices : List ℕ)
    → Devices tree m
    → list_dstats tree devices ≡ stats_of m devices
unfolding list_dstats
listed tree m [] r = refl
listed tree m (device ∷ devices) r =
    ap (λ o. or_rest o (list_dstats tree devices)) (find_dstat-Devices tree m device r)
    ∙ ap (or_rest (m device)) (listed tree m devices r)

List-cases : (xs : List ℕ) → (xs ≡ []) ⊎ ((x : ℕ) × (xs' : List ℕ) × (xs ≡ x ∷ xs'))
List-cases [] = inl refl
List-cases (x ∷ xs) = inr (x, xs, refl)

back : {A : Type 0} (f : Bool → A) (b : Bool) → f (not (not b)) ≡ f b
back f true = refl
back f false = refl

emptied :
    {A : Type 0} (f : Bool → A) (b : Bool) (v : A)
    → f (not b) ≡ v
    → (at_curr f b v (not b) ≡ v) × (at_curr f b v (not (not b)) ≡ v)
unfolding at_curr
emptied f true v e = (e, refl)
emptied f false v e = (e, refl)

idle_lem :
    (tv_sec : ℕ) (s : Monitor)
    → s.dstat_list s.dstat_curr ≡ []
    → blkiomon_interval tv_sec s ≡ ([], record s { dstat_curr = not s.dstat_curr })
unfolding blkiomon_interval
idle_lem tv_sec s e = rw (blkiomon_interval, e) refl

-- what is handed out of a list that is not empty, and the state after
abbrev given : ℕ → Monitor → List BlkiomonStat × Monitor
given tv_sec s = (
  blkiomon_output tv_sec (list_dstats (s.dstat_tree s.dstat_curr) (s.dstat_list s.dstat_curr)),
  record s {
    dstat_curr = not s.dstat_curr;
    dstat_list = at_curr s.dstat_list s.dstat_curr [];
    dstat_tree = at_curr s.dstat_tree s.dstat_curr leaf;
  },
)

busy_lem :
    (tv_sec : ℕ) (s : Monitor) (device : ℕ) (devices : List ℕ)
    → s.dstat_list s.dstat_curr ≡ device ∷ devices
    → blkiomon_interval tv_sec s ≡ given tv_sec s
unfolding blkiomon_interval
busy_lem tv_sec s device devices e =
    subst
      (λ (l : List ℕ).
        elim l as (λ _. List BlkiomonStat × Monitor) [
          | [] ↦ ([], record s { dstat_curr = not s.dstat_curr })
          | _ ∷ _ ↦ given tv_sec s
        ]
        ≡ given tv_sec s)
      (sym e) refl

-- What an interval promises: the statistics of the devices of the list, in its order, are sent with the time, and
-- the next interval begins with no device, and again between two intervals.
pub record Handed (tv_sec : ℕ) (m : ℕ → Option BlkiomonStat) (s : Monitor)
    (stats : List BlkiomonStat) (s' : Monitor) : Type 0 where
  pub out : SentAll tv_sec (stats_of m (s.dstat_list s.dstat_curr)) stats
  pub counts : Counts s' (λ j. none)
  pub list : s'.dstat_list s'.dstat_curr ≡ []
  pub idle : IsIdle s'

-- Between two intervals, the end of one sends, for each device of the list that has counts and in the order of the list,
-- the time and all the device's counts, every number in big-endian order, and nothing else; the next interval
-- begins with no device.
pub blkiomon_interval_lem :
    (tv_sec : ℕ) (s : Monitor) (m : ℕ → Option BlkiomonStat)
    → Counts s m
    → IsIdle s
    → Handed tv_sec m s (blkiomon_interval tv_sec s).0 (blkiomon_interval tv_sec s).1
blkiomon_interval_lem tv_sec s m r idle = elim (List-cases (s.dstat_list s.dstat_curr)) [
  | inl e ↦
      let next : Monitor = record s { dstat_curr = not s.dstat_curr } in
      subst (λ out. Handed tv_sec m s out.0 out.1) (sym (idle_lem tv_sec s e))
        (record {
          out = subst (λ l. SentAll tv_sec (stats_of m l) []) (sym e) tt;
          counts = subst (λ t. Devices t (λ j. none)) (sym idle.tree) leaf-Devices;
          list = idle.list;
          idle = record {
            tree = back s.dstat_tree s.dstat_curr ∙ idle.filed e;
            list = back s.dstat_list s.dstat_curr ∙ e;
            filed = λ _. idle.tree;
          };
        })
  | inr (device, devices, e) ↦
      let (now, later) = emptied s.dstat_tree s.dstat_curr leaf idle.tree in
      let (now', later') = emptied s.dstat_list s.dstat_curr [] idle.list in
      subst (λ out. Handed tv_sec m s out.0 out.1) (sym (busy_lem tv_sec s device devices e))
        (record {
          out =
              subst
                (λ ps. SentAll tv_sec ps (
                  blkiomon_output tv_sec
                    (list_dstats (s.dstat_tree s.dstat_curr) (s.dstat_list s.dstat_curr))))
                (listed (s.dstat_tree s.dstat_curr) m (s.dstat_list s.dstat_curr) r)
                (blkiomon_output-SentAll tv_sec _);
          counts = subst (λ t. Devices t (λ j. none)) (sym now) leaf-Devices;
          list = now';
          idle = record { tree = later; list = later'; filed = λ _. now };
        })
]
