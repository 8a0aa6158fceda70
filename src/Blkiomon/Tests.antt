-- ===== src/Blkiomon/Tests.antt =====
-- Two events of one read, and an interval.
use iovisualization.Prelude.{
  ℕ, ◌+◌, ◌*◌, ◌^◌, ◌<◌, ◌≡◌, refl, true, false, Option, none, some, [], ◌∷◌, arith, ◌==◌,
  if◌then◌else◌,
}
use iovisualization.Prelude.Plain.{plain}
use iovisualization.Prelude.Tree.{leaf, node}
use iovisualization.Prelude.Keyed.Maps.{put}
use iovisualization.Prelude.Keyed.Items.{get}
use iovisualization.Trace.{IoTrace}
use iovisualization.Blkiomon.Stat.{BlkiomonStat}
use iovisualization.Blkiomon.{Monitor, action_of, fetch_from, blkiomon_do_trace, blkiomon_interval}
use iovisualization.Blkiomon.Trees.{leaf-Devices}
use iovisualization.Blkiomon.Counts.{Counts, or_new, counted}
use iovisualization.Blkiomon.Pairs.{IsPair, request_pair, pair_divides_by_zero}
use iovisualization.Blkiomon.Intervals.{Handed, blkiomon_interval_lem}

abbrev idle : Monitor
idle = record {
  thash = λ j. [];
  vacant_traces = 0;
  dstat_tree = λ b. leaf;
  dstat_list = λ b. [];
  dstat_curr = true;
  matched = 0;
  mismatched = 0;
  driverdata = 0;
}

abbrev event : ℕ → ℕ → IoTrace
event class time = record {
  magic = 0;
  sequence = 0;
  time = time;
  sector = 130;
  bytes = 4096;
  action = (2 ^ class + 2 ^ 8 + 1) * 2 ^ 16;
  pid = 1;
  device = 8;
  cpu = 0;
  error = 0;
  pdu_len = 0;
}

abbrev issued : IoTrace
issued = event 6 1000

idle-Counts : Counts idle (λ j. none)
idle-Counts = leaf-Devices

issued_before : (time : ℕ) → 1000 < time → IsPair issued (event 7 time)
unfolding action_of
issued_before time lt = record {
  device = refl;
  sector = refl;
  action = refl;
  issue = refl;
  complete = refl;
  later = lt;
}

request_pair_example :
    let d = issued in
    let c = event 7 9000 in
    (s₁ : Monitor) × (s₂ : Monitor) × (blkiomon_do_trace plain d idle ≡ some s₁)
    × (blkiomon_do_trace plain c s₁ ≡ some s₂)
    × Counts s₂ (put (λ j. none) 8 (counted plain d c (or_new none 8)))
    × ((j : ℕ) → s₂.thash j ≡ [])
    × (s₂.matched ≡ 1)
    × (s₂.mismatched ≡ 0)
unfolding fetch_from
request_pair_example =
    request_pair plain idle (λ j. none) issued (event 7 9000) idle-Counts refl
      (issued_before 9000 (omega arith)) (omega arith)

pair_divides_by_zero_example :
    (s₁ : Monitor) × (blkiomon_do_trace plain issued idle ≡ some s₁)
    × (blkiomon_do_trace plain (event 7 1900) s₁ ≡ none)
unfolding fetch_from
pair_divides_by_zero_example =
    pair_divides_by_zero plain idle issued (event 7 1900) refl (issued_before 1900 (omega arith))
      (omega arith) (omega arith)

-- one device in the current tree and list
abbrev counting : Monitor
counting = record idle {
  dstat_tree = λ b. elim b [ true ↦ node leaf (or_new none 8) leaf | false ↦ leaf ];
  dstat_list = λ b. elim b [ true ↦ 8 ∷ [] | false ↦ [] ];
}

abbrev one_of : ℕ → Option BlkiomonStat
one_of j = if j == 8 then some (or_new none 8) else none

counting-Counts : Counts counting one_of
unfolding get
counting-Counts = record { keyed = (omega arith, tt, tt); shows = λ j. ground arith }

blkiomon_interval_lem_example :
    Handed 60 one_of counting (blkiomon_interval 60 counting).0 (blkiomon_interval 60 counting).1
blkiomon_interval_lem_example =
    blkiomon_interval_lem 60 counting one_of counting-Counts
      (record { tree = refl; list = refl; filed = λ e. cc })
