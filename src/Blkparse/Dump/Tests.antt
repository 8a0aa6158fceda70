-- ===== src/Blkparse/Dump/Tests.antt =====
-- One request through the dump of its events.
use iovisualization.Prelude.{◌+◌, max, ◌≡◌, refl, Bool, true, false, List, [], ◌∷◌, arith}
use iovisualization.Prelude.Plain.{plain}
use iovisualization.Trace.{IoTrace}
use iovisualization.Blkparse.Account.{no_io}
use iovisualization.Blkparse.Track.Tests.{start, used, event, by_pid, by_name}
use iovisualization.Blkparse.Process.Counters.Replay.{replay}
use iovisualization.Blkparse.Dump.{act_of, Dump, dump_all}
use iovisualization.Blkparse.Dump.Depth.{InDepth, greatest, last_depth, dump_all-depths}
use iovisualization.Blkparse.Dump.Counts.{
  opened, closed, total, paired, opens, closes, dump_all-counts,
}
use iovisualization.Blkparse.Dump.Report.{all_events, dump_all-replay}

abbrev fresh : Dump
fresh = record {
  text_output = true;
  bin_output_msgs = false;
  have_drv_data = false;
  tracker = start;
  pci = no_io;
  cur_depth = λ v. 0;
  max_depth = λ v. 0;
  events = 0;
  first_reported_time = 0;
  text = [];
  binary = [];
}

-- the life of a request, with a second one issued meanwhile
abbrev life : List IoTrace
life = event 4 100 ∷ event 12 130 ∷ event 7 150 ∷ event 7 160 ∷ event 8 950 ∷ event 8 980 ∷ []

fresh-InDepth : InDepth fresh
fresh-InDepth v = omega arith

dump_all-depths_example :
    let s' = dump_all plain by_pid by_name used life fresh in
    ((v : Bool) → s'.cur_depth v ≡ last_depth v life 0)
    × ((v : Bool) → s'.max_depth v ≡ max 0 (greatest v life 0))
    × InDepth s'
dump_all-depths_example = dump_all-depths plain by_pid by_name used life fresh refl fresh-InDepth

balanced : paired false life 0 ≡ true
unfolding paired opened closed opens closes act_of
balanced = refl

dump_all-counts_example :
    (dump_all plain by_pid by_name used life fresh).cur_depth false + total (closed false) life
    ≡ 0 + total (opened false) life
dump_all-counts_example =
    dump_all-counts plain by_pid by_name used false life fresh refl fresh-InDepth balanced

dump_all-replay_example :
    let s' = dump_all plain by_pid by_name used life fresh in
    (s'.pci ≡ replay no_io (all_events life)) × (s'.events ≡ 6)
dump_all-replay_example = dump_all-replay plain by_pid by_name used life fresh refl (omega arith)
