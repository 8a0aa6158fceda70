-- ===== src/Blkparse/Entries/Tests.antt =====
-- Two records read into an empty tree.
use iovisualization.Prelude.{List, [], ◌∷◌}
use iovisualization.Prelude.Tree.{leaf}
use iovisualization.Blkparse.Sort.{Tr}
use iovisualization.Blkparse.Sort.Tests.{at_time}
use iovisualization.Blkparse.Entries.{Entries}

abbrev pub start : Entries
start = record {
  devices = [];
  rb_sort_root = leaf;
  rb_sort_entries = 0;
  genesis_time = 0;
  stopwatch_start = 0;
  stopwatch_end = 1000;
}

abbrev pub two : List Tr
two = at_time 900 2 ∷ at_time 700 1 ∷ []
