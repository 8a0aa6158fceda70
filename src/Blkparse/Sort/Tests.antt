-- ===== src/Blkparse/Sort/Tests.antt =====
-- Records put in order and kept.
use iovisualization.Prelude.{ℕ, zero, suc, ◌≡◌, refl, none, [], ◌∷◌, arith}
use iovisualization.Prelude.Tree.{Tree, leaf, node, inorder}
use iovisualization.Prelude.Plain.{plain}
use iovisualization.Blkparse.Sort.{Tr, goes_left, trace_rb_insert, trace_rb_find}
use iovisualization.Blkparse.Sort.Order.{IsSorted}
use iovisualization.Blkparse.Sort.Insert.{Placed, trace_rb_insert-Placed}
use iovisualization.Blkparse.Sort.Last.{PerDev, no_cpu, trace_rb_insert_last}
use iovisualization.Blkparse.Sort.Bound.{Held, trace_rb_insert_last-Held}

abbrev pub at_time : ℕ → ℕ → Tr
at_time time sequence = record {
  bit = record {
    magic = 0;
    sequence = sequence;
    time = time;
    sector = 0;
    bytes = 0;
    action = 0;
    pid = 0;
    device = 1;
    cpu = 1;
    error = 0;
    pdu_len = 0;
  };
  read_sequence = 1;
}

abbrev three : Tree Tr
three = node (node leaf (at_time 10 1) leaf) (at_time 20 2) (node leaf (at_time 20 4) leaf)

three-IsSorted : IsSorted (inorder three)
unfolding goes_left
three-IsSorted = ((refl, (refl, tt)), ((refl, tt), (tt, tt)))

trace_rb_insert-Placed_example :
    Placed (at_time 20 3) (inorder three) (inorder (trace_rb_insert plain (at_time 20 3) three))
    × IsSorted (inorder (trace_rb_insert plain (at_time 20 3) three))
trace_rb_insert-Placed_example = trace_rb_insert-Placed plain three (at_time 20 3) three-IsSorted

-- a tree in the order of time in which a search by sequence number goes the wrong way
searches : trace_rb_find 1 9 (node (node leaf (at_time 10 9) leaf) (at_time 20 2) leaf) ≡ none
unfolding trace_rb_find
searches = refl

-- one file read with batches of one record, and a processor that has its one record
abbrev device : PerDev
device = record {
  dev = 1;
  nfiles = 1;
  cpus =
      record no_cpu { fd = 3 }
      ∷ record no_cpu {
        cpu = 1;
        fd = 4;
        rb_last = node leaf (at_time 10 1) leaf;
        rb_last_entries = 1;
      }
      ∷ [];
}

device-Held : Held 1 device
device-Held zero = record { counted = refl; within = omega arith; own = tt; sorted = tt }
device-Held (suc zero) = record {
  counted = refl;
  within = omega arith;
  own = (refl, tt);
  sorted = (tt, tt);
}
device-Held (suc (suc i)) = record { counted = refl; within = omega arith; own = tt; sorted = tt }

trace_rb_insert_last-Held_example : Held 1 (trace_rb_insert_last plain 1 device (at_time 20 3))
trace_rb_insert_last-Held_example =
    trace_rb_insert_last-Held plain 1 device (at_time 20 3) device-Held
