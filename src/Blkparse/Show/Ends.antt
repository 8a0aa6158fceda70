-- ===== src/Blkparse/Show/Ends.antt =====
-- The loop ends, and what it leaves in the tree.
use iovisualization.Prelude.{
  ℕ, suc, ◌%◌, ◌^◌, ◌≡◌, refl, Bool, none, some, List, ◌++◌, arith, length, sub64,
}
use iovisualization.Prelude.Tree.{inorder, RbTree}
use iovisualization.Blkparse.Sort.{Tr}
use iovisualization.Blkparse.Sort.Last.{rb_first}
use iovisualization.Blkparse.Track.{IoTrack}
use iovisualization.Blkparse.Entries.{Local}
use iovisualization.Blkparse.Show.{Shown, show_loop}
use iovisualization.Blkparse.Show.Steps.{SameTree, Held}
use iovisualization.Blkparse.Show.Outs.{Printed}

-- The loop left the tree and the outputs as they were before a round in which its first record was held.
pub record Stopped (rb : RbTree Tr) (garbage_map : ℕ → Bool) (is_done : ℕ → Bool) (force : Bool)
    (t : Tr) (s' : Shown) : Type 0 where
  pub round : ℕ
  pub before : Shown
  pub local : Local
  pub same : SameTree before s'
  pub held : Held rb garbage_map (is_done round) force t before local

-- The records `shown` are the first of the tree, they were printed, and the rest stay in it,
-- counted; the first of the rest, if there is one, is held.
pub record Ended (rb : RbTree Tr) (garbage_map : ℕ → Bool) (is_done : ℕ → Bool) (force : Bool)
    (s s' : Shown) : Type 0 where
  pub shown : List Tr
  pub split : inorder s.entries.rb_sort_root ≡ shown ++ inorder s'.entries.rb_sort_root
  pub printed : Printed s shown s'
  pub counted :
      s.entries.rb_sort_entries ≡ length (inorder s.entries.rb_sort_root) % 2 ^ 64
      → s'.entries.rb_sort_entries ≡ length (inorder s'.entries.rb_sort_root) % 2 ^ 64
  pub stopped :
      (t : Tr)
      → rb_first s'.entries.rb_sort_root ≡ some t
      → Stopped rb garbage_map is_done force t s'

one_less : (n m k : ℕ) → n ≡ suc m → k ≡ n % 2 ^ 64 → sub64 k 1 ≡ m % 2 ^ 64
one_less n m k e h = omega (arith, e, h)

module _ (rb : RbTree Tr) (rb' : RbTree IoTrack) (hash_pid : ℕ → ℕ) (hash_name : List ℕ → ℕ)
    (garbage : IoTrack) (garbage_map : ℕ → Bool) (is_done : ℕ → Bool) (force : Bool) where
  stopped :
      (fuel : ℕ) (s : Shown) (v : Local)
      → rb_first s.entries.rb_sort_root ≡ none
      → show_loop rb rb' hash_pid hash_name garbage garbage_map (suc fuel) is_done force (s, v)
        ≡ some s
  unfolding show_loop
  stopped fuel s v e = rw (show_loop, e) refl
