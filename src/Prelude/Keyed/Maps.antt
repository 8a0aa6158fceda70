-- ===== src/Prelude/Keyed/Maps.antt =====
-- A tree whose nodes are in order of a number, as a map from numbers to nodes.
use Prim.Native.Nat.{ℕ}
use mathlib.Core.Path.{◌≡◌, refl, sym, ◌∙◌}
use mathlib.Core.Option.{Option, none, some}
use mathlib.Core.List.{[]}
use native.Mathlib.Omega.{arith}
use iovisualization.Prelude.Tests.{◌==◌, if◌then◌else◌}
use iovisualization.Prelude.Tree.{Tree, leaf, inorder, RbTree}
use iovisualization.Prelude.Keyed.{find_key, link_key, write_key}
use iovisualization.Prelude.Keyed.Items.{
  IsKeyed, get, insert-IsKeyed, get-insert, adjust-IsKeyed, get-adjust,
}
use iovisualization.Prelude.Keyed.Walks.{find_key-get, Linked, link_key-Linked, inorder-write_key}

module _ {A : Type 0} where
  -- a map with one number written
  abbrev pub put : (ℕ → Option A) → ℕ → A → ℕ → Option A
  put m k a j = if j == k then some a else m j

  apart : {a : A} → ¬ (some a ≡ none)
  apart e = cc

module _ {A : Type 0} (key : A → ℕ) where
  -- the nodes are in order of the number, and `m` gives the node of each
  pub record Maps (t : Tree A) (m : ℕ → Option A) : Type 0 where
    pub keyed : IsKeyed key (inorder t)
    pub shows : (j : ℕ) → get key (inorder t) j ≡ m j

  -- Only the order of the nodes counts.
  pub Maps-inorder :
      {t t' : Tree A} {m : ℕ → Option A} → inorder t ≡ inorder t' → Maps t m → Maps t' m
  Maps-inorder e r = record { keyed = rw (sym e) r.keyed; shows = λ j. rw (sym e) (r.shows j) }

  pub Maps-ext : {t : Tree A} {m m' : ℕ → Option A} → Maps t m → ((j : ℕ) → m j ≡ m' j) → Maps t m'
  Maps-ext r e = record { keyed = r.keyed; shows = λ j. r.shows j ∙ e j }

  leaf_keyed : (j : ℕ) → get key [] j ≡ none
  unfolding get
  leaf_keyed j = refl

  pub leaf-Maps : Maps leaf (λ j. none)
  leaf-Maps = record { keyed = tt; shows = leaf_keyed }

  pub find_key-Maps : (t : Tree A) (m : ℕ → Option A) (k : ℕ) → Maps t m → find_key key t k ≡ m k
  find_key-Maps t m k r = find_key-get key t k r.keyed ∙ r.shows k

  pub write_key-Maps :
      (t : Tree A) (m : ℕ → Option A) (k : ℕ) (f : A → A) {a : A}
      → Maps t m
      → ((b : A) → key (f b) ≡ key b)
      → m k ≡ some a
      → Maps (write_key key t k f) (put m k (f a))
  write_key-Maps t m k f r same e =
      let written = inorder-write_key key t k f r.keyed in
      record {
        keyed = rw written (adjust-IsKeyed key f same (inorder t) k r.keyed);
        shows = λ j.
            rw written (get-adjust key f same (inorder t) k j ∙ rw (r.shows k ∙ e, r.shows j) refl);
      }

  found_link :
      (rb : RbTree A) (t : Tree A) (m : ℕ → Option A) (a : A) (out : Option (Tree A))
      → Maps t m
      → m (key a) ≡ none
      → link_key key t a ≡ out
      → Linked key (inorder t) a out
      → (t' : Tree A) × (link_key key t a ≡ some t') × Maps (rb.insert_color t') (put m (key a) a)
  found_link rb t m a none r free e (b, g) = absurd (apart (sym g ∙ r.shows (key a) ∙ free))
  found_link rb t m a (some t') r free e (linked, g) = (
    t',
    e,
    record {
      keyed = rw (rb.inorder-insert_color t' ∙ linked) (insert-IsKeyed key (inorder t) a r.keyed g);
      shows = λ j.
          rw (rb.inorder-insert_color t' ∙ linked)
            (get-insert key (inorder t) a j g ∙ ground (arith, r.shows j));
    },
  )

  -- A node whose number is free is linked in.
  pub link_key-Maps :
      (rb : RbTree A) (t : Tree A) (m : ℕ → Option A) (a : A)
      → Maps t m
      → m (key a) ≡ none
      → (t' : Tree A) × (link_key key t a ≡ some t') × Maps (rb.insert_color t') (put m (key a) a)
  link_key-Maps rb t m a r free =
      found_link rb t m a (link_key key t a) r free refl (link_key-Linked key t a r.keyed)
