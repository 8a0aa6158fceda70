-- ===== src/Blkparse/Track/Moves.antt =====
-- The tree of tracks as a map from sectors, and what each access does to it.
use iovisualization.Prelude.{
  ℕ, ◌≡◌, refl, sym, ◌∙◌, true, Option, none, some, arith, ◌==◌, if◌then◌else◌,
}
use iovisualization.Prelude.Tree.{Tree, inorder, RbTree}
use iovisualization.Prelude.Keyed.{link_key}
use iovisualization.Prelude.Keyed.Items.{
  IsKeyed, get, insert-IsKeyed, get-insert, remove-IsKeyed, get-remove, adjust-IsKeyed, get-adjust,
}
use iovisualization.Prelude.Keyed.Walks.{
  find_key-get, Linked, link_key-Linked, inorder-write_key, inorder-erase_key,
}
use iovisualization.Blkparse.Track.{
  IoTrack, sector_of, Tracker, find_iot, set_iot, track_rb_insert, drop_iot,
}

-- Requests are tracked, and `m` gives the track of each sector.
pub record Tracks (s : Tracker) (m : ℕ → Option IoTrack) : Type 0 where
  pub on : s.track_ios ≡ true
  pub keyed : IsKeyed sector_of (inorder s.rb_track)
  pub shows : (j : ℕ) → get sector_of (inorder s.rb_track) j ≡ m j

not_both : {a : IoTrack} → ¬ (some a ≡ none)
not_both e = cc

-- a map with one sector's track written or taken away
abbrev pub with_track : (ℕ → Option IoTrack) → ℕ → Option IoTrack → ℕ → Option IoTrack
with_track m k o j = if j == k then o else m j

pub Tracks-ext :
    {s : Tracker} {m m' : ℕ → Option IoTrack} → Tracks s m → ((j : ℕ) → m j ≡ m' j) → Tracks s m'
Tracks-ext r e = record { on = r.on; keyed = r.keyed; shows = λ j. r.shows j ∙ e j }

pub find_iot-Tracks :
    (s : Tracker) (m : ℕ → Option IoTrack) (k : ℕ) → Tracks s m → find_iot s k ≡ m k
unfolding find_iot
find_iot-Tracks s m k r = find_key-get sector_of s.rb_track k r.keyed ∙ r.shows k

pub set_iot-Tracks :
    (s : Tracker) (m : ℕ → Option IoTrack) (k : ℕ) (f : IoTrack → IoTrack) {a : IoTrack}
    → Tracks s m
    → ((b : IoTrack) → (f b).sector ≡ b.sector)
    → m k ≡ some a
    → Tracks (set_iot s k f) (with_track m k (some (f a)))
unfolding set_iot
set_iot-Tracks s m k f r same e =
    let written = inorder-write_key sector_of s.rb_track k f r.keyed in
    record {
      on = r.on;
      keyed = rw written (adjust-IsKeyed sector_of f same (inorder s.rb_track) k r.keyed);
      shows = λ j. rw written (
          get-adjust sector_of f same (inorder s.rb_track) k j
          ∙ rw (r.shows k ∙ e, r.shows j) refl);
    }

module _ (rb : RbTree IoTrack) where
  pub drop_iot-Tracks :
      (s : Tracker) (m : ℕ → Option IoTrack) (k : ℕ) {a : IoTrack}
      → Tracks s m
      → m k ≡ some a
      → Tracks (drop_iot rb s k) (with_track m k none)
  unfolding drop_iot
  drop_iot-Tracks s m k r e =
      let gone = inorder-erase_key sector_of rb s.rb_track k r.keyed (r.shows k ∙ e) in
      record {
        on = r.on;
        keyed = rw gone (remove-IsKeyed sector_of (inorder s.rb_track) k r.keyed);
        shows = λ j.
            rw gone (get-remove sector_of (inorder s.rb_track) k j r.keyed ∙ rw (r.shows j) refl);
      }

  insert_cases :
      (s : Tracker) (m : ℕ → Option IoTrack) (iot : IoTrack) (out : Option (Tree IoTrack))
      → link_key sector_of s.rb_track iot ≡ out
      → Tracks s m
      → Linked sector_of (inorder s.rb_track) iot out
      → (m iot.sector ≡ none
          → ((track_rb_insert rb s iot).0 ≡ 0)
            × Tracks (track_rb_insert rb s iot).1 (with_track m iot.sector (some iot)))
        × ((a : IoTrack) → m iot.sector ≡ some a → track_rb_insert rb s iot ≡ (1, s))
  unfolding track_rb_insert
  insert_cases s m iot none e r (b, g) = (
    λ free. absurd (not_both (sym g ∙ r.shows iot.sector ∙ free)),
    λ a taken. rw (track_rb_insert, e) refl,
  )
  insert_cases s m iot (some t) e r (linked, g) = (
    λ free.
        rw (track_rb_insert, e)
          (
            refl,
            record {
              on = r.on;
              keyed =
                  rw (rb.inorder-insert_color t ∙ linked)
                    (insert-IsKeyed sector_of (inorder s.rb_track) iot r.keyed g);
              shows = λ j.
                  rw (rb.inorder-insert_color t ∙ linked)
                    (get-insert sector_of (inorder s.rb_track) iot j g ∙ ground (arith, r.shows j));
            },
          ),
    λ a taken. absurd (not_both (sym taken ∙ sym (r.shows iot.sector) ∙ g)),
  )

  -- An insertion where the sector is free, and where it is not.
  pub track_rb_insert-Tracks :
      (s : Tracker) (m : ℕ → Option IoTrack) (iot : IoTrack)
      → Tracks s m
      → (m iot.sector ≡ none
          → ((track_rb_insert rb s iot).0 ≡ 0)
            × Tracks (track_rb_insert rb s iot).1 (with_track m iot.sector (some iot)))
        × ((a : IoTrack) → m iot.sector ≡ some a → track_rb_insert rb s iot ≡ (1, s))
  track_rb_insert-Tracks s m iot r =
      insert_cases s m iot (link_key sector_of s.rb_track iot) refl r
        (link_key-Linked sector_of s.rb_track iot r.keyed)
