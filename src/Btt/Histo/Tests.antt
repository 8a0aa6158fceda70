-- ===== src/Btt/Histo/Tests.antt =====
-- Requests of 4096 bytes and of none.
use iovisualization.Prelude.{ℕ, ◌≡◌, refl, none, List, replicate}
use iovisualization.Btt.Histo.{update_histo, histo_idx, bump_size}

abbrev empty : List ℕ
empty = replicate 1025 0

no_bytes : update_histo empty 0 ≡ none
unfolding update_histo histo_idx bump_size
no_bytes = refl
