-- ===== src/Btt/Histo.antt =====
-- server-proto/btt/inlines.h, lines 340 to 354: how many requests there are of each size, in sectors.
pub mod Index
pub mod Tests
use iovisualization.Prelude.{
  ℕ, zero, suc, ◌-◌, ◌/◌, ◌%◌, ◌^◌, Option, none, some, List, [], ◌∷◌, ltb, if◌then◌else◌, add64,
  sub64,
}
use iovisualization.Prelude.Int.{ℤ, pos, negsuc, ltb_ℤ}

-- a number of 64 bits taken for an `int`
abbrev pub to_int : ℕ → ℤ
to_int n = if ltb (n % 2 ^ 32) (2 ^ 31) then pos (n % 2 ^ 32) else negsuc (2 ^ 32 - 1 - n % 2 ^ 32)

-- `histo_idx`, with `N_HIST_BKTS` 1025
unfoldable pub histo_idx : ℕ → ℤ
histo_idx nbytes =
    let idx = to_int (sub64 (nbytes / 512) 1) in if ltb_ℤ idx (pos 1024) then idx else pos 1024

-- `histo[i]++`, and `none` beyond the end
unfoldable pub bump_size : List ℕ → ℕ → Option (List ℕ)
bump_size [] i = none
bump_size (h ∷ histo) zero = some (add64 h 1 ∷ histo)
bump_size (h ∷ histo) (suc i) =
    let rest = bump_size histo i in elim rest [ none ↦ none | some histo' ↦ some (h ∷ histo') ]

-- `update_q_histo` and `update_d_histo`; `none` is an access outside the array, whose effect C
-- leaves open
unfoldable pub update_histo : List ℕ → ℕ → Option (List ℕ)
unfolding histo_idx bump_size
update_histo histo nbytes = elim (histo_idx nbytes) [ pos i ↦ bump_size histo i | negsuc n ↦ none ]
