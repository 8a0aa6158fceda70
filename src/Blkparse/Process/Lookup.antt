-- ===== src/Blkparse/Process/Lookup.antt =====
-- The searches through the chains.
use iovisualization.Prelude.{
  ℕ, ◌+◌, ◌<◌, ◌≡◌, refl, inl, inr, some, List, [], ◌∷◌, arith, ◌==◌, Bool-cases,
}
use iovisualization.Blkparse.Process.{Ppm, Ppi, ppm_in_chain, pid_in_chain}

-- Each object of the chain was made before `n`.
abbrev pub AllBelow : ℕ → List ℕ → Type 0
AllBelow n [] = Unit {0}
AllBelow n (i ∷ chain) = (i < n) × AllBelow n chain

pub AllBelow-suc : (n : ℕ) (chain : List ℕ) → AllBelow n chain → AllBelow (n + 1) chain
AllBelow-suc n [] v = tt
AllBelow-suc n (i ∷ chain) v = (omega arith, AllBelow-suc n chain v.1)

-- A search by pid depends only on the pids of the objects made so far.
pub pid_in_chain-same :
    (heap heap' : ℕ → Ppi) (n : ℕ) (chain : List ℕ) (pid : ℕ)
    → ((i : ℕ) → i < n → (heap' i).ppm.pid ≡ (heap i).ppm.pid)
    → AllBelow n chain
    → pid_in_chain heap' chain pid ≡ pid_in_chain heap chain pid
unfolding pid_in_chain
pid_in_chain-same heap heap' n [] pid same v = refl
pid_in_chain-same heap heap' n (i ∷ chain) pid same v =
    rw (same i v.0, pid_in_chain-same heap heap' n chain pid same v.1)

pub pid_in_chain-some :
    (heap : ℕ → Ppi) (n : ℕ) (chain : List ℕ) (pid : ℕ) {i : ℕ}
    → AllBelow n chain
    → pid_in_chain heap chain pid ≡ some i
    → (i < n) × ((heap i).ppm.pid ≡ pid)
unfolding pid_in_chain
pid_in_chain-some heap n [] pid v e = cc
pid_in_chain-some heap n (j ∷ chain) pid {i} v e = elim (Bool-cases ((heap j).ppm.pid == pid)) [
  | inl h ↦ ground arith
  | inr h ↦ pid_in_chain-some heap n chain pid v.1 (rw h at e)
]

pub ppm_in_chain-some :
    (chain : List Ppm) (pid : ℕ) {p : Ppm} → ppm_in_chain chain pid ≡ some p → p.pid ≡ pid
unfolding ppm_in_chain
ppm_in_chain-some [] pid e = cc
ppm_in_chain-some (q ∷ chain) pid e = elim (Bool-cases (q.pid == pid)) [
  | inl h ↦ ground arith
  | inr h ↦ ppm_in_chain-some chain pid (rw h at e)
]
