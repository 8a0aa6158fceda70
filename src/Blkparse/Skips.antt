-- ===== src/Blkparse/Skips.antt =====
-- server-proto/blkparse.c, lines 408 to 502: the sequence numbers that a processor's trace lacks.
-- `skip_info` nodes form a doubly linked list that is searched from its tail; here it is a list,
-- the tail first, so a node put behind the tail is put in front.
pub mod Cover
pub mod Check
pub mod Total
pub mod Tests
use iovisualization.Prelude.{
  ℕ, suc, ◌+◌, Bool, true, false, ◌&&◌, Option, none, some, List, [], ◌∷◌, ◌++◌, leb, ◌==◌,
  if◌then◌else◌, add64, sub64,
}

-- `struct skip_info`: the lacking sequence numbers from `start` to `end`
pub record Skip : Type 0 where
  pub start : ℕ
  pub end : ℕ

-- `IN_SKIP`
abbrev pub in_skip : Skip → ℕ → Bool
in_skip sip seq = leb sip.start seq && leb seq sip.end

-- The loop of `insert_skip`: the first node that the range touches is widened. `none` means that
-- no node was.
pub widen : List Skip → ℕ → ℕ → Option (List Skip)
widen [] start end = none
widen (sip ∷ skips) start end =
    let rest = widen skips start end in
    if end == sub64 sip.start 1
    then some (record sip { start = start } ∷ skips)
    else if start == add64 sip.end 1
    then some (record sip { end = end } ∷ skips)
    else elim rest [ none ↦ none | some skips' ↦ some (sip ∷ skips') ]

pub insert_skip : List Skip → ℕ → ℕ → List Skip
unfolding widen
insert_skip skips start end = elim (widen skips start end) [
  | none ↦ record { start = start; end = end } ∷ skips
  | some skips' ↦ skips'
]

-- The search of `check_current_skips`: the nodes before the one that holds `seq`, that node, and
-- the nodes after it.
pub find_skip : List Skip → ℕ → Option (List Skip × Skip × List Skip)
find_skip [] seq = none
find_skip (sip ∷ skips) seq =
    let rest = find_skip skips seq in
    if in_skip sip seq
    then some ([], sip, skips)
    else elim rest [ none ↦ none | some (before, found, after) ↦ some (sip ∷ before, found, after) ]

-- What `check_current_skips` does with the node that holds `seq`; `before ++ after` is
-- `remove_sip`. In the last case the node's `end` is overwritten before it is read again as the
-- end of the second half.
pub take_out : List Skip → Skip → List Skip → ℕ → List Skip
unfolding insert_skip
take_out before sip after seq =
    if sip.start == seq
    then (if sip.end == seq
        then before ++ after
        else before ++ (record sip { start = add64 sip.start 1 } ∷ after))
    else if sip.end == seq
    then before ++ (record sip { end = sub64 sip.end 1 } ∷ after)
    else (let cut = record sip { end = sub64 seq 1 } in
        insert_skip (before ++ (cut ∷ after)) (add64 seq 1) cut.end)

pub check_current_skips : List Skip → ℕ → Bool × List Skip
unfolding find_skip take_out
check_current_skips skips seq = elim (find_skip skips seq) [
  | none ↦ (false, skips)
  | some (before, sip, after) ↦ (true, take_out before sip after seq)
]

-- The inner loop of `collect_pdi_skips`, from the head on: the numbers of nodes and of sequence
-- numbers.
pub collect_skips : List Skip → ℕ × ℕ
collect_skips [] = (0, 0)
collect_skips (sip ∷ skips) =
    let (n, total) = collect_skips skips in
    (add64 n 1, add64 total (add64 (sub64 sip.end sip.start) 1))
