-- ===== src/Iowatcher/Cycle.antt =====
-- The way of one I/O: queued, issued, completed.
use iovisualization.Prelude.{
  ℕ, ◌≤◌, ◌≡◌, refl, ap, ◌∙◌, inl, inr, Bool, true, false, ◌||◌, not, none, some, arith, ltb, ◌==◌,
  if◌then◌else◌, Bool-cases,
}
use iovisualization.Trace.{IoTrace}
use iovisualization.Blkparse.Track.{has_class}
use iovisualization.Iowatcher.Table.{PendingIo, queued_io, dispatch}
use iovisualization.Iowatcher.{
  Graphs, seconds, action_num, ta_queue, ta_issue, ta_complete, tput_event, add_tput, add_iop,
  count_issue, count_completion,
}
use iovisualization.Iowatcher.Pends.{IoMap, put_io, without_io, queue_io, or_queued}
use iovisualization.Iowatcher.Runs.{pending_io, completed_io, event_on}

-- an event of action `number`, inside the graphs
pub record IsEvent (max_seconds n : ℕ) (io : IoTrace) : Type 0 where
  pub notify : has_class 10 io ≡ false
  pub number : action_num io ≡ n
  pub inside : seconds io ≤ max_seconds

pub if_true : {A : Type 0} (b : Bool) (x y : A) → b ≡ true → (if b then x else y) ≡ x
if_true b x y e = rw e refl

if_false : {A : Type 0} (b : Bool) (x y : A) → b ≡ false → (if b then x else y) ≡ y
if_false b x y e = rw e refl

tput_complete : (s : Graphs) → s.found_completion ≡ true → tput_event s ≡ ta_complete
unfolding tput_event
tput_complete s e = if_true s.found_completion _ _ e

another :
    (io : IoTrace) (s : Graphs)
    → s.found_completion ≡ true
    → (action_num io == ta_complete) ≡ false
    → not (action_num io == tput_event s) ≡ true
another io s e h =
    ap (λ n. not (action_num io == n)) (tput_complete s e) ∙ ap (λ (b : Bool). not b) h

-- With completions in the trace, only they are counted as I/O.
add_tput_off :
    (io : IoTrace) (s : Graphs) → not (action_num io == tput_event s) ≡ true → add_tput io s ≡ s
unfolding add_tput
add_tput_off io s h = elim (Bool-cases (has_class 10 io)) [
  | inl e ↦ if_true (has_class 10 io) _ _ e
  | inr e ↦ if_false (has_class 10 io) _ _ e ∙ if_true (not (action_num io == tput_event s)) _ _ h
]

add_iop_off :
    (io : IoTrace) (s : Graphs) → not (action_num io == tput_event s) ≡ true → add_iop io s ≡ s
unfolding add_iop
add_iop_off io s h = elim (Bool-cases (has_class 10 io)) [
  | inl e ↦ if_true (has_class 10 io) _ _ e
  | inr e ↦ if_false (has_class 10 io) _ _ e ∙ if_true (not (action_num io == tput_event s)) _ _ h
]

not_counted :
    (io : IoTrace) (s : Graphs)
    → s.found_completion ≡ true
    → (action_num io == ta_complete) ≡ false
    → add_iop io (add_tput io s) ≡ s
not_counted io s e h =
    ap (add_iop io) (add_tput_off io s (another io s e h)) ∙ add_iop_off io s (another io s e h)

-- What an I/O is counted for leaves the rest as it is.
pub record Rest (s s' : Graphs) : Type 0 where
  pub found_completion : s'.found_completion ≡ s.found_completion
  pub ios_in_flight : s'.ios_in_flight ≡ s.ios_in_flight
  pub latency : s'.latency_gld ≡ s.latency_gld
  pub depth : s'.queue_depth_gld ≡ s.queue_depth_gld

kept : (s : Graphs) → Rest s s
kept s = record { found_completion = refl; ios_in_flight = refl; latency = refl; depth = refl }

Rest-if : (b : Bool) (s s' s'' : Graphs) → Rest s s' → Rest s s'' → Rest s (if b then s' else s'')
Rest-if true s s' s'' h k = h
Rest-if false s s' s'' h k = k

tput-Rest : (io : IoTrace) (s : Graphs) → Rest s (add_tput io s)
unfolding add_tput
tput-Rest io s = Rest-if (has_class 10 io) s _ _ (kept s) (
    Rest-if (not (action_num io == tput_event s)) s _ _ (kept s) (
      Rest-if (has_class 0 io) s _ _
        (record { found_completion = refl; ios_in_flight = refl; latency = refl; depth = refl })
        (record { found_completion = refl; ios_in_flight = refl; latency = refl; depth = refl })))

iop-Rest : (io : IoTrace) (s : Graphs) → Rest s (add_iop io s)
unfolding add_iop
iop-Rest io s = Rest-if (has_class 10 io) s _ _ (kept s) (
    Rest-if (not (action_num io == tput_event s)) s _ _ (kept s)
      (record { found_completion = refl; ios_in_flight = refl; latency = refl; depth = refl }))

pub counted-Rest : (io : IoTrace) (s : Graphs) → Rest s (add_iop io (add_tput io s))
counted-Rest io s =
    let a = tput-Rest io s in
    let b = iop-Rest io (add_tput io s) in
    record {
      found_completion = b.found_completion ∙ a.found_completion;
      ios_in_flight = b.ios_in_flight ∙ a.ios_in_flight;
      latency = b.latency ∙ a.latency;
      depth = b.depth ∙ a.depth;
    }

module _ (average : ℕ → ℕ → ℕ) where
  event_lem :
      (max_seconds n : ℕ) (io : IoTrace) (m : IoMap) (s : Graphs)
      → IsEvent max_seconds n io
      → event_on average max_seconds io (m, s)
        ≡ completed_io average io (pending_io average io (m, add_iop io (add_tput io s)))
  event_lem max_seconds n io m s h =
      if_false (ltb max_seconds (seconds io)) _ _ (ground (arith, h.inside))

  not_completed :
      (io : IoTrace) (m : IoMap) (s : Graphs)
      → (action_num io == ta_complete) ≡ false
      → completed_io average io (m, s) ≡ (m, s)
  not_completed io m s h = elim (Bool-cases (has_class 10 io)) [
    | inl e ↦ if_true (has_class 10 io) _ _ e
    | inr e ↦
        if_false (has_class 10 io) _ _ e
        ∙ if_true (not (action_num io == ta_complete)) _ _ (ap (λ (b : Bool). not b) h)
  ]

  pub queue_step :
      (max_seconds : ℕ) (q : IoTrace) (m : IoMap) (s : Graphs)
      → IsEvent max_seconds ta_queue q
      → s.found_completion ≡ true
      → m q.sector q.device ≡ none
      → event_on average max_seconds q (m, s) ≡ (put_io m q.sector q.device (queued_io q), s)
  queue_step max_seconds q m s h fc free =
      let other : (action_num q == ta_complete) ≡ false = ground (arith, h.number) in
      event_lem max_seconds ta_queue q m s h
      ∙ ap (λ t. completed_io average q (pending_io average q (m, t))) (not_counted q s fc other)
      ∙ ap (completed_io average q) (
          if_false (has_class 10 q) _ _ h.notify
          ∙ if_true (action_num q == ta_queue) _ _ (ground (arith, h.number))
          ∙ if_true (s.found_issue || s.found_completion) _ _ (ground (arith, fc))
          ∙ ap (λ o. (queue_io q o m, s)) free)
      ∙ not_completed q (put_io m q.sector q.device (queued_io q)) s other

  pub issue_step :
      (max_seconds : ℕ) (d : IoTrace) (m : IoMap) (s : Graphs) (pio : PendingIo)
      → IsEvent max_seconds ta_issue d
      → s.found_completion ≡ true
      → m d.sector d.device ≡ some pio
      → event_on average max_seconds d (m, s)
        ≡ (put_io m d.sector d.device (dispatch d pio), count_issue average d s)
  issue_step max_seconds d m s pio h fc known =
      let other : (action_num d == ta_complete) ≡ false = ground (arith, h.number) in
      event_lem max_seconds ta_issue d m s h
      ∙ ap (λ t. completed_io average d (pending_io average d (m, t))) (not_counted d s fc other)
      ∙ ap (completed_io average d) (
          if_false (has_class 10 d) _ _ h.notify
          ∙ if_false (action_num d == ta_queue) _ _ (ground (arith, h.number))
          ∙ if_false (action_num d == 6) _ _ (ground (arith, h.number))
          ∙ if_false (not (action_num d == ta_issue)) _ _ (ground (arith, h.number))
          ∙ if_true s.found_completion _ _ fc
          ∙ ap
              (λ o.
                (put_io m d.sector d.device (dispatch d (or_queued d o)), count_issue average d s))
              known)
      ∙ not_completed d (put_io m d.sector d.device (dispatch d pio)) (count_issue average d s)
          other

  pub complete_step :
      (max_seconds : ℕ) (c : IoTrace) (m : IoMap) (s : Graphs) (pio : PendingIo)
      → IsEvent max_seconds ta_complete c
      → m c.sector c.device ≡ some pio
      → event_on average max_seconds c (m, s) ≡ (
        without_io m c.sector c.device,
        count_completion average c pio (add_iop c (add_tput c s)),
      )
  complete_step max_seconds c m s pio h known =
      let s' = add_iop c (add_tput c s) in
      event_lem max_seconds ta_complete c m s h
      ∙ ap (completed_io average c) (
          if_false (has_class 10 c) _ _ h.notify
          ∙ if_false (action_num c == ta_queue) _ _ (ground (arith, h.number))
          ∙ if_false (action_num c == 6) _ _ (ground (arith, h.number))
          ∙ if_true (not (action_num c == ta_issue)) _ _ (ground (arith, h.number)))
      ∙ if_false (has_class 10 c) _ _ h.notify
      ∙ if_false (not (action_num c == ta_complete)) _ _ (ground (arith, h.number))
      ∙ ap
          (λ o. elim o as (λ _. IoMap × Graphs) [
            | none ↦ (m, s')
            | some p ↦ (without_io m c.sector c.device, count_completion average c p s')
          ])
          known
