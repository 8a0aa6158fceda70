-- ===== src/Blkparse/Process/Counters/Replay.antt =====
-- What any run of counted events leaves in the counters.
use iovisualization.Prelude.{
  ℕ, ◌≡◌, refl, ap, ◌∙◌, inl, inr, Bool, true, List, [], ◌∷◌, arith, ◌==◌, if◌then◌else◌,
  Bool-cases,
}
use iovisualization.Blkparse.Account
use iovisualization.Blkparse.Account.{IoStats}
use iovisualization.Blkparse.Process.{with_process_io_stats}
use iovisualization.Blkparse.Process.Fresh.{IsValid}
use iovisualization.Blkparse.Process.Spec.{stats_of, with_process_io_stats_lem}
use iovisualization.Blkparse.Process.Counters.{
  Counters, Request, account, account_m, account_pc_queue, account_pc_issue, account_pc_requeue,
  account_pc_c, account_queue, account_c, account_issue, account_unplug, account_requeue,
}

-- the ten kinds of counted events
pub data Kind : Type 0 where
  merge pc_queue pc_issue pc_requeue pc_complete queue complete issue unplug requeue : Kind

-- `flag` is `rw` or `timer`.
pub record Event : Type 0 where
  pub kind : Kind
  pub flag : Bool
  pub request : Request

-- the counters of one set after an event
unfoldable pub count_event : Kind → ℕ → Bool → IoStats → IoStats
count_event merge b flag ios = Account.account_m ios b flag
count_event pc_queue b flag ios = Account.account_pc_queue ios b flag
count_event pc_issue b flag ios = Account.account_pc_issue ios b flag
count_event pc_requeue b flag ios = Account.account_pc_requeue ios b flag
count_event pc_complete b flag ios = Account.account_pc_c ios flag
count_event queue b flag ios = Account.account_queue ios b flag
count_event complete b flag ios = Account.account_c ios b flag
count_event issue b flag ios = Account.account_issue ios b flag
count_event unplug b flag ios = Account.account_unplug ios flag
count_event requeue b flag ios = Account.account_requeue ios b flag

-- The specification: the events counted in order.
unfoldable pub replay : IoStats → List Event → IoStats
replay ios [] = ios
replay ios (e ∷ events) = replay (count_event e.kind e.request.bytes e.flag ios) events

-- the events of one process
pub of_pid : ℕ → List Event → List Event
of_pid pid [] = []
of_pid pid (e ∷ events) =
    let rest = of_pid pid events in if pid == e.request.pid then e ∷ rest else rest

-- An event of another process is not among the process's own.
replay-of_pid :
    (e : Event) (q : ℕ) (events : List Event) (ios ios' : IoStats)
    → ios' ≡ (if q == e.request.pid then count_event e.kind e.request.bytes e.flag ios else ios)
    → replay ios' (of_pid q events) ≡ replay ios (of_pid q (e ∷ events))
unfolding replay of_pid
replay-of_pid e q events ios ios' h = elim (Bool-cases (q == e.request.pid)) [
  | inl same ↦ rw (h, same)
  | inr other ↦ rw (h, other)
]

module _ (hash_pid : ℕ → ℕ) (hash_name : List ℕ → ℕ) where
  -- the function that counts an event
  unfoldable pub handle : Kind → Request → Bool → Counters → Counters
  handle merge t flag = account_m hash_pid hash_name t flag
  handle pc_queue t flag = account_pc_queue hash_pid hash_name t flag
  handle pc_issue t flag = account_pc_issue hash_pid hash_name t flag
  handle pc_requeue t flag = account_pc_requeue hash_pid hash_name t flag
  handle pc_complete t flag = account_pc_c hash_pid hash_name t flag
  handle queue t flag = account_queue hash_pid hash_name t flag
  handle complete t rw = account_c hash_pid hash_name t rw t.bytes
  handle issue t flag = account_issue hash_pid hash_name t flag
  handle unplug t flag = account_unplug hash_pid hash_name t flag
  handle requeue t flag = account_requeue hash_pid hash_name t flag

  unfoldable pub run : Counters → List Event → Counters
  run c [] = c
  run c (e ∷ events) = run (handle e.kind e.request e.flag c) events

  handle-account :
      (k : Kind) (t : Request) (flag : Bool) (c : Counters)
      → handle k t flag c ≡ account hash_pid hash_name (count_event k t.bytes flag) t.pid c
  unfolding handle count_event account_m account_pc_queue account_pc_issue account_pc_requeue
      account_pc_c account_queue account_c account_issue account_unplug account_requeue
  handle-account merge t flag c = refl
  handle-account pc_queue t flag c = refl
  handle-account pc_issue t flag c = refl
  handle-account pc_requeue t flag c = refl
  handle-account pc_complete t flag c = refl
  handle-account queue t flag c = refl
  handle-account complete t flag c = refl
  handle-account issue t flag c = refl
  handle-account unplug t flag c = refl
  handle-account requeue t flag c = refl

  account_pci :
      (update : IoStats → IoStats) (pid : ℕ) (c : Counters)
      → ((account hash_pid hash_name update pid c).pci ≡ update c.pci)
        × ((account hash_pid hash_name update pid c).per_process_stats ≡ c.per_process_stats)
  unfolding account
  account_pci update pid c = (refl, refl)

  account_procs :
      (update : IoStats → IoStats) (pid : ℕ) (c : Counters)
      → c.per_process_stats ≡ true
      → (account hash_pid hash_name update pid c).procs
        ≡ with_process_io_stats hash_pid hash_name c.procs pid update
  unfolding account
  account_procs update pid c on = rw on

  -- A processor's counters after any run of events are those of all the events in order, whether
  -- or not processes are counted.
  pub run-pci : (c : Counters) (events : List Event) → (run c events).pci ≡ replay c.pci events
  unfolding run replay
  run-pci c [] = refl
  run-pci c (e ∷ events) =
      run-pci (handle e.kind e.request e.flag c) events
      ∙ ap (λ ios. replay ios events)
          (ap (λ (d : Counters). d.pci) (handle-account e.kind e.request e.flag c)
            ∙ (account_pci (count_event e.kind e.request.bytes e.flag) e.request.pid c).0)

  -- one event, at the counters of process `q`
  handle-stats_of :
      (e : Event) (c : Counters) (q : ℕ)
      → c.per_process_stats ≡ true
      → IsValid c.procs
      → let c' = handle e.kind e.request e.flag c in
        (c'.per_process_stats ≡ true)
        × IsValid c'.procs
        × (stats_of hash_pid hash_name c'.procs q ≡ (
            if q == e.request.pid
            then count_event e.kind e.request.bytes e.flag
                (stats_of hash_pid hash_name c.procs e.request.pid)
            else stats_of hash_pid hash_name c.procs q))
  handle-stats_of e c q on v =
      let update = count_event e.kind e.request.bytes e.flag in
      let (v', at) = with_process_io_stats_lem hash_pid hash_name c.procs e.request.pid update v in
      rw (handle-account e.kind e.request e.flag c, account_procs update e.request.pid c on)
        ((account_pci update e.request.pid c).1 ∙ on, v', at q)

  own_counters :
      (c : Counters) (e : Event) (q : ℕ)
      → (if q == e.request.pid
          then count_event e.kind e.request.bytes e.flag
              (stats_of hash_pid hash_name c.procs e.request.pid)
          else stats_of hash_pid hash_name c.procs q)
        ≡ (if q == e.request.pid
            then count_event e.kind e.request.bytes e.flag (stats_of hash_pid hash_name c.procs q)
            else stats_of hash_pid hash_name c.procs q)
  own_counters c e q = elim (Bool-cases (q == e.request.pid)) [
    | inl same ↦ let p : q ≡ e.request.pid = ground arith in rw p
    | inr other ↦ rw other
  ]

  -- With processes counted and told apart by pid, the counters of a process after any run of
  -- events are those of its own events in order, whatever the events of the others.
  pub run-stats_of :
      (c : Counters) (events : List Event) (q : ℕ)
      → c.per_process_stats ≡ true
      → IsValid c.procs
      → stats_of hash_pid hash_name (run c events).procs q
        ≡ replay (stats_of hash_pid hash_name c.procs q) (of_pid q events)
  unfolding run replay of_pid
  run-stats_of c [] q on v = refl
  run-stats_of c (e ∷ events) q on v =
      let (on', v', step) = handle-stats_of e c q on v in
      run-stats_of (handle e.kind e.request e.flag c) events q on' v'
      ∙ replay-of_pid e q events (stats_of hash_pid hash_name c.procs q) _
          (step ∙ own_counters c e q)
