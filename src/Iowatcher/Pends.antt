-- ===== src/Iowatcher/Pends.antt =====
-- The hash table as a map from a sector and a device to an I/O.
use iovisualization.Prelude.{
  ℕ, ◌≡◌, refl, sym, ap, ◌∙◌, inl, inr, true, false, Option, none, some, List, [], ◌∷◌, ◌++◌, arith,
  ◌==◌, if◌then◌else◌, Bool-cases,
}
use mathlib.Core.Path.{subst}
use iovisualization.Trace.{IoTrace}
use iovisualization.Iowatcher.Table.{
  PendingIo, IoTable, is_io, hash_sector, in_chain, write_chain, del_chain, with_slot,
  io_hash_table_search, io_hash_table_insert, queued_io, hash_queued_io, dispatch, write_io, del_io,
  hash_dispatched_io, hash_completed_io,
}
use iovisualization.Iowatcher.Chains.{
  IsChain, first_of, in_chain-append, KeepsIo, same_io, in_chain-write_chain, in_chain-del_chain,
  write_chain-IsChain, del_chain-IsChain, append-IsChain,
}

abbrev pub IoMap : Type 0
IoMap = ℕ → ℕ → Option PendingIo

-- `m` gives the node of each I/O, and no I/O has two
pub record Pends (table : IoTable) (m : IoMap) : Type 0 where
  pub chains : (slot : ℕ) → IsChain (table slot)
  pub shows : (k d : ℕ) → in_chain (table (hash_sector k)) k d ≡ m k d

-- the map with one I/O written, and with it deleted
abbrev pub put_io : IoMap → ℕ → ℕ → PendingIo → IoMap
put_io m k d pio k' d' = if same_io k d k' d' then some pio else m k' d'

abbrev pub without_io : IoMap → ℕ → ℕ → IoMap
without_io m k d k' d' = if same_io k d k' d' then none else m k' d'

same_slot : (k d k' d' : ℕ) → (hash_sector k' == hash_sector k) ≡ false → same_io k d k' d' ≡ false
same_slot k d k' d' e = elim (Bool-cases (k' == k)) [
  | inl same ↦
      let k≡ : k' ≡ k = ground (arith, same) in
      let hash : hash_sector k' ≡ hash_sector k = ap hash_sector k≡ in
      absurd (ground (arith, e, hash))
  | inr apart ↦ ground (arith, apart)
]

with_slot-here :
    (table : IoTable) (k : ℕ) (chain : List PendingIo) (slot : ℕ)
    → (slot == hash_sector k) ≡ true
    → with_slot table k chain slot ≡ chain
unfolding with_slot
with_slot-here table k chain slot e = rw e refl

with_slot-there :
    (table : IoTable) (k : ℕ) (chain : List PendingIo) (slot : ℕ)
    → (slot == hash_sector k) ≡ false
    → with_slot table k chain slot ≡ table slot
unfolding with_slot
with_slot-there table k chain slot e = rw e refl

-- A slot changed is the map changed, if the new chain shows it.
with_slot-Pends :
    (table : IoTable) (m m' : IoMap) (k : ℕ) (chain : List PendingIo)
    → Pends table m
    → IsChain chain
    → ((k' d' : ℕ) → hash_sector k' ≡ hash_sector k → in_chain chain k' d' ≡ m' k' d')
    → ((k' d' : ℕ) → (hash_sector k' == hash_sector k) ≡ false → m k' d' ≡ m' k' d')
    → Pends (with_slot table k chain) m'
with_slot-Pends table m m' k chain r c here there = record {
  chains = λ slot. elim (Bool-cases (slot == hash_sector k)) [
    | inl e ↦ subst IsChain (sym (with_slot-here table k chain slot e)) c
    | inr e ↦ subst IsChain (sym (with_slot-there table k chain slot e)) (r.chains slot)
  ];
  shows = λ k' d'. elim (Bool-cases (hash_sector k' == hash_sector k)) [
    | inl e ↦
        let same : hash_sector k' ≡ hash_sector k = ground (arith, e) in
        ap (λ c'. in_chain c' k' d') (with_slot-here table k chain (hash_sector k') e)
        ∙ here k' d' same
    | inr e ↦
        ap (λ c'. in_chain c' k' d') (with_slot-there table k chain (hash_sector k') e)
        ∙ r.shows k' d'
        ∙ there k' d' e
  ];
}

-- a chain in the slot that a sector's hash gives shows the map too
in_slot :
    (table : IoTable) (m : IoMap) (k k' d' : ℕ)
    → Pends table m
    → hash_sector k' ≡ hash_sector k
    → in_chain (table (hash_sector k)) k' d' ≡ m k' d'
in_slot table m k k' d' r e = ap (λ slot. in_chain (table slot) k' d') (sym e) ∙ r.shows k' d'

apart_slot :
    (m : IoMap) (k d k' d' : ℕ) (o : Option PendingIo)
    → (hash_sector k' == hash_sector k) ≡ false
    → m k' d' ≡ (if same_io k d k' d' then o else m k' d')
apart_slot m k d k' d' o e = let apart = same_slot k d k' d' e in rw apart refl

pub del_io-Pends :
    (io : IoTrace) (table : IoTable) (m : IoMap)
    → Pends table m
    → Pends (del_io io table) (without_io m io.sector io.device)
unfolding del_io
del_io-Pends io table m r =
    let k = io.sector in
    let d = io.device in
    let c = r.chains (hash_sector k) in
    with_slot-Pends table m (without_io m k d) k (del_chain (table (hash_sector k)) k d) r
      (del_chain-IsChain (table (hash_sector k)) k d c)
      (λ k' d' e.
        in_chain-del_chain (table (hash_sector k)) k d k' d' c
        ∙ ap (λ (o : Option PendingIo). if same_io k d k' d' then none else o)
            (in_slot table m k k' d' r e))
      (λ k' d' e. apart_slot m k d k' d' none e)

pub write_io-Pends :
    (io : IoTrace) (f : PendingIo → PendingIo) (table : IoTable) (m : IoMap) (pio : PendingIo)
    → KeepsIo f
    → Pends table m
    → m io.sector io.device ≡ some pio
    → Pends (write_io io f table) (put_io m io.sector io.device (f pio))
unfolding write_io
write_io-Pends io f table m pio h r e =
    let k = io.sector in
    let d = io.device in
    with_slot-Pends table m (put_io m k d (f pio)) k (write_chain (table (hash_sector k)) k d f) r
      (write_chain-IsChain (table (hash_sector k)) k d f h (r.chains (hash_sector k)))
      (λ k' d' same.
        in_chain-write_chain (table (hash_sector k)) k d f pio k' d' h (r.shows k d ∙ e)
        ∙ ap (λ (o : Option PendingIo). if same_io k d k' d' then some (f pio) else o)
            (in_slot table m k k' d' r same))
      (λ k' d' same. apart_slot m k d k' d' (some (f pio)) same)

alone_at :
    (pio : PendingIo) (k' d' : ℕ)
    → in_chain (pio ∷ []) k' d' ≡ (if same_io pio.sector pio.device k' d' then some pio else none)
unfolding in_chain is_io
alone_at pio k' d' = ground arith

pub at_same : (m : IoMap) (k d k' d' : ℕ) → same_io k d k' d' ≡ true → m k' d' ≡ m k d
at_same m k d k' d' e =
    let sector : k' ≡ k = ground (arith, e) in
    let device : d' ≡ d = ground (arith, e) in ap (λ x. m x d') sector ∙ ap (m k) device

first_of-none : (o : Option PendingIo) → first_of o none ≡ o
first_of-none none = refl
first_of-none (some pio) = refl

appended_at :
    (m : IoMap) (pio : PendingIo) (k' d' : ℕ)
    → m pio.sector pio.device ≡ none
    → first_of (m k' d') (in_chain (pio ∷ []) k' d') ≡ put_io m pio.sector pio.device pio k' d'
appended_at m pio k' d' e =
    ap (first_of (m k' d')) (alone_at pio k' d')
    ∙ elim (Bool-cases (same_io pio.sector pio.device k' d')) [
      | inl same ↦
          rw same (ap (λ o. first_of o (some pio)) (at_same m pio.sector pio.device k' d' same ∙ e))
      | inr apart ↦ rw apart (first_of-none (m k' d'))
    ]

-- an I/O that is not there yet, at the end of its chain
pub append-Pends :
    (table : IoTable) (m : IoMap) (pio : PendingIo)
    → Pends table m
    → m pio.sector pio.device ≡ none
    → Pends
        (with_slot table pio.sector (table (hash_sector pio.sector) ++ (pio ∷ [])))
        (put_io m pio.sector pio.device pio)
append-Pends table m pio r e =
    let k = pio.sector in
    let d = pio.device in
    let chain = table (hash_sector k) in
    with_slot-Pends table m (put_io m k d pio) k (chain ++ (pio ∷ [])) r
      (append-IsChain chain pio (r.shows k d ∙ e) (r.chains (hash_sector k)))
      (λ k' d' same.
        in_chain-append chain (pio ∷ []) k' d'
        ∙ ap (λ o. first_of o (in_chain (pio ∷ []) k' d')) (in_slot table m k k' d' r same)
        ∙ appended_at m pio k' d' e)
      (λ k' d' same. apart_slot m k d k' d' (some pio) same)

-- what `hash_queued_io` does to the map
abbrev pub queue_io : IoTrace → Option PendingIo → IoMap → IoMap
queue_io io none m = put_io m io.sector io.device (queued_io io)
queue_io io (some pio) m = m

hash_queued_io_new :
    (io : IoTrace) (table : IoTable)
    → in_chain (table (hash_sector io.sector)) io.sector io.device ≡ none
    → hash_queued_io io table ≡ (
      some (queued_io io),
      with_slot table io.sector (table (hash_sector io.sector) ++ (queued_io io ∷ [])),
    )
unfolding hash_queued_io io_hash_table_insert
hash_queued_io_new io table e = rw (hash_queued_io, e) refl

hash_queued_io_known :
    (io : IoTrace) (table : IoTable) (pio : PendingIo)
    → in_chain (table (hash_sector io.sector)) io.sector io.device ≡ some pio
    → hash_queued_io io table ≡ (none, table)
unfolding hash_queued_io io_hash_table_insert
hash_queued_io_known io table pio e = rw (hash_queued_io, e) refl

pub hash_queued_io-Pends :
    (io : IoTrace) (table : IoTable) (m : IoMap) (o : Option PendingIo)
    → Pends table m
    → m io.sector io.device ≡ o
    → Pends (hash_queued_io io table).1 (queue_io io o m)
hash_queued_io-Pends io table m none r e =
    subst (λ out. Pends out.1 (put_io m io.sector io.device (queued_io io)))
      (sym (hash_queued_io_new io table (r.shows io.sector io.device ∙ e)))
      (append-Pends table m (queued_io io) r e)
hash_queued_io-Pends io table m (some pio) r e =
    subst (λ out. Pends out.1 m)
      (sym (hash_queued_io_known io table pio (r.shows io.sector io.device ∙ e))) r

-- the I/O that is dispatched: the one in the map, or a new one
abbrev pub or_queued : IoTrace → Option PendingIo → PendingIo
or_queued io none = queued_io io
or_queued io (some pio) = pio

dispatch-KeepsIo : (io : IoTrace) → KeepsIo (dispatch io)
unfolding dispatch
dispatch-KeepsIo io = record { sector = λ pio. refl; device = λ pio. refl }

hash_dispatched_io_known :
    (io : IoTrace) (table : IoTable) (pio : PendingIo)
    → in_chain (table (hash_sector io.sector)) io.sector io.device ≡ some pio
    → hash_dispatched_io io table ≡ (some (dispatch io pio), write_io io (dispatch io) table)
unfolding hash_dispatched_io io_hash_table_search
hash_dispatched_io_known io table pio e = rw (hash_dispatched_io, e) refl

hash_dispatched_io_new :
    (io : IoTrace) (table table' : IoTable)
    → in_chain (table (hash_sector io.sector)) io.sector io.device ≡ none
    → hash_queued_io io table ≡ (some (queued_io io), table')
    → hash_dispatched_io io table
      ≡ (some (dispatch io (queued_io io)), write_io io (dispatch io) table')
unfolding hash_dispatched_io io_hash_table_search
hash_dispatched_io_new io table table' e h =
    rw (hash_dispatched_io, e, h)
      (ap (λ out. (some (dispatch io (queued_io io)), write_io io (dispatch io) out.1)) h)

put_twice :
    (m : IoMap) (k d : ℕ) (a b : PendingIo) (k' d' : ℕ)
    → put_io (put_io m k d a) k d b k' d' ≡ put_io m k d b k' d'
put_twice m k d a b k' d' = elim (Bool-cases (same_io k d k' d')) [
  | inl e ↦ rw e refl
  | inr e ↦ rw e refl
]

pub Pends-ext :
    (table : IoTable) (m m' : IoMap) → Pends table m → ((k d : ℕ) → m k d ≡ m' k d) → Pends table m'
Pends-ext table m m' r e = record { chains = r.chains; shows = λ k d. r.shows k d ∙ e k d }

-- `out` points to the I/O that was dispatched, which the map has now.
abbrev pub Dispatched : IoTrace → IoMap → PendingIo → Option PendingIo × IoTable → Type 0
Dispatched io m pio (found, table) =
    (found ≡ some (dispatch io pio)) × Pends table (put_io m io.sector io.device (dispatch io pio))

pub hash_dispatched_io-Pends :
    (io : IoTrace) (table : IoTable) (m : IoMap) (o : Option PendingIo)
    → Pends table m
    → m io.sector io.device ≡ o
    → Dispatched io m (or_queued io o) (hash_dispatched_io io table)
hash_dispatched_io-Pends io table m (some pio) r e =
    subst (Dispatched io m pio)
      (sym (hash_dispatched_io_known io table pio (r.shows io.sector io.device ∙ e)))
      (refl, write_io-Pends io (dispatch io) table m pio (dispatch-KeepsIo io) r e)
hash_dispatched_io-Pends io table m none r e =
    let k = io.sector in
    let d = io.device in
    let free = r.shows k d ∙ e in
    let table' = with_slot table k (table (hash_sector k) ++ (queued_io io ∷ [])) in
    let m' = put_io m k d (queued_io io) in
    subst (Dispatched io m (queued_io io))
      (sym (hash_dispatched_io_new io table table' free (hash_queued_io_new io table free)))
      (
        refl,
        Pends-ext (write_io io (dispatch io) table') (put_io m' k d (dispatch io (queued_io io))) _
            (write_io-Pends io (dispatch io) table' m' (queued_io io) (dispatch-KeepsIo io)
              (append-Pends table m (queued_io io) r e) (ground arith))
            (put_twice m k d (queued_io io) (dispatch io (queued_io io))),
      )

pub hash_completed_io-Pends :
    (io : IoTrace) (table : IoTable) (m : IoMap)
    → Pends table m
    → hash_completed_io io table ≡ m io.sector io.device
unfolding hash_completed_io io_hash_table_search
hash_completed_io-Pends io table m r = r.shows io.sector io.device
