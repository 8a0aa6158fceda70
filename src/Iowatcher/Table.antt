-- ===== src/Iowatcher/Table.antt =====
-- server-proto/iowatcher/blkparse.c, lines 156 to 301: the hash table of the I/Os under way.
use iovisualization.Prelude.{
  ℕ, ◌-◌, ◌*◌, ◌/◌, ◌%◌, ◌^◌, Bool, ◌&&◌, Option, none, some, List, [], ◌∷◌, ◌++◌, ◌==◌,
  if◌then◌else◌, add64, sub64,
}
use iovisualization.Trace.{IoTrace}

pub record PendingIo : Type 0 where
  pub sector : ℕ
  pub device : ℕ
  pub dispatch_time : ℕ
  pub completion_time : ℕ
  pub pid : ℕ

-- the chains by slot, each from its head
abbrev pub IoTable : Type 0
IoTable = ℕ → List PendingIo

-- `n <<= k` in 64 bits
abbrev pub shl64 : ℕ → ℕ → ℕ
shl64 n k = n * 2 ^ k % 2 ^ 64

unfoldable pub hash_sector : ℕ → ℕ
hash_sector val =
    let n1 = shl64 val 18 in
    let n2 = shl64 n1 33 in
    let n3 = shl64 n2 3 in
    let n4 = shl64 n3 3 in
    let n5 = shl64 n4 4 in
    let n6 = shl64 n5 2 in
    add64 (add64 (sub64 (add64 (sub64 (sub64 val n1) n2) n3) n4) n5) n6 / 2 ^ (64 - 11)

-- the test of the walks
unfoldable pub is_io : ℕ → ℕ → PendingIo → Bool
is_io sector dev pio = pio.sector == sector && pio.device == dev

-- the first node of a chain that the test finds; what is written through the pointer to it; and `list_del` of it
unfoldable pub in_chain : List PendingIo → ℕ → ℕ → Option PendingIo
in_chain [] sector dev = none
in_chain (pio ∷ chain) sector dev =
    let rest = in_chain chain sector dev in if is_io sector dev pio then some pio else rest

unfoldable pub write_chain : List PendingIo → ℕ → ℕ → (PendingIo → PendingIo) → List PendingIo
write_chain [] sector dev f = []
write_chain (pio ∷ chain) sector dev f =
    let rest = write_chain chain sector dev f in
    if is_io sector dev pio then f pio ∷ chain else pio ∷ rest

unfoldable pub del_chain : List PendingIo → ℕ → ℕ → List PendingIo
del_chain [] sector dev = []
del_chain (pio ∷ chain) sector dev =
    let rest = del_chain chain sector dev in if is_io sector dev pio then chain else pio ∷ rest

-- the chain of a sector changed
unfoldable pub with_slot : IoTable → ℕ → List PendingIo → IoTable
with_slot table sector chain = λ slot. if slot == hash_sector sector then chain else table slot

unfoldable pub io_hash_table_search : ℕ → ℕ → IoTable → Option PendingIo
io_hash_table_search sector dev table = in_chain (table (hash_sector sector)) sector dev

-- `none` is -EEXIST
unfoldable pub io_hash_table_insert : PendingIo → IoTable → Option IoTable
io_hash_table_insert pio table =
    let chain = table (hash_sector pio.sector) in
    elim (in_chain chain pio.sector pio.device) [
      | some _ ↦ none
      | none ↦ some (with_slot table pio.sector (chain ++ (pio ∷ [])))
    ]

-- the node that `hash_queued_io` makes
abbrev pub queued_io : IoTrace → PendingIo
queued_io io = record {
  sector = io.sector;
  device = io.device;
  dispatch_time = 0;
  completion_time = 0;
  pid = io.pid;
}

-- These return the node that they point to.
unfoldable pub hash_queued_io : IoTrace → IoTable → Option PendingIo × IoTable
hash_queued_io io table = elim (io_hash_table_insert (queued_io io) table) [
  | none ↦ (none, table)
  | some table' ↦ (some (queued_io io), table')
]

-- `pio->dispatch_time = io->time`
unfoldable pub dispatch : IoTrace → PendingIo → PendingIo
dispatch io pio = record pio { dispatch_time = io.time }

unfoldable pub write_io : IoTrace → (PendingIo → PendingIo) → IoTable → IoTable
write_io io f table =
    with_slot table io.sector (write_chain (table (hash_sector io.sector)) io.sector io.device f)

-- `list_del`, of the node of an I/O
unfoldable pub del_io : IoTrace → IoTable → IoTable
del_io io table =
    with_slot table io.sector (del_chain (table (hash_sector io.sector)) io.sector io.device)

unfoldable pub hash_dispatched_io : IoTrace → IoTable → Option PendingIo × IoTable
hash_dispatched_io io table = elim (io_hash_table_search io.sector io.device table) [
  | some pio ↦ (some (dispatch io pio), write_io io (dispatch io) table)
  | none ↦
      let (queued, table') = hash_queued_io io table in
      elim queued [
        | none ↦ (none, table)
        | some pio ↦ (some (dispatch io pio), write_io io (dispatch io) table')
      ]
]

unfoldable pub hash_completed_io : IoTrace → IoTable → Option PendingIo
hash_completed_io io table = io_hash_table_search io.sector io.device table
