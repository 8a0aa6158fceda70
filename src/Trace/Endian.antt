-- ===== src/Trace/Endian.antt =====
-- Traces of hosts of either byte order are read alike.
use iovisualization.Prelude.{
  ℕ, ◌+◌, ◌*◌, ◌/◌, ◌%◌, ◌^◌, ◌<◌, ◌≡◌, refl, ap, ◌∙◌, true, false, none, some, arith,
}
use iovisualization.Trace.{
  IoTrace, trace_magic, bswap16, bswap32, bswap64, magic_of, trace_to_cpu, check_data_endianness,
  convert_to_cpu,
}

pub bswap16-bswap16 : (x : ℕ) → x < 2 ^ 16 → bswap16 (bswap16 x) ≡ x
unfolding bswap16
bswap16-bswap16 x h = omega arith

bswap32-lt : (x : ℕ) → bswap32 x < 2 ^ 32
unfolding bswap32
bswap32-lt x = omega arith

pub bswap32-bswap32 : (x : ℕ) → x < 2 ^ 32 → bswap32 (bswap32 x) ≡ x
unfolding bswap32
bswap32-bswap32 x h = omega arith

-- the two halves of a number put together
abbrev join : ℕ → ℕ → ℕ
join hi lo = hi * 2 ^ 32 + lo

bswap64_lem : (x : ℕ) → bswap64 x ≡ join (bswap32 (x % 2 ^ 32)) (bswap32 (x / 2 ^ 32 % 2 ^ 32))
unfolding bswap64
bswap64_lem x = refl

bswap64-join :
    (hi lo : ℕ) → hi < 2 ^ 32 → lo < 2 ^ 32 → bswap64 (join hi lo) ≡ join (bswap32 lo) (bswap32 hi)
bswap64-join hi lo h l =
    bswap64_lem (join hi lo)
    ∙ ap (λ k. join (bswap32 k) (bswap32 (join hi lo / 2 ^ 32 % 2 ^ 32))) {x = join hi lo % 2 ^ 32}
        {y = lo} (omega arith)
    ∙ ap (λ k. join (bswap32 lo) (bswap32 k)) {x = join hi lo / 2 ^ 32 % 2 ^ 32} {y = hi}
        (omega arith)

pub bswap64-bswap64 : (x : ℕ) → x < 2 ^ 64 → bswap64 (bswap64 x) ≡ x
bswap64-bswap64 x h =
    ap bswap64 (bswap64_lem x)
    ∙ bswap64-join (bswap32 (x % 2 ^ 32)) (bswap32 (x / 2 ^ 32 % 2 ^ 32)) (bswap32-lt _)
        (bswap32-lt _)
    ∙ omega (
      arith,
      bswap32-bswap32 (x % 2 ^ 32) (omega arith),
      bswap32-bswap32 (x / 2 ^ 32 % 2 ^ 32) (omega arith),
    )

low_half : (cpu : ℕ) → cpu < 2 ^ 16 → bswap16 (bswap32 cpu % 65536) ≡ 0
unfolding bswap32
low_half cpu h = omega arith

-- Each field fits its C type.
pub record IsTrace (t : IoTrace) : Type 0 where
  pub magic : t.magic < 2 ^ 32
  pub sequence : t.sequence < 2 ^ 32
  pub time : t.time < 2 ^ 64
  pub sector : t.sector < 2 ^ 64
  pub bytes : t.bytes < 2 ^ 32
  pub action : t.action < 2 ^ 32
  pub pid : t.pid < 2 ^ 32
  pub device : t.device < 2 ^ 32
  pub cpu : t.cpu < 2 ^ 32
  pub error : t.error < 2 ^ 16
  pub pdu_len : t.pdu_len < 2 ^ 16

-- how a big-endian host's record reads on this host, byte for byte
pub foreign : IoTrace → IoTrace
foreign t = record {
  magic = bswap32 t.magic;
  sequence = bswap32 t.sequence;
  time = bswap64 t.time;
  sector = bswap64 t.sector;
  bytes = bswap32 t.bytes;
  action = bswap32 t.action;
  pid = bswap32 t.pid;
  device = bswap32 t.device;
  cpu = bswap32 t.cpu;
  error = bswap16 t.error;
  pdu_len = bswap16 t.pdu_len;
}

-- The first record of a file settles the byte order, if its magic is right.
pub check_data_endianness_lem :
    (magic : ℕ)
    → magic < 2 ^ 32
    → magic_of magic ≡ trace_magic
    → (check_data_endianness magic ≡ some true)
      × (check_data_endianness (bswap32 magic) ≡ some false)
unfolding check_data_endianness bswap32
check_data_endianness_lem magic h m = ground arith

module _ (t : IoTrace) (v : IsTrace t) where
  pub trace_to_cpu-foreign : trace_to_cpu false (foreign t) ≡ t
  unfolding trace_to_cpu foreign
  trace_to_cpu-foreign = λ i. record {
    magic = bswap32-bswap32 t.magic v.magic i;
    sequence = bswap32-bswap32 t.sequence v.sequence i;
    time = bswap64-bswap64 t.time v.time i;
    sector = bswap64-bswap64 t.sector v.sector i;
    bytes = bswap32-bswap32 t.bytes v.bytes i;
    action = bswap32-bswap32 t.action v.action i;
    pid = bswap32-bswap32 t.pid v.pid i;
    device = bswap32-bswap32 t.device v.device i;
    cpu = bswap32-bswap32 t.cpu v.cpu i;
    error = bswap16-bswap16 t.error v.error i;
    pdu_len = bswap16-bswap16 t.pdu_len v.pdu_len i;
  }

  -- A record whose fields fit their types and whose magic is right is recognised by its magic,
  -- on a host of the same byte order and on one of the other, and `trace_to_cpu` then gives the
  -- record as it was written.
  pub read_back :
      magic_of t.magic ≡ trace_magic
      → (check_data_endianness t.magic ≡ some true)
        × (trace_to_cpu true t ≡ t)
        × (check_data_endianness (foreign t).magic ≡ some false)
        × (trace_to_cpu false (foreign t) ≡ t)
  unfolding foreign trace_to_cpu
  read_back m =
      let (native, swapped) = check_data_endianness_lem t.magic v.magic m in
      (native, refl, swapped, trace_to_cpu-foreign)

  -- For the first record that btt reads, from a host of the other byte order and with the right
  -- magic and a processor number below 65536, `convert_to_cpu` gives the processor number 0,
  -- where `trace_to_cpu` gives the number.
  pub convert_to_cpu_loses_cpu :
      magic_of t.magic ≡ trace_magic
      → t.cpu < 2 ^ 16
      → ((convert_to_cpu none (foreign t)).cpu ≡ 0) × ((trace_to_cpu false (foreign t)).cpu ≡ t.cpu)
  unfolding convert_to_cpu foreign
  convert_to_cpu_loses_cpu m h = (
    rw (check_data_endianness_lem t.magic v.magic m).1 (low_half t.cpu h),
    ap (λ (r : IoTrace). r.cpu) trace_to_cpu-foreign,
  )
