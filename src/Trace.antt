-- ===== src/Trace.antt =====
-- server-proto/blktrace.h, lines 68 to 139, server-proto/blktrace_api.h, lines 98 to 113, and `convert_to_cpu` of
-- server-proto/btt/mmap.c: the trace record and its byte order on a little-endian host.
pub mod Endian
pub mod Tests
use iovisualization.Prelude.{
  ℕ, ◌+◌, ◌*◌, ◌/◌, ◌%◌, ◌^◌, Bool, true, false, not, Option, none, some, ◌==◌, if◌then◌else◌,
}

-- `struct blk_io_trace`. All fields have 32 bits but `time` and `sector` (64) and `error` and
-- `pdu_len` (16).
pub record IoTrace : Type 0 where
  pub magic : ℕ
  pub sequence : ℕ
  pub time : ℕ
  pub sector : ℕ
  pub bytes : ℕ
  pub action : ℕ
  pub pid : ℕ
  pub device : ℕ
  pub cpu : ℕ
  pub error : ℕ
  pub pdu_len : ℕ

-- `BLK_IO_TRACE_MAGIC` and `SUPPORTED_VERSION`
abbrev pub trace_magic : ℕ
trace_magic = 0x65617400

abbrev pub supported_version : ℕ
supported_version = 0x07

-- `__bswap_16`, `__bswap_32` and `__bswap_64` of the C library
unfoldable pub bswap16 : ℕ → ℕ
bswap16 x = x % 256 * 256 + x / 256 % 256

unfoldable pub bswap32 : ℕ → ℕ
unfolding bswap16
bswap32 x = bswap16 (x % 65536) * 65536 + bswap16 (x / 65536 % 65536)

unfoldable pub bswap64 : ℕ → ℕ
unfolding bswap32
bswap64 x = bswap32 (x % 2 ^ 32) * 2 ^ 32 + bswap32 (x / 2 ^ 32 % 2 ^ 32)

-- `magic & 0xffffff00`
abbrev pub magic_of : ℕ → ℕ
magic_of magic = magic / 256 * 256

-- `CHECK_MAGIC`
abbrev pub check_magic : IoTrace → Bool
check_magic t = magic_of t.magic == trace_magic

-- 1 is a refusal; the message is left out
pub verify_trace : IoTrace → ℕ
verify_trace t =
    if not (check_magic t) then 1 else if not (t.magic % 256 == supported_version) then 1 else 0

-- `data_is_native` is a global of C.
pub trace_to_cpu : Bool → IoTrace → IoTrace
trace_to_cpu data_is_native t = if data_is_native then t else record t {
  magic = bswap32 t.magic;
  sequence = bswap32 t.sequence;
  time = bswap64 t.time;
  sector = bswap64 t.sector;
  bytes = bswap32 t.bytes;
  action = bswap32 t.action;
  pid = bswap32 t.pid;
  device = bswap32 t.device;
  cpu = bswap32 t.cpu;
  error = bswap16 t.error;
  pdu_len = bswap16 t.pdu_len;
}

-- the value that `data_is_native` is given; `none` is the failure, which leaves it alone
pub check_data_endianness : ℕ → Option Bool
check_data_endianness magic =
    if magic_of magic == trace_magic
    then some true
    else if magic_of (bswap32 magic) == trace_magic
    then some false
    else none

-- The record that btt's `convert_to_cpu` fills in. `data_is_native` is -1 (`none`) before the first
-- record, and stays so where its magic is unknown; C takes -1 for true. `be16_to_cpu` takes the low 16 bits of `cpu`.
pub convert_to_cpu : Option Bool → IoTrace → IoTrace
convert_to_cpu data_is_native t =
    let checked : Option Bool = elim data_is_native [
      | none ↦ check_data_endianness t.magic
      | some b ↦ some b
    ] in
    let native : Bool = elim checked [ none ↦ true | some b ↦ b ] in
    if native then t else record t {
      magic = bswap32 t.magic;
      sequence = bswap32 t.sequence;
      time = bswap64 t.time;
      sector = bswap64 t.sector;
      bytes = bswap32 t.bytes;
      action = bswap32 t.action;
      pid = bswap32 t.pid;
      device = bswap32 t.device;
      cpu = bswap16 (t.cpu % 65536);
      error = bswap16 t.error;
      pdu_len = bswap16 t.pdu_len;
    }
