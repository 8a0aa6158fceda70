-- ===== src/Trace/Tests.antt =====
-- Byte order at concrete records.
use iovisualization.Prelude.{◌≡◌, refl, true, false, some, arith}
use iovisualization.Trace.{IoTrace, bswap64, verify_trace, trace_to_cpu, check_data_endianness}
use iovisualization.Trace.Endian.{IsTrace, foreign, read_back}

abbrev trace : IoTrace
trace = record {
  magic = 0x65617407;
  sequence = 1;
  time = 5_000_000_000;
  sector = 2048;
  bytes = 4096;
  action = 0x10001;
  pid = 42;
  device = 0x800000;
  cpu = 3;
  error = 0;
  pdu_len = 0;
}

swapped : bswap64 0x0102030405060708 ≡ 0x0807060504030201
unfolding bswap64
swapped = refl

accepted : verify_trace trace ≡ 0
unfolding verify_trace
accepted = refl

old_version : verify_trace (record trace { magic = 0x65617406 }) ≡ 1
unfolding verify_trace
old_version = refl

trace-IsTrace : IsTrace trace
trace-IsTrace = omega arith

read_back_example :
    (check_data_endianness 0x65617407 ≡ some true)
    × (trace_to_cpu true trace ≡ trace)
    × (check_data_endianness (foreign trace).magic ≡ some false)
    × (trace_to_cpu false (foreign trace) ≡ trace)
read_back_example = read_back trace trace-IsTrace (omega arith)
