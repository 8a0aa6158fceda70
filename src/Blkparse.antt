-- ===== src/Blkparse.antt =====
-- server-proto/blkparse.c: reading the traces of several processors back in order, and the counters.
pub mod Skips
pub mod Account
pub mod Process
pub mod Track
pub mod Dump
pub mod Sort
pub mod CpuMap
pub mod Sequence
pub mod Entries
pub mod Show
