-- ===== src/Btt.antt =====
-- server-proto/btt: the analysis of a trace of block I/O.
pub mod Avg
pub mod Range
pub mod Seek
pub mod Q2d
pub mod Histo
pub mod PLive
pub mod IoTree
