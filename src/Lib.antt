-- ===== src/Lib.antt =====
-- blktrace's tools for block I/O traces, server-proto/ of this repository, with the parts of it that keep
-- state: what the tools count of a trace, and the trees and lists in which they look things up.
--
-- The program. The kernel writes a record (`struct blk_io_trace`) for each event of a request to a block
-- device: queued, merged, issued, completed and so on. blktrace stores the records, one file for each processor.
-- blkparse (server-proto/blkparse.c) merges the files, notes the sequence numbers that a processor's file
-- lacks, and counts events for each processor and each process. btt (server-proto/btt/) follows each request
-- through the records and keeps averages, ranges of activity and intervals for each device.
-- server-proto/stats.h holds the statistics that blkiomon sends on: it matches the issue and the completion of each
-- request (server-proto/blkiomon.c) and hands out the statistics of the devices at each interval. iowatcher
-- (server-proto/iowatcher/) draws graphs of the throughput, the latencies and the queue depth of a trace.
--
-- The files.
--   Prelude: names passed on from the library, Boolean tests, lists, words of 32 and 64 bits, binary trees
--     as the clients of server-proto/rbtree.h see them (Prelude.Tree), and lists of intervals (Prelude.Ordered),
--     and trees by a number as maps (Prelude.Keyed).
--   Trace: the record, its magic and version, and its conversion from the byte order of another host
--     (server-proto/blktrace.h, server-proto/blktrace_api.h, `convert_to_cpu` of server-proto/btt/mmap.c).
--   Stats: minimum, maximum, sum and histogram of server-proto/stats.h.
--   Blkparse.Skips: the list of lacking sequence numbers (`insert_skip`, `check_current_skips`, `collect_pdi_skips`).
--   Blkparse.Account: `struct io_stats` and the `__account_*` functions.
--   Blkparse.Process: the tables of processes and `find_process_io_stats`; Blkparse.Process.Counters: the
--     `account_*` functions, which count for a processor and for a process.
--   Blkparse.Track: the requests under way of a device (`struct io_track`, `find_track`, `log_track_*`).
--   Blkparse.Sort: the tree of records by time (`trace_rb_insert`, `trace_rb_find`), and in Blkparse.Sort.Last the
--     processors of a device and the records shown last for each (`get_cpu_info`, `trace_rb_insert_last`).
--   Blkparse.CpuMap: the processors that are online (`cpu_mark_online`, `check_cpu_map`).
--   Blkparse.Sequence: whether the next record may be shown (`check_sequence`), with the lists of Blkparse.Skips,
--     the trees of Blkparse.Sort and the map of Blkparse.CpuMap.
--   Blkparse.Entries: the records that were read, put into the tree by time (`sort_entries`, `get_dev_info`).
--   Blkparse.Dump: what one record does (`dump_trace`, `dump_trace_pc`, `dump_trace_fs`), with the
--     account functions and the requests under way that it calls.
--   Blkparse.Show: the loop that shows the records of the tree (`show_entries_rb`, `put_trace`, `check_time`), with the
--     sequence check and the dump that it calls.
--   Blkiomon: the requests under way, the statistics of the devices (`blkiomon_do_trace`, `blkiomon_account`,
--     `blkiomon_get_dstat`) and the end of an interval (`blkiomon_interval`); Blkiomon.Stat: server-proto/blkiomon.h.
--   Iowatcher: what the records of a trace add to iowatcher's graphs of lines (server-proto/iowatcher/blkparse.c,
--     `add_tput`, `add_iop`, `add_pending_io`, `add_completed_io`); Iowatcher.Table: its hash table of I/Os under way;
--     Iowatcher.Devices: the ranges of the devices (`map_devices`, `map_io`); Iowatcher.Pids: the processes and the
--     indices of their plots (`process_hash_insert`, `get_pid_map`).
--   Btt.Avg, Btt.Range: `avg_info` and `range_info` of server-proto/btt/inlines.h.
--   Btt.PLive: the tree of intervals of server-proto/btt/p_live.c.
--   Btt.IoTree: the tree of I/Os of server-proto/btt/dip_rb.c.
--   Btt.Seek: the distances between I/Os, their counts, mode and median (server-proto/btt/seek.c).
--   Btt.Q2d: the buckets of waits of server-proto/btt/q2d.c.
--   Btt.Histo: the histograms of request sizes of server-proto/btt/inlines.h.
--
-- Modules named Tests hold concrete runs.
--
-- How the model reads the code. Numbers are natural numbers, and every sum and difference of C wraps at the
-- width that its type has with 64-bit longs; the host is little-endian. A function that changes an object
-- returns the changed object. Where C returns pointers into shared objects (`struct per_process_info`), a heap from
-- numbers to objects stands for the memory. A red-black tree is a binary tree; rbtree.c is a parameter
-- (Prelude.Tree.RbTree) that may rotate as it likes but keeps the order of the nodes and erases the node asked for.
-- The hash function of jhash.h is a parameter. The comparison of a gap with btt's `range_delta` and
-- the milliseconds of a time, and the averages of iowatcher's graphs, which are in floating point, are parameters too. Memory does not run out,
-- and what `malloc` leaves in it is a parameter.
--
-- Fuel. `__p_live_add` calls itself after each node that it erases, so its fuel is the number of nodes plus one.
-- `show_entries_rb` takes one record out of the tree in each round that does not end it, so its fuel is the number of records plus one. All other loops run over a list, a chain or a tree.
--
-- Not modelled: reading files, options and printing; floating-point results; blktrace's recorder, the network
-- servers and clients, btreplay, iowatcher's plots; the interleaving of blkiomon's two threads; blkparse's reading of records and the merging of streams; btt's handlers
-- of the actions.
pub mod Prelude
pub mod Trace
pub mod Stats
pub mod Blkparse
pub mod Btt
pub mod Blkiomon
pub mod Iowatcher
