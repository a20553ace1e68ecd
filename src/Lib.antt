-- ===== src/Lib.antt =====
-- libtrs: a library that reads side channel traces from files or over the network, passes them
-- through chains of transformations, and caches them.
--
-- Parts and files.
--
-- Base: numbers, lists, tests and results that all parts share. A call ends with a value, waits
-- for a semaphore (`blocked`), or is undefined (`fault`).
-- Aes: the round functions of lib/crypto/aes.c over the tables of include/crypto.h (Aes/Tables), and
-- the key schedule. Models has the power models of transform/power_analysis/tfm_aes_knownkey.c and
-- tfm_aes_intermediate.c. Field is about the tables, Rounds about the round functions, LastRound
-- about the models of one guessed key byte, KnownKey about the loop over the steps of the cipher.
-- Types: `struct trace` of include/trace.h.
-- Ways and Cache: lib/trace/cache.c. Ways has the loops over the ways of one set
-- (`__update_lru`, the scans of `tc_lookup` and `tc_deref`, the two passes of `tc_store`), Cache the
-- operations `tc_cache_manual`, `tc_lookup`, `tc_store`, `tc_deref` and `tc_free`, and Cache/Sizing
-- `__find_num_traces` and `ts_create_cache`, whose loop takes the size in bytes as fuel, since every
-- turn adds a byte at least. Below Ways, Lru is
-- about the ranks, Choice about the way that a store takes, Slots about what the ways hold. Below
-- Cache, Invariant has the invariant and the abstract view, a map from indices to traces; Lookup,
-- Store and Deref prove the operations against it, Fresh that a new cache has it; Users has the
-- reference counts, and Locks follows the semaphores.
-- Traces: `trace_get` and `trace_free` of lib/trace/trace.c. `ts->tfm->get` and
-- `ts->backend->read` are one argument, since a set has one or the other.
-- Transforms: transform/tfm.c, the copies that the transformations share, over an interface of the
-- set before, which Traces/Uncached fills with `trace_get` and `trace_free` of a set without a cache.
-- Kinds has tfm_nop.c, tfm_narrow.c, tfm_append.c, tfm_split_tvla.c and tfm_verify.c. Copies is about
-- the copies, Gets, Ranges and Filters about what the transformations give. Duplicate has
-- `trace_copy` of lib/trace/trace.c, and is about it.
--
-- Files: the C library's files, as a monad over the bytes, the position and the place
-- past which an `fwrite` comes back short;
-- Places is about reading and writing at known places.
-- Headers: the tagged headers of lib/trace/backend/riscure_trs.c. Headers/Table is its table
-- all_headers; Defaults is about the headers of a new file, Tags about one header, Turns about the
-- loop of `__num_headers`, whose fuel is one turn more than the file has bytes.
-- Trs: the operations of lib/trace/backend/backend_trs.c over these headers. Trs/States says what a
-- file holds, Sizes where, Writing and Reading are about one trace, RoundTrip about a whole set, Locks
-- and ShortWrites about the lock of the file.
-- Sync: transform/system/tfm_synchronize.c, each part between two operations on the lock as one
-- function. Sync/Threads has any number of threads that take turns, as a step relation; Entries,
-- Counts and Waiting are about the lists, Invariant and Safety about all that can be reached, Stuck
-- about a thread that waits for ever.
-- Save: transform/system/tfm_save.c over Trs. Save/Commits is about what the commit thread writes,
-- Save/Exit has the end of the commit thread and of `__tfm_save_exit` as a step relation.
-- Block: transform/tfm_block.c over the record of a consumer, with any interleaving of its parts as
-- a relation; Gets has `__block_finalize` and `__tfm_block_get`. Lists is about the searches,
-- Invariant and Finals about what holds of the list, Turns about the loop of `__tfm_block_get`,
-- whose fuel is one turn more than the set before has traces, Returns about its end, Singles about
-- calls in order.
-- Sockets: lib/platform/platform_socket.c and lib/platform/secure_socket.c over arguments for the
-- system calls, zlib and OpenSSL. Transfers is about the loops, whose fuel is the number of bytes,
-- Lengths about the encrypted transfers.
-- Net: lib/trace/backend/backend_net.c over Sockets; Reads is about what a read gives. Net/Export
-- has the thread of lib/trace/frontend/export.c that serves a connection, and Serving is about the
-- traces that it holds.
-- Render: lib/trace/frontend/render.c, the controller of `ts_render` and its workers as a step
-- relation. Shapes says how a worker can look, Invariant what holds of all of them, Search, Ending and
-- Control that the controller keeps it; Work has a measure that each part makes smaller, Reach and
-- Ends are about whole runs, and Turns computes the run of a list of turns.
--
-- Conventions. The four parallel arrays of a cache set are one list of ways. Arrays are lists, a
-- pointer to a trace is the trace with its address. A `float` is its bit pattern where it is only
-- moved; its arithmetic is a parameter. Machine counters wrap where they are written with `inc_u8`,
-- `dec_u8` and `inc_size`. An allocation that can fail is an argument of the call. Messages that go
-- to stderr are left out, and so are arguments that are NULL where the source only returns
-- `-EINVAL`.
--
-- Not modelled: the dump of the headers, the compressed file format, the controller of
-- lib/trace/frontend/export.c, the statistics and pattern matching (floating point, AVX and CUDA),
-- the correlations, the waiting and alignment transformations, `__render_to_index` of tfm_save.c,
-- the visualiser, the command line, and the linked list of include/list.h, which is a copy of
-- another project's.
pub mod Base
pub mod Aes
pub mod Types
pub mod Ways
pub mod Cache
pub mod Traces
pub mod Transforms
pub mod Files
pub mod Headers
pub mod Trs
pub mod Sync
pub mod Save
pub mod Render
pub mod Block
pub mod Sockets
pub mod Net
