-- ===== src/Lib.antt =====
-- Databases for flash memory: the crate's core, its key-value engine and its time-series engine.
--
-- The program. src/kvdb.rs keeps nodes (a 24-byte header, a key and a value) in a ring of
-- sectors on a medium that it reaches through the `Storage` trait of src/storage.rs. A node and a
-- sector carry status words (src/status.rs) that only ever lose bits, so a change of state is a
-- one-byte program operation (src/flash.rs), and a node carries a CRC-32 (src/crc32.rs).
-- src/db.rs checks the geometry and src/def.rs has the constants and states. src/tsdb.rs, the
-- time-series engine, stands on the same helpers: a sector has index records of 16 bytes that rise
-- behind its header and data that fall from its end; logs are appended with rising time stamps and
-- listed in storage order, in reverse, or by a range of times, which starts with a binary search.
--
-- The files.
--   Base, Base/*      numbers and lists as the code uses them, machine words with their
--                     wrap-around, bit operations, the tests `ltb`, `leb` and `==`, and state
--                     passing: `Cmd S A` is a call on a mutable object of type `S`, and `try` is
--                     the operator `?`.
--   Def, Def/*        src/def.rs: constants and the status enumerations, with `from_index` and
--                     `index` for the casts.
--   Crc32, Crc32/*    src/crc32.rs: `calc_crc32` with its table; the bit-by-bit reference (Reference), and
--                     that a changed byte shows (Reference/Detect).
--   Status, Status/*  src/status.rs: `set_status`, `get_status`.
--   Db, Db/*          src/db.rs: `validate_geometry`, `DefaultKv`.
--   Storage           src/storage.rs: the trait as a record of its three operations over the
--                     backend's state; a read also returns the caller's buffer.
--   Storage/Bytes     a medium as a function from addresses to bytes.
--   Storage/Laws      `IsByteArray`, what the engine relies on of a backend that does not fail.
--   Storage/Ram       `RamStorage`, and its proof of those laws.
--   Storage/Files     `FileStorage`, one file for each sector, over the calls of `std::fs`.
--   Storage/Files/*   those calls as a record with the laws that `FileStorage` relies on (System),
--                     the names of the files (Names), the cached handles (Cache), the accesses to a
--                     file (Access, Erase), all operations (Laws), opening again (Reopen), and a
--                     file system in memory (Memory).
--   Storage/Sectors   `IsSectors`, what a backend with sectors of their own does.
--   Flash, Flash/*    src/flash.rs: `write_status`, `read_status`, `continue_ff_addr`,
--                     `write_align`.
--   Flash/Wrote       what a write that succeeds leaves on a byte array, for the proofs.
--   Kvdb/Types        the records of src/kvdb.rs and its constants.
--   Kvdb/Record       `read_kv`, one definition for each of its stages.
--   Kvdb/Next         `find_next_kv_addr`, `get_next_kv_addr`.
--   Kvdb/Sector       `read_sector_info`, `format_sector`, `get_next_sector_addr`.
--   Kvdb/Walk         the two loops that the operations share, over the ring of sectors and over
--                     the nodes of a sector; each operation is a body of them.
--   Kvdb/Alloc        `count_sectors`, `alloc_scan`, `alloc_kv`, `update_sec_status`.
--   Kvdb/Find         `find_kv`, `del_kv`.
--   Kvdb/Gc           `move_kv`, `do_gc_one`, `gc_collect_by_free_size`.
--   Kvdb/Create       `new_kv`, `create_kv_blob`, `set_default`.
--   Kvdb/Load         `find_oldest_addr`, `kv_load`, `recover_one_kv`, `with_options`.
--   Kvdb/Api          `set`, `del`, `get`, `get_vec`, `get_obj`, `get_str`, `check`.
--   Kvdb/Lookup       a sector as a list of nodes, and the value of a key in a list of nodes.
--   Kvdb/Lookup/*     the proofs on `get_vec`, `set` and `iter_collect`: the search for the next node
--                     (Next), the walk over a sector (Sector), the ring and the rule for walks over
--                     it (Rule, Ring), the traversal that measures a sector (Measure), the
--                     allocation (Place, Allocate), the ring after a node was added and its values
--                     (Grow, Circle, Grown), `set` (Set), and the iterator: the walk to the next
--                     valid node (Live), its rounds (Iter, After), the list (Collect), and the list
--                     against `get_vec` (Agree).
--   Kvdb/Iter         `iterator`, `iterate`, `iter_collect`.
--   Tsdb/Types        the records of src/tsdb.rs and its constants.
--   Tsdb/Sector       `read_tsl`, `read_sector_info`, `format_sector`, `get_next_sector_addr`,
--                     `get_last_sector_addr`.
--   Tsdb/Append       `write_tsl`, `update_sec_status`, `tsl_append`, `append`, `append_with_ts`,
--                     `set_status` (here `set_tsl_status`), `read_log`.
--   Tsdb/Append/*     the proofs on appending: a log as it stands on the medium (RoundTrip), a
--                     sector as a list of logs (Stored), the open sector (Room), many appends and
--                     the walk over them (Refines), the order of times (Order), refused appends
--                     (Refused), the descriptor built from the medium (Recover, Reopen), an empty
--                     sector (Fresh, Format), and the change to the next sector (Close, Turn, Roll).
--   Tsdb/Walk         the loops that the queries share, over the ring of sectors and over the logs
--                     of a sector; Tsdb/Walk/* has what they list and that they end.
--   Tsdb/Search       `search_start_tsl_addr`; Tsdb/Search/* has what it finds.
--   Tsdb/Query        `collect`, `collect_reverse`, `collect_by_time`, `query_count`, `iter`,
--                     `iter_reverse`, `iter_by_time`, `max_blob_count`.
--   Tsdb/Init         `init`, `clean`, `with_options`, `new`, `set_rollover`.
--   Tsdb/Frame        what the operations leave alone.
--   Tsdb/Examples/*   the theorems on src/tsdb.rs applied to a medium with three logs.
--   */Tests           runs and applied theorems.
--
-- Correspondence. A method on `&mut self` is a `Cmd (Kvdb S)` or a `Cmd (Tsdb S T)`, with the
-- backend's state in the field `storage`; an ignored result (`let _ =`) is a component that is not used, an early return
-- is the branch of a test, and an out-parameter is a component of the result. Arithmetic on `u32`
-- wraps as in a release build; differences that the source guards stop at 0. An `i32` time is an
-- integer; the closure `get_time` of the time-series database is a call on the state `clock`, which
-- `append` takes as an argument, since the closure is the caller's code. The callbacks of `iter`
-- are arguments in the same way.
--
-- Bounds and fuel. A walk over the ring makes at most `max_size / sec_size + 1` rounds: each round
-- adds a sector to `traversed_len`, and the walk ends above `max_size`, as long as no sum exceeds
-- 32 bits. A walk over the nodes of a sector takes `sec_size + 1` rounds, since each node lies
-- above the one before it. The loops over windows and chunks take as many rounds as the bytes of
-- their range. The recovery loop of `kv_load` has no bound in the source: `recover_loop` takes its
-- fuel from the caller of `with_options`, and returns `none` if it is used up. In the time-series
-- engine the walk over the ring has the same number of rounds, the walk over the logs of a sector
-- `end_idx + 2`, the binary search a round for each byte of its range, and the loop of
-- `read_sector_info` `sec_size + 1`.
--
-- Not modelled: the file system itself (its calls are a parameter); `dump` and `print`
-- (text output); `Display` for errors; the accessors that only return a field; tests and examples.
pub mod Base
pub mod Def
pub mod Crc32
pub mod Status
pub mod Db
pub mod Storage
pub mod Flash
pub mod Kvdb
pub mod Tsdb
