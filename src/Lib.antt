-- ===== src/Lib.antt =====
-- FrenzyKV, a key-value store on log-structured merge trees: the serialized form of its entries,
-- the blocks that its tables are made of, and the pure core of the components around them. A write
-- is a write_batch of entries, whose sequence numbers come from the snapshot_center; batches are
-- serialized to the write-ahead log and kept in the memtable; a full memtable is written as an
-- sstable, which is a sequence of blocks with a Bloom filter; compaction merges tables of one level
-- into the next, and a version_delta tells which files a new version has.
--
-- Files, with the part of the repository that each models:
-- - Prelude, Prelude/*: Boolean tests, lists over the native numbers, and Result, the outcome of a
--   run: a value, undefined behaviour (out_of_bounds), a failed toolpex_assert, an exception, or a
--   loop of the model that ran out of fuel (stuck).
-- - Bytes: byte strings, reads through a pointer and writes into a span. Bytes/Endian: the integer
--   coding. Bytes/Order: memcmp_comparator of util/comp.cc.
-- - Kv/Key, Kv/Value, Kv/Entry: sequenced_key, kv_user_value and kv_entry of
--   include/frenzykv/db/kv_entry.h and db/kv_entry.cc, with kv_entries_from_buffer. Kv/Wire
--   describes the bytes that they are written as, Kv/RoundTrip, Kv/Scan and Kv/Termination the
--   reading, Kv/KeyOrder the comparison of keys.
-- - Snapshot: snapshot_center of include/frenzykv/db/snapshot.h and db/snapshot.cc.
-- - WriteBatch: write_batch of include/frenzykv/write_batch.h and util/write_batch.cc.
-- - Bloom: bloom_filter of util/bloom_filter.cc.
-- - Block/Segment, Block/SegmentBuilder, Block/Builder, Block/Reader: block_segment,
--   block_segment_builder, block_builder and block of include/frenzykv/persistent/block.h and
--   persistent/block.cc.
-- - Block/Decompress: block_decompress, block_decompress_to and approx_block_decompress_size.
--   Block/Integrity, Block/PrefixTests: what the reader's tests say. Block/Items,
--   Block/SegmentRoundTrip and Block/Termination: the format and the reading of a segment.
--   Block/Layout, Whole and Content: the format and the reading of a block. Block/Steps, Building,
--   Growing, Run and Carrying: what the block builder holds after each entry. Block/RoundTrip:
--   builder and reader together.
-- - Compressor, Compressor/Zstd, Compressor/Empty: util/compressor.cc; Compressor/Lossless is about
--   it.
-- - SsTable: what the tables share: filter_policy of include/frenzykv/db/filter.h, the filter of
--   util/empty_filter.cc, the names and the magic number. SsTable/Builder, SsTable/Reader,
--   SsTable/Lookup, SsTable/Files: sstable_builder and sstable of table/sstable_builder.cc,
--   table/sstable.cc and their headers, over the files of io and the blocks, and finsert of
--   table/table_cache.cc. SsTable/Blocks and Pieces: the data blocks in the file. SsTable/Limits:
--   the bounds of a table. SsTable/Filling, Adding, Sorted, Meta, Ending and Closing: what the
--   builder has written. SsTable/Opening and Reading: what the reader makes of it.
--   SsTable/RoundTrip: both together.
-- - Memtable: memtable of include/frenzykv/table/memtable.h and table/memtable.cc.
-- - Compaction, Compaction/Tables: compactor::merge_two_tables and merge_tables of
--   persistent/compaction.cc.
-- - Compaction/Policy: the level bounds of util/options.cc, need_compaction of db/db_local.cc, and
--   the policies persistent/compaction_policy_oldest.cc and compaction_policy_tombstone.cc. The
--   times and sizes of the files and what the environment opens for them are parameters.
--   Compaction/Policy/Choice is about them.
-- - Version: version_delta and version_rep of include/frenzykv/db/version.h and db/version.cc, with
--   file_rep's order of include/frenzykv/util/file_rep.h. Version/Center: version_guard,
--   mutable_version_guard and version_center. Its versions are nodes with addresses, its guards
--   slots that hold an address; Version/Center/Steps is the step relation, Version/Center/Counting,
--   Garbage, Adding, Invariant, Reachable and Safety its theory.
-- - Version/Descriptor: db/version_descriptor.cc over the files of io. Version/Descriptor/RoundTrip
--   and Number are about it.
-- - FileCenter: file_center of util/file_center.cc and the reference counts of
--   include/frenzykv/util/file_rep.h; a pointer is an address. FileCenter/Safety is the step
--   relation and its theory.
-- - Io/Buffer: buffer of include/frenzykv/io/inner_buffer.h. Io/InMem: in_mem_rw of
--   include/frenzykv/io/in_mem_rw.h and io/in_mem_rw.cc. Io/Writable, Io/Readable: iouring_writable
--   and iouring_readable of io/, over Io/Kernel, what koios and the kernel do with a file.
-- - Log: write_ahead_logger and recover of log/write_ahead_logger.cc.
-- - Db: db_local of include/frenzykv/db/db_local.h and db/db_local.cc: insert, get and init.
--   Db/Write, Db/Levels, Db/Lookup and Db/Recovery are about them. Tables is what it takes to read
--   the table of a file.
-- - Tests: examples.
--
-- How the code is rendered. Functions of the source keep their names. A method is a function of its
-- object and returns the new object; a string or span that is written into is an argument and a
-- result. A pointer into a serialized buffer is the rest of the buffer from there on, or an offset
-- in it, and a read behind its end is out_of_bounds. A generator is the list of what it yields.
-- Integers wrap around at their width where they are stored in a field, an atomic or a shorter
-- type; a size_t that counts bytes in memory does not. The algorithms of the standard library that
-- the source calls (merge, unique, sort, set_difference, remove_if, memcmp) are written out.
--
-- Parameters. The skip list of the memtable is the instance argument SkipList: its pairs are sorted
-- by key, and find_last_less_equal finds the last one that is not larger. The integer coding of
-- toolpex is the instance argument BigEndian with its documented format; what koios and the kernel
-- write and read is Kernel; the order of toolpex::uuid is UuidOrder; the hash of the filter and the
-- CRC-32C function are function arguments; the functions of zstd are a record, ZstdLib, and the
-- blocks and tables take their compressors as one, too; a table takes its filter as a record of
-- functions, as the policy is a class of virtual ones; std::stoi and the reading of a uuid may
-- fail; the capacity that the library gives a string is an option of the blocks; the state that a
-- move leaves an entry in is an argument, as is the memory that an allocator gives.
--
-- Fuel. The retry loop of Db.insert takes its fuel as an argument: two rounds are enough for a
-- batch that an empty memtable has room for, none are for any other. The scan of entries has a
-- round for each byte of the buffer, which is enough on every buffer. The merge of tables has a
-- round for each table. The loops over a segment's items and over a block's segments have a round
-- more than there are bytes, that over the blocks of a table a round more than the bytes before the
-- meta block.
--
-- Not modelled: the LRU cache of tables and the getters over it, the moves of an sstable_builder, a
-- table without a file, the hash and the equality of tables, the loading of the file center and the
-- unlinking of files, the compaction and the closing of db_local, its mutexes and background tasks,
-- the JSON form of options, environment, file locks, statistics and debug output; of compaction the
-- writing of the merged list.
pub mod Prelude
pub mod Bytes
pub mod Kv
pub mod Snapshot
pub mod WriteBatch
pub mod Block
pub mod Bloom
pub mod Compaction
pub mod Memtable
pub mod Version
pub mod Compressor
pub mod SsTable
pub mod FileCenter
pub mod Io
pub mod Log
pub mod Db
pub mod Tests
