-- ===== src/Lib.antt =====
-- lsmlite is a storage engine with a log-structured merge tree: writes go to a write-ahead log
-- and to a red-black tree in memory; a full tree waits in a queue until it is written to a file of
-- sorted records, whose index (a trie and a bloom filter) is kept in memory; files are merged in
-- the background.
--
-- The parts, the files that model them, and the code:
--   Base        bytes, keys, lists and Boolean tests that the parts share.
--   Util        src/util/mod.rs: varints and big-endian reads.
--   Record      src/memtable/record.rs: a record's bytes with the ranges of key and value, and
--               its updates in place.
--   Disk        src/disk/: the encoders, the decoder, the layout as an independent description,
--               and the reads of one record from a file.
--   Wal         src/wal/mod.rs: the log's buffer, its flush and its replay.
--   Trie        src/ssindex/trie.rs: the index from keys to offsets, and its bytes.
--   Bloom       src/sstable/bloom_filter.rs: the filter, and its bytes.
--   Memtable    src/memtable/inner.rs and src/memtable/mod.rs: the arena, the descent, the
--               rotations and the repair of the colours, queries, and the table with its log.
--   Sstable     src/sstable/ and src/ssindex/mod.rs: both writers of a file, opening it, searching
--               it, iterating over it, and the cache of open files.
--   Immutable   src/memtable/immutable.rs: the queue of full tables.
--   Config      src/config/mod.rs: the settings, their defaults, and settings by name.
--   Restart     src/restart/mod.rs: the files of a directory by name, sorted by the time in it.
--   Database    src/database/inner.rs: reads and writes across the layers, the opening (with
--               src/restart/worker.rs), and the writers and background tasks as steps on one state
--               (with the tasks of src/memtable/inner.rs and src/compaction/mod.rs).
--
-- Conventions. Functions keep their names in the code. Code that can panic returns an `Option`,
-- and `none` is the panic; an `Err` that the code returns is a value. The release build is
-- modelled: debug assertions are off. A subtraction below zero is `none` where the code would use
-- the result as an index or a size. Numbers of the code are naturals, with `% 2 ^ w` written where
-- the code wraps; a bit operation is division, remainder and addition, or recursion on digits. A
-- file is the list of its bytes, a `write` appends all of its argument, and a failing write is not
-- modelled. A sum of sizes is not bounded where the code adds words, and differs only past the
-- address space. A shift of `decode_varint` by the word's width or more is `none`, where the release
-- build masks it: it takes ten bytes with the continuation bit. `read` takes as much as
-- the buffer and the file have, never less, and the iteration over a table's file that is too short
-- is `none`, where the code goes on with what is in its buffer; a file that the writers finish is
-- long enough. Every reading of the clock is an argument, and so are the hasher, the rounding of the
-- number of hashes and the capacity that a writer's buffer reports; the arena of a table is taken to
-- have the capacity that it was made with. Binary search among the children of a trie node is the
-- search from the front, which has the same result when the children are sorted by their bytes.
--
-- Bounds on loops: `encode_varint` has the ten bytes of its buffer, `varint_size_from_len` ten
-- rounds, after which its own test ends it; the replay of a log has a round for each byte and one
-- more, since each record takes a byte at least. The descents in the tree have as many rounds as
-- the arena has nodes, as has the traversal that writes a table, and the repair two for each node
-- and one more.
--
-- Each operation under a lock is one step, and so is a whole write of the database, which takes
-- several locks in the code, and whose rotation queues the table before it signals. A channel is a
-- list without a bound, and a path in a signal is the file.
--
-- Not modelled: the merge and the clean-up of src/compaction/mod.rs, whose table is left open in the
-- steps; the signals that dropping a database sends; the operating system's errors, with the arms
-- that set the poisoned flag.
pub mod Base
pub mod Util
pub mod Record
pub mod Disk
pub mod Wal
pub mod Trie
pub mod Bloom
pub mod Memtable
pub mod Sstable
pub mod Immutable
pub mod Config
pub mod Restart
pub mod Database
