-- ===== src/Lib.antt =====
-- kafko: an embedded log with topics, partitions and consumer groups, written in Rust. This library
-- models the crate crates/kafko, the handlers of crates/kafko-http and the scenarios of
-- crates/kafko-bench.
--
-- The parts, from the bottom up, and the files that model them (sources are under
-- crates/kafko/src/):
--   Base                shared names, lists over the native numbers, byte strings, dictionaries
--   Error               error.rs: KafkoError, and `Result` with panics as a value
--   Compression         compression.rs: flags, codecs, the cap on a decompressed value
--   Record              record.rs: the frame of a record, encode and decode
--   Exec, Disk, Search  code that changes a state and may fail; the files of a partition directory
--                       and what the system calls on them return; slice::binary_search_by_key
--   SparseIndex         sparse_index.rs: the index of a segment and its file
--   Segment             segment.rs: one log file with its cached cursor
--   Log                 log.rs: segments, rotation, append, read; Log/Scan has its loops,
--                       Log/Retention the deletion of old segments, Log/Open the recovery
--   OffsetStore         offset_store.rs: the committed offsets of a consumer group
--   Partition           partition.rs: the commands of the writer task, the draining of its mailbox
--                       into batches, its replies and the high-water mark; Partition/Loop has the
--                       task's loop as a list of events, Partition/Handle the handle,
--                       Partition/Served a consumer's read through the loop, which signals late
--   Topic               topic.rs and position.rs: the layout check, the partitions, the routing of
--                       records by key and round robin; Topic/Wakeup the signal to consumers
--   Consumer            consumer.rs: cursors, the pass over the partitions, group commit; Consumer/Park
--                       the turns of next_with_position, Consumer/Delivery passes in a row
--   Producer            producer.rs: routing of single records and of batches; Producer/Buckets and
--                       Producer/Batch the two passes of a batch; Producer/Logs has logs as the
--                       partitions of the producer and the consumer
--   Broker              broker.rs: the registry of topics, the handles on them, the directory lock
--   Http                crates/kafko-http/src/main.rs: the topics of the server and its two
--                       handlers
--   Bench               crates/kafko-bench/src/main.rs: the settings and the scenarios of the benchmark;
--                       Bench/Tasks the tasks of the concurrent one
--   Examples            a concrete platform, and the theorems run on concrete data
--
-- How the code is read. A method that takes `&mut self` is a function from the object and the
-- directory to a result and both of them afterwards (Exec); `?` leaves the state as it is at that
-- point. `panicked` stands for a panic (an expect, a slice or a buffer read out of bounds) and
-- `out_of_fuel` for a loop of the model that had too few rounds. The codecs lz4_flex and zstd, the
-- checksum of crc32fast and the Cargo features of the build are the fields of a `Platform`;
-- `IsLawful` states what their documentation promises: a checksum of 32 bits, and that
-- decompression undoes compression. `SparseIndex::open`, `Segment::open` and `Log::open` are called
-- `open_existing`, `OffsetStore::open` is `open_store`, `Topic::create` and `Topic::open` are
-- `create_topic` and `open_topic`, `Consumer::commit` and `Consumer::seek` are `commit_positions` and
-- `seek_to`, `Kafko::open`, `Kafko::topic` and `Kafko::partition_count` are `open_kafko`, `get_topic`
-- and `topic_partition_count`, `Topic::shutdown` and `Partition::shutdown` are `shutdown_topic` and
-- `shutdown_partition`, `Partition::read_record_at` is `read_record`.
--
-- The directory of a partition is two dictionaries, of the .log and of the .index files, by the base
-- offset that names them. A list of faults gives the outcome of each system call to come: success,
-- an error (a failing write has put some bytes into the file before it), or a short read; a disk
-- with an empty list is calm, all its calls succeed. fsync changes nothing that the program reads
-- back. Offsets, sizes and positions of 64 bits are natural numbers without wrap-around; the
-- conversions to 32 bits are written out with their panics, truncations and clamps. Timestamps are
-- 64-bit patterns. Buffers are lists of numbers. The scratch buffers `encode_buf` and
-- `actual_sizes`, cleared before each use, are local. The clock and the modification times are
-- arguments of `apply_retention`, both from the epoch on and below 2^63; `is_expired` has the
-- conversion of the age to 64 bits with a sign, which turns an age from 2^63 on into a negative one.
-- Durations are whole milliseconds. A period of zero of the retention tick makes the writer task
-- panic before its first command.
--
-- Fuel: the loops over the records of a buffer have as many rounds as the buffer has bytes, which is
-- enough because a decoded record takes at least 25; the retention loops have one round more
-- than there are segments, and each round but the last deletes one.
--
-- `Log.Content.Represents p l d base rs` says that the log `l` on the disk `d` holds the records
-- `rs`, the first at offset `base`: each segment's file is the frames of its records, its index file
-- is its entries, each entry points at the start of a record, and no file lies past the active one.
-- The theorems on log.rs are stated over it. Log/Recovered and Log/Reopen are about a directory that
-- a crash has left (`IsCrashed`), Log/Retained and Log/Expire about the deletion of old segments.
--
-- The mailbox of a partition is the list of commands that wait in it; a reply channel is a number.
-- A partition is a parameter of the models of topic.rs, producer.rs and consumer.rs, and so are the
-- calls that open, read and append to one. Producer/Logs fills the calls that read and append with
-- the operations of log.rs, and what the theorems on batches, sends and passes want of them with the
-- theorems on log.rs; Partition/Served fills the call that reads with the loop of the writer task.
-- What other tasks do while a consumer scans is part of that call, and of `meanwhile` before it awaits:
-- the writer answers a read first and signals afterwards, so its signal may come at any later point.
--
-- Log/Steps and Log/Enough are for disks whose calls fail: `Leads l P x` says that the outcome `x` of a
-- call on the log `l` is a success that satisfies `P`, or a failure that leaves the next offset and
-- the configuration, and `IsEnough` that no loop of the model was short of rounds. Partition/Does has
-- the same for the writer task, `Ends` for its loop.
--
-- The writer task is a list of events: a command arrives, the task takes one from its mailbox, the
-- retention tick fires, the mailbox is closed. tokio's `Notify` is a record of operations, and
-- `IsNotify` says what its documentation promises. A handle on a topic is counted where the source
-- clones the `Arc`; the calls of broker.rs on directories, the lock file and partitions are the
-- fields of a `System`, and a method that releases the registry's lock on the way is written as the
-- sections that it runs under the lock.
--
-- Not modelled: tasks and channels as such, the `Drop` of broker.rs, the listener and the environment
-- of the HTTP server, the hotpath instrumentation, the measured time and the printed text of the
-- benchmark and what its `main` does around the scenario, and the benchmarks under
-- crates/kafko/benches, which only measure.
pub mod Base
pub mod Error
pub mod Compression
pub mod Record
pub mod Exec
pub mod Disk
pub mod Search
pub mod SparseIndex
pub mod Segment
pub mod Log
pub mod OffsetStore
pub mod Partition
pub mod Topic
pub mod Consumer
pub mod Producer
pub mod Bench
pub mod Broker
pub mod Http
pub mod Examples
