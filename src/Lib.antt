-- ===== src/Lib.antt =====
-- A verification of kuttidb's core: the queue engine and the cache of a C server.
--
-- The program. kuttidb is a server that keeps a sharded hash cache (src/kuttidb.c), durable message
-- queues with exchanges (src/queue.c), streams and jobs in one process, behind a binary protocol
-- and an admin interface. The queue engine keeps its queues in memory and writes each durable
-- change to a write-ahead log: a call appends its record, changes memory, and is acknowledged when
-- an fsync has covered the record. Exchanges route a message to queues by bindings; messages that
-- expire, are rejected or use up their deliveries go to a dead-letter queue.
--
-- The files.
--   Base: names that all modules share, Boolean tests, lists over native numbers, machine words.
--   Topic: src/queue.c, topic_word_count, topic_word_at and topic_matches. Topic.Spec has the meaning
--     of '*' and '#' as a relation on lists of words.
--   Wal: src/queue.c, append_record_ex, sync_log and q_wait_durable_locked. A record is a value, and
--     the list `disk` says how each write and each fsync turns out, and the field `fsynced` is what the
--     last successful fsync covered, which the code does not know. Wal.Codec has the bytes of a record
--     of a queue or an exchange, and how replay_log reads one.
--   Queue: src/queue.c, the structures Message, Queue, Exchange and QueueStore, find_queue and
--     create_queue. Queue.Messages has message_link, append_message, remove_message and
--     purge_queue_locked; Queue.DeadLetter has dead_letter_locked; Queue.Reap has reap_queue_locked;
--     Queue.Publish, Queue.Consume, Queue.Settle and Queue.Admin have the calls that their names say.
--     Queue.Places has what it is for a message to be taken out of a list, changed in its place or new
--     at the end, by itself; Queue.Steps has runs of calls; Queue.Logging has what calls do to the log.
--   Exchange: src/queue.c, exchange_declare, exchange_bind, exchange_unbind_checked,
--     exchange_delete_if_revision, exchange_set_alternate_if_revision (Exchange.Admin),
--     exchange_resolve_locked and exchange_publish (Exchange.Route).
--   Replay: src/queue.c, replay_log's loop (Replay.Run), apply_declare, apply_ack, apply_delivery,
--     apply_requeue, apply_purge and apply_delete (Replay), apply_exdeclare, apply_exbind,
--     apply_exdelete and apply_exupdate (Replay.Topology). Replay.Spec has what a durable queue keeps
--     and what each record means for it, by itself; Replay.Refines and Replay.Whole compare the two,
--     and Replay.Recovery and Replay.TopologyRun compare the calls that wrote the log.
--   Cache: src/kuttidb.c, kuttidb_vec_reserve, kuttidb_expiry_from_ttl and entry_alloc's classes;
--     Cache.Shard has kuttidb_put_abs, get_common, kuttidb_delete and maybe_resize under the lock of
--     one shard; Cache.Shard.Served has the tables that find every key.
--   Stream: src/stream.c, append_memory, part_link and trim_part; Stream.Retention has enforce in
--     memory; Stream.Steps has runs of the two. Stream.Group has group_reap_locked,
--     group_owners_locked, member_assigned_locked, stream_group_join, stream_group_leave_member and
--     stream_group_member_assigned; Stream.Group.Runs has runs of joins and leaves.
--   Tests: runs and concrete values.
--
-- The state. A linked list is a list, and a pointer into one is the id of the message or the name of
-- the queue. The hint `ready_hint` cuts a queue's list in two. A function that returns an error code
-- returns a Boolean, an option or a data type with one constructor for each code. A call is a
-- function from the store to the store and its result; a queue that a call works on is taken out by
-- name and written back. Calls run one after another: the locks that other threads may hold are an
-- argument of the calls that use `trylock`, and the clocks are arguments too. 64-bit and 32-bit sums
-- wrap where the code's do; the counters of objects in memory do not reach their width.
--
-- Bounds. Three loops recurse on fuel. The loop that grows a vector is given as many rounds as
-- bytes are asked for, and each round adds a byte at least. The two loops of a retention pass are
-- given as many rounds as the partition or the topic has records, and each round frees one. All
-- other loops follow a list. Theorems on ids say that the ids do not run out during the call.
--
-- Not modelled: memory that cannot be allocated, the log's buffer and preallocation (the bytes
-- that a failed write leaves in the buffer and a later one may still write), checkpoints, the loop
-- that reads the bytes of a log and its truncation of a corrupt tail, the records of transactions,
-- consumers and jobs, transactions, batch calls, the log of streams and its compaction, the
-- identities, fetches and offsets of streams, jobs, the cache's eviction, sweep and shared-memory
-- mode, the protocol, the admin interface and the operating system. The delivery-tag index is read
-- as the list of messages that it indexes.
mod Base
pub mod Topic
pub mod Wal
pub mod Queue
pub mod Exchange
pub mod Replay
pub mod Cache
pub mod Stream
mod Tests
