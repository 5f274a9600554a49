-- ===== src/Lib.antt =====
-- SisyphusDB is a replicated key-value store in Go: Raft (raft/) orders the commands, and a
-- log-structured store (kv/, pkg/, sstable/) applies them. A client's command enters the log of the
-- leader by `Start`; the leader replicates it with AppendEntries; when a majority has it the commit
-- index moves, and `applier` hands the entry to the store, which puts it into a table in memory that
-- keeps its keys and values in an arena. A full table is flushed to a file, and four files of a level
-- are merged into one of the next. At a start the store also replays a write-ahead log of its own.
--
-- The modules:
--   Prelude        what the components share: Boolean tests, lists, results, integers, byte strings
--                  with `binary.LittleEndian` and `io.ReadFull`
--   Arena          pkg/arena/arena.go: NewArena, Put, Get. RoundTrip is about one entry, Sequence about
--                  a series of Puts
--   StorageWal     pkg/wal/wal.go: OpenWAL, Write, Recover, with CRC-32 (Checksum)
--   Store          kv/store.go and kv/lib.go: applyInternal, RotateTable, checkTable, Put, readAppliedLogs,
--                  and the part of Get over the tables in memory. Index has the map from keys to
--                  offsets, Lookup one table, Apply one command, Memory the messages one after the other
--                  and the abstract map, Client the way of a command through the log. Put is two
--                  definitions, `propose` up to the end of Start and `await` from the lock of the
--                  store on, since other goroutines can run between the two. Disk has the
--                  rest of Get, CreateSSTable, FlushWorker and refreshSSTables; Refresh is about
--                  directories that open, Keys, Items and Written about the file of a flush, Flush and
--                  Stale about Get behind it. Start is NewKVStore, with the
--                  number of the log that FindActiveFile finds as an argument; Replay is about it
--   Compact        kv/compact.go: getFilesForLevel and CheckAndCompact. Steps and Ends
--                  are about the loop of the merge, Lists, Keys and Round about a merge of lists,
--                  Merge and Streams about what the merge keeps, Level about a run on the directory
--   Bloom          pkg/bloom/bloom.go: New, Add, MaybeContains, Load; murmur3 is a parameter
--   Sstable        sstable/builder.go and sstable/iterator.go: the file of a table on disk, with the
--                  filter of Bloom in it; Reader is sstable/reader.go. Build, Suffix, Block and Lookup
--                  are about the reader on a file of the builder
--   RaftWal        raft/raft_wal.go: AppendEntries, PersistHardState, RecoverEntries
--   Raft           the consensus module; Raft/Examples has its witnesses
--     Node           raft/raft.go: the state of a node, Start, GetLeader and Make
--     Invariant      the order of the commit and apply indices and the log
--     Persist        raft/persist.go: persist, persistState, readPersist. Restart and Replaced
--                    are about Make behind it
--     AppendEntries  raft/appendEntries.go: the handler of the call
--     Leader         raft/appendEntries.go: sendHeartBeats, the arguments of a call, the handling of
--                    its reply and the commit rule
--     RequestVote    raft/requestVotes.go: the handler of the call
--     Election       raft/raft.go: startElection, the counting of votes, ticker
--     Applier        raft/raft.go: applier
--   Rpc            api/raft_server.go, with sendRequestVote of raft/raft.go and sendAppendEntries of
--                  raft/appendEntries.go: the messages of proto/raft.proto and the two handlers
--
-- Names are those of the source in lower case with underscores: `handle_reply` and `become_leader`
-- name parts of functions that the source does not name. A handler is a function of its arguments and
-- the node, and returns the reply and the node; `none` or `panic` is a fault of the program, such as an
-- index out of range. The mutex makes each handler one step, so goroutines are sequences of steps. The
-- time and the timeouts are arguments. The peers are the numbers below `peers`; `match_index` and
-- `next_index` are functions of the peer. Commands, keys and values are byte strings. A `-1` of the
-- source is the integer -1 of ℤ, and a conversion to `uint32` or `uint64` wraps.
--
-- A file is the list of its bytes, with the position of the descriptor where the code uses one. Writes
-- succeed, and a crash shows as a file that ends inside a record.
--
-- The loops: `recover_loop` of both logs runs on fuel, the length of the file and one more, which is
-- enough since a round takes a byte at least; the theorems on recovery state what the loop returns with
-- this fuel. `parse_index`, `search_index` and `scan_block` of the reader run on the length of what
-- they read or search, which each round makes smaller; `stuck` is the end of the fuel. The merge of a compaction
-- runs on the bytes that its iterators have left and one for each, since a round reads a header at
-- least. `decimal` runs on the number and one more, and takes a digit a round. All other loops are
-- recursions over the list or the index that the source counts.
--
-- Bounds: a field of a record is below 2^32 or 2^64 where a theorem says so; the indices of a node in
-- memory are natural numbers, as a log of 2^63 entries does not occur. One `File.Read` reads 1 GB at
-- most, as the `os` package does, and otherwise all that it is asked for or all that is left.
--
-- A message has `int32` numbers, and a node natural ones: a call with a negative term or index, which no
-- node of the model sends below 2^31, is outside the model, and Rpc has `none` for it.
--
-- `json.Marshal` and `json.Unmarshal` are parameters, since encoding and decoding of commands is the
-- library's.
--
-- `refreshSSTables` opens all files. Its readers are read by nobody, but `OpenSSTable` panics on a file
-- with a damaged footer, and that panic is the result of NewKVStore, FlushWorker and CheckAndCompact in
-- the model too.
--
-- The tables on disk are the files of a directory, with their names and contents. A flush and a
-- compaction are one step each at a time stamp, which the name of the new file has.
--
-- Not modelled: the lock that a compaction gives back in the middle, and the flushes in between; the
-- transport of gRPC, HTTP, the command line, the metrics and the generated protobuf code; failing
-- disks; and the cluster as a whole, since the theorems are about one node, or a leader and a follower
-- and the message between them.
pub mod Prelude
pub mod Arena
pub mod StorageWal
pub mod Store
pub mod Bloom
pub mod Compact
pub mod Sstable
pub mod RaftWal
pub mod Raft
pub mod Rpc
