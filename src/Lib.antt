-- ===== src/Lib.antt =====
-- kingbus: a MySQL binlog store that replicates the events of a master through raft and serves them
-- to slaves. This library models its raft log, from the bytes of the files to the replacement of the
-- log's end; the loops that write the log and apply what raft has committed, with the cluster's
-- members and the metadata that this changes; the requests that change members; and the parts of its
-- MySQL protocol that let slaves in, and that cut, frame, classify and hand on binlog events.
--
-- The parts and how they interact:
-- - The syncer asks the master what it is and takes binlog events from it (server/binlog_syncer.go,
--   Syncer.antt); startSyncerServer of server/server.go starts it (Syncer/Server.antt). It cuts an
--   event that does not fit a packet into pieces (Divide.antt), and every event and piece is proposed
--   to raft.
-- - Raft hands entries to raft/raft.go, whose appendRaftEntries stores them in the log of
--   storage/disk_storage.go: after a change of leader it first cuts the log's end (Storage/Disk.antt).
--   The loop of Run there (Raft.antt) also sends raft's messages, and hands the committed entries to
--   the goroutine of runRaft in server/server.go, which applies them (Raft/System.antt).
-- - The log is a list of segments (storage/segment.go, Storage/Segment.antt). A segment is a mapped
--   file of records behind their lengths (storage/mmap_file.go, Storage/MmapFile.antt) with an index
--   of the positions of the raft indices (storage/index.go, Storage/IndexFile.antt).
-- - Entries that are committed go to server/apply.go: a configuration change (Apply.antt), a binlog
--   event or the gtids that the master has purged (Apply/Binlog.antt), or the arguments of a syncer,
--   each once (Apply/Entries.antt). Binlog events move server/binlog_progress.go (Progress.antt).
-- - The members of the cluster (raft/membership/cluster.go, Membership.antt) and the progress are kept
--   in storage/meta_storage.go (MetaStore.antt), which the segments' purge calls too.
-- - A change of the members is checked by server/server.go before it is proposed (Requests.antt), with
--   the helpers of server/util.go.
-- - A slave is let in by mysql/auth.go (Handshake.antt) and registers with mysql/command.go
--   (Slaves.antt).
-- - server/binlog_server.go reads the applied entries for a slave, and skips the groups of events that
--   the slave has (Dump.antt).
-- - A slave reads packets that mysql/base_conn.go frames (Packet.antt); handleBinlogDumpGtid of
--   mysql/command.go sends it each event or piece (Packet/Send.antt).
-- - mysql/trx_boundary_parser.go follows the stream of events and says where transactions end
--   (Boundary.antt).
--
-- How state and code correspond:
-- - Common.antt: lists, slices and Boolean tests; Common/Outcome.antt: Go's errors as values, with
--   `panic` for log.Fatalf, log.Panicf and slice bounds out of range. Exec.antt: an operation takes a
--   state and returns its result beside the state it leaves, after an error too.
-- - Storage/Env.antt: a parameter of the storage, the codecs of protobuf, crc32, and whether each
--   system call succeeds. IsCodec and IsHealthy state what the theorems take of them.
-- - Storage/Segment.antt: newSegment, appendRecords, readRaftEntries, needRolling, truncateSuffix,
--   changeToReadonly, close, remove, rebuildIndex and openSegment over the record Segment. The
--   predicate Holds of Storage/Segment/Represents.antt is the segment's well-formedness: its files
--   and its range are those of one list of entries.
-- - Storage/Disk.antt: FirstIndex, LastIndex, Term, Entries, SaveRaftEntries, TruncateSuffix and the
--   purge step of DiskStorage over the list of segments; the metadata store is the interface
--   MetaStorage. appendRaftEntries of raft/raft.go stands behind them.
-- - Store.antt: the keys of the metadata, and the interface by which the cluster reads and writes one;
--   MetaStore/Writes.antt fills it. Bolt.antt: bbolt as a parameter, with views in the order of the
--   keys and transactions; a key that ends in a raft index of 20 digits is its prefix and the number.
--   Gtids.antt: go-mysql's gtid sets as a parameter. MetaStore.antt has Get, Set, Delete, InitialState,
--   SaveHardState and GetFde, MetaStore/Gtid.antt the operations on gtid sets, MetaStore/LogName.antt
--   GetNextBinlogFile. `disk_metadata` is the store as the disk storage takes it.
-- - Membership.antt: RaftCluster with its maps as association lists, ValidateConfigurationChange,
--   AddMember, RemoveMember, UpdateAttributes, UpdateRaftAttributes and the readiness checks. JSON is a
--   parameter. IsSound and IsConsistent of Membership/Invariant.antt are the well-formedness;
--   Membership/Validated.antt has what the validation ensures of them.
-- - Apply.antt, Apply/Binlog.antt, Apply/Entries.antt: the methods of KingbusServer in server/apply.go
--   over the part of its state that entries change; the calls of the transport, the broadcast and the
--   waiting requests are a list of effects, etcd's raft is a parameter, and so are the decoders.
--   Apply/InStep.antt and Apply/Change.antt follow the cluster through a configuration change,
--   Apply/Range.antt and Apply/Once.antt the indices of the entries of a batch.
-- - Raft.antt: processMessages, updateCommittedIndex and MustGetAppliedIndex, and `tasks_of`, the body
--   of Run's loop for a Ready as a list of tasks. Raft/System.antt: the two goroutines as a step
--   relation over the log, the metadata store and the server's state; IsReady states what raft
--   promises of a Ready. Raft/Fits.antt and the files behind it carry the order of the indices through
--   the steps: Raft/Stored.antt over appendRaftEntries, Raft/Applied.antt over applyAll.
-- - Syncer.antt: Execute with its three rounds, preCheck, GetMasterInfo, Start and Stop of Syncer, over
--   the state of go-mysql's client, a parameter, and its channels as lists of what was sent.
--   Syncer/Server.antt: startSyncerServer behind its wait for the committed entries.
--   Syncer/Told.antt and Syncer/Started.antt follow the questions to the master and the start through
--   their states, Progress/Reset.antt the reset of the progress.
-- - Requests.antt: mayRemoveMember, the checks of AddMember, the requests and ProposeWithRetry, with
--   the transport and the proposal as parameters.
-- - Handshake.antt: writeInitialHandshake and readHandshakeResponse; the hash of a password is a
--   parameter, and so are the bytes that an array has behind a packet's end, which a slice may reach.
-- - Slaves.antt: the packet of a slave's registration, the slaves that a server knows by uuid, and how
--   a dump and a connection end.
-- - Storage/Reader.antt: the reader of DumpBinlogAt, and the flag that a start and Close set.
-- - Config.antt: VerifyBootstrap and VerifyJoinExisting of config/config.go, with the library of URLs
--   as a parameter.
-- - Progress.antt: BinlogProgress, with the readings of the clock as arguments.
-- - Boundary.antt: GetEventBoundaryType and UpdateState of TransactionBoundaryParser. Of the files
--   behind it Boundary/Stream.antt has the shapes of transactions by boundary types, Boundary/Events.antt
--   the events by header and query text, and Boundary/Documented.antt the transactions of the format in
--   the comment above the parser's states.
-- - Dump.antt: skipEvent and the rounds of DumpBinlogAt, with the reader as a function from raft
--   indices; the events that go to the channel are a list. Dump/Stored.antt reads from the log on disk.
-- - Artificial.antt: the heartbeat, fake rotate and format description events that mysql/command.go
--   sends to a slave, and the packet of its request.
-- - Concrete.antt: a small database, gtid sets, encodings, files and a server, on which the theorems
--   are run.
-- - Packet.antt: ReadPacket, WritePacket and WriteEvent of BaseConn, over the bytes of a connection.
--
-- Integers are natural numbers with the wrap-around of uint8, uint32 and uint64 written out where the
-- code's arithmetic can reach it; a Go int does not wrap. Bytes are numbers, below 256 where the code
-- makes them.
--
-- Fuel: the read loop of a segment takes one round more than its file has bytes, and each round moves
-- on by four bytes at least; the loop of rebuildIndex likewise; ReadPacketTo takes one packet more
-- than the input has bytes, and WritePacket one round more than the payload has bytes, since each
-- uses up some of them. ProposeWithRetry takes one round more than its 1000 retries. The digits of a
-- uint64 are 20 at most.
--
-- Not modelled: locks, and goroutines and channels but for the two of Raft/System.antt (there a task
-- runs whole, and elsewhere an operation does), the network, the log and metrics, the start of a
-- server and of its cluster (hashed ids, the discovery of peers), the times at which a syncer is
-- started and stopped when the leader changes, but for their condition, the raft library itself, the
-- queries of the MySQL server, which a parser of another project reads, the HTTP API, and the reading
-- of the configuration.
pub mod Common
pub mod Apply
pub mod Artificial
pub mod Bolt
pub mod Boundary
pub mod Concrete
pub mod Config
pub mod Divide
pub mod Dump
pub mod Exec
pub mod Gtids
pub mod Handshake
pub mod Membership
pub mod MetaStore
pub mod Packet
pub mod Progress
pub mod Raft
pub mod Requests
pub mod Slaves
pub mod Storage
pub mod Store
pub mod Syncer
