-- ===== src/Lib.antt =====
-- A distributed key-value store: snapshot reads and two-phase commit over a partitioned local
-- engine, a hybrid logical clock, the log storage of raft groups and the routing of keys to
-- regions.
--
-- Storage (crates/storage): Storage.Key, Storage.Record and Storage.Lock are the byte formats of
-- src/mvcc/key.rs, src/mvcc/mod.rs and src/lock.rs. Storage.Engine is src/engine.rs, of which
-- Storage.Open is the opening, with src/config.rs, and Storage.Reader is src/mvcc/reader.rs.
-- Storage.Versions is the loop over the versions of one key, which the reader shares with the
-- coordinator and the lock resolver.
-- Storage.Fjall is the interface of the fjall crate: keyspace, errors and operations are fields of
-- `Fjall`, and `Reliable` states what its documentation promises of a keyspace whose I/O succeeds.
-- Storage.Fjall.Memory is an instance that meets it. Storage.View names what is stored.
-- `IsIsolated` excludes user keys of which one is a prefix of the other: their versions interleave
-- in byte order, and the loops of the code then stop early.
--
-- Txn (crates/txn-coordinator): Txn.Hlc is src/hlc.rs, Txn.Resolver is src/lock_resolver.rs, and
-- Txn.Coordinator with its children Prewrite and Commit is src/coordinator.rs. Its other children
-- are about runs of them: of one key (TwoPhase, Repeatable, Abort, RollForward, Anomalies), of
-- many (Batch) and of a range (Scan). An action takes the world (the keyspace and the number of
-- clock readings made so far) to its result and the world after it, so what was written before an
-- error stays written. The system clock is a function from the number of the reading to
-- milliseconds.
--
-- Raft (crates/raft-engine): Raft.Router is src/router.rs, Raft.Store is src/store.rs, Raft.Node is
-- src/node.rs over the parameter `RawNode` for the raft crate, and Raft.Region is src/region,
-- which the crate's lib.rs does not declare, so that it is not compiled. The messages of the raft
-- crate and their protobuf codec are the parameter `Eraftpb`. Of the children of Raft.Store, Log is
-- about the log in memory, and Keys, Placed, Loaded, Reopen, Suffix and Recovery about the storage
-- that is opened again. A method that holds a lock from start to end is one step on its state.
--
-- Node (crates/node): Node is the state of src/server.rs, and its children Kv, TxnService and
-- RaftService are the services of src/service.rs. Node.Main is src/main.rs and the start of the
-- state, up to the server that listens; what it calls of the host is the parameter `Host`, and what
-- opens an engine the parameter `Opener`. The raft node of a region is the parameter `RaftNodes`.
--
-- Client (crates/client): Client is `KvClient` of src/client.rs over the parameter `Stubs`, the code
-- that tonic generates and its transport. Client.Loopback connects it to one node. Client.Batch is
-- the batch collector, a task over the events that its `select!` finds, and Client.Cli is
-- src/bin/kv-cli.rs.
--
-- Integers are natural numbers with the wrap-around of their width written out. All loops run over
-- the items of a list, by structural recursion, so there is no fuel. A panic of the log storage is
-- `none`, and one of the start of a node a `StartError`.
--
-- Not modelled: the configuration of the raft crate, the generated protobuf code, the network layer,
-- the raft algorithm of the raft crate, the parsing of command lines, logging and the tests.
pub mod Common
pub mod Storage
pub mod Txn
pub mod Raft
pub mod Node
pub mod Client
