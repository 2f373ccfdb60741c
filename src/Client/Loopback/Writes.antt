-- ===== src/Client/Loopback/Writes.antt =====
-- A client of crates/client/src/client.rs that writes one key on a node and reads it back.
use distributed_acid_kv_stor.Common.{ℕ, ok}
use distributed_acid_kv_stor.Common.{
  ◌≤◌, ◌<◌, ◌^◌, ◌≡◌, refl, Option, none, some, [], ◌∷◌, ◌>>=◌, ◌>>◌, arith, length,
}
use distributed_acid_kv_stor.Common.Bytes.{Bytes}
use distributed_acid_kv_stor.Storage.Key.{u64_max, encode}
use distributed_acid_kv_stor.Storage.Fjall.{Fjall, Reliable, p_write}
use distributed_acid_kv_stor.Storage.View.{stored, IsIsolated, HasNoLock, IsRollback}
use distributed_acid_kv_stor.Txn.Coordinator.{Mutation, put_value, delete_key, key}
use distributed_acid_kv_stor.Txn.Coordinator as Coordinator
use distributed_acid_kv_stor.Txn.Coordinator.Prewrite.Laws.{IsConflictFree}
use distributed_acid_kv_stor.Txn.Coordinator.TwoPhase.{
  prewritten, finished, prewrite_writes, commit_writes, read_finished, read_unfinished,
}
use distributed_acid_kv_stor.Node.{RaftNodes, NodeState, mutation_of}
use distributed_acid_kv_stor.Client.{proto_mutation, txn_prewrite, txn_commit, txn_get}
use distributed_acid_kv_stor.Client.Loopback.{
  node_stubs, client, txn_prewrite_lem, txn_commit_lem, txn_get_lem,
}

module _ {db : Fjall} (raft : RaftNodes db) (clock : ℕ → ℕ) where
  -- The mutation that the node makes of what the client was asked to write.
  abbrev written : Bytes → Option Bytes → Mutation
  written k (some v) = put_value k v
  written k none = delete_key k

  mutation_of-proto_mutation :
      (k : Bytes) (v : Option Bytes) → mutation_of (proto_mutation (k, v)) ≡ written k v
  unfolding mutation_of proto_mutation
  mutation_of-proto_mutation k (some v) = refl
  mutation_of-proto_mutation k none = refl

  module _ (rel : Reliable db) (start_ts commit_ts lock_ttl : ℕ) where
    -- The node after a transaction of the client that wrote `v` at `k`.
    abbrev pub after_write : Bytes → Option Bytes → NodeState raft → NodeState raft
    after_write k v s = record s {
      world = record s.world {
        keyspace = finished rel start_ts commit_ts lock_ttl (written k v) s.world.keyspace;
      };
    }

    -- The node between the two calls.
    abbrev between : Bytes → Option Bytes → NodeState raft → NodeState raft
    between k v s = record s {
      world = record s.world {
        keyspace = prewritten rel start_ts commit_ts lock_ttl (written k v) s.world.keyspace;
      };
    }

    pub txn_prewrite_writes :
        (s : NodeState raft) (k : Bytes) (v : Option Bytes)
        → IsIsolated rel s.world.keyspace k
        → IsConflictFree rel s.world.keyspace k start_ts
        → HasNoLock rel s.world.keyspace k
        → txn_prewrite
            (node_stubs raft clock)
            (client raft clock)
            start_ts
            ((k, v) ∷ [])
            k
            lock_ttl
            s
          ≡ (ok tt, between k v s)
    txn_prewrite_writes s k (some x) isolated free unlocked =
        txn_prewrite_lem raft clock s start_ts lock_ttl k (some x) tt (between k (some x) s).world (
          rw (mutation_of-proto_mutation k (some x)) (
            prewrite_writes rel start_ts commit_ts lock_ttl clock s.world (put_value k x) isolated
              free unlocked))
    txn_prewrite_writes s k none isolated free unlocked =
        txn_prewrite_lem raft clock s start_ts lock_ttl k none tt (between k none s).world (
          rw (mutation_of-proto_mutation k none) (
            prewrite_writes rel start_ts commit_ts lock_ttl clock s.world (delete_key k) isolated
              free unlocked))

    pub txn_commit_writes :
        (s : NodeState raft) (k : Bytes) (v : Option Bytes)
        → start_ts ≤ u64_max
        → lock_ttl ≤ u64_max
        → length k < 2 ^ 32
        → txn_commit
            (node_stubs raft clock)
            (client raft clock)
            start_ts
            commit_ts
            (k ∷ [])
            (between k v s)
          ≡ (ok tt, after_write k v s)
    txn_commit_writes s k (some x) sf tf kf =
        txn_commit_lem raft clock (between k (some x) s) start_ts commit_ts (k ∷ []) tt
          (after_write k (some x) s).world
          (commit_writes rel start_ts commit_ts lock_ttl s.world (put_value k x) sf tf kf)
    txn_commit_writes s k none sf tf kf =
        txn_commit_lem raft clock (between k none s) start_ts commit_ts (k ∷ []) tt
          (after_write k none s).world
          (commit_writes rel start_ts commit_ts lock_ttl s.world (delete_key k) sf tf kf)

    -- A read of the coordinator at or above the commit.
    pub get_written :
        (s : NodeState raft) (k : Bytes) (v : Option Bytes) (read_ts reads : ℕ)
        → read_ts ≤ u64_max
        → start_ts < commit_ts
        → commit_ts ≤ read_ts
        → IsIsolated rel s.world.keyspace k
        → IsConflictFree rel s.world.keyspace k start_ts
        → Coordinator.get db clock k read_ts (record (after_write k v s).world { reads = reads })
          ≡ (ok v, record (after_write k v s).world { reads = reads })
    unfolding Coordinator.get Coordinator.after_read
    get_written s k (some x) read_ts reads fits started visible isolated free = rw (
        read_finished rel start_ts commit_ts lock_ttl s.world.keyspace (put_value k x) read_ts fits
          started visible isolated free)
    get_written s k none read_ts reads fits started visible isolated free = rw (
        read_finished rel start_ts commit_ts lock_ttl s.world.keyspace (delete_key k) read_ts fits
          started visible isolated free)

    -- A read of the coordinator below the commit, where nothing was visible before.
    pub get_unwritten :
        (s : NodeState raft) (k : Bytes) (v : Option Bytes) (read_ts reads : ℕ)
        → commit_ts ≤ u64_max
        → read_ts < commit_ts
        → IsIsolated rel s.world.keyspace k
        → ((t : ℕ) (b : Bytes)
            → t ≤ read_ts
            → stored rel s.world.keyspace p_write (encode k t) ≡ some b
            → IsRollback b)
        → Coordinator.get db clock k read_ts (record (after_write k v s).world { reads = reads })
          ≡ (ok none, record (after_write k v s).world { reads = reads })
    unfolding Coordinator.get Coordinator.after_read
    get_unwritten s k (some x) read_ts reads fits before isolated older = rw (
        read_unfinished rel start_ts commit_ts lock_ttl s.world.keyspace (put_value k x) read_ts
          fits before isolated older)
    get_unwritten s k none read_ts reads fits before isolated older = rw (
        read_unfinished rel start_ts commit_ts lock_ttl s.world.keyspace (delete_key k) read_ts fits
          before isolated older)

    -- On a node whose keyspace does not fail and stores no version of a prefix or an extension of
    -- the key: from a key without a lock, without a version as new as start_ts and without this
    -- transaction's rollback record, a client that prewrites and commits one mutation at start_ts <
    -- commit_ts succeeds, and its read at read_ts ≥ commit_ts gives the value that it put, or nothing
    -- if it deleted. The lock's TTL and the timestamps fit 64 bits, and the length of the key 32.
    pub txn_prewrite-txn_commit-txn_get :
        (s : NodeState raft) (k : Bytes) (v : Option Bytes) (read_ts : ℕ)
        → lock_ttl ≤ u64_max
        → length k < 2 ^ 32
        → read_ts ≤ u64_max
        → start_ts < commit_ts
        → commit_ts ≤ read_ts
        → IsIsolated rel s.world.keyspace k
        → IsConflictFree rel s.world.keyspace k start_ts
        → HasNoLock rel s.world.keyspace k
        → (do
          txn_prewrite (node_stubs raft clock) (client raft clock) start_ts ((k, v) ∷ []) k lock_ttl
          txn_commit (node_stubs raft clock) (client raft clock) start_ts commit_ts (k ∷ [])
          txn_get (node_stubs raft clock) (client raft clock) k read_ts)
            s
          ≡ (ok v, after_write k v s)
    txn_prewrite-txn_commit-txn_get s k v read_ts tf kf fits started visible isolated free
          unlocked =
        rw (
          ◌>>◌,
          ◌>>=◌,
          txn_prewrite_writes s k v isolated free unlocked,
          txn_commit_writes s k v (omega arith) tf kf,
          txn_get_lem raft clock (after_write k v s) k read_ts v (after_write k v s).world
              (omega arith)
              (get_written s k v read_ts s.world.reads fits started visible isolated free),
        )
