-- ===== src/Client/Cli/Clocks.antt =====
-- A `put` and then a `get` of crates/client/src/bin/kv-cli.rs on one node. The timestamps of the
-- put are those of the client's clock, and the read is at the node's.
use distributed_acid_kv_stor.Common.{
  ℕ, ◌+◌, ◌≤◌, ◌<◌, ◌^◌, ◌≡◌, Option, none, some, ok, pure, ◌>>=◌, ◌>>◌, arith, length,
}
use distributed_acid_kv_stor.Common.Bytes.{Bytes}
use distributed_acid_kv_stor.Storage.Key.{u64_max, encode}
use distributed_acid_kv_stor.Storage.Fjall.{Fjall, Reliable, p_write}
use distributed_acid_kv_stor.Storage.View.{stored, IsIsolated, HasNoLock, IsRollback}
use distributed_acid_kv_stor.Txn.Hlc.Laws.{now_fits}
use distributed_acid_kv_stor.Txn.Coordinator as Coordinator
use distributed_acid_kv_stor.Txn.Coordinator.Prewrite.Laws.{IsConflictFree}
use distributed_acid_kv_stor.Node.{RaftNodes, NodeState}
use distributed_acid_kv_stor.Client.Loopback.{node_stubs, client, present, after_now, get_lem}
use distributed_acid_kv_stor.Client.Loopback.Writes.{
  after_write, txn_prewrite_writes, txn_commit_writes, get_written, get_unwritten,
}
use distributed_acid_kv_stor.Client.{Call}
use distributed_acid_kv_stor.Client.Cli.{
  Output, printed, nil, done, print_value, put, get, start_of, commit_of, run,
}

commit_of-start_of : (p : ℕ) → commit_of (start_of p) ≡ start_of p + 1
unfolding commit_of start_of
commit_of-start_of p = omega arith

start_of_fits : (p : ℕ) → start_of p + 1 ≤ u64_max
unfolding start_of
start_of_fits p = omega arith

module _ {db : Fjall} (raft : RaftNodes db) (clock : ℕ → ℕ) (rel : Reliable db) where
  -- The node after a put at the reading `p` of the client's clock.
  abbrev pub after_put : ℕ → Bytes → Bytes → NodeState raft → NodeState raft
  after_put p k x s = after_write raft clock rel (start_of p) (start_of p + 1) 3000 k (some x) s

  -- Two runs of the command line, at the readings `p` and `q`, and what both print.
  abbrev pub put_then_get : ℕ → ℕ → Bytes → Bytes → Call (node_stubs raft clock) (Output × Output)
  put_then_get p q k x = do
    first ← run (node_stubs raft clock) (client raft clock) p (put k x)
    second ← run (node_stubs raft clock) (client raft clock) q (get k)
    pure (first, second)

  module _ (s : NodeState raft) (p : ℕ) (k x : Bytes) (kf : length k < 2 ^ 32)
      (isolated : IsIsolated rel s.world.keyspace k)
      (free : IsConflictFree rel s.world.keyspace k (start_of p))
      (unlocked : HasNoLock rel s.world.keyspace k) where
    put_done :
        run (node_stubs raft clock) (client raft clock) p (put k x) s ≡ (ok done, after_put p k x s)
    unfolding run
    put_done = rw (
      commit_of-start_of p,
      ◌>>◌,
      ◌>>=◌,
      txn_prewrite_writes raft clock rel (start_of p) (start_of p + 1) 3000 s k (some x) isolated
          free unlocked,
      txn_commit_writes raft clock rel (start_of p) (start_of p + 1) 3000 s k (some x)
          (omega (arith, start_of_fits p)) (omega arith) kf,
    )

    get_prints :
        (q : ℕ) (v : Option Bytes)
        → Coordinator.get db clock k
            (present raft clock s)
            (after_now raft clock (after_put p k x s)).world
          ≡ (ok v, (after_now raft clock (after_put p k x s)).world)
        → put_then_get p q k x s
          ≡ (ok (done, print_value v), after_now raft clock (after_put p k x s))
    unfolding run
    get_prints q v h = rw (◌>>=◌, put_done) (rw (get_lem raft clock (after_put p k x s) k v h))

    -- On a node whose keyspace does not fail and stores no version of a prefix or an extension of
    -- the key, whose length fits 32 bits: from a key without a lock, without a version as new as
    -- the put and without its rollback record, the put prints OK. If the node's clock issues a
    -- timestamp above that of the put, the get prints the value that was put.
    pub put-get :
        (q : ℕ)
        → start_of p < present raft clock s
        → put_then_get p q k x s ≡ (ok (done, printed x), after_now raft clock (after_put p k x s))
    unfolding print_value
    put-get q later = get_prints q (some x) (
        get_written raft clock rel (start_of p) (start_of p + 1) 3000 s k (some x)
          (present raft clock s) (s.world.reads + 1)
          (omega (arith, now_fits (clock s.world.reads) s.hlc)) (omega arith) (omega arith) isolated
          free)

    -- On a node whose keyspace does not fail and stores no version of a prefix or an extension of
    -- the key, whose length fits 32 bits: from a key without a lock, without a version as new as
    -- the put and without its rollback record, the put prints OK. If the node's clock issues a
    -- timestamp that is not above that of the put, up to which the key has no version but records
    -- of rollbacks, the get prints (nil).
    pub put-get_nil :
        (q : ℕ)
        → present raft clock s ≤ start_of p
        → ((t : ℕ) (b : Bytes)
            → t ≤ present raft clock s
            → stored rel s.world.keyspace p_write (encode k t) ≡ some b
            → IsRollback b)
        → put_then_get p q k x s ≡ (ok (done, nil), after_now raft clock (after_put p k x s))
    unfolding print_value
    put-get_nil q early older = get_prints q none (
        get_unwritten raft clock rel (start_of p) (start_of p + 1) 3000 s k (some x)
          (present raft clock s) (s.world.reads + 1) (start_of_fits p) (omega arith) isolated older)
