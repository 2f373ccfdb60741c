-- ===== src/Txn/Coordinator/Tests.antt =====
-- Runs of the coordinator on a key that a committed transaction has left locked.
use distributed_acid_kv_stor.Common.{◌≡◌, some, ok, arith, [], ◌∷◌, pure, ◌>>=◌, ◌>>◌}
use distributed_acid_kv_stor.Storage.Fjall.{p_lock}
use distributed_acid_kv_stor.Storage.Fjall.Memory.{memory, memory_reliable}
use distributed_acid_kv_stor.Storage.Example.{apple, seven, after_changes, stored-effects}
use distributed_acid_kv_stor.Txn.Example.{
  clock, world, eight, committed_put-IsIsolated, committed_put-IsConflictFree,
  committed_put-IsRecorded, committed_put-get,
}
use distributed_acid_kv_stor.Txn.Coordinator.{put_value, get}
use distributed_acid_kv_stor.Txn.Coordinator.Prewrite.{prewrite}
use distributed_acid_kv_stor.Txn.Coordinator.Commit.{commit}
use distributed_acid_kv_stor.Txn.Coordinator.TwoPhase.{finished}
use distributed_acid_kv_stor.Txn.Coordinator.Repeatable.{prewrite-get-commit-get}
use distributed_acid_kv_stor.Storage.Example.{committed_put}

prewrite-get-commit-get_example :
    (do
      prewrite memory clock 12 (put_value apple eight ∷ []) apple 3000
      first ← get memory clock apple 10
      commit memory 12 15 (apple ∷ [])
      second ← get memory clock apple 10
      pure (first ∷ second ∷ []))
      (world committed_put)
    ≡ (
      ok (some seven ∷ some seven ∷ []),
      record {
        keyspace =
            finished memory_reliable 12 15 3000
              (put_value apple eight)
              (after_changes committed_put);
        reads = 0;
      },
    )
prewrite-get-commit-get_example =
    prewrite-get-commit-get memory_reliable 12 15 3000 10 (omega arith) (omega arith) (omega arith)
      (omega arith) (put_value apple eight) (omega arith) (after_changes committed_put)
      committed_put-IsIsolated (stored-effects committed_put p_lock apple) committed_put-IsRecorded
      clock 0 (some seven) committed_put-IsConflictFree committed_put-get
