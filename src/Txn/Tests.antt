-- ===== src/Txn/Tests.antt =====
-- Runs of the transaction coordinator at concrete inputs.
use distributed_acid_kv_stor.Common.{◌≡◌, refl, inl, some, List, [], ◌∷◌, ok, err, ◌>>◌, arith}
use distributed_acid_kv_stor.Storage.Record.{put}
use distributed_acid_kv_stor.Storage.Lock.{Lock}
use distributed_acid_kv_stor.Storage.Lock as LockBytes
use distributed_acid_kv_stor.Storage.Fjall.{BatchOp, insert, p_lock}
use distributed_acid_kv_stor.Storage.Fjall.Memory.{memory, memory_reliable}
use distributed_acid_kv_stor.Storage.Example.{
  apple, pear, committed_put, lock_at, lock_at-put-IsStorable, after_changes, stored-effects,
}
use distributed_acid_kv_stor.Txn.World.{transaction_rolled_back}
use distributed_acid_kv_stor.Txn.Example.{
  clock, world, eight, committed_put-IsIsolated, committed_put-IsConflictFree,
}
use distributed_acid_kv_stor.Txn.Resolver.{resolution}
use distributed_acid_kv_stor.Txn.Coordinator.{put_value, stage, get}
use distributed_acid_kv_stor.Txn.Coordinator.Prewrite.{prewrite}
use distributed_acid_kv_stor.Txn.Coordinator.Commit.{commit, batch_commit, rollback_txn}
use distributed_acid_kv_stor.Txn.Coordinator.TwoPhase.{prewrite-commit-get}
use distributed_acid_kv_stor.Txn.Coordinator.Abort.{
  IsOwn, undone, rollback-commit, rollback-batch_commit,
}

prewrite-commit-get_example :
    (do
      prewrite memory clock 12 (put_value apple eight ∷ []) apple 3000
      commit memory 12 15 (apple ∷ [])
      get memory clock apple 20)
      (world committed_put)
    ≡ (
      ok (some eight),
      record {
        keyspace = memory_reliable.after (resolution apple 15 12 put) (
            memory_reliable.after
              (stage 12 apple 3000 (put_value apple eight))
              (after_changes committed_put));
        reads = 0;
      },
    )
prewrite-commit-get_example =
    prewrite-commit-get memory_reliable 12 15 3000 clock (world committed_put)
      (put_value apple eight) 20 (omega arith) (omega arith) (omega arith) (omega arith)
      (omega arith) committed_put-IsIsolated committed_put-IsConflictFree
      (stored-effects committed_put p_lock apple)

-- The lock of transaction 5 on `apple`, and nothing else.
abbrev locked_apple : List BatchOp
locked_apple = insert p_lock apple (LockBytes.to_bytes (lock_at 5 put)) ∷ []

apple-IsOwn : IsOwn memory_reliable 5 apple (after_changes locked_apple)
apple-IsOwn =
    (lock_at 5 put, (stored-effects locked_apple p_lock apple, lock_at-put-IsStorable), refl)

rollback-commit_example :
    (do rollback_txn memory 5 (apple ∷ []); commit memory 5 9 (apple ∷ pear ∷ []))
      (world locked_apple)
    ≡ (
      err transaction_rolled_back,
      record {
        keyspace = undone memory_reliable 5 apple (after_changes locked_apple) (inl apple-IsOwn);
        reads = 0;
      },
    )
rollback-commit_example =
    rollback-commit memory_reliable 5 apple (world locked_apple) (inl apple-IsOwn) 9 (pear ∷ [])

rollback-batch_commit_example :
    (do rollback_txn memory 5 (apple ∷ []); batch_commit memory 5 9 (apple ∷ []))
      (world locked_apple)
    ≡ (
      ok tt,
      record {
        keyspace =
            memory_reliable.after []
              (undone memory_reliable 5 apple (after_changes locked_apple) (inl apple-IsOwn));
        reads = 0;
      },
    )
rollback-batch_commit_example =
    rollback-batch_commit memory_reliable 5 apple (world locked_apple) (inl apple-IsOwn) 9
