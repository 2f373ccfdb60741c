-- ===== src/Txn/Resolver/Tests.antt =====
-- Runs of the lock resolver, and of the reads and prewrites that call it, at concrete inputs.
use distributed_acid_kv_stor.Common.{◌≡◌, refl, inl, List, [], ◌∷◌, ok}
use distributed_acid_kv_stor.Storage.Key.{encode}
use distributed_acid_kv_stor.Storage.Record.{put, rollback}
use distributed_acid_kv_stor.Storage.Lock.{Lock}
use distributed_acid_kv_stor.Storage.Lock as LockBytes
use distributed_acid_kv_stor.Storage.Fjall.{BatchOp, insert, p_lock, p_write}
use distributed_acid_kv_stor.Storage.Fjall.Memory.{
  memory, memory_reliable, memory_entries, run, apply,
}
use distributed_acid_kv_stor.Storage.View.{stored, IsIsolated}
use distributed_acid_kv_stor.Storage.Example.{
  apple, lock_at, lock_at-put-IsStorable, after_changes, stored-effects, nothing,
}
use distributed_acid_kv_stor.Txn.World.{rolled_back}
use distributed_acid_kv_stor.Txn.Example.{clock, world}
use distributed_acid_kv_stor.Txn.Resolver.{resolution, check_txn_status}
use distributed_acid_kv_stor.Txn.Resolver.Laws.{
  NoRecord, check_txn_status_expired, check_txn_status_unknown,
}

-- The lock of transaction 5 on `apple`, and nothing else.
abbrev locked_apple : List BatchOp
locked_apple = insert p_lock apple (LockBytes.to_bytes (lock_at 5 put)) ∷ []

locked_apple-IsIsolated : IsIsolated memory_reliable (after_changes locked_apple) apple
unfolding memory memory_reliable memory_entries after_changes run apply
locked_apple-IsIsolated = tt

locked_apple-NoRecord : NoRecord memory_reliable (after_changes locked_apple) apple 5
locked_apple-NoRecord t b r upto h e = absurd (
    nothing b (stored memory_reliable (after_changes locked_apple) p_write (encode apple t))
      (stored-effects locked_apple p_write (encode apple t)) h)

check_txn_status_expired_example : check_txn_status memory clock apple 5 (world locked_apple) ≡ (
  ok rolled_back,
  record {
    keyspace = memory_reliable.after (resolution apple 5 5 rollback) (after_changes locked_apple);
    reads = 1;
  },
)
check_txn_status_expired_example =
    check_txn_status_expired memory_reliable clock (world locked_apple) apple 5 (lock_at 5 put)
      locked_apple-IsIsolated locked_apple-NoRecord
      (stored-effects locked_apple p_lock apple, lock_at-put-IsStorable) refl refl

empty-IsIsolated : IsIsolated memory_reliable (after_changes []) apple
unfolding memory memory_reliable memory_entries after_changes run apply
empty-IsIsolated = tt

check_txn_status_unknown_example :
    check_txn_status memory clock apple 5 (world []) ≡ (ok rolled_back, world [])
check_txn_status_unknown_example =
    check_txn_status_unknown memory_reliable clock (world []) apple 5 empty-IsIsolated
      (λ t b r upto h e. absurd (
        nothing b (stored memory_reliable (after_changes []) p_write (encode apple t))
          (stored-effects [] p_write (encode apple t)) h))
      (inl (stored-effects [] p_lock apple))
