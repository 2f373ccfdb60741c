-- ===== src/Txn/Coordinator/Batch/Tests.antt =====
-- Runs of transactions of two keys.
use distributed_acid_kv_stor.Common.{
  ◌≡◌, ◌⊎◌, refl, inl, inr, List, [], ◌∷◌, All, ok, err, ◌>>◌, arith,
}
use distributed_acid_kv_stor.Common.Bytes.{Apart, be_bytes}
use distributed_acid_kv_stor.Storage.Key.{encode}
use distributed_acid_kv_stor.Storage.Record.{put}
use distributed_acid_kv_stor.Storage.Fjall.{p_lock, p_write}
use distributed_acid_kv_stor.Storage.Fjall.Memory.{
  memory, memory_reliable, memory_entries, run, apply,
}
use distributed_acid_kv_stor.Storage.View.{stored, IsIsolated, HasNoLock}
use distributed_acid_kv_stor.Storage.Example.{
  apple, pear, committed_put, after_changes, stored-effects, no_pear,
}
use distributed_acid_kv_stor.Storage.Reader as Reader
use distributed_acid_kv_stor.Txn.World.{World, TxnError}
use distributed_acid_kv_stor.Txn.Example.{
  clock, world, eight, committed_put-IsConflictFree, committed_put-IsIsolated,
}
use distributed_acid_kv_stor.Txn.Coordinator.{Mutation, put_value, delete_key, key}
use distributed_acid_kv_stor.Txn.Coordinator.TwoPhase.{outcome}
use distributed_acid_kv_stor.Txn.Coordinator.Prewrite.{batch_prewrite}
use distributed_acid_kv_stor.Txn.Coordinator.Prewrite.Laws.{IsConflictFree}
use distributed_acid_kv_stor.Txn.Coordinator.Commit.{commit}
use distributed_acid_kv_stor.Txn.Coordinator.Batch.{stages}
use distributed_acid_kv_stor.Txn.Coordinator.Batch.Atomic.{batch_prewrite_atomic}
use distributed_acid_kv_stor.Txn.Coordinator.Batch.Reads.{batch_prewrite-commit}

-- Eight for `pear`, and no `apple`.
abbrev swap : List Mutation
swap = delete_key apple ∷ put_value pear eight ∷ []

Apart-apple-pear : Apart apple pear
Apart-apple-pear = inl (λ n. ground arith)

pear-IsIsolated : IsIsolated memory_reliable (after_changes committed_put) pear
unfolding memory memory_reliable memory_entries after_changes run apply encode be_bytes
pear-IsIsolated = (inr (apple, 9, omega arith, refl, Apart-apple-pear), tt)

pear-IsConflictFree : IsConflictFree memory_reliable (after_changes committed_put) pear 12
pear-IsConflictFree t b upto h = absurd (
    no_pear put t b (stored memory_reliable (after_changes committed_put) p_write (encode pear t))
      (stored-effects committed_put p_write (encode pear t)) h)

swap-HasNoLock : All (λ n. HasNoLock memory_reliable (after_changes committed_put) (key n)) swap
swap-HasNoLock =
    (stored-effects committed_put p_lock apple, (stored-effects committed_put p_lock pear, tt))

swap-IsIsolated : All (λ n. IsIsolated memory_reliable (after_changes committed_put) (key n)) swap
swap-IsIsolated = (committed_put-IsIsolated, (pear-IsIsolated, tt))

batch_prewrite_atomic_example :
    (All (λ n. IsConflictFree memory_reliable (after_changes committed_put) (key n) 12) swap
      × (batch_prewrite memory clock 12 swap apple 3000 (world committed_put) ≡ (
        ok tt,
        record (world committed_put) {
          keyspace =
              memory_reliable.after (stages 12 apple 3000 swap) (after_changes committed_put);
        },
      )))
    ⊎ ((All (λ n. IsConflictFree memory_reliable (after_changes committed_put) (key n) 12) swap → ⊥)
        × (e : TxnError memory.Error) × (batch_prewrite memory clock 12 swap apple 3000
              (world committed_put)
            ≡ (err e, world committed_put)))
batch_prewrite_atomic_example =
    batch_prewrite_atomic 12 apple 3000 memory_reliable clock (world committed_put)
      (delete_key apple) (put_value pear eight ∷ []) swap-HasNoLock swap-IsIsolated

batch_prewrite-commit_example :
    (t : World memory) × ((do
      batch_prewrite memory clock 12 swap apple 3000
      commit memory 12 15 (apple ∷ pear ∷ []))
        (world committed_put)
      ≡ (ok tt, t))
    × All (λ n. Reader.get memory (key n) 15 t.keyspace ≡ ok (outcome n)) swap
batch_prewrite-commit_example =
    batch_prewrite-commit memory_reliable 12 15 clock (world committed_put) 3000 (delete_key apple)
      (put_value pear eight ∷ []) (omega arith) (omega arith) (omega arith) (omega arith)
      ((Apart-apple-pear, tt), (tt, tt)) swap-HasNoLock swap-IsIsolated
      (committed_put-IsConflictFree, (pear-IsConflictFree, tt))
