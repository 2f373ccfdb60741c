-- ===== src/Txn/Example.antt =====
-- Keyspaces in which a transaction has committed its primary key and left another key locked.
use distributed_acid_kv_stor.Common.{
  ◌≡◌, ok, sym, subst, false, some, ℕ, refl, inl, List, [], ◌∷◌, arith,
}
use distributed_acid_kv_stor.Common.Bytes.{Bytes, be_bytes}
use distributed_acid_kv_stor.Storage.Key.{encode}
use distributed_acid_kv_stor.Storage.Record.{OpType, put, delete, rollback, to_bytes, from_bytes}
use distributed_acid_kv_stor.Storage.Record.Laws.{from_bytes-to_bytes}
use distributed_acid_kv_stor.Storage.Example.{committed_put}
use distributed_acid_kv_stor.Txn.Coordinator.{is_own_rollback}
use distributed_acid_kv_stor.Txn.Coordinator.Prewrite.Laws.{IsConflictFree}
use distributed_acid_kv_stor.Storage.Lock.{Lock}
use distributed_acid_kv_stor.Storage.Lock as LockBytes
use distributed_acid_kv_stor.Storage.Fjall.{BatchOp, insert, p_default, p_lock, p_write}
use distributed_acid_kv_stor.Storage.Fjall.Memory.{
  memory, memory_reliable, memory_entries, run, apply,
}
use distributed_acid_kv_stor.Storage.View.{stored, IsIsolated}
use distributed_acid_kv_stor.Storage.Example.{
  apple, pear, seven, record_of, version_9, lock_at, after_changes, stored-effects, only_version,
}
use distributed_acid_kv_stor.Storage.Reader.{get}
use distributed_acid_kv_stor.Storage.Reader.Laws.{get_newest_put}
use distributed_acid_kv_stor.Storage.Reader.Snapshot.{IsRecorded}
use distributed_acid_kv_stor.Txn.World.{World}
use distributed_acid_kv_stor.Txn.Resolver.Laws.{IsDecided}

abbrev pub clock : ℕ → ℕ
clock n = 4000

abbrev pub world : List BatchOp → World memory
world s = record { keyspace = after_changes s; reads = 0 }

abbrev value_at : OpType → ℕ
value_at put = 5
value_at delete = 4
value_at rollback = 4

-- `apple` has a record of transaction 5 at version 9, and `pear` is still locked by it. The value of
-- transaction 5 is there where the lock is that of a put, and an older one where it is not.
abbrev pub left_locked : OpType → OpType → List BatchOp
left_locked op held =
    insert p_default (encode pear (value_at held)) seven
    ∷ insert p_lock pear (LockBytes.to_bytes (lock_at 5 held))
    ∷ version_9 op
    ∷ []

pub apple-IsIsolated :
    (op held : OpType) → IsIsolated memory_reliable (after_changes (left_locked op held)) apple
unfolding memory memory_reliable memory_entries after_changes run apply encode be_bytes
apple-IsIsolated op held = (inl (9, omega arith, refl), tt)

pub left_locked-IsDecided :
    (op held told : OpType) (key : Bytes)
    → IsDecided memory_reliable clock
        (world (left_locked op held))
        key
        (lock_at 5 told)
        9
        (record_of op)
unfolding encode be_bytes
left_locked-IsDecided op held told key = record {
  isolated = apple-IsIsolated op held;
  fits = omega arith;
  start_fits = omega arith;
  here = stored-effects (left_locked op held) p_write (encode apple 9);
  own = refl;
  newest = λ t b r above upto h e. absurd (
      omega (
        arith,
        above,
        (only_version 9 (to_bytes (record_of op)) t b
            (stored memory_reliable (after_changes (left_locked op held)) p_write (encode apple t))
            (omega arith) upto (stored-effects (left_locked op held) p_write (encode apple t)) h).0,
      ));
}

abbrev pub eight : Bytes
eight = 56 ∷ []

not_own : is_own_rollback 12 (some (record_of put)) ≡ false
unfolding is_own_rollback
not_own = refl

-- A later transaction finds the version 9 of `apple` older than itself.
pub committed_put-IsConflictFree :
    IsConflictFree memory_reliable (after_changes committed_put) apple 12
committed_put-IsConflictFree t b upto h =
    let only =
      only_version 9 (to_bytes (record_of put)) t b
        (stored memory_reliable (after_changes committed_put) p_write (encode apple t))
        (omega arith) upto (stored-effects committed_put p_write (encode apple t)) h in
    (
      omega (arith, only.0),
      subst (λ x. is_own_rollback 12 (from_bytes x) ≡ false) only.1
          (rw (from_bytes-to_bytes (record_of put) (omega arith)) not_own),
    )

pub committed_put-IsIsolated : IsIsolated memory_reliable (after_changes committed_put) apple
unfolding memory memory_reliable memory_entries after_changes run apply encode be_bytes
committed_put-IsIsolated = (inl (9, omega arith, refl), tt)

-- A reader at 10 sees the version 9 of `apple`.
pub committed_put-get : get memory apple 10 (after_changes committed_put) ≡ ok (some seven)
unfolding encode be_bytes
committed_put-get =
    get_newest_put memory_reliable (after_changes committed_put) apple 10 9 (record_of put) seven
      (omega arith) (omega arith) committed_put-IsIsolated
      (inl (stored-effects committed_put p_lock apple)) (omega arith)
      (stored-effects committed_put p_write (encode apple 9))
      (λ t b above upto h. absurd (
        omega (
          arith,
          above,
          (only_version 9 (to_bytes (record_of put)) t b
              (stored memory_reliable (after_changes committed_put) p_write (encode apple t))
              (omega arith) (omega arith) (stored-effects committed_put p_write (encode apple t))
              h).0,
        )))
      refl (stored-effects committed_put p_default (encode apple 5))

pub committed_put-IsRecorded : IsRecorded memory_reliable apple 10 (after_changes committed_put)
committed_put-IsRecorded t b upto h =
    let only =
      only_version 9 (to_bytes (record_of put)) t b
        (stored memory_reliable (after_changes committed_put) p_write (encode apple t))
        (omega arith) (omega arith) (stored-effects committed_put p_write (encode apple t)) h in
    (record_of put, sym only.1, omega (arith, only.0))
