-- ===== src/Storage/Tests.antt =====
-- Runs of the storage crate at concrete inputs.
use distributed_acid_kv_stor.Common.{
  ℕ, ◌≤◌, ◌<◌, ◌∙◌, sym, ap, Option, ◌≡◌, refl, inl, none, some, List, [], ◌∷◌, ok, arith, compare,
}
use distributed_acid_kv_stor.Common.Bytes.{Bytes, Apart, be_bytes, compare_bytes}
use distributed_acid_kv_stor.Storage.Key.{u64_max, encode}
use distributed_acid_kv_stor.Storage.Key.Laws.{encode_order, eq_bytes-encode}
use distributed_acid_kv_stor.Storage.Record.{put, delete, rollback}
use distributed_acid_kv_stor.Storage.Record as Record
use distributed_acid_kv_stor.Storage.Record.Laws.{from_bytes-to_bytes}
use distributed_acid_kv_stor.Storage.Lock as LockBytes
use distributed_acid_kv_stor.Storage.Lock.Laws as LockLaws
use distributed_acid_kv_stor.Storage.Fjall.{BatchOp, insert, effects, p_default, p_lock, p_write}
use distributed_acid_kv_stor.Storage.Fjall.Memory.{
  memory, memory_reliable, memory_entries, run, apply,
}
use distributed_acid_kv_stor.Storage.View.{stored, IsIsolated, OnlyRollbacks}
use distributed_acid_kv_stor.Storage.Engine.{gc_keys_older_than}
use distributed_acid_kv_stor.Storage.Engine.Forgets.{gc-get_forgets}
use distributed_acid_kv_stor.Storage.Reader.{get}
use distributed_acid_kv_stor.Storage.Reader.Laws.{get_newest}
use distributed_acid_kv_stor.Storage.Example.{
  apple, pear, seven, record_of, committed_put, lock_at, lock_at-put-IsStorable, after_changes,
  stored-effects, only_version,
}

encode_order_example :
    (compare_bytes (encode apple 9) (encode apple 5) ≡ compare 5 9)
    × (Apart apple pear → compare_bytes (encode apple 9) (encode pear 5) ≡ compare_bytes apple pear)
encode_order_example = encode_order apple pear 9 5 (omega arith) (omega arith)

lock_round_trip_example :
    LockBytes.from_bytes (LockBytes.to_bytes (lock_at 5 put)) ≡ ok (lock_at 5 put)
lock_round_trip_example = LockLaws.from_bytes-to_bytes (lock_at 5 put) lock_at-put-IsStorable

get_newest_example : get memory apple 12 (after_changes committed_put) ≡ ok (some seven)
unfolding memory memory_reliable memory_entries after_changes run apply encode be_bytes
get_newest_example =
    get_newest memory_reliable (after_changes committed_put) apple 12 9 (record_of put) (some seven)
      (omega arith) (omega arith) (inl (9, omega arith, refl), tt)
      (inl (stored-effects committed_put p_lock apple)) (omega arith)
      (stored-effects committed_put p_write (encode apple 9))
      (λ t b above upto h. absurd (
        omega (
          arith,
          above,
          (only_version 9 (Record.to_bytes (record_of put)) t b
              (stored memory_reliable (after_changes committed_put) p_write (encode apple t))
              (omega arith) (omega arith) (stored-effects committed_put p_write (encode apple t))
              h).0,
        )))
      (inl (refl, seven, stored-effects committed_put p_default (encode apple 5), refl))

-- A put of transaction 5 at version 7 under the record of the rollback at version 9.
abbrev put_under_rollback : List BatchOp
put_under_rollback =
    insert p_default (encode apple 5) seven
    ∷ insert p_write (encode apple 7) (Record.to_bytes (record_of put))
    ∷ insert p_write (encode apple 9) (Record.to_bytes (record_of rollback))
    ∷ []

only_put_under_rollback :
    (t : ℕ) (b : Bytes) (x : Option Bytes)
    → t ≤ u64_max
    → 7 < t
    → x ≡ effects put_under_rollback p_write (encode apple t) none
    → x ≡ some b
    → Record.to_bytes (record_of rollback) ≡ b
only_put_under_rollback t b x fits above e h = ground (
  arith,
  eq_bytes-encode apple 7 t (omega arith) fits,
  eq_bytes-encode apple 9 t (omega arith) fits,
)

over_put : OnlyRollbacks memory_reliable (after_changes put_under_rollback) apple 7 12
over_put t b above upto h = (
  record_of rollback,
  sym (
        ap Record.from_bytes (
          only_put_under_rollback t b
            (stored memory_reliable (after_changes put_under_rollback) p_write (encode apple t))
            (omega arith) above (stored-effects put_under_rollback p_write (encode apple t)) h))
      ∙ from_bytes-to_bytes (record_of rollback) (omega arith),
  refl,
)

put_under_rollback-IsIsolated : IsIsolated memory_reliable (after_changes put_under_rollback) apple
unfolding memory memory_reliable memory_entries after_changes run apply encode be_bytes
put_under_rollback-IsIsolated = (inl (9, omega arith, refl), (inl (7, omega arith, refl), tt))

gc-get_forgets_example :
    (get memory apple 12 (after_changes put_under_rollback) ≡ ok (some seven))
    × (count : ℕ) × ((gc_keys_older_than memory 11 (after_changes put_under_rollback)).0 ≡ ok count)
    × (get memory apple 12 (gc_keys_older_than memory 11 (after_changes put_under_rollback)).1
        ≡ ok none)
unfolding encode be_bytes
gc-get_forgets_example =
    gc-get_forgets memory_reliable (after_changes put_under_rollback) apple seven (record_of put) 9
      7 11 12
      (record {
        fits = omega arith;
        start_fits = omega arith;
        at_or_above = omega arith;
        isolated = put_under_rollback-IsIsolated;
        readable = inl (stored-effects put_under_rollback p_lock apple);
        here = stored-effects put_under_rollback p_write (encode apple 7);
        is_put = refl;
        data_there = stored-effects put_under_rollback p_default (encode apple 5);
        newer = over_put;
        above = omega arith;
        old = omega arith;
        over = (
          Record.to_bytes (record_of rollback),
          stored-effects put_under_rollback p_write (encode apple 9),
        );
      })
