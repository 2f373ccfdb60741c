-- ===== src/Storage/Example.antt =====
-- Small keyspaces in memory, for the runs that the tests make.
use distributed_acid_kv_stor.Common.{ℕ, ◌≤◌, ◌≡◌, inl, Option, none, some, List, [], ◌∷◌, arith}
use distributed_acid_kv_stor.Common.Bytes.{Bytes}
use distributed_acid_kv_stor.Storage.Key.{u64_max, encode}
use distributed_acid_kv_stor.Storage.Key.Laws.{eq_bytes-encode, eq_bytes-encode-Apart}
use distributed_acid_kv_stor.Storage.Record.{OpType, put, delete, rollback, WriteRecord, from_bytes}
use distributed_acid_kv_stor.Storage.Record as Record
use distributed_acid_kv_stor.Storage.Lock.{Lock}
use distributed_acid_kv_stor.Storage.Lock.Laws.{IsStorable}
use distributed_acid_kv_stor.Storage.Fjall.{Partition, BatchOp, insert, effects, p_default, p_write}
use distributed_acid_kv_stor.Storage.Fjall.Memory.{
  memory, memory_reliable, lookup-run, memory_entries,
}
use distributed_acid_kv_stor.Storage.View.{stored}

abbrev pub apple : Bytes
apple = 97 ∷ []

abbrev pub pear : Bytes
pear = 112 ∷ []

abbrev pub seven : Bytes
seven = 55 ∷ []

-- The transaction that started at 5 as a record.
abbrev pub record_of : OpType → WriteRecord
record_of op = record { start_ts = 5; op = op }

-- A value of 5 and a record of 5 at version 9 of `apple`.
abbrev pub value_5 : BatchOp
value_5 = insert p_default (encode apple 5) seven

abbrev pub version_9 : OpType → BatchOp
version_9 op = insert p_write (encode apple 9) (Record.to_bytes (record_of op))

abbrev pub committed_put : List BatchOp
committed_put = value_5 ∷ version_9 put ∷ []

abbrev pub committed_delete : List BatchOp
committed_delete = version_9 delete ∷ []

-- A lock of the transaction that started at `start`, with `apple` as primary key.
abbrev pub lock_at : ℕ → OpType → Lock
lock_at start op = record { primary_key = apple; start_ts = start; ttl = 3000; op = op }

pub lock_at-put-IsStorable : IsStorable (lock_at 5 put)
lock_at-put-IsStorable = record {
  start_fits = omega arith;
  ttl_fits = omega arith;
  primary_fits = omega arith;
  op_allowed = λ h. ground arith;
}

pub lock_at-delete-IsStorable : IsStorable (lock_at 5 delete)
lock_at-delete-IsStorable = record {
  start_fits = omega arith;
  ttl_fits = omega arith;
  primary_fits = omega arith;
  op_allowed = λ h. ground arith;
}

-- The keyspace after these changes.
unfoldable pub after_changes : List BatchOp → memory.Keyspace
unfolding memory
after_changes s = s

-- What is stored in memory is what the changes made of nothing.
pub stored-effects :
    (s : List BatchOp) (p : Partition) (k : Bytes)
    → stored memory_reliable (after_changes s) p k ≡ effects s p k none
unfolding memory memory_reliable memory_entries after_changes
stored-effects s p k = lookup-run p s k []

pub only_version :
    (c : ℕ) (v : Bytes) (t : ℕ) (b : Bytes) (x : Option Bytes)
    → c ≤ u64_max
    → t ≤ u64_max
    → x ≡ effects (insert p_write (encode apple c) v ∷ []) p_write (encode apple t) none
    → x ≡ some b
    → (c ≡ t) × (v ≡ b)
only_version c v t b x f g e h = ground (arith, eq_bytes-encode apple c t f g)

-- No version of `pear` is stored where one of `apple` is.
pub no_pear :
    (op : OpType) (t : ℕ) (b : Bytes) (x : Option Bytes)
    → x ≡ effects (version_9 op ∷ []) p_write (encode pear t) none
    → x ≡ some b
    → ⊥
no_pear op t b x e h =
    ground (arith, eq_bytes-encode-Apart apple pear 9 t (inl (λ n. ground arith)))

pub nothing : (b : Bytes) (x : Option Bytes) → x ≡ none → x ≡ some b → ⊥
nothing b x e h = ground arith
