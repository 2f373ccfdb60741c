-- ===== src/Storage/Reader.antt =====
-- crates/storage/src/mvcc/reader.rs: a snapshot read of one key.
pub mod Laws
pub mod Snapshot
use distributed_acid_kv_stor.Common.{
  ℕ, Option, none, some, Result, ok, err, map_err, if◌then◌else◌, leb,
}
use distributed_acid_kv_stor.Common.Bytes.{Bytes}
use distributed_acid_kv_stor.Storage.Key.{encode}
use distributed_acid_kv_stor.Storage.Record.{WriteRecord, put, delete, rollback}
use distributed_acid_kv_stor.Storage.Record as Record
use distributed_acid_kv_stor.Storage.Lock as Lock
use distributed_acid_kv_stor.Storage.Fjall.{Fjall, p_default, p_lock, p_write}
use distributed_acid_kv_stor.Storage.Engine.{StorageError}
use distributed_acid_kv_stor.Storage.Versions.{Flow, next, done, for_versions}

pub data MvccError (F : Type 0) : Type 0 where
  engine : StorageError F → MvccError F
  fjall : F → MvccError F
  key_is_locked : Bytes → ℕ → MvccError F
  corrupted_state : MvccError F

-- `default_p.get(data_key)?.ok_or(CorruptedState)?`, and the return of the value.
unfoldable pub found_value :
    {F : Type 0} → Result F (Option Bytes) → Result (MvccError F) (Flow (Option Bytes))
found_value (err e) = err (fjall e)
found_value (ok none) = err corrupted_state
found_value (ok (some value)) = ok (done (some value))

-- The lock check before the scan.
unfoldable pub check_lock :
    {F : Type 0} → ℕ → Result F (Option Bytes) → Result (MvccError F) (Unit {0})
check_lock read_ts (err e) = err (fjall e)
check_lock read_ts (ok none) = ok tt
check_lock read_ts (ok (some lock_bytes)) = elim (Lock.from_bytes lock_bytes) [
  | err _ ↦ err corrupted_state
  | ok lock ↦
      if leb lock.start_ts read_ts
      then err (key_is_locked lock.primary_key lock.start_ts)
      else ok tt
]

-- What the function returns after the loop.
abbrev pub returned :
    {F : Type 0} → Result (MvccError F) (Flow (Option Bytes)) → Result (MvccError F) (Option Bytes)
returned (err e) = err e
returned (ok next) = ok none
returned (ok (done value)) = ok value

module _ (db : Fjall) where
  -- The match on `write_rec.op`.
  unfoldable pub read_record :
      Bytes → db.Keyspace → Option WriteRecord → Result (MvccError db.Error) (Flow (Option Bytes))
  unfolding found_value
  read_record user_key s none = err corrupted_state
  read_record user_key s (some rec) = elim rec.op [
    | put ↦ found_value (db.get s p_default (encode user_key rec.start_ts))
    | delete ↦ ok (done none)
    | rollback ↦ ok next
  ]

  -- The body of the loop at a version of the key.
  unfoldable pub read_version :
      Bytes → ℕ → db.Keyspace → ℕ → Bytes → Result (MvccError db.Error) (Flow (Option Bytes))
  unfolding read_record
  read_version user_key read_ts s commit_ts write_bytes =
      if leb commit_ts read_ts
      then read_record user_key s (Record.from_bytes write_bytes)
      else ok next

  unfoldable pub get : Bytes → ℕ → db.Keyspace → Result (MvccError db.Error) (Option Bytes)
  unfolding check_lock read_version for_versions
  get user_key read_ts s = elim (check_lock read_ts (db.get s p_lock user_key)) [
    | err e ↦ err e
    | ok _ ↦ returned (
        for_versions fjall corrupted_state user_key (read_version user_key read_ts s)
          (db.range s p_write (encode user_key read_ts)))
  ]
