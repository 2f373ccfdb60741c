-- ===== src/Storage/View.antt =====
-- The state of the three partitions in the terms of crates/storage: what is stored at a key, and
-- which records the versions of a user key hold.
pub mod After
use distributed_acid_kv_stor.Common.{ℕ, ◌≤◌, ◌<◌, ◌≡◌, ◌⊎◌, Option, none, some, All, arith}
use distributed_acid_kv_stor.Common.Bytes.{Bytes}
use distributed_acid_kv_stor.Storage.Key.{u64_max, encode}
use distributed_acid_kv_stor.Storage.Record.{OpType, WriteRecord, rollback}
use distributed_acid_kv_stor.Storage.Record as Record
use distributed_acid_kv_stor.Storage.Lock.{Lock}
use distributed_acid_kv_stor.Storage.Lock as LockBytes
use distributed_acid_kv_stor.Storage.Lock.Laws.{IsStorable}
use distributed_acid_kv_stor.Storage.Fjall.{Fjall, Reliable, Partition, p_default, p_lock, p_write}
use distributed_acid_kv_stor.Storage.Fjall.Entries.{lookup}
use distributed_acid_kv_stor.Storage.Versions.Places.{IsPlaced}

module _ {db : Fjall} (rel : Reliable db) (s : db.Keyspace) where
  abbrev pub stored : Partition → Bytes → Option Bytes
  stored p k = lookup k (rel.entries s p)

  -- Every key of the write partition is a version of `key`, or of a user key such that neither is
  -- a prefix of the other.
  abbrev pub IsIsolated : Bytes → Type 0
  IsIsolated key = All (λ e. IsPlaced key e.0) (rel.entries s p_write)

  -- The version `ts` of `key` holds the record `r`.
  abbrev pub HasVersion : Bytes → ℕ → WriteRecord → Type 0
  HasVersion key ts r = stored p_write (encode key ts) ≡ some (Record.to_bytes r)

  abbrev pub HasLock : Bytes → Lock → Type 0
  HasLock key l = (stored p_lock key ≡ some (LockBytes.to_bytes l)) × IsStorable l

  abbrev pub HasNoLock : Bytes → Type 0
  HasNoLock key = stored p_lock key ≡ none

  -- No lock that a reader at `read_ts` has to wait for.
  abbrev pub IsReadable : Bytes → ℕ → Type 0
  IsReadable key read_ts = HasNoLock key ⊎ ((l : Lock) × HasLock key l × (read_ts < l.start_ts))

-- The bytes of a record that a rolled back transaction left.
abbrev pub IsRollback : Bytes → Type 0
IsRollback b = (r : WriteRecord) × (Record.from_bytes b ≡ some r) × (r.op ≡ rollback)

module _ {db : Fjall} (rel : Reliable db) (s : db.Keyspace) where
  -- The versions of `key` above `low` and up to `top` are records of rollbacks.
  abbrev pub OnlyRollbacks : Bytes → ℕ → ℕ → Type 0
  OnlyRollbacks key low top =
      (t : ℕ) (b : Bytes)
      → low < t
      → t ≤ top
      → stored rel s p_write (encode key t) ≡ some b
      → IsRollback b
