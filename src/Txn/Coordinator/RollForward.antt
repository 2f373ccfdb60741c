-- ===== src/Txn/Coordinator/RollForward.antt =====
-- `get` of crates/txn-coordinator/src/coordinator.rs on a key that a committed transaction has left
-- locked: the lock is rolled forward, and the key is read again.
use distributed_acid_kv_stor.Common.{ℕ, ◌≤◌, ◌≢◌}
use distributed_acid_kv_stor.Common.Bytes.{Bytes}
use distributed_acid_kv_stor.Storage.Key.{u64_max}
use distributed_acid_kv_stor.Storage.Record.{WriteRecord, put, rollback}
use distributed_acid_kv_stor.Storage.Lock.{Lock}
use distributed_acid_kv_stor.Storage.Fjall.{Fjall, Reliable}
use distributed_acid_kv_stor.Storage.View.{IsIsolated, HasLock, OnlyRollbacks}
use distributed_acid_kv_stor.Storage.Reader as Reader
use distributed_acid_kv_stor.Txn.World.{World}
use distributed_acid_kv_stor.Txn.Resolver.{resolution}
use distributed_acid_kv_stor.Txn.Resolver.Laws.{IsDecided}
use distributed_acid_kv_stor.Txn.Coordinator.{reader_lock}

-- A key that is locked below the read timestamp by a transaction whose primary key is committed
-- at `c`, with nothing but rollbacks between `c` and the read.
pub record IsLeftLocked {db : Fjall} (rel : Reliable db) (clock : ℕ → ℕ) (w : World db)
    (user_key : Bytes) (read_ts : ℕ) (lock : Lock) (c : ℕ) (rec : WriteRecord) : Type 0 where
  pub fits : read_ts ≤ u64_max
  pub isolated : IsIsolated rel w.keyspace user_key
  pub held : HasLock rel w.keyspace user_key lock
  pub seen : lock.start_ts ≤ read_ts
  pub decided :
      IsDecided rel clock w user_key (reader_lock db clock lock.primary_key lock.start_ts) c rec
  pub commits : rec.op ≢ rollback
  pub visible : c ≤ read_ts
  pub newest : OnlyRollbacks rel w.keyspace user_key c read_ts

module _ {db : Fjall} (rel : Reliable db) (clock : ℕ → ℕ) (w : World db) (user_key : Bytes)
    (read_ts : ℕ) (lock : Lock) (c : ℕ) (rec : WriteRecord)
    (left : IsLeftLocked rel clock w user_key read_ts lock c rec) where
  -- The record that the roll-forward writes is always that of a put.
  abbrev pub forwarded : db.Keyspace
  forwarded = rel.after (resolution user_key c lock.start_ts put) w.keyspace
