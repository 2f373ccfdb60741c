-- ===== src/Txn/Coordinator/Anomalies.antt =====
-- Where crates/txn-coordinator/src/coordinator.rs parts from snapshot isolation: what a prewrite
-- and a read do after they have rolled the lock of another transaction forward.
use distributed_acid_kv_stor.Common.{ℕ}
use distributed_acid_kv_stor.Common.Bytes.{Bytes}
use distributed_acid_kv_stor.Storage.Record.{WriteRecord}
use distributed_acid_kv_stor.Storage.Lock.{Lock}
use distributed_acid_kv_stor.Storage.Fjall.{Fjall, Reliable}
use distributed_acid_kv_stor.Txn.World.{World}
use distributed_acid_kv_stor.Txn.Resolver.{resolution}
use distributed_acid_kv_stor.Txn.Coordinator.{Mutation, key, stage}

module _ {db : Fjall} (rel : Reliable db) (clock : ℕ → ℕ) (w : World db) (lock : Lock) (c : ℕ)
    (rec : WriteRecord) where
  module _ (start_ts : ℕ) (primary_key : Bytes) (lock_ttl : ℕ) (m : Mutation) where
    -- The keyspace after the roll-forward of the lock, and after the prewrite that follows.
    abbrev pub rolled_forward : db.Keyspace
    rolled_forward = rel.after (resolution (key m) c lock.start_ts lock.op) w.keyspace

    abbrev pub overwritten : db.Keyspace
    overwritten = rel.after (stage start_ts primary_key lock_ttl m) rolled_forward
