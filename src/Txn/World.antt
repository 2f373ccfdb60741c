-- ===== src/Txn/World.antt =====
-- What the operations of crates/txn-coordinator share: the keyspace, the system clock, the batches
-- that they commit, and their errors.
use distributed_acid_kv_stor.Common.{ℕ, ◌+◌, ◌/◌, ◌%◌, ◌^◌, Bool, List, Result, ok, err, Exec, ltb}
use distributed_acid_kv_stor.Common.Bytes.{Bytes}
use distributed_acid_kv_stor.Storage.Fjall.{Fjall, BatchOp}
use distributed_acid_kv_stor.Storage.Engine.{StorageError}
use distributed_acid_kv_stor.Storage.Reader.{MvccError}

pub data LockResolverError (F : Type 0) : Type 0 where
  storage : StorageError F → LockResolverError F
  fjall : F → LockResolverError F
  mvcc : MvccError F → LockResolverError F
  lock_active_not_expired : LockResolverError F

pub data TxnError (F : Type 0) : Type 0 where
  storage : StorageError F → TxnError F
  fjall : F → TxnError F
  mvcc : MvccError F → TxnError F
  lock_resolver : LockResolverError F → TxnError F
  write_conflict : Bytes → ℕ → TxnError F
  key_locked : Bytes → TxnError F
  txn_closed : TxnError F
  transaction_rolled_back : TxnError F

pub data TxnStatus : Type 0 where
  committed : ℕ → TxnStatus
  rolled_back : TxnStatus
  locked : ℕ → TxnStatus

-- `now_phys > start_phys + lock.ttl` with `start_phys = start_ts >> 16`, on `u64`s in a release
-- build: the sum wraps.
abbrev pub is_expired : ℕ → ℕ → ℕ → Bool
is_expired start_ts ttl now_phys = ltb ((start_ts / 2 ^ 16 + ttl) % 2 ^ 64) now_phys

-- The keyspace, and how often the system clock has been read.
pub record World (db : Fjall) : Type 0 where
  pub keyspace : db.Keyspace
  pub reads : ℕ

module _ {db : Fjall} where
  -- `SystemTime::now()` in milliseconds: `clock n` is what the call number `n` returns.
  abbrev pub read_clock : {E : Type 0} → (ℕ → ℕ) → Exec (World db) E ℕ
  read_clock clock w = (ok (clock w.reads), record w { reads = w.reads + 1 })

  -- `engine.commit_batch(batch)`
  abbrev pub commit_batch : List BatchOp → Exec (World db) (StorageError db.Error) (Unit {0})
  commit_batch batch w =
      let r = db.commit batch w.keyspace in
      (elim r.0 [ ok u ↦ ok u | err e ↦ err (StorageError.fjall e) ], record w { keyspace = r.1 })

  abbrev pub read : {E A : Type 0} → (db.Keyspace → Result E A) → Exec (World db) E A
  read f w = (f w.keyspace, w)
