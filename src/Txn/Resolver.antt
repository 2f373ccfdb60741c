-- ===== src/Txn/Resolver.antt =====
-- crates/txn-coordinator/src/lock_resolver.rs: the status of a transaction by its primary key, and
-- the resolution of a lock that another transaction left behind.
pub mod Laws
mod Tests
use distributed_acid_kv_stor.Common.{
  ℕ, Option, none, some, List, [], ◌∷◌, Result, ok, err, Exec, pure, throw, lift, wrap, continue,
  ◌>>=◌, ◌>>◌, if◌then◌else◌, ◌==◌,
}
use distributed_acid_kv_stor.Common.Bytes.{Bytes}
use distributed_acid_kv_stor.Storage.Key.{encode, u64_max}
use distributed_acid_kv_stor.Storage.Record.{OpType, put, delete, rollback, WriteRecord}
use distributed_acid_kv_stor.Storage.Record as Record
use distributed_acid_kv_stor.Storage.Lock.{Lock, LockError}
use distributed_acid_kv_stor.Storage.Lock as LockBytes
use distributed_acid_kv_stor.Storage.Fjall.{Fjall, BatchOp, insert, remove, p_lock, p_write}
use distributed_acid_kv_stor.Storage.Reader.{MvccError, corrupted_state}
use distributed_acid_kv_stor.Storage.Versions.{Flow, next, done, for_versions}
use distributed_acid_kv_stor.Txn.World.{
  LockResolverError, storage, fjall, mvcc, lock_active_not_expired, TxnStatus, committed,
  rolled_back, locked, World, read_clock, commit_batch, read, is_expired,
}

-- `match record.op`, for a record of the transaction.
unfoldable pub status_of : ℕ → OpType → TxnStatus
status_of commit_ts put = committed commit_ts
status_of commit_ts delete = committed commit_ts
status_of commit_ts rollback = rolled_back

-- The body of the loop over the versions of the primary key.
unfoldable pub status_record : {E : Type 0} → ℕ → ℕ → Option WriteRecord → Result E (Flow TxnStatus)
unfolding status_of
status_record start_ts commit_ts none = ok next
status_record start_ts commit_ts (some rec) =
    if rec.start_ts == start_ts then ok (done (status_of commit_ts rec.op)) else ok next

unfoldable pub status_version : {E : Type 0} → ℕ → ℕ → Bytes → Result E (Flow TxnStatus)
unfolding status_record
status_version start_ts commit_ts write_bytes =
    status_record start_ts commit_ts (Record.from_bytes write_bytes)

-- The batch that replaces the lock of `key` by a write record.
abbrev pub resolution : Bytes → ℕ → ℕ → OpType → List BatchOp
resolution key ts start_ts op =
    insert p_write (encode key ts) (Record.to_bytes (record { start_ts = start_ts; op = op }))
    ∷ remove p_lock key
    ∷ []

module _ (db : Fjall) (clock : ℕ → ℕ) where
  abbrev pub Action : Type 0 → Type 0
  Action A = Exec (World db) (LockResolverError db.Error) A

  -- Step 2 of `check_txn_status` where the lock of the transaction is there.
  unfoldable pub expire_primary : Bytes → ℕ → Lock → Action TxnStatus
  expire_primary primary_key start_ts lock = do
    now_phys ← read_clock clock
    if is_expired start_ts lock.ttl now_phys
        then (do
          wrap storage (commit_batch (resolution primary_key start_ts start_ts rollback))
          pure rolled_back)
        else pure (locked lock.ttl)

  unfoldable pub check_lock : Bytes → ℕ → Result LockError Lock → Action TxnStatus
  check_lock primary_key start_ts (err _) = pure rolled_back
  check_lock primary_key start_ts (ok lock) =
      if lock.start_ts == start_ts
      then expire_primary primary_key start_ts lock
      else pure rolled_back

  unfoldable pub check_primary_lock : Bytes → ℕ → Result db.Error (Option Bytes) → Action TxnStatus
  check_primary_lock primary_key start_ts (err e) = throw (fjall e)
  check_primary_lock primary_key start_ts (ok none) = pure rolled_back
  check_primary_lock primary_key start_ts (ok (some lock_bytes)) =
      check_lock primary_key start_ts (LockBytes.from_bytes lock_bytes)

  -- What follows the loop: an early return, or step 2.
  unfoldable pub after_scan : Bytes → ℕ → Flow TxnStatus → Action TxnStatus
  after_scan primary_key start_ts (done status) = pure status
  after_scan primary_key start_ts next =
      λ w. check_primary_lock primary_key start_ts (db.get w.keyspace p_lock primary_key) w

  -- Step 1, the loop over the versions of the primary key.
  unfoldable pub scan_status : Bytes → ℕ → Action (Flow TxnStatus)
  scan_status primary_key start_ts = read (λ s.
      for_versions fjall (mvcc corrupted_state) primary_key (status_version start_ts)
        (db.range s p_write (encode primary_key u64_max)))

  unfoldable pub check_txn_status : Bytes → ℕ → Action TxnStatus
  check_txn_status primary_key start_ts = do
    found ← scan_status primary_key start_ts
    after_scan primary_key start_ts found

  unfoldable pub resolve_status : Bytes → Lock → TxnStatus → Action (Unit {0})
  resolve_status key lock (committed commit_ts) =
      wrap storage (commit_batch (resolution key commit_ts lock.start_ts lock.op))
  resolve_status key lock rolled_back =
      wrap storage (commit_batch (resolution key lock.start_ts lock.start_ts rollback))
  resolve_status key lock (locked _) = do
    now_phys ← read_clock clock
    (if is_expired lock.start_ts lock.ttl now_phys
        then wrap storage (commit_batch (resolution key lock.start_ts lock.start_ts rollback))
        else throw lock_active_not_expired)

  unfoldable pub resolve_lock : Bytes → Lock → Action (Unit {0})
  resolve_lock key lock = do
    status ← check_txn_status lock.primary_key lock.start_ts
    resolve_status key lock status
