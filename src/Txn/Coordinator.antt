-- ===== src/Txn/Coordinator.antt =====
-- crates/txn-coordinator/src/coordinator.rs: reads, heartbeats, and what both kinds of prewrite
-- check of one key.
pub mod Prewrite
pub mod Commit
pub mod Staged
pub mod TwoPhase
pub mod Repeatable
pub mod Batch
pub mod Scan
pub mod Abort
pub mod Anomalies
pub mod RollForward
mod Tests
use distributed_acid_kv_stor.Common.{
  ℕ, not, ◌&&◌, Bool, true, false, Option, none, some, List, [], ◌∷◌, ◌++◌, Result, ok, err,
  map_err, Exec, pure, throw, lift, wrap, attempt, continue, ◌>>=◌, ◌>>◌, if◌then◌else◌, ◌==◌, leb,
  ltb, length,
}
use distributed_acid_kv_stor.Common.Bytes.{Bytes, lt_bytes, ge_bytes, is_empty}
use distributed_acid_kv_stor.Storage.Key.{encode, decode, u64_max}
use distributed_acid_kv_stor.Storage.Record.{OpType, put, delete, rollback, WriteRecord}
use distributed_acid_kv_stor.Storage.Record as Record
use distributed_acid_kv_stor.Storage.Lock.{Lock, LockError}
use distributed_acid_kv_stor.Storage.Lock as LockBytes
use distributed_acid_kv_stor.Storage.Fjall.{
  Fjall, BatchOp, insert, remove, p_lock, p_write, p_default,
}
use distributed_acid_kv_stor.Storage.Fjall.Entries.{Entry}
use distributed_acid_kv_stor.Storage.Engine.{is_last}
use distributed_acid_kv_stor.Storage.Reader.{MvccError, corrupted_state, key_is_locked}
use distributed_acid_kv_stor.Storage.Reader as Reader
use distributed_acid_kv_stor.Storage.Versions.{Flow, next, done, for_versions}
use distributed_acid_kv_stor.Txn.World.{
  TxnError, storage, fjall, mvcc, lock_resolver, write_conflict, key_locked,
  transaction_rolled_back, TxnStatus, World, commit_batch, read,
}
use distributed_acid_kv_stor.Txn.Resolver.{check_txn_status as resolver_check, resolve_lock}

pub data Mutation : Type 0 where
  put_value : Bytes → Bytes → Mutation
  delete_key : Bytes → Mutation

abbrev pub key : Mutation → Bytes
key (put_value k _) = k
key (delete_key k) = k

abbrev pub op_type : Mutation → OpType
op_type (put_value _ _) = put
op_type (delete_key _) = delete

-- `rec.start_ts == start_ts && rec.op == OpType::Rollback`
unfoldable pub is_own_rollback : ℕ → Option WriteRecord → Bool
is_own_rollback start_ts none = false
is_own_rollback start_ts (some rec) =
    rec.start_ts == start_ts && elim rec.op [ rollback ↦ true | put ↦ false | delete ↦ false ]

-- The body of the conflict check of a prewrite. It never returns but by an error.
unfoldable pub conflict_version :
    {F : Type 0} → Bytes → ℕ → ℕ → Bytes → Result (TxnError F) (Flow ⊥)
unfolding is_own_rollback
conflict_version user_key start_ts commit_ts write_bytes =
    if is_own_rollback start_ts (Record.from_bytes write_bytes)
    then err transaction_rolled_back
    else if leb start_ts commit_ts
    then err (write_conflict user_key start_ts)
    else ok next

-- The changes that a prewrite stages for one mutation.
abbrev pub stage_value : ℕ → Mutation → List BatchOp
stage_value start_ts (put_value k value) = insert p_default (encode k start_ts) value ∷ []
stage_value start_ts (delete_key k) = []

abbrev pub stage : ℕ → Bytes → ℕ → Mutation → List BatchOp
stage start_ts primary_key lock_ttl mutation =
    stage_value start_ts mutation
    ++ insert p_lock (key mutation) (
        LockBytes.to_bytes (record {
          primary_key = primary_key;
          start_ts = start_ts;
          ttl = lock_ttl;
          op = op_type mutation;
        }))
      ∷ []

-- The tail of a turn of `scan`, once the value is read: the results so far, and whether the limit
-- ends the loop.
unfoldable pub keep_result : Bytes → Option Bytes → List (Bytes × Bytes) → List (Bytes × Bytes)
keep_result user_key none results = results
keep_result user_key (some value) results = results ++ (user_key, value) ∷ []

unfoldable pub limit_reached : ℕ → Option Bytes → List (Bytes × Bytes) → Bool
limit_reached limit none results = false
limit_reached limit (some value) results = ltb 0 limit && leb limit (length results)

module _ (db : Fjall) (clock : ℕ → ℕ) where
  abbrev pub Action : Type 0 → Type 0
  Action A = Exec (World db) (TxnError db.Error) A

  unfoldable pub check_txn_status : Bytes → ℕ → Action TxnStatus
  check_txn_status primary_key start_ts =
      wrap lock_resolver (resolver_check db clock primary_key start_ts)

  -- `heartbeat`, from the lock that was read on.
  unfoldable pub extend_lock : Bytes → ℕ → ℕ → Result db.Error (Option Bytes) → Action ℕ
  extend_lock primary_key start_ts new_ttl (err e) = throw (fjall e)
  extend_lock primary_key start_ts new_ttl (ok none) = throw transaction_rolled_back
  extend_lock primary_key start_ts new_ttl (ok (some lock_bytes)) =
      elim (LockBytes.from_bytes lock_bytes) [
        | err _ ↦ throw (mvcc corrupted_state)
        | ok lock ↦
            if lock.start_ts == start_ts
            then (do
              wrap storage (
                  commit_batch (
                    insert p_lock primary_key (LockBytes.to_bytes (record lock { ttl = new_ttl }))
                    ∷ []))
              pure new_ttl)
            else throw transaction_rolled_back
      ]

  unfoldable pub heartbeat : Bytes → ℕ → ℕ → Action ℕ
  heartbeat primary_key start_ts new_ttl w =
      extend_lock primary_key start_ts new_ttl (db.get w.keyspace p_lock primary_key) w

  -- The lock that `get` makes up from the error of the reader.
  abbrev pub reader_lock : Bytes → ℕ → Lock
  reader_lock primary_key lock_ts = record {
    primary_key = primary_key;
    start_ts = lock_ts;
    ttl = 3000;
    op = put;
  }

  -- After the attempt to resolve the lock: read again, or report the lock.
  unfoldable pub read_again : Bytes → ℕ → {E : Type 0} → Result E (Unit {0}) → Action (Option Bytes)
  read_again user_key read_ts (ok _) = wrap mvcc (read (Reader.get db user_key read_ts))
  read_again user_key read_ts (err _) = throw (key_locked user_key)

  unfoldable pub after_read :
      Bytes → ℕ → Result (MvccError db.Error) (Option Bytes) → Action (Option Bytes)
  after_read user_key read_ts (ok value) = pure value
  after_read user_key read_ts (err (key_is_locked primary_key lock_ts)) = do
    resolved ← attempt (resolve_lock db clock user_key (reader_lock primary_key lock_ts))
    read_again user_key read_ts resolved
  after_read user_key read_ts (err e) = throw (mvcc e)

  unfoldable pub get : Bytes → ℕ → Action (Option Bytes)
  get user_key read_ts w = after_read user_key read_ts (Reader.get db user_key read_ts w.keyspace) w

  unfoldable pub scan_loop :
      Bytes
      → Bytes
      → ℕ
      → ℕ
      → List (Result db.Error Entry)
      → Option Bytes
      → List (Bytes × Bytes)
      → Action (List (Bytes × Bytes))
  scan_loop start_key end_key limit read_ts [] last_seen results = pure results
  scan_loop start_key end_key limit read_ts (err e ∷ items) last_seen results = throw (fjall e)
  scan_loop start_key end_key limit read_ts (ok (enc_key, _) ∷ items) last_seen results =
      elim (decode enc_key) [
        | err _ ↦ throw (mvcc corrupted_state)
        | ok (user_key, _) ↦
            let skip = scan_loop start_key end_key limit read_ts items last_seen results in
            if not (is_empty start_key) && lt_bytes user_key start_key
            then skip
            else if not (is_empty end_key) && ge_bytes user_key end_key
            then pure results
            else if is_last last_seen user_key
            then skip
            else (do
              value ← get user_key read_ts
              (let results' = keep_result user_key value results in
                  if limit_reached limit value results'
                  then pure results'
                  else scan_loop start_key end_key limit read_ts items (some user_key) results'))
      ]

  unfoldable pub scan : Bytes → Bytes → ℕ → ℕ → Action (List (Bytes × Bytes))
  scan start_key end_key limit read_ts w =
      let seek_key = if is_empty start_key then [] else encode start_key read_ts in
      scan_loop start_key end_key limit read_ts (db.range w.keyspace p_write seek_key) none [] w
