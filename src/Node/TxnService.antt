-- ===== src/Node/TxnService.antt =====
-- The transaction service of crates/node/src/service.rs, and the batch calls of its key-value
-- service. `None` errors of a response are left out: they carry nothing.
use distributed_acid_kv_stor.Common.{
  ℕ, Bool, true, false, Option, none, some, List, map, Result, ok, err, Exec, pure, throw, ◌>>=◌,
}
use distributed_acid_kv_stor.Common.Bytes.{Bytes}
use distributed_acid_kv_stor.Storage.Fjall.{Fjall}
use distributed_acid_kv_stor.Txn.World.{TxnError, TxnStatus, committed, rolled_back, locked}
use distributed_acid_kv_stor.Txn.Coordinator as Coordinator
use distributed_acid_kv_stor.Txn.Coordinator.Prewrite as Prewrite
use distributed_acid_kv_stor.Txn.Coordinator.Commit as Commit
use distributed_acid_kv_stor.Node.{
  Status, internal, aborted, RaftNodes, Handler, call, MutationMessage, mutation_of,
}

pub record PrewriteRequest : Type 0 where
  pub mutations : List MutationMessage
  pub primary_lock : Bytes
  pub start_ts : ℕ
  pub lock_ttl : ℕ

pub record CommitRequest : Type 0 where
  pub keys : List Bytes
  pub start_ts : ℕ
  pub commit_ts : ℕ

pub record CheckTxnStatusResponse (E : Type 0) : Type 0 where
  pub lock_ttl : ℕ
  pub commit_ts : ℕ
  pub is_rolled_back : Bool
  pub error : Option E

pub record HeartBeatResponse (E : Type 0) : Type 0 where
  pub success : Bool
  pub ttl : ℕ
  pub error : Option E

-- `Ok(_) => Ok(..), Err(e) => Err(Status::..(e.to_string()))`
abbrev pub answer : {S E A : Type 0} → (E → Status E) → Result E A → Exec S (Status E) A
answer status (ok a) = pure a
answer status (err e) = throw (status e)

-- The response to a status of a transaction, or to an error.
unfoldable pub status_response : {E : Type 0} → Result E TxnStatus → CheckTxnStatusResponse E
status_response (ok (locked ttl)) = record {
  lock_ttl = ttl;
  commit_ts = 0;
  is_rolled_back = false;
  error = none;
}
status_response (ok (committed commit_ts)) = record {
  lock_ttl = 0;
  commit_ts = commit_ts;
  is_rolled_back = false;
  error = none;
}
status_response (ok rolled_back) = record {
  lock_ttl = 0;
  commit_ts = 0;
  is_rolled_back = true;
  error = none;
}
status_response (err e) = record {
  lock_ttl = 0;
  commit_ts = 0;
  is_rolled_back = false;
  error = some e;
}

unfoldable pub heart_beat_response : {E : Type 0} → Result E ℕ → HeartBeatResponse E
heart_beat_response (ok ttl) = record { success = true; ttl = ttl; error = none }
heart_beat_response (err e) = record { success = false; ttl = 0; error = some e }

module _ {db : Fjall} (raft : RaftNodes db) (clock : ℕ → ℕ) where
  unfoldable pub prewrite : PrewriteRequest → Handler raft (TxnError db.Error) (Unit {0})
  prewrite req = do
    result ← call raft (
        Prewrite.prewrite db clock req.start_ts (map mutation_of req.mutations) req.primary_lock
          req.lock_ttl)
    answer aborted result

  unfoldable pub commit : CommitRequest → Handler raft (TxnError db.Error) (Unit {0})
  commit req = do
    result ← call raft (Commit.commit db req.start_ts req.commit_ts req.keys)
    answer internal result

  unfoldable pub rollback : ℕ → List Bytes → Handler raft (TxnError db.Error) (Unit {0})
  rollback start_ts keys = do
    result ← call raft (Commit.rollback_txn db start_ts keys)
    answer internal result

  unfoldable pub check_txn_status :
      Bytes → ℕ → Handler raft (TxnError db.Error) (CheckTxnStatusResponse (TxnError db.Error))
  check_txn_status primary_key lock_ts = do
    result ← call raft (Coordinator.check_txn_status db clock primary_key lock_ts)
    pure (status_response result)

  unfoldable pub heart_beat :
      Bytes → ℕ → ℕ → Handler raft (TxnError db.Error) (HeartBeatResponse (TxnError db.Error))
  heart_beat primary_lock start_ts ttl = do
    result ← call raft (Coordinator.heartbeat db clock primary_lock start_ts ttl)
    pure (heart_beat_response result)

  -- `batch_prewrite` and `batch_commit` of the key-value service.
  unfoldable pub batch_prewrite : PrewriteRequest → Handler raft (TxnError db.Error) (Unit {0})
  batch_prewrite req = do
    result ← call raft (
        Prewrite.batch_prewrite db clock req.start_ts (map mutation_of req.mutations)
          req.primary_lock req.lock_ttl)
    answer aborted result

  unfoldable pub batch_commit : CommitRequest → Handler raft (TxnError db.Error) (Unit {0})
  batch_commit req = do
    result ← call raft (Commit.batch_commit db req.start_ts req.commit_ts req.keys)
    answer internal result
