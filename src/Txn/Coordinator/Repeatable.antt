-- ===== src/Txn/Coordinator/Repeatable.antt =====
-- Reads of crates/txn-coordinator/src/coordinator.rs at a snapshot, while a later transaction
-- prewrites and commits.
use distributed_acid_kv_stor.Common.{
  ℕ, ◌≤◌, ◌<◌, ◌^◌, ◌≡◌, ◌∙◌, inl, inr, Option, [], ◌∷◌, ok, pure, ◌>>=◌, ◌>>◌, arith, length,
}
use distributed_acid_kv_stor.Common.Bytes.{Bytes}
use distributed_acid_kv_stor.Storage.Key.{u64_max, encode}
use distributed_acid_kv_stor.Storage.Fjall.{Fjall, Reliable}
use distributed_acid_kv_stor.Storage.View.{IsIsolated, HasNoLock, IsReadable}
use distributed_acid_kv_stor.Storage.Reader as Reader
use distributed_acid_kv_stor.Storage.Reader.Snapshot.{IsRecorded, Agree, get_agrees}
use distributed_acid_kv_stor.Txn.Coordinator.{Mutation, key, op_type, get, after_read}
use distributed_acid_kv_stor.Txn.Coordinator.Staged.{
  staged_lock, staged-HasLock, stored-write-staged, stored-default-staged_other,
  stored-default-resolved,
}
use distributed_acid_kv_stor.Txn.Coordinator.Prewrite.{prewrite}
use distributed_acid_kv_stor.Txn.Coordinator.Prewrite.Laws.{IsConflictFree}
use distributed_acid_kv_stor.Txn.Coordinator.Commit.{commit}
use distributed_acid_kv_stor.Txn.Coordinator.TwoPhase.{
  prewritten, finished, prewritten-IsIsolated, finished-IsIsolated, finished-HasNoLock,
  stored-write-finished, prewrite_writes, commit_writes,
}

module _ {db : Fjall} (rel : Reliable db) (start_ts commit_ts lock_ttl read_ts : ℕ)
    (before : read_ts < start_ts) (started : start_ts < commit_ts) (cf : commit_ts ≤ u64_max)
    (tf : lock_ttl ≤ u64_max) (m : Mutation) (kf : length (key m) < 2 ^ 32) (s : db.Keyspace)
    (isolated : IsIsolated rel s (key m)) (unlocked : HasNoLock rel s (key m))
    (recorded : IsRecorded rel (key m) read_ts s) where
  abbrev between : db.Keyspace
  between = prewritten rel start_ts commit_ts lock_ttl m s

  abbrev pub finally : db.Keyspace
  finally = finished rel start_ts commit_ts lock_ttl m s

  -- The lock of the later transaction does not stop the reader.
  between-IsReadable : IsReadable rel between (key m) read_ts
  between-IsReadable = inr (
    staged_lock start_ts (key m) lock_ttl m,
    staged-HasLock rel s start_ts (key m) lock_ttl m (omega arith) tf kf,
    before,
  )

  between-Agree : Agree rel (key m) read_ts s between
  between-Agree = record {
    versions = λ t upto. stored-write-staged rel s start_ts (key m) lock_ttl m (encode (key m) t);
    values = λ t upto.
        stored-default-staged_other rel s start_ts (key m) lock_ttl m t (omega arith) (omega arith)
          (omega arith);
  }

  finally-Agree : Agree rel (key m) read_ts s finally
  finally-Agree = record {
    versions = λ t upto.
        stored-write-finished rel start_ts commit_ts lock_ttl m s t cf (omega arith) (omega arith);
    values = λ t upto.
        stored-default-resolved rel (prewritten rel start_ts commit_ts lock_ttl m s) (key m)
          commit_ts start_ts (op_type m) (encode (key m) t)
        ∙ stored-default-staged_other rel s start_ts (key m) lock_ttl m t (omega arith)
            (omega arith) (omega arith);
  }

  get-between : Reader.get db (key m) read_ts between ≡ Reader.get db (key m) read_ts s
  get-between =
      get_agrees rel (key m) read_ts s between (omega arith) between-Agree isolated
        (prewritten-IsIsolated rel start_ts commit_ts lock_ttl m s isolated) (inl unlocked)
        between-IsReadable recorded

  get-finally : Reader.get db (key m) read_ts finally ≡ Reader.get db (key m) read_ts s
  get-finally =
      get_agrees rel (key m) read_ts s finally (omega arith) finally-Agree isolated
        (finished-IsIsolated rel start_ts commit_ts lock_ttl m s cf isolated) (inl unlocked)
        (inl (finished-HasNoLock rel start_ts commit_ts lock_ttl m s)) recorded

  -- On a keyspace that does not fail and stores no version of a prefix or an extension of the key,
  -- whose versions up to read_ts hold records of transactions that started by then: from a key
  -- without a lock, without a version as new as start_ts and without this transaction's rollback
  -- record, while a transaction with read_ts < start_ts < commit_ts prewrites and commits one
  -- mutation, each read at read_ts, between the two and after them, gives what the read before them
  -- gave. The lock's TTL and the timestamps fit 64 bits, and the length of the key 32.
  pub prewrite-get-commit-get :
      (clock : ℕ → ℕ) (reads : ℕ) (v : Option Bytes)
      → IsConflictFree rel s (key m) start_ts
      → Reader.get db (key m) read_ts s ≡ ok v
      → (do
        prewrite db clock start_ts (m ∷ []) (key m) lock_ttl
        first ← get db clock (key m) read_ts
        commit db start_ts commit_ts (key m ∷ [])
        second ← get db clock (key m) read_ts
        pure (first ∷ second ∷ []))
          (record { keyspace = s; reads = reads })
        ≡ (ok (v ∷ v ∷ []), record { keyspace = finally; reads = reads })
  unfolding get after_read
  prewrite-get-commit-get clock reads v free h = rw (
    ◌>>◌,
    ◌>>=◌,
    prewrite_writes rel start_ts commit_ts lock_ttl clock (record { keyspace = s; reads = reads }) m
        isolated free unlocked,
    get-between,
    h,
    commit_writes rel start_ts commit_ts lock_ttl (record { keyspace = s; reads = reads }) m
        (omega arith) tf kf,
    get-finally,
    h,
  )
