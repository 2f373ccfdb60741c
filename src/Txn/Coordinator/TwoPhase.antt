-- ===== src/Txn/Coordinator/TwoPhase.antt =====
-- A transaction of one key through `prewrite`, `commit` and `get` of
-- crates/txn-coordinator/src/coordinator.rs, and through `rollback`.
use distributed_acid_kv_stor.Common.{
  ℕ, ◌≤◌, ◌<◌, ◌^◌, ◌≡◌, ◌≢◌, refl, sym, ◌∙◌, inl, Option, none, some, [], ◌∷◌, ok, ◌>>=◌, ◌>>◌,
  arith, length,
}
use distributed_acid_kv_stor.Common.Bytes.{Bytes}
use distributed_acid_kv_stor.Storage.Key.{u64_max, encode}
use distributed_acid_kv_stor.Storage.Record.{put, delete}
use distributed_acid_kv_stor.Storage.Fjall.{Fjall, Reliable, p_write}
use distributed_acid_kv_stor.Storage.View.{stored, IsIsolated, HasNoLock, IsRollback, OnlyRollbacks}
use distributed_acid_kv_stor.Storage.View.After.{after-IsIsolated}
use distributed_acid_kv_stor.Storage.Reader as Reader
use distributed_acid_kv_stor.Storage.Reader.Laws.{get_newest_put, get_newest_delete, get_unwritten}
use distributed_acid_kv_stor.Txn.World.{World}
use distributed_acid_kv_stor.Txn.Resolver.{resolution}
use distributed_acid_kv_stor.Txn.Coordinator.{
  Mutation, put_value, delete_key, key, op_type, stage, get, after_read,
}
use distributed_acid_kv_stor.Txn.Coordinator.Staged.{
  staged_lock, staged-HasLock, stored-write-staged, stored-default-staged, resolved-HasNoLock,
  resolved-HasVersion, stored-write-resolved, stored-default-resolved,
}
use distributed_acid_kv_stor.Txn.Coordinator.Prewrite.{prewrite}
use distributed_acid_kv_stor.Txn.Coordinator.Prewrite.Laws.{IsConflictFree, prewrite_one_writes}
use distributed_acid_kv_stor.Txn.Coordinator.Commit.{commit, commit_secondaries}
use distributed_acid_kv_stor.Txn.Coordinator.Commit.Laws.{commit_primary_commits}

-- What a reader gets once the mutation is committed.
abbrev pub outcome : Mutation → Option Bytes
outcome (put_value k v) = some v
outcome (delete_key k) = none

module _ {db : Fjall} (rel : Reliable db) (start_ts commit_ts lock_ttl : ℕ) where
  -- The keyspace after the prewrite of `m`, and after its commit.
  abbrev pub prewritten : Mutation → db.Keyspace → db.Keyspace
  prewritten m s = rel.after (stage start_ts (key m) lock_ttl m) s

  abbrev pub finished : Mutation → db.Keyspace → db.Keyspace
  finished m s = rel.after (resolution (key m) commit_ts start_ts (op_type m)) (prewritten m s)

  pub prewritten-IsIsolated :
      (m : Mutation) (s : db.Keyspace)
      → IsIsolated rel s (key m)
      → IsIsolated rel (prewritten m s) (key m)
  prewritten-IsIsolated (put_value k v) s i =
      after-IsIsolated rel s k (stage start_ts k lock_ttl (put_value k v)) (tt, (tt, tt)) i
  prewritten-IsIsolated (delete_key k) s i =
      after-IsIsolated rel s k (stage start_ts k lock_ttl (delete_key k)) (tt, tt) i

  pub finished-IsIsolated :
      (m : Mutation) (s : db.Keyspace)
      → commit_ts ≤ u64_max
      → IsIsolated rel s (key m)
      → IsIsolated rel (finished m s) (key m)
  finished-IsIsolated m s f i =
      after-IsIsolated rel (prewritten m s) (key m)
        (resolution (key m) commit_ts start_ts (op_type m)) (inl (commit_ts, f, refl), (tt, tt))
        (prewritten-IsIsolated m s i)

  -- Apart from the version that it writes, a transaction leaves the versions of its key.
  pub stored-write-finished :
      (m : Mutation) (s : db.Keyspace) (t : ℕ)
      → commit_ts ≤ u64_max
      → t ≤ u64_max
      → commit_ts ≢ t
      → stored rel (finished m s) p_write (encode (key m) t)
        ≡ stored rel s p_write (encode (key m) t)
  stored-write-finished m s t f g n =
      stored-write-resolved rel (prewritten m s) (key m) commit_ts start_ts (op_type m) t f g n
      ∙ stored-write-staged rel s start_ts (key m) lock_ttl m (encode (key m) t)

  module _ (s : db.Keyspace) (m : Mutation) (read_ts : ℕ) (fits : read_ts ≤ u64_max)
      (started : start_ts < commit_ts) (visible : commit_ts ≤ read_ts)
      (isolated : IsIsolated rel s (key m)) (free : IsConflictFree rel s (key m) start_ts) where
    only_rollbacks : OnlyRollbacks rel (finished m s) (key m) commit_ts read_ts
    only_rollbacks t b above upto h =
        let old =
          free t b (omega arith)
            (sym (stored-write-finished m s t (omega arith) (omega arith) (omega arith)) ∙ h) in
        absurd (omega (arith, old.0))

  pub read_finished :
      (s : db.Keyspace) (m : Mutation) (read_ts : ℕ)
      → read_ts ≤ u64_max
      → start_ts < commit_ts
      → commit_ts ≤ read_ts
      → IsIsolated rel s (key m)
      → IsConflictFree rel s (key m) start_ts
      → Reader.get db (key m) read_ts (finished m s) ≡ ok (outcome m)
  read_finished s (put_value k v) read_ts fits started visible isolated free =
      get_newest_put rel (finished (put_value k v) s) k read_ts commit_ts
        (record { start_ts = start_ts; op = put }) v fits (omega arith)
        (finished-IsIsolated (put_value k v) s (omega arith) isolated)
        (inl (resolved-HasNoLock rel (prewritten (put_value k v) s) k commit_ts start_ts put))
        visible (resolved-HasVersion rel (prewritten (put_value k v) s) k commit_ts start_ts put)
        (only_rollbacks s (put_value k v) read_ts fits started visible isolated free) refl
        (stored-default-resolved rel (prewritten (put_value k v) s) k commit_ts start_ts put
            (encode k start_ts)
          ∙ stored-default-staged rel s start_ts k lock_ttl k v)
  read_finished s (delete_key k) read_ts fits started visible isolated free =
      get_newest_delete rel (finished (delete_key k) s) k read_ts commit_ts
        (record { start_ts = start_ts; op = delete }) fits (omega arith)
        (finished-IsIsolated (delete_key k) s (omega arith) isolated)
        (inl (resolved-HasNoLock rel (prewritten (delete_key k) s) k commit_ts start_ts delete))
        visible (resolved-HasVersion rel (prewritten (delete_key k) s) k commit_ts start_ts delete)
        (only_rollbacks s (delete_key k) read_ts fits started visible isolated free) refl

  pub finished-HasNoLock : (m : Mutation) (s : db.Keyspace) → HasNoLock rel (finished m s) (key m)
  finished-HasNoLock m s =
      resolved-HasNoLock rel (prewritten m s) (key m) commit_ts start_ts (op_type m)

  -- A reader below the commit, to whom nothing was visible before, is left with nothing.
  pub read_unfinished :
      (s : db.Keyspace) (m : Mutation) (read_ts : ℕ)
      → commit_ts ≤ u64_max
      → read_ts < commit_ts
      → IsIsolated rel s (key m)
      → ((t : ℕ) (b : Bytes)
          → t ≤ read_ts
          → stored rel s p_write (encode (key m) t) ≡ some b
          → IsRollback b)
      → Reader.get db (key m) read_ts (finished m s) ≡ ok none
  read_unfinished s m read_ts fits before isolated older =
      get_unwritten rel (finished m s) (key m) read_ts (omega arith)
        (finished-IsIsolated m s fits isolated) (inl (finished-HasNoLock m s))
        (λ t b upto h.
          older t b upto (sym (stored-write-finished m s t fits (omega arith) (omega arith)) ∙ h))

  pub prewrite_writes :
      (clock : ℕ → ℕ) (w : World db) (m : Mutation)
      → IsIsolated rel w.keyspace (key m)
      → IsConflictFree rel w.keyspace (key m) start_ts
      → HasNoLock rel w.keyspace (key m)
      → prewrite db clock start_ts (m ∷ []) (key m) lock_ttl w
        ≡ (ok tt, record w { keyspace = prewritten m w.keyspace })
  unfolding prewrite
  prewrite_writes clock w m isolated free unlocked =
      rw (prewrite_one_writes rel clock w start_ts (key m) lock_ttl m isolated free unlocked)

  pub commit_writes :
      (w : World db) (m : Mutation)
      → start_ts ≤ u64_max
      → lock_ttl ≤ u64_max
      → length (key m) < 2 ^ 32
      → commit db start_ts commit_ts (key m ∷ []) (record w { keyspace = prewritten m w.keyspace })
        ≡ (ok tt, record w { keyspace = finished m w.keyspace })
  unfolding commit commit_secondaries
  commit_writes w m sf tf kf = rw (
      commit_primary_commits rel (record w { keyspace = prewritten m w.keyspace }) start_ts
        commit_ts (key m) (staged_lock start_ts (key m) lock_ttl m)
        (staged-HasLock rel w.keyspace start_ts (key m) lock_ttl m sf tf kf) refl)

  -- On a keyspace that does not fail and stores no version of a prefix or an extension of the key:
  -- from a key without a lock, without a version as new as start_ts and without this transaction's
  -- rollback record, a transaction with start_ts < commit_ts that prewrites and commits one
  -- mutation succeeds, and a reader at read_ts ≥ commit_ts gets what it wrote, the value of a put
  -- and nothing after a delete. The lock's TTL and the timestamps fit 64 bits, and the length of
  -- the key 32.
  pub prewrite-commit-get :
      (clock : ℕ → ℕ) (w : World db) (m : Mutation) (read_ts : ℕ)
      → lock_ttl ≤ u64_max
      → length (key m) < 2 ^ 32
      → read_ts ≤ u64_max
      → start_ts < commit_ts
      → commit_ts ≤ read_ts
      → IsIsolated rel w.keyspace (key m)
      → IsConflictFree rel w.keyspace (key m) start_ts
      → HasNoLock rel w.keyspace (key m)
      → (do
        prewrite db clock start_ts (m ∷ []) (key m) lock_ttl
        commit db start_ts commit_ts (key m ∷ [])
        get db clock (key m) read_ts)
          w
        ≡ (ok (outcome m), record w { keyspace = finished m w.keyspace })
  unfolding get after_read
  prewrite-commit-get clock w m read_ts tf kf fits started visible isolated free unlocked = rw (
    ◌>>◌,
    ◌>>=◌,
    prewrite_writes clock w m isolated free unlocked,
    commit_writes w m (omega arith) tf kf,
    read_finished w.keyspace m read_ts fits started visible isolated free,
  )
