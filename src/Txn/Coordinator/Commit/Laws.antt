-- ===== src/Txn/Coordinator/Commit/Laws.antt =====
-- What `commit` and `rollback` of crates/txn-coordinator/src/coordinator.rs do on each branch.
use distributed_acid_kv_stor.Common.{
  ℕ, ◌≡◌, ◌≢◌, ◌⊎◌, inl, inr, List, [], ◌∷◌, ok, err, ==_refl, ==_ne,
}
use distributed_acid_kv_stor.Common.Bytes.{Bytes}
use distributed_acid_kv_stor.Storage.Key.{encode}
use distributed_acid_kv_stor.Storage.Record.{rollback, to_bytes}
use distributed_acid_kv_stor.Storage.Lock.{Lock}
use distributed_acid_kv_stor.Storage.Lock.Laws.{from_bytes-to_bytes}
use distributed_acid_kv_stor.Storage.Fjall.{Fjall, Reliable, BatchOp, insert, p_lock, p_write}
use distributed_acid_kv_stor.Storage.View.{HasLock, HasNoLock}
use distributed_acid_kv_stor.Txn.World.{World, transaction_rolled_back}
use distributed_acid_kv_stor.Txn.Resolver.{resolution}
use distributed_acid_kv_stor.Txn.Coordinator.Commit.{
  commit_primary, commit_primary_lock, commit, rollback_lock, rollback_one, batch_commit,
  batch_commit_loop, batch_commit_lock,
}

-- The key is locked by no transaction, or by another one.
abbrev pub IsForeign : {db : Fjall} (rel : Reliable db) (s : db.Keyspace) → Bytes → ℕ → Type 0
IsForeign rel s user_key start_ts =
    HasNoLock rel s user_key ⊎ ((l : Lock) × HasLock rel s user_key l × (l.start_ts ≢ start_ts))

-- The record that a rollback leaves.
abbrev pub rollback_record : Bytes → ℕ → BatchOp
rollback_record user_key start_ts =
    insert p_write (encode user_key start_ts)
      (to_bytes (record { start_ts = start_ts; op = rollback }))

module _ {db : Fjall} (rel : Reliable db) (w : World db) (start_ts commit_ts : ℕ)
    (user_key : Bytes) where
  -- Under the transaction's own lock the primary key is committed: the record of the lock's
  -- operation is written at the commit timestamp, and the lock goes, in one batch.
  pub commit_primary_commits :
      (l : Lock)
      → HasLock rel w.keyspace user_key l
      → l.start_ts ≡ start_ts
      → commit_primary db start_ts commit_ts user_key w ≡ (
        ok tt,
        record w { keyspace = rel.after (resolution user_key commit_ts start_ts l.op) w.keyspace },
      )
  unfolding commit_primary commit_primary_lock
  commit_primary_commits l held own = rw (
    rel.get_lem w.keyspace p_lock user_key,
    held.0,
    commit_primary_lock,
    from_bytes-to_bytes l held.1,
    own,
    ==_refl start_ts,
    rel.commit_lem (resolution user_key commit_ts start_ts l.op) w.keyspace,
  )

  -- Without it the whole commit is refused, and nothing is written.
  pub commit_refused :
      (keys : List Bytes)
      → IsForeign rel w.keyspace user_key start_ts
      → commit db start_ts commit_ts (user_key ∷ keys) w ≡ (err transaction_rolled_back, w)
  unfolding commit commit_primary commit_primary_lock
  commit_refused keys (inl free) = rw (rel.get_lem w.keyspace p_lock user_key, free)
  commit_refused keys (inr (l, held, other)) = rw (
    rel.get_lem w.keyspace p_lock user_key,
    held.0,
    commit_primary_lock,
    from_bytes-to_bytes l held.1,
    ==_ne l.start_ts start_ts other,
  )

  -- `batch_commit` of one key without the transaction's lock succeeds and commits an empty batch.
  pub batch_commit_unlocked :
      IsForeign rel w.keyspace user_key start_ts
      → batch_commit db start_ts commit_ts (user_key ∷ []) w
        ≡ (ok tt, record w { keyspace = rel.after [] w.keyspace })
  unfolding batch_commit batch_commit_loop batch_commit_lock
  batch_commit_unlocked (inl free) =
      rw (rel.get_lem w.keyspace p_lock user_key, free, rel.commit_lem [] w.keyspace)
  batch_commit_unlocked (inr (l, held, other)) = rw (
    rel.get_lem w.keyspace p_lock user_key,
    held.0,
    batch_commit_lock,
    from_bytes-to_bytes l held.1,
    ==_ne l.start_ts start_ts other,
    rel.commit_lem [] w.keyspace,
  )

module _ {db : Fjall} (rel : Reliable db) (w : World db) (start_ts : ℕ) (user_key : Bytes) where
  -- A rollback leaves its record, and takes the lock away if it is the transaction's own.
  pub rollback_one_own :
      (l : Lock)
      → HasLock rel w.keyspace user_key l
      → l.start_ts ≡ start_ts
      → rollback_one db start_ts user_key w ≡ (
        ok tt,
        record w {
          keyspace =
              rel.after
                (BatchOp.remove p_lock user_key ∷ rollback_record user_key start_ts ∷ [])
                w.keyspace;
        },
      )
  unfolding rollback_one rollback_lock
  rollback_one_own l held own = rw (
    rollback_one,
    rel.get_lem w.keyspace p_lock user_key,
    held.0,
    rollback_lock,
    from_bytes-to_bytes l held.1,
    own,
    ==_refl start_ts,
    rel.commit_lem (BatchOp.remove p_lock user_key ∷ rollback_record user_key start_ts ∷ [])
        w.keyspace,
  )

  pub rollback_one_foreign :
      IsForeign rel w.keyspace user_key start_ts
      → rollback_one db start_ts user_key w ≡ (
        ok tt,
        record w { keyspace = rel.after (rollback_record user_key start_ts ∷ []) w.keyspace },
      )
  unfolding rollback_one rollback_lock
  rollback_one_foreign (inl free) = rw (
    rollback_one,
    rel.get_lem w.keyspace p_lock user_key,
    free,
    rel.commit_lem (rollback_record user_key start_ts ∷ []) w.keyspace,
  )
  rollback_one_foreign (inr (l, held, other)) = rw (
    rollback_one,
    rel.get_lem w.keyspace p_lock user_key,
    held.0,
    rollback_lock,
    from_bytes-to_bytes l held.1,
    ==_ne l.start_ts start_ts other,
    rel.commit_lem (rollback_record user_key start_ts ∷ []) w.keyspace,
  )
