-- ===== src/Txn/Coordinator/Abort.antt =====
-- After `rollback` of crates/txn-coordinator/src/coordinator.rs a transaction can neither commit
-- nor prewrite the key again.
use distributed_acid_kv_stor.Common.{ℕ, ◌≡◌, ◌∙◌, ◌⊎◌, inl, inr, List, [], ◌∷◌, ok, err, ◌>>◌}
use distributed_acid_kv_stor.Common.Bytes.{Bytes, eq_bytes_refl}
use distributed_acid_kv_stor.Storage.Lock.{Lock}
use distributed_acid_kv_stor.Storage.Fjall.{Fjall, Reliable, BatchOp, p_lock}
use distributed_acid_kv_stor.Storage.View.{HasLock}
use distributed_acid_kv_stor.Txn.World.{World, transaction_rolled_back}
use distributed_acid_kv_stor.Txn.Coordinator.Commit.{commit, batch_commit, rollback_txn}
use distributed_acid_kv_stor.Txn.Coordinator.Commit.Laws.{
  IsForeign, rollback_record, commit_refused, batch_commit_unlocked, rollback_one_own,
  rollback_one_foreign,
}

module _ {db : Fjall} (rel : Reliable db) (start_ts : ℕ) (user_key : Bytes) where
  -- The lock on the key is the transaction's own.
  abbrev pub IsOwn : db.Keyspace → Type 0
  IsOwn s = (l : Lock) × HasLock rel s user_key l × (l.start_ts ≡ start_ts)

  -- The changes of the rollback, with and without the transaction's lock.
  abbrev undo : (s : db.Keyspace) → IsOwn s ⊎ IsForeign rel s user_key start_ts → List BatchOp
  undo s (inl own) = BatchOp.remove p_lock user_key ∷ rollback_record user_key start_ts ∷ []
  undo s (inr foreign) = rollback_record user_key start_ts ∷ []

  abbrev pub undone : (s : db.Keyspace) → IsOwn s ⊎ IsForeign rel s user_key start_ts → db.Keyspace
  undone s c = rel.after (undo s c) s

  rollback_undoes :
      (w : World db) (c : IsOwn w.keyspace ⊎ IsForeign rel w.keyspace user_key start_ts)
      → rollback_txn db start_ts (user_key ∷ []) w
        ≡ (ok tt, record w { keyspace = undone w.keyspace c })
  unfolding rollback_txn
  rollback_undoes w (inl (l, held, own)) = rw (rollback_one_own rel w start_ts user_key l held own)
  rollback_undoes w (inr foreign) = rw (rollback_one_foreign rel w start_ts user_key foreign)

  undone-IsForeign :
      (s : db.Keyspace) (c : IsOwn s ⊎ IsForeign rel s user_key start_ts)
      → IsForeign rel (undone s c) user_key start_ts
  undone-IsForeign s (inl own) =
      inl (rw (rel.lookup-after (undo s (inl own)) s p_lock user_key, eq_bytes_refl user_key))
  undone-IsForeign s (inr (inl free)) =
      inl (rel.lookup-after (undo s (inr (inl free))) s p_lock user_key ∙ free)
  undone-IsForeign s (inr (inr (l, held, other))) = inr (
    l,
    (rel.lookup-after (undo s (inr (inr (l, held, other)))) s p_lock user_key ∙ held.0, held.1),
    other,
  )

  -- On a keyspace that does not fail: a transaction that has rolled its primary key back, under its
  -- own lock or without one, is refused by `commit` from then on, and the commit writes nothing.
  pub rollback-commit :
      (w : World db) (c : IsOwn w.keyspace ⊎ IsForeign rel w.keyspace user_key start_ts)
      → (commit_ts : ℕ) (keys : List Bytes)
      → (do
        rollback_txn db start_ts (user_key ∷ [])
        commit db start_ts commit_ts (user_key ∷ keys))
          w
        ≡ (err transaction_rolled_back, record w { keyspace = undone w.keyspace c })
  rollback-commit w c commit_ts keys = rw (
    rollback_undoes w c,
    commit_refused rel (record w { keyspace = undone w.keyspace c }) start_ts commit_ts user_key
        keys (undone-IsForeign w.keyspace c),
  )

  -- On a keyspace that does not fail: the `batch_commit` of a key that the transaction has rolled
  -- back is reported as a success, with an empty batch committed.
  pub rollback-batch_commit :
      (w : World db) (c : IsOwn w.keyspace ⊎ IsForeign rel w.keyspace user_key start_ts)
      → (commit_ts : ℕ)
      → (do
        rollback_txn db start_ts (user_key ∷ [])
        batch_commit db start_ts commit_ts (user_key ∷ []))
          w
        ≡ (ok tt, record w { keyspace = rel.after [] (undone w.keyspace c) })
  rollback-batch_commit w c commit_ts = rw (
    rollback_undoes w c,
    batch_commit_unlocked rel (record w { keyspace = undone w.keyspace c }) start_ts commit_ts
        user_key (undone-IsForeign w.keyspace c),
  )
