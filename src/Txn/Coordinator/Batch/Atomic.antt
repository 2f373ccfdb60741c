-- ===== src/Txn/Coordinator/Batch/Atomic.antt =====
-- That `batch_prewrite` of crates/txn-coordinator/src/coordinator.rs is all or nothing.
use distributed_acid_kv_stor.Common.{
  ℕ, ◌≡◌, refl, sym, ap, ◌∙◌, ◌⊎◌, inl, inr, List, [], ◌∷◌, ◌++◌, All, Result, ok, err,
  append_assoc, append-nil,
}
use distributed_acid_kv_stor.Common.Bytes.{Bytes}
use distributed_acid_kv_stor.Storage.Fjall.{Fjall, Reliable, BatchOp, p_lock}
use distributed_acid_kv_stor.Storage.View.{IsIsolated, HasNoLock}
use distributed_acid_kv_stor.Txn.World.{World, TxnError}
use distributed_acid_kv_stor.Txn.Coordinator.{Mutation, key, stage}
use distributed_acid_kv_stor.Txn.Coordinator.Prewrite.{
  check_lock, resolve_existing, batch_prewrite_loop, batch_prewrite,
}
use distributed_acid_kv_stor.Txn.Coordinator.Prewrite.Laws.{
  IsConflictFree, check_conflict_passes, check_conflict_passed, check_conflict_settles,
}
use distributed_acid_kv_stor.Txn.Coordinator.Batch.{stages}

module _ (start_ts : ℕ) (primary_key : Bytes) (lock_ttl : ℕ) where
  abbrev staged_of : List Mutation → List BatchOp
  staged_of = stages start_ts primary_key lock_ttl

  module _ {db : Fjall} (rel : Reliable db) (clock : ℕ → ℕ) (w : World db) where
    unlocked_passes :
        (k : Bytes) (finish : _)
        → HasNoLock rel w.keyspace k
        → resolve_existing db clock start_ts k finish w ≡ (ok tt, w)
    unfolding resolve_existing check_lock
    unlocked_passes k finish free =
        rw (resolve_existing, rel.get_lem w.keyspace p_lock k, free) refl

    -- The loop over unlocked keys writes nothing: it ends with all that is to be staged, where no
    -- key has a conflict, or with an error.
    loop_settles :
        (ms : List Mutation) (batch : List BatchOp)
        → All (λ m. HasNoLock rel w.keyspace (key m)) ms
        → All (λ m. IsIsolated rel w.keyspace (key m)) ms
        → (All (λ m. IsConflictFree rel w.keyspace (key m) start_ts) ms
            × (batch_prewrite_loop db clock start_ts primary_key lock_ttl ms batch w
                ≡ (ok (batch ++ staged_of ms), w)))
          ⊎ ((e : TxnError db.Error) × (batch_prewrite_loop db clock start_ts primary_key lock_ttl
                  ms batch w
                ≡ (err e, w)))
    unfolding batch_prewrite_loop
    loop_settles [] batch free isolated = inl (tt, rw append-nil refl)
    loop_settles (m ∷ ms) batch free isolated =
        elim (check_conflict_settles rel clock w (key m) start_ts) [
          | inr (e, stops) ↦ inr (e, rw (batch_prewrite_loop, stops) refl)
          | inl passes ↦
              elim (loop_settles ms (batch ++ stage start_ts primary_key lock_ttl m) free.1
                isolated.1) [
                  | inr (e, stops) ↦
                      inr (
                        e,
                        rw (batch_prewrite_loop, passes, unlocked_passes (key m) _ free.0) stops,
                      )
                  | inl (rest, ends) ↦ inl (
                    (
                      check_conflict_passed rel clock w (key m) start_ts isolated.0
                          (ap (λ r. r.0) passes),
                      rest,
                    ),
                    rw
                        (
                          batch_prewrite_loop,
                          passes,
                          unlocked_passes (key m) _ free.0,
                          ← append_assoc batch (stage start_ts primary_key lock_ttl m)
                              (staged_of ms),
                        )
                        ends,
                  )
                ]
        ]

    -- Without a conflict it ends with all.
    loop_stages :
        (ms : List Mutation) (batch : List BatchOp)
        → All (λ m. HasNoLock rel w.keyspace (key m)) ms
        → All (λ m. IsIsolated rel w.keyspace (key m)) ms
        → All (λ m. IsConflictFree rel w.keyspace (key m) start_ts) ms
        → batch_prewrite_loop db clock start_ts primary_key lock_ttl ms batch w
          ≡ (ok (batch ++ staged_of ms), w)
    unfolding batch_prewrite_loop
    loop_stages [] batch unlocked isolated free = rw append-nil refl
    loop_stages (m ∷ ms) batch unlocked isolated free =
        rw
          (
            batch_prewrite_loop,
            check_conflict_passes rel clock w (key m) start_ts isolated.0 free.0,
            unlocked_passes (key m) _ unlocked.0,
            ← append_assoc batch (stage start_ts primary_key lock_ttl m) (staged_of ms),
          )
          (loop_stages ms (batch ++ stage start_ts primary_key lock_ttl m) unlocked.1 isolated.1
            free.1)

    ok_not_err :
        {A : Type 0} (e : TxnError db.Error) (a : A)
        → ◌≡◌ {A = Result (TxnError db.Error) A × World db} (ok a, w) (err e, w)
        → ⊥
    ok_not_err e a h = cc

    -- On a keyspace that does not fail, for keys without a lock and of which no version of a prefix
    -- or an extension is stored: either no key has a conflict, and the batch prewrite succeeds and
    -- writes the values and locks of all mutations, or some key has one, and it fails and writes
    -- nothing. A conflict is a version as new as start_ts or the transaction's own rollback record.
    pub batch_prewrite_atomic :
        (m : Mutation) (ms : List Mutation)
        → All (λ n. HasNoLock rel w.keyspace (key n)) (m ∷ ms)
        → All (λ n. IsIsolated rel w.keyspace (key n)) (m ∷ ms)
        → (All (λ n. IsConflictFree rel w.keyspace (key n) start_ts) (m ∷ ms)
            × (batch_prewrite db clock start_ts (m ∷ ms) primary_key lock_ttl w
                ≡ (ok tt, record w { keyspace = rel.after (staged_of (m ∷ ms)) w.keyspace })))
          ⊎ ((All (λ n. IsConflictFree rel w.keyspace (key n) start_ts) (m ∷ ms) → ⊥)
              × (e : TxnError db.Error) × (batch_prewrite db clock start_ts
                    (m ∷ ms)
                    primary_key
                    lock_ttl
                    w
                  ≡ (err e, w)))
    unfolding batch_prewrite
    batch_prewrite_atomic m ms unlocked isolated =
        elim (loop_settles (m ∷ ms) [] unlocked isolated) [
          | inl (free, ends) ↦
              inl (
                free,
                rw (batch_prewrite, ends, rel.commit_lem (staged_of (m ∷ ms)) w.keyspace) refl,
              )
          | inr (e, stops) ↦ inr (
            (λ free.
                ok_not_err e (staged_of (m ∷ ms))
                  (sym (loop_stages (m ∷ ms) [] unlocked isolated free) ∙ stops)),
            e,
            rw (batch_prewrite, stops) refl,
          )
        ]

    pub batch_prewrite_writes :
        (m : Mutation) (ms : List Mutation)
        → All (λ n. HasNoLock rel w.keyspace (key n)) (m ∷ ms)
        → All (λ n. IsIsolated rel w.keyspace (key n)) (m ∷ ms)
        → All (λ n. IsConflictFree rel w.keyspace (key n) start_ts) (m ∷ ms)
        → batch_prewrite db clock start_ts (m ∷ ms) primary_key lock_ttl w
          ≡ (ok tt, record w { keyspace = rel.after (staged_of (m ∷ ms)) w.keyspace })
    unfolding batch_prewrite
    batch_prewrite_writes m ms unlocked isolated free =
        rw
          (
            batch_prewrite,
            loop_stages (m ∷ ms) [] unlocked isolated free,
            rel.commit_lem (staged_of (m ∷ ms)) w.keyspace,
          )
          refl
