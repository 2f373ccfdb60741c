-- ===== src/Txn/Coordinator/Commit.antt =====
-- `commit`, `rollback` and `batch_commit` of crates/txn-coordinator/src/coordinator.rs.
pub mod Laws
pub mod Keys
use distributed_acid_kv_stor.Common.{
  ℕ, Option, none, some, List, [], ◌∷◌, ◌++◌, Result, ok, err, Exec, pure, throw, lift, wrap,
  continue, ◌>>=◌, ◌>>◌, if◌then◌else◌, ◌==◌,
}
use distributed_acid_kv_stor.Common.Bytes.{Bytes}
use distributed_acid_kv_stor.Storage.Key.{encode}
use distributed_acid_kv_stor.Storage.Record.{rollback}
use distributed_acid_kv_stor.Storage.Record as Record
use distributed_acid_kv_stor.Storage.Lock.{Lock, LockError, from_bytes}
use distributed_acid_kv_stor.Storage.Fjall.{Fjall, BatchOp, insert, remove, p_lock, p_write}
use distributed_acid_kv_stor.Storage.Reader.{corrupted_state}
use distributed_acid_kv_stor.Txn.World.{
  TxnError, storage, fjall, mvcc, transaction_rolled_back, World, commit_batch,
}
use distributed_acid_kv_stor.Txn.Resolver.{resolution}

module _ (db : Fjall) where
  abbrev pub Action : Type 0 → Type 0
  Action A = Exec (World db) (TxnError db.Error) A

  -- Step 1, from the lock that was read on.
  unfoldable pub commit_primary_lock :
      ℕ → ℕ → Bytes → Result db.Error (Option Bytes) → Action (Unit {0})
  commit_primary_lock start_ts commit_ts primary_key (err e) = throw (fjall e)
  commit_primary_lock start_ts commit_ts primary_key (ok none) = throw transaction_rolled_back
  commit_primary_lock start_ts commit_ts primary_key (ok (some lock_bytes)) =
      elim (from_bytes lock_bytes) [
        | err _ ↦ throw (mvcc corrupted_state)
        | ok lock ↦
            if lock.start_ts == start_ts
            then wrap storage (commit_batch (resolution primary_key commit_ts start_ts lock.op))
            else throw transaction_rolled_back
      ]

  unfoldable pub commit_primary : ℕ → ℕ → Bytes → Action (Unit {0})
  commit_primary start_ts commit_ts primary_key w =
      commit_primary_lock start_ts commit_ts primary_key (db.get w.keyspace p_lock primary_key) w

  -- Step 2 for one secondary key: a lock that is missing, foreign or unreadable is passed over.
  unfoldable pub commit_secondary_lock :
      ℕ → ℕ → Bytes → Result db.Error (Option Bytes) → Action (Unit {0})
  commit_secondary_lock start_ts commit_ts user_key (err e) = throw (fjall e)
  commit_secondary_lock start_ts commit_ts user_key (ok none) = pure tt
  commit_secondary_lock start_ts commit_ts user_key (ok (some lock_bytes)) =
      elim (from_bytes lock_bytes) [
        | err _ ↦ pure tt
        | ok lock ↦
            if lock.start_ts == start_ts
            then wrap storage (commit_batch (resolution user_key commit_ts start_ts lock.op))
            else pure tt
      ]

  unfoldable pub commit_secondary : ℕ → ℕ → Bytes → Action (Unit {0})
  commit_secondary start_ts commit_ts user_key w =
      commit_secondary_lock start_ts commit_ts user_key (db.get w.keyspace p_lock user_key) w

  unfoldable pub commit_secondaries : ℕ → ℕ → List Bytes → Action (Unit {0})
  commit_secondaries start_ts commit_ts [] = pure tt
  commit_secondaries start_ts commit_ts (user_key ∷ keys) = do
    commit_secondary start_ts commit_ts user_key
    commit_secondaries start_ts commit_ts keys

  unfoldable pub commit : ℕ → ℕ → List Bytes → Action (Unit {0})
  commit start_ts commit_ts [] = pure tt
  commit start_ts commit_ts (primary_key ∷ keys) = do
    commit_primary start_ts commit_ts primary_key
    commit_secondaries start_ts commit_ts keys

  -- The removal of the lock that `rollback` stages, if the lock is the transaction's.
  unfoldable pub rollback_lock : ℕ → Bytes → Option Bytes → List BatchOp
  rollback_lock start_ts user_key none = []
  rollback_lock start_ts user_key (some lock_bytes) = elim (from_bytes lock_bytes) [
    | err _ ↦ []
    | ok lock ↦ if lock.start_ts == start_ts then remove p_lock user_key ∷ [] else []
  ]

  unfoldable pub rollback_one : ℕ → Bytes → Action (Unit {0})
  rollback_one start_ts user_key w = elim (db.get w.keyspace p_lock user_key) [
    | err e ↦ throw (fjall e) w
    | ok lock_bytes ↦
        wrap storage
          (commit_batch (
            rollback_lock start_ts user_key lock_bytes
            ++ insert p_write (encode user_key start_ts)
                (Record.to_bytes (record { start_ts = start_ts; op = rollback }))
              ∷ []))
          w
  ]

  unfoldable pub rollback_txn : ℕ → List Bytes → Action (Unit {0})
  rollback_txn start_ts [] = pure tt
  rollback_txn start_ts (user_key ∷ keys) = do
    rollback_one start_ts user_key
    rollback_txn start_ts keys

  -- What `batch_commit` stages for one key.
  unfoldable pub batch_commit_lock :
      ℕ → ℕ → Bytes → Result db.Error (Option Bytes) → Result (TxnError db.Error) (List BatchOp)
  batch_commit_lock start_ts commit_ts user_key (err e) = err (fjall e)
  batch_commit_lock start_ts commit_ts user_key (ok none) = ok []
  batch_commit_lock start_ts commit_ts user_key (ok (some lock_bytes)) =
      elim (from_bytes lock_bytes) [
        | err _ ↦ err (mvcc corrupted_state)
        | ok lock ↦ ok (
            if lock.start_ts == start_ts
            then resolution user_key commit_ts start_ts lock.op
            else [])
      ]

  unfoldable pub batch_commit_loop : ℕ → ℕ → List Bytes → List BatchOp → Action (List BatchOp)
  batch_commit_loop start_ts commit_ts [] batch = pure batch
  batch_commit_loop start_ts commit_ts (user_key ∷ keys) batch = do
    staged ← (λ w.
        (batch_commit_lock start_ts commit_ts user_key (db.get w.keyspace p_lock user_key), w))
    batch_commit_loop start_ts commit_ts keys (batch ++ staged)

  unfoldable pub batch_commit : ℕ → ℕ → List Bytes → Action (Unit {0})
  batch_commit start_ts commit_ts [] = pure tt
  batch_commit start_ts commit_ts (user_key ∷ keys) = do
    batch ← batch_commit_loop start_ts commit_ts (user_key ∷ keys) []
    wrap storage (commit_batch batch)
