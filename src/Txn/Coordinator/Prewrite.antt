-- ===== src/Txn/Coordinator/Prewrite.antt =====
-- `prewrite` and `batch_prewrite` of crates/txn-coordinator/src/coordinator.rs.
pub mod Laws
use distributed_acid_kv_stor.Common.{
  ℕ, Option, none, some, List, [], ◌∷◌, ◌++◌, Result, ok, err, Exec, pure, throw, lift, wrap,
  attempt, continue, ◌>>=◌, ◌>>◌, if◌then◌else◌, ◌==◌,
}
use distributed_acid_kv_stor.Common.Bytes.{Bytes}
use distributed_acid_kv_stor.Storage.Key.{encode, u64_max}
use distributed_acid_kv_stor.Storage.Lock.{Lock, LockError, from_bytes}
use distributed_acid_kv_stor.Storage.Fjall.{Fjall, BatchOp, p_lock, p_write}
use distributed_acid_kv_stor.Storage.Reader.{corrupted_state}
use distributed_acid_kv_stor.Storage.Versions.{Flow, for_versions}
use distributed_acid_kv_stor.Txn.World.{
  TxnError, LockResolverError, storage, fjall, mvcc, key_locked, transaction_rolled_back, World,
  commit_batch, read,
}
use distributed_acid_kv_stor.Txn.Resolver.{resolve_lock}
use distributed_acid_kv_stor.Txn.Coordinator.{Mutation, key, conflict_version, stage}

module _ (db : Fjall) (clock : ℕ → ℕ) where
  abbrev pub Action : Type 0 → Type 0
  Action A = Exec (World db) (TxnError db.Error) A

  -- 1. Write conflicts and the permanent rollback record.
  unfoldable pub check_conflict : ℕ → Bytes → Action (Flow ⊥)
  unfolding for_versions conflict_version
  check_conflict start_ts user_key = read (λ s.
      for_versions fjall (mvcc corrupted_state) user_key (conflict_version user_key start_ts)
        (db.range s p_write (encode user_key u64_max)))

  -- The second look at the lock, after its resolution.
  unfoldable pub recheck_lock : ℕ → Bytes → Result db.Error (Option Bytes) → Action (Unit {0})
  recheck_lock start_ts user_key (err e) = throw (fjall e)
  recheck_lock start_ts user_key (ok none) = pure tt
  recheck_lock start_ts user_key (ok (some still_locked)) = elim (from_bytes still_locked) [
    | err _ ↦ throw (mvcc corrupted_state)
    | ok l ↦ if l.start_ts == start_ts then pure tt else throw (key_locked user_key)
  ]

  -- What `prewrite` does after the attempt to resolve a lock.
  unfoldable pub after_resolve : ℕ → Bytes → {E : Type 0} → Result E (Unit {0}) → Action (Unit {0})
  unfolding recheck_lock
  after_resolve start_ts user_key (err _) = throw (key_locked user_key)
  after_resolve start_ts user_key (ok _) =
      λ w. recheck_lock start_ts user_key (db.get w.keyspace p_lock user_key) w

  -- What `batch_prewrite` does there: it does not look again.
  unfoldable pub after_batch_resolve :
      Bytes → {E : Type 0} → Result E (Unit {0}) → Action (Unit {0})
  after_batch_resolve user_key (err _) = throw (key_locked user_key)
  after_batch_resolve user_key (ok _) = pure tt

  -- 2. An active lock of another transaction is resolved; `finish` is what follows.
  unfoldable pub check_lock :
      ℕ
      → Bytes
      → (Result (LockResolverError db.Error) (Unit {0}) → Action (Unit {0}))
      → Result db.Error (Option Bytes)
      → Action (Unit {0})
  check_lock start_ts user_key finish (err e) = throw (fjall e)
  check_lock start_ts user_key finish (ok none) = pure tt
  check_lock start_ts user_key finish (ok (some lock_bytes)) = elim (from_bytes lock_bytes) [
    | err _ ↦ throw (mvcc corrupted_state)
    | ok lock ↦
        if lock.start_ts == start_ts
        then pure tt
        else (do resolved ← attempt (resolve_lock db clock user_key lock); finish resolved)
  ]

  unfoldable pub resolve_existing :
      ℕ
      → Bytes
      → (Result (LockResolverError db.Error) (Unit {0}) → Action (Unit {0}))
      → Action (Unit {0})
  resolve_existing start_ts user_key finish w =
      check_lock start_ts user_key finish (db.get w.keyspace p_lock user_key) w

  -- One turn of the loop of `prewrite`.
  unfoldable pub prewrite_one : ℕ → Bytes → ℕ → Mutation → Action (Unit {0})
  prewrite_one start_ts primary_key lock_ttl mutation = do
    check_conflict start_ts (key mutation)
    resolve_existing start_ts (key mutation) (after_resolve start_ts (key mutation))
    wrap storage (commit_batch (stage start_ts primary_key lock_ttl mutation))

  unfoldable pub prewrite : ℕ → List Mutation → Bytes → ℕ → Action (Unit {0})
  prewrite start_ts [] primary_key lock_ttl = pure tt
  prewrite start_ts (mutation ∷ mutations) primary_key lock_ttl = do
    prewrite_one start_ts primary_key lock_ttl mutation
    prewrite start_ts mutations primary_key lock_ttl

  -- The loop of `batch_prewrite`, which returns the batch that it has staged.
  unfoldable pub batch_prewrite_loop :
      ℕ → Bytes → ℕ → List Mutation → List BatchOp → Action (List BatchOp)
  batch_prewrite_loop start_ts primary_key lock_ttl [] batch = pure batch
  batch_prewrite_loop start_ts primary_key lock_ttl (mutation ∷ mutations) batch = do
    check_conflict start_ts (key mutation)
    resolve_existing start_ts (key mutation) (after_batch_resolve (key mutation))
    batch_prewrite_loop start_ts primary_key lock_ttl mutations
        (batch ++ stage start_ts primary_key lock_ttl mutation)

  unfoldable pub batch_prewrite : ℕ → List Mutation → Bytes → ℕ → Action (Unit {0})
  batch_prewrite start_ts [] primary_key lock_ttl = pure tt
  batch_prewrite start_ts (mutation ∷ mutations) primary_key lock_ttl = do
    batch ← batch_prewrite_loop start_ts primary_key lock_ttl (mutation ∷ mutations) []
    wrap storage (commit_batch batch)
