-- ===== src/Txn/Coordinator/Batch.antt =====
-- `batch_prewrite` of crates/txn-coordinator/src/coordinator.rs, and the commit of the keys that it
-- has locked.
pub mod Atomic
pub mod Staged
pub mod Reads
mod Tests
use distributed_acid_kv_stor.Common.{
  ℕ, ◌≤◌, ◌<◌, ◌^◌, ◌≡◌, ◌≢◌, refl, sym, ap, ◌∙◌, ◌⊎◌, inl, inr, Option, none, some, List, [], ◌∷◌,
  ◌++◌, map, All, Result, ok, err, continue, ◌>>=◌, ◌>>◌, append_assoc, append-nil, length, arith,
}
use distributed_acid_kv_stor.Common.Bytes.{Bytes, eq_bytes, eq_bytes_ne}
use distributed_acid_kv_stor.Storage.Key.{u64_max, encode}
use distributed_acid_kv_stor.Storage.Lock.{Lock, to_bytes}
use distributed_acid_kv_stor.Storage.Fjall.{Fjall, Reliable, Partition, BatchOp, effects, p_lock}
use distributed_acid_kv_stor.Storage.Versions.{Flow}
use distributed_acid_kv_stor.Storage.View.{stored, IsIsolated, HasLock, HasNoLock}
use distributed_acid_kv_stor.Txn.World.{World, TxnError}
use distributed_acid_kv_stor.Txn.Coordinator.{Mutation, put_value, delete_key, key, stage}
use distributed_acid_kv_stor.Txn.Coordinator.Staged.{staged_lock, stage-lock, op_type_allowed}
use distributed_acid_kv_stor.Txn.Coordinator.Prewrite.{
  check_conflict, check_lock, resolve_existing, after_batch_resolve, batch_prewrite_loop,
  batch_prewrite,
}
use distributed_acid_kv_stor.Txn.Coordinator.Prewrite.Laws.{
  IsConflictFree, check_conflict_passes, check_conflict_passed, check_conflict_settles,
}
use distributed_acid_kv_stor.Txn.Coordinator.Commit.{commit}
use distributed_acid_kv_stor.Txn.Coordinator.Commit.Keys.{AllDistinct, IsCommitted}

pub effects-append :
    (xs ys : List BatchOp) (p : Partition) (k : Bytes) (old : Option Bytes)
    → effects (xs ++ ys) p k old ≡ effects ys p k (effects xs p k old)
effects-append [] ys p k old = refl
effects-append (x ∷ xs) ys p k old = effects-append xs ys p k _

pub All-map {ℓ κ μ} :
    {A : Type ℓ} {P : A → Type κ} {Q : A → Type μ} (f : (a : A) → P a → Q a) (xs : List A)
    → All P xs
    → All Q xs
All-map f [] h = tt
All-map f (x ∷ xs) h = (f x h.0, All-map f xs h.1)

pub All-zip {ℓ κ μ ν} :
    {A : Type ℓ} {P : A → Type κ} {Q : A → Type μ} {R : A → Type ν} (f : (a : A) → P a → Q a → R a)
    (xs : List A)
    → All P xs
    → All Q xs
    → All R xs
All-zip f [] h k = tt
All-zip f (x ∷ xs) h k = (f x h.0 k.0, All-zip f xs h.1 k.1)

-- Of all keys of the mutations, or of all mutations by their keys.
pub All-of_keys {κ} :
    (P : Bytes → Type κ) (ms : List Mutation) → All (λ m. P (key m)) ms → All P (map key ms)
All-of_keys P [] h = tt
All-of_keys P (m ∷ ms) h = (h.0, All-of_keys P ms h.1)

pub All-by_key {κ} :
    (P : Bytes → Type κ) (ms : List Mutation) → All P (map key ms) → All (λ m. P (key m)) ms
All-by_key P [] h = tt
All-by_key P (m ∷ ms) h = (h.0, All-by_key P ms h.1)

module _ (start_ts : ℕ) (primary_key : Bytes) (lock_ttl : ℕ) where
  -- What all the mutations stage.
  abbrev pub stages : List Mutation → List BatchOp
  stages [] = []
  stages (m ∷ ms) = stage start_ts primary_key lock_ttl m ++ stages ms

  -- The lock of a key that none of the mutations names stays.
  pub stage-other :
      (m : Mutation) (k : Bytes) (old : Option Bytes)
      → k ≢ key m
      → effects (stage start_ts primary_key lock_ttl m) p_lock k old ≡ old
  stage-other (put_value j v) k old n = rw (eq_bytes_ne j k (λ e. n (sym e))) refl
  stage-other (delete_key j) k old n = rw (eq_bytes_ne j k (λ e. n (sym e))) refl

  stages-other :
      (ms : List Mutation) (k : Bytes) (old : Option Bytes)
      → All (λ j. k ≢ j) (map key ms)
      → effects (stages ms) p_lock k old ≡ old
  stages-other [] k old n = refl
  stages-other (m ∷ ms) k old n =
      effects-append (stage start_ts primary_key lock_ttl m) (stages ms) p_lock k old
      ∙ ap (λ o. effects (stages ms) p_lock k o) (stage-other m k old n.0)
      ∙ stages-other ms k old n.1

  module _ {db : Fjall} (rel : Reliable db) (s : db.Keyspace) (sf : start_ts ≤ u64_max)
      (tf : lock_ttl ≤ u64_max) (pf : length primary_key < 2 ^ 32) where
    -- The lock that a mutation leaves, over any batch before.
    locks :
        (ms : List Mutation) (old : Bytes → Option Bytes)
        → AllDistinct (map key ms)
        → All
            (λ m.
              effects (stages ms) p_lock (key m) (old (key m))
              ≡ some (to_bytes (staged_lock start_ts primary_key lock_ttl m)))
            ms
    locks [] old d = tt
    locks (m ∷ ms) old d = (
      effects-append (stage start_ts primary_key lock_ttl m) (stages ms) p_lock (key m)
            (old (key m))
          ∙ stages-other ms (key m) _ d.0
          ∙ stage-lock start_ts primary_key lock_ttl m (old (key m)),
      All-map
          (λ n h.
            effects-append (stage start_ts primary_key lock_ttl m) (stages ms) p_lock (key n)
              (old (key n))
            ∙ h)
          ms (locks ms (λ k. effects (stage start_ts primary_key lock_ttl m) p_lock k (old k)) d.1),
    )

    -- Every key then has the lock that its mutation staged.
    pub stages-HasLock :
        (ms : List Mutation)
        → AllDistinct (map key ms)
        → All
            (λ m.
              HasLock rel
                (rel.after (stages ms) s)
                (key m)
                (staged_lock start_ts primary_key lock_ttl m))
            ms
    stages-HasLock ms d =
        All-map
          (λ m h. (
            rel.lookup-after (stages ms) s p_lock (key m) ∙ h,
            record {
              start_fits = sf;
              ttl_fits = tf;
              primary_fits = pf;
              op_allowed = op_type_allowed m;
            },
          ))
          ms (locks ms (λ k. stored rel s p_lock k) d)
