-- ===== src/Txn/Coordinator/Batch/Reads.antt =====
-- A transaction of many keys through `batch_prewrite` and `commit` of
-- crates/txn-coordinator/src/coordinator.rs, and what its readers get.
use distributed_acid_kv_stor.Common.{
  ℕ, ◌≤◌, ◌<◌, ◌^◌, ◌≡◌, refl, sym, ap, ◌∙◌, inl, Option, some, List, [], ◌∷◌, map, All, Result, ok,
  ◌>>=◌, ◌>>◌, length, arith,
}
use distributed_acid_kv_stor.Common.Bytes.{Bytes}
use distributed_acid_kv_stor.Storage.Key.{u64_max, encode}
use distributed_acid_kv_stor.Storage.Lock.{Lock, to_bytes}
use distributed_acid_kv_stor.Storage.Fjall.{Fjall, Reliable, BatchOp, p_default}
use distributed_acid_kv_stor.Storage.View.{stored, IsIsolated, HasLock, HasNoLock}
use distributed_acid_kv_stor.Txn.World.{World}
use distributed_acid_kv_stor.Txn.Coordinator.{Mutation, put_value, delete_key, key}
use distributed_acid_kv_stor.Txn.Coordinator.Staged.{staged_lock}
use distributed_acid_kv_stor.Txn.Coordinator.Prewrite.{batch_prewrite}
use distributed_acid_kv_stor.Txn.Coordinator.Prewrite.Laws.{IsConflictFree}
use distributed_acid_kv_stor.Txn.Coordinator.Commit.{commit}
use distributed_acid_kv_stor.Txn.Coordinator.Commit.Keys.{IsCommitted, commit_all}
use distributed_acid_kv_stor.Txn.Coordinator.Batch.{
  All-map, All-zip, All-of_keys, All-by_key, stages, stages-HasLock,
}
use distributed_acid_kv_stor.Txn.Coordinator.Batch.Atomic.{batch_prewrite_writes}
use distributed_acid_kv_stor.Storage.Lock.Laws.{from_bytes-to_bytes}
use distributed_acid_kv_stor.Storage.Lock.{LockError, from_bytes}
use distributed_acid_kv_stor.Storage.Versions.Places.{IsPlaced}
use distributed_acid_kv_stor.Storage.View.After.{after-IsIsolated}
use distributed_acid_kv_stor.Storage.Reader as Reader
use distributed_acid_kv_stor.Storage.Reader.Laws.{get_newest_put, get_newest_delete}
use distributed_acid_kv_stor.Txn.Coordinator.{op_type}
use distributed_acid_kv_stor.Txn.Coordinator.TwoPhase.{outcome}
use distributed_acid_kv_stor.Storage.View.{HasVersion}
use distributed_acid_kv_stor.Txn.Coordinator.Batch.Staged.{
  AllApart, AllApart-AllDistinct, versions-IsPlaced, Stores, stages-Stores, stages-KeepsPlaces,
}

same_ok : (l m : Lock) → ◌≡◌ {A = Result LockError Lock} (ok l) (ok m) → l ≡ m
same_ok l m h = cc h

module _ {db : Fjall} (rel : Reliable db) (start_ts commit_ts : ℕ) where
  same_lock :
      (s : db.Keyspace) (k : Bytes) (l m : Lock) → HasLock rel s k l → HasLock rel s k m → l ≡ m
  same_lock s k l m h j = same_ok l m (
      sym (from_bytes-to_bytes l h.1)
      ∙ ap from_bytes (some_same (to_bytes l) (to_bytes m) (sym h.0 ∙ j.0))
      ∙ from_bytes-to_bytes m j.1)
    where
      some_same : (a b : Bytes) → Option.some a ≡ some b → a ≡ b
      some_same a b e = cc e

  -- The value of a put is stored.
  abbrev HasValue : db.Keyspace → Mutation → Type 0
  HasValue s (put_value k v) = stored rel s p_default (encode k start_ts) ≡ some v
  HasValue s (delete_key k) = Unit {0}

  read_as :
      (s : db.Keyspace) (n : Mutation) (l : Lock)
      → start_ts ≤ u64_max
      → commit_ts ≤ u64_max
      → IsIsolated rel s (key n)
      → HasNoLock rel s (key n)
      → l.op ≡ op_type n
      → HasVersion rel s (key n) commit_ts (record { start_ts = start_ts; op = l.op })
      → HasValue s n
      → Reader.get db (key n) commit_ts s ≡ ok (outcome n)
  read_as s (put_value k v) l sf cf isolated free o here there =
      get_newest_put rel s k commit_ts commit_ts (record { start_ts = start_ts; op = l.op }) v cf sf
        isolated (inl free) (omega arith) here
        (λ t b above upto h. absurd (omega (arith, above, upto))) o there
  read_as s (delete_key k) l sf cf isolated free o here there =
      get_newest_delete rel s k commit_ts commit_ts (record { start_ts = start_ts; op = l.op }) cf
        sf isolated (inl free) (omega arith) here
        (λ t b above upto h. absurd (omega (arith, above, upto))) o

  -- A reader at the commit timestamp of a committed key.
  read_committed :
      (s0 s : db.Keyspace) (n : Mutation) (primary_key : Bytes) (lock_ttl : ℕ)
      → start_ts ≤ u64_max
      → commit_ts ≤ u64_max
      → IsIsolated rel s (key n)
      → HasLock rel s0 (key n) (staged_lock start_ts primary_key lock_ttl n)
      → IsCommitted rel start_ts commit_ts s0 s (key n)
      → HasValue s n
      → Reader.get db (key n) commit_ts s ≡ ok (outcome n)
  read_committed s0 s n primary_key lock_ttl sf cf isolated given (free, (l, held, own, here))
        there =
      read_as s n l sf cf isolated free
        (ap (λ x. x.op)
          (same_lock s0 (key n) l (staged_lock start_ts primary_key lock_ttl n) held given))
        here there

  all_read :
      (s0 s : db.Keyspace) (primary_key : Bytes) (lock_ttl : ℕ)
      → start_ts ≤ u64_max
      → commit_ts ≤ u64_max
      → (ms : List Mutation)
      → All (λ n. HasLock rel s0 (key n) (staged_lock start_ts primary_key lock_ttl n)) ms
      → All (λ n. IsIsolated rel s (key n)) ms
      → All (λ n. IsCommitted rel start_ts commit_ts s0 s (key n)) ms
      → All (HasValue s) ms
      → All (λ n. Reader.get db (key n) commit_ts s ≡ ok (outcome n)) ms
  all_read s0 s primary_key lock_ttl sf cf [] given isolated done there = tt
  all_read s0 s primary_key lock_ttl sf cf (n ∷ ns) given isolated done there = (
    read_committed s0 s n primary_key lock_ttl sf cf isolated.0 given.0 done.0 there.0,
    all_read s0 s primary_key lock_ttl sf cf ns given.1 isolated.1 done.1 there.1,
  )

  HasValue-kept :
      (s t : db.Keyspace) (b : List BatchOp) (n : Mutation) (primary_key : Bytes) (lock_ttl : ℕ)
      (sf : start_ts ≤ u64_max)
      → Stores start_ts primary_key lock_ttl sf b n
      → ((x : Bytes) → stored rel t p_default x ≡ stored rel (rel.after b s) p_default x)
      → HasValue t n
  HasValue-kept s t b (put_value k v) primary_key lock_ttl sf h kept =
      kept (encode k start_ts)
      ∙ rel.lookup-after b s p_default (encode k start_ts)
      ∙ h (stored rel s p_default (encode k start_ts))
  HasValue-kept s t b (delete_key k) primary_key lock_ttl sf h kept = tt

  module _ (clock : ℕ → ℕ) (w : World db) (lock_ttl : ℕ) (m : Mutation) (ms : List Mutation) where
    abbrev batch : List BatchOp
    batch = stages start_ts (key m) lock_ttl (m ∷ ms)

    -- On a keyspace that does not fail, for keys without a lock and without a conflict, none of them
    -- a prefix of another or of the user key of a stored version: a transaction of many keys, the
    -- first its primary key, whose batch prewrite is followed by its commit, succeeds, and a read of
    -- each of its keys at the commit timestamp gives what it wrote there, the value of a put and
    -- nothing after a delete. The lock's TTL and the timestamps fit 64 bits, and the length of the
    -- primary key 32.
    pub batch_prewrite-commit :
        start_ts ≤ u64_max
        → commit_ts ≤ u64_max
        → lock_ttl ≤ u64_max
        → length (key m) < 2 ^ 32
        → AllApart (map key (m ∷ ms))
        → All (λ n. HasNoLock rel w.keyspace (key n)) (m ∷ ms)
        → All (λ n. IsIsolated rel w.keyspace (key n)) (m ∷ ms)
        → All (λ n. IsConflictFree rel w.keyspace (key n) start_ts) (m ∷ ms)
        → (t : World db) × ((do
          batch_prewrite db clock start_ts (m ∷ ms) (key m) lock_ttl
          commit db start_ts commit_ts (map key (m ∷ ms)))
              w
            ≡ (ok tt, t))
          × All (λ n. Reader.get db (key n) commit_ts t.keyspace ≡ ok (outcome n)) (m ∷ ms)
    batch_prewrite-commit sf cf tf pf a unlocked isolated free =
        let d = AllApart-AllDistinct (map key (m ∷ ms)) a in
        let given = stages-HasLock start_ts (key m) lock_ttl rel w.keyspace sf tf pf (m ∷ ms) d in
        let (t, e, committed, quiet) =
          commit_all rel start_ts commit_ts (record w { keyspace = rel.after batch w.keyspace })
            (key m) (map key ms) cf d
            (All-of_keys
              (λ k.
                (l : Lock) × HasLock rel (rel.after batch w.keyspace) k l × (l.start_ts ≡ start_ts))
              (m ∷ ms)
              (All-map (λ n h. (staged_lock start_ts (key m) lock_ttl n, h, refl)) (m ∷ ms)
                given)) in
        (
          t,
          rw
              (
                ◌>>◌,
                ◌>>=◌,
                batch_prewrite_writes start_ts (key m) lock_ttl rel clock w m ms unlocked isolated
                    free,
              )
              e,
          all_read (rel.after batch w.keyspace) t.keyspace (key m) lock_ttl sf cf (m ∷ ms) given
              (All-zip
                (λ n i placed. quiet.1 (key n) placed (
                  after-IsIsolated rel w.keyspace (key n) batch
                    (stages-KeepsPlaces start_ts (key m) lock_ttl sf (key n) (m ∷ ms)) i))
                (m ∷ ms) isolated
                (All-by_key (λ k. All (λ j. IsPlaced k (encode j commit_ts)) (map key (m ∷ ms)))
                  (m ∷ ms) (versions-IsPlaced commit_ts (map key (m ∷ ms)) cf a)))
              (All-by_key
                (IsCommitted rel start_ts commit_ts (rel.after batch w.keyspace) t.keyspace)
                (m ∷ ms) committed)
              (All-map
                (λ n h. HasValue-kept w.keyspace t.keyspace batch n (key m) lock_ttl sf h quiet.0)
                (m ∷ ms) (stages-Stores start_ts (key m) lock_ttl sf (m ∷ ms) d)),
        )
