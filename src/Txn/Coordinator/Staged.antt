-- ===== src/Txn/Coordinator/Staged.antt =====
-- What the batches of crates/txn-coordinator/src/coordinator.rs and lock_resolver.rs change.
use distributed_acid_kv_stor.Common.{
  ℕ, ◌≤◌, ◌^◌, ◌<◌, ◌≡◌, ◌≢◌, refl, ◌∙◌, Option, some, length, ==_ne,
}
use distributed_acid_kv_stor.Common.Bytes.{Bytes, eq_bytes_refl}
use distributed_acid_kv_stor.Storage.Key.{u64_max, encode}
use distributed_acid_kv_stor.Storage.Key.Laws.{eq_bytes-encode}
use distributed_acid_kv_stor.Storage.Record.{OpType, rollback}
use distributed_acid_kv_stor.Storage.Lock.{Lock, to_bytes}
use distributed_acid_kv_stor.Storage.Fjall.{Fjall, Reliable, effects, p_default, p_lock, p_write}
use distributed_acid_kv_stor.Storage.View.{stored, HasVersion, HasLock, HasNoLock}
use distributed_acid_kv_stor.Txn.Resolver.{resolution}
use distributed_acid_kv_stor.Txn.Coordinator.{Mutation, put_value, delete_key, key, op_type, stage}

-- The lock that a prewrite of `m` stages.
abbrev pub staged_lock : ℕ → Bytes → ℕ → Mutation → Lock
staged_lock start_ts primary_key lock_ttl m = record {
  primary_key = primary_key;
  start_ts = start_ts;
  ttl = lock_ttl;
  op = op_type m;
}

module _ (start_ts : ℕ) (primary_key : Bytes) (lock_ttl : ℕ) where
  pub stage-lock :
      (m : Mutation) (old : Option Bytes)
      → effects (stage start_ts primary_key lock_ttl m) p_lock (key m) old
        ≡ some (to_bytes (staged_lock start_ts primary_key lock_ttl m))
  stage-lock (put_value k v) old = rw (eq_bytes_refl k)
  stage-lock (delete_key k) old = rw (eq_bytes_refl k)

  stage-write :
      (m : Mutation) (x : Bytes) (old : Option Bytes)
      → effects (stage start_ts primary_key lock_ttl m) p_write x old ≡ old
  stage-write (put_value k v) x old = refl
  stage-write (delete_key k) x old = refl

  stage-default :
      (k v : Bytes) (old : Option Bytes)
      → effects
          (stage start_ts primary_key lock_ttl (put_value k v))
          p_default
          (encode k start_ts)
          old
        ≡ some v
  stage-default k v old = rw (eq_bytes_refl (encode k start_ts))

pub op_type_allowed : (m : Mutation) → op_type m ≢ rollback
op_type_allowed (put_value k v) e = cc
op_type_allowed (delete_key k) e = cc

module _ {db : Fjall} (rel : Reliable db) (s : db.Keyspace) (start_ts : ℕ) (primary_key : Bytes)
    (lock_ttl : ℕ) (m : Mutation) where
  abbrev staged : db.Keyspace
  staged = rel.after (stage start_ts primary_key lock_ttl m) s

  pub staged-HasLock :
      start_ts ≤ u64_max
      → lock_ttl ≤ u64_max
      → length primary_key < 2 ^ 32
      → HasLock rel staged (key m) (staged_lock start_ts primary_key lock_ttl m)
  staged-HasLock sf tf pf = (
    rel.lookup-after (stage start_ts primary_key lock_ttl m) s p_lock (key m)
        ∙ stage-lock start_ts primary_key lock_ttl m (stored rel s p_lock (key m)),
    record { start_fits = sf; ttl_fits = tf; primary_fits = pf; op_allowed = op_type_allowed m },
  )

  pub stored-write-staged : (x : Bytes) → stored rel staged p_write x ≡ stored rel s p_write x
  stored-write-staged x =
      rel.lookup-after (stage start_ts primary_key lock_ttl m) s p_write x
      ∙ stage-write start_ts primary_key lock_ttl m x (stored rel s p_write x)

module _ {db : Fjall} (rel : Reliable db) (s : db.Keyspace) (user_key : Bytes) (ts start_ts : ℕ)
    (op : OpType) where
  abbrev resolved : db.Keyspace
  resolved = rel.after (resolution user_key ts start_ts op) s

  pub resolved-HasNoLock : HasNoLock rel resolved user_key
  resolved-HasNoLock = rw (
    rel.lookup-after (resolution user_key ts start_ts op) s p_lock user_key,
    eq_bytes_refl user_key,
  )

  pub resolved-HasVersion :
      HasVersion rel resolved user_key ts (record { start_ts = start_ts; op = op })
  resolved-HasVersion = rw (
    rel.lookup-after (resolution user_key ts start_ts op) s p_write (encode user_key ts),
    eq_bytes_refl (encode user_key ts),
  )

  -- The other versions of the key, and the values, stay.
  pub stored-write-resolved :
      (t : ℕ)
      → ts ≤ u64_max
      → t ≤ u64_max
      → ts ≢ t
      → stored rel resolved p_write (encode user_key t) ≡ stored rel s p_write (encode user_key t)
  stored-write-resolved t f g n = rw (
    rel.lookup-after (resolution user_key ts start_ts op) s p_write (encode user_key t),
    eq_bytes-encode user_key ts t f g,
    ==_ne ts t n,
  )

  pub stored-default-resolved :
      (x : Bytes) → stored rel resolved p_default x ≡ stored rel s p_default x
  stored-default-resolved x = rel.lookup-after (resolution user_key ts start_ts op) s p_default x

module _ {db : Fjall} (rel : Reliable db) (s : db.Keyspace) (start_ts : ℕ) (primary_key : Bytes)
    (lock_ttl : ℕ) where
  pub stored-default-staged :
      (k v : Bytes)
      → stored rel
          (rel.after (stage start_ts primary_key lock_ttl (put_value k v)) s)
          p_default
          (encode k start_ts)
        ≡ some v
  stored-default-staged k v =
      rel.lookup-after (stage start_ts primary_key lock_ttl (put_value k v)) s p_default
        (encode k start_ts)
      ∙ stage-default start_ts primary_key lock_ttl k v (stored rel s p_default (encode k start_ts))

  -- The values of other transactions stay.
  pub stored-default-staged_other :
      (n : Mutation) (t : ℕ)
      → start_ts ≤ u64_max
      → t ≤ u64_max
      → start_ts ≢ t
      → stored rel
          (rel.after (stage start_ts primary_key lock_ttl n) s)
          p_default
          (encode (key n) t)
        ≡ stored rel s p_default (encode (key n) t)
  stored-default-staged_other (put_value k v) t f g ne = rw (
    rel.lookup-after (stage start_ts primary_key lock_ttl (put_value k v)) s p_default (encode k t),
    eq_bytes-encode k start_ts t f g,
    ==_ne start_ts t ne,
  )
  stored-default-staged_other (delete_key k) t f g ne =
      rel.lookup-after (stage start_ts primary_key lock_ttl (delete_key k)) s p_default (encode k t)
