-- ===== src/Txn/Coordinator/Commit/Keys.antt =====
-- `commit` of crates/txn-coordinator/src/coordinator.rs over all keys of a transaction.
use distributed_acid_kv_stor.Common.{
  ℕ, ◌≤◌, ◌≡◌, ◌≢◌, refl, sym, ap, ◌∙◌, List, [], ◌∷◌, All, Result, ok, ==_refl,
}
use distributed_acid_kv_stor.Common.Bytes.{Bytes, eq_bytes_refl, eq_bytes_ne}
use distributed_acid_kv_stor.Storage.Key.{KeyError, u64_max, encode, decode}
use distributed_acid_kv_stor.Storage.Key.Laws.{decode-encode}
use distributed_acid_kv_stor.Storage.Record.{OpType}
use distributed_acid_kv_stor.Storage.Lock.{Lock}
use distributed_acid_kv_stor.Storage.Lock.Laws.{from_bytes-to_bytes}
use distributed_acid_kv_stor.Storage.Fjall.{Fjall, Reliable, p_default, p_lock, p_write}
use distributed_acid_kv_stor.Storage.View.{stored, IsIsolated, HasVersion, HasLock, HasNoLock}
use distributed_acid_kv_stor.Storage.View.After.{after-IsIsolated}
use distributed_acid_kv_stor.Storage.Versions.Places.{IsPlaced}
use distributed_acid_kv_stor.Txn.World.{World}
use distributed_acid_kv_stor.Txn.Resolver.{resolution}
use distributed_acid_kv_stor.Txn.Coordinator.Commit.{
  commit_secondary, commit_secondary_lock, commit_secondaries, commit,
}
use distributed_acid_kv_stor.Txn.Coordinator.Commit.Laws.{commit_primary_commits}

-- No key twice.
abbrev pub AllDistinct : List Bytes → Type 0
AllDistinct [] = Unit {0}
AllDistinct (k ∷ ks) = All (λ j. k ≢ j) ks × AllDistinct ks

same_key_of :
    (k j : Bytes) (ts : ℕ) → ◌≡◌ {A = Result KeyError (Bytes × ℕ)} (ok (k, ts)) (ok (j, ts)) → k ≡ j
same_key_of k j ts h = cc h

-- Two keys at one timestamp are two versions.
pub encode_ne : (k j : Bytes) (ts : ℕ) → ts ≤ u64_max → k ≢ j → encode k ts ≢ encode j ts
encode_ne k j ts fits n e =
    n (same_key_of k j ts (sym (decode-encode k ts fits) ∙ ap decode e ∙ decode-encode j ts fits))

module _ {db : Fjall} (rel : Reliable db) (start_ts commit_ts : ℕ) where
  -- The transaction held the lock of the key in `s0`, and it is still there in `s`.
  abbrev pub IsHeld : db.Keyspace → db.Keyspace → Bytes → Type 0
  IsHeld s0 s k =
      (l : Lock) × HasLock rel s0 k l
      × (l.start_ts ≡ start_ts)
      × (stored rel s p_lock k ≡ stored rel s0 p_lock k)

  -- The key, locked by the transaction in `s0`, is committed in `s`: the lock is gone, and the
  -- version at `commit_ts` is the record of its operation.
  abbrev pub IsCommitted : db.Keyspace → db.Keyspace → Bytes → Type 0
  IsCommitted s0 s k =
      HasNoLock rel s k
      × ((l : Lock) × HasLock rel s0 k l
          × (l.start_ts ≡ start_ts)
          × HasVersion rel s k commit_ts (record { start_ts = start_ts; op = l.op }))

  abbrev resolved : db.Keyspace → Bytes → OpType → db.Keyspace
  resolved s k o = rel.after (resolution k commit_ts start_ts o) s

  commit_secondary_commits :
      (w : World db) (k : Bytes) (l : Lock)
      → HasLock rel w.keyspace k l
      → l.start_ts ≡ start_ts
      → commit_secondary db start_ts commit_ts k w
        ≡ (ok tt, record w { keyspace = resolved w.keyspace k l.op })
  unfolding commit_secondary commit_secondary_lock
  commit_secondary_commits w k l held own = rw (
    commit_secondary,
    rel.get_lem w.keyspace p_lock k,
    held.0,
    commit_secondary_lock,
    from_bytes-to_bytes l held.1,
    own,
    ==_refl start_ts,
    rel.commit_lem (resolution k commit_ts start_ts l.op) w.keyspace,
  )

  -- Another key keeps its lock and its version at `commit_ts`.
  lock_kept :
      (s : db.Keyspace) (k j : Bytes) (o : OpType)
      → k ≢ j
      → stored rel (resolved s k o) p_lock j ≡ stored rel s p_lock j
  lock_kept s k j o n =
      rel.lookup-after (resolution k commit_ts start_ts o) s p_lock j ∙ rw (eq_bytes_ne k j n) refl

  version_kept :
      (s : db.Keyspace) (k j : Bytes) (o : OpType)
      → commit_ts ≤ u64_max
      → k ≢ j
      → stored rel (resolved s k o) p_write (encode j commit_ts)
        ≡ stored rel s p_write (encode j commit_ts)
  version_kept s k j o fits n =
      rel.lookup-after (resolution k commit_ts start_ts o) s p_write (encode j commit_ts)
      ∙ rw (eq_bytes_ne (encode k commit_ts) (encode j commit_ts) (encode_ne k j commit_ts fits n))
          refl

  resolved-IsCommitted :
      (s0 s : db.Keyspace) (k : Bytes) (l : Lock)
      → HasLock rel s0 k l
      → l.start_ts ≡ start_ts
      → IsCommitted s0 (resolved s k l.op) k
  resolved-IsCommitted s0 s k l held own = (
    rel.lookup-after (resolution k commit_ts start_ts l.op) s p_lock k ∙ rw (eq_bytes_refl k) refl,
    (
      l,
      held,
      own,
      rel.lookup-after (resolution k commit_ts start_ts l.op) s p_write (encode k commit_ts)
          ∙ rw (eq_bytes_refl (encode k commit_ts)) refl,
    ),
  )

  still-IsHeld :
      (s0 s : db.Keyspace) (k : Bytes) (o : OpType) (ks : List Bytes)
      → All (λ j. k ≢ j) ks
      → All (IsHeld s0 s) ks
      → All (IsHeld s0 (resolved s k o)) ks
  still-IsHeld s0 s k o [] n h = tt
  still-IsHeld s0 s k o (j ∷ ks) n ((l, held, own, there), h) =
      ((l, held, own, lock_kept s k j o n.0 ∙ there), still-IsHeld s0 s k o ks n.1 h)

  still-IsCommitted :
      (s0 s : db.Keyspace) (k j : Bytes) (o : OpType)
      → commit_ts ≤ u64_max
      → k ≢ j
      → IsCommitted s0 s j
      → IsCommitted s0 (resolved s k o) j
  still-IsCommitted s0 s k j o fits n (free, (l, held, own, here)) =
      (lock_kept s k j o n ∙ free, (l, held, own, version_kept s k j o fits n ∙ here))

  -- The commit of these keys leaves the values, and the versions of a key together if its own stay
  -- apart from theirs.
  abbrev pub Quiet : List Bytes → db.Keyspace → db.Keyspace → Type 0
  Quiet ks s t =
      ((x : Bytes) → stored rel t p_default x ≡ stored rel s p_default x)
      × ((k : Bytes)
          → All (λ j. IsPlaced k (encode j commit_ts)) ks
          → IsIsolated rel s k
          → IsIsolated rel t k)

  Quiet-resolved :
      (s t : db.Keyspace) (k : Bytes) (o : OpType) (ks : List Bytes)
      → Quiet ks (resolved s k o) t
      → Quiet (k ∷ ks) s t
  Quiet-resolved s t k o ks q = (
    (λ x. q.0 x ∙ rel.lookup-after (resolution k commit_ts start_ts o) s p_default x),
    (λ j placed isolated. q.1 j placed.1 (
        after-IsIsolated rel s j (resolution k commit_ts start_ts o) (placed.0, (tt, tt))
          isolated)),
  )

  secondaries_commit :
      (s0 : db.Keyspace) (w : World db) (ks : List Bytes)
      → commit_ts ≤ u64_max
      → AllDistinct ks
      → All (IsHeld s0 w.keyspace) ks
      → (t : World db) × (commit_secondaries db start_ts commit_ts ks w ≡ (ok tt, t))
        × All (IsCommitted s0 t.keyspace) ks
        × ((j : Bytes)
            → All (λ k. j ≢ k) ks
            → IsCommitted s0 w.keyspace j
            → IsCommitted s0 t.keyspace j)
        × Quiet ks w.keyspace t.keyspace
  unfolding commit_secondaries
  secondaries_commit s0 w [] fits d h = (w, refl, tt, (λ j n c. c), ((λ x. refl), (λ k p i. i)))
  secondaries_commit s0 w (k ∷ ks) fits d ((l, held, own, there), h) =
      let (t, e, done, kept, quiet) =
        secondaries_commit s0 (record w { keyspace = resolved w.keyspace k l.op }) ks fits d.1
          (still-IsHeld s0 w.keyspace k l.op ks d.0 h) in
      (
        t,
        rw (commit_secondary_commits w k l (there ∙ held.0, held.1) own) e,
        (kept k d.0 (resolved-IsCommitted s0 w.keyspace k l held own), done),
        (λ j n c.
            kept j n.1 (still-IsCommitted s0 w.keyspace k j l.op fits (λ e2. n.0 (sym e2)) c)),
        Quiet-resolved w.keyspace t.keyspace k l.op ks quiet,
      )

  IsHeld-at_start :
      (s : db.Keyspace) (ks : List Bytes)
      → All (λ k. (l : Lock) × HasLock rel s k l × (l.start_ts ≡ start_ts)) ks
      → All (IsHeld s s) ks
  IsHeld-at_start s [] h = tt
  IsHeld-at_start s (k ∷ ks) ((l, held, own), h) = ((l, held, own, refl), IsHeld-at_start s ks h)

  -- The commit of a transaction that holds the locks of all its keys, none of them named twice: each
  -- key has lost its lock and holds the record of the lock's operation, and the values stay.
  pub commit_all :
      (w : World db) (primary_key : Bytes) (keys : List Bytes)
      → commit_ts ≤ u64_max
      → AllDistinct (primary_key ∷ keys)
      → All
          (λ k. (l : Lock) × HasLock rel w.keyspace k l × (l.start_ts ≡ start_ts))
          (primary_key ∷ keys)
      → (t : World db) × (commit db start_ts commit_ts (primary_key ∷ keys) w ≡ (ok tt, t))
        × All (IsCommitted w.keyspace t.keyspace) (primary_key ∷ keys)
        × Quiet (primary_key ∷ keys) w.keyspace t.keyspace
  unfolding commit
  commit_all w p ks fits d ((l, held, own), h) =
      let (t, e, done, kept, quiet) =
        secondaries_commit w.keyspace (record w { keyspace = resolved w.keyspace p l.op }) ks fits
          d.1
          (still-IsHeld w.keyspace w.keyspace p l.op ks d.0 (IsHeld-at_start w.keyspace ks h)) in
      (
        t,
        rw (commit_primary_commits rel w start_ts commit_ts p l held own) e,
        (kept p d.0 (resolved-IsCommitted w.keyspace w.keyspace p l held own), done),
        Quiet-resolved w.keyspace t.keyspace p l.op ks quiet,
      )
