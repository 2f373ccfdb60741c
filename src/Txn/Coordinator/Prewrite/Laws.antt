-- ===== src/Txn/Coordinator/Prewrite/Laws.antt =====
-- What one turn of `prewrite` in crates/txn-coordinator/src/coordinator.rs does on each branch.
use distributed_acid_kv_stor.Common.{
  ℕ, ◌≤◌, ◌<◌, ◌≡◌, ◌≢◌, refl, ◌∙◌, ap, sym, ◌⊎◌, inl, inr, Result, some, ok, err, arith, le→leb,
  lt→leb, ==_refl, false,
}
use distributed_acid_kv_stor.Common.Bytes.{Bytes}
use distributed_acid_kv_stor.Storage.Key.{u64_max, encode}
use distributed_acid_kv_stor.Storage.Record.{WriteRecord, rollback, from_bytes, to_bytes}
use distributed_acid_kv_stor.Storage.Record.Laws.{from_bytes-to_bytes}
use distributed_acid_kv_stor.Storage.Fjall.{Fjall, Reliable, p_lock, p_write}
use distributed_acid_kv_stor.Storage.Versions.{Flow, next, done}
use distributed_acid_kv_stor.Storage.Versions.Laws.{scan, scan_finds, scan_ends, scan_ended}
use distributed_acid_kv_stor.Storage.View.{stored, IsIsolated, HasNoLock}
use distributed_acid_kv_stor.Storage.Reader.{corrupted_state}
use distributed_acid_kv_stor.Txn.World.{
  World, TxnError, fjall, mvcc, write_conflict, transaction_rolled_back,
}
use distributed_acid_kv_stor.Txn.Coordinator.{
  Mutation, key, stage, conflict_version, is_own_rollback,
}
use distributed_acid_kv_stor.Txn.Coordinator.Prewrite.{
  check_conflict, check_lock, resolve_existing, prewrite_one,
}

-- No version of the key is as new as `start_ts`, and none is the rollback of that transaction.
abbrev pub IsConflictFree : {db : Fjall} (rel : Reliable db) (s : db.Keyspace) → Bytes → ℕ → Type 0
IsConflictFree rel s user_key start_ts =
    (t : ℕ) (b : Bytes)
    → t ≤ u64_max
    → stored rel s p_write (encode user_key t) ≡ some b
    → (t < start_ts) × (is_own_rollback start_ts (from_bytes b) ≡ false)

passes :
    {F : Type 0} (user_key : Bytes) (start_ts t : ℕ) (b : Bytes)
    → t < start_ts
    → is_own_rollback start_ts (from_bytes b) ≡ false
    → conflict_version {F = F} user_key start_ts t b ≡ ok next
unfolding conflict_version
passes user_key start_ts t b lt other = rw (other, lt→leb start_ts t lt)

passes_inv :
    {F : Type 0} (user_key : Bytes) (start_ts t : ℕ) (b : Bytes)
    → conflict_version {F = F} user_key start_ts t b ≡ ok next
    → (t < start_ts) × (is_own_rollback start_ts (from_bytes b) ≡ false)
unfolding conflict_version
passes_inv user_key start_ts t b h = ground arith

only_next : (x : Flow ⊥) → x ≡ next
only_next next = refl
only_next (done a) = absurd a

module _ {db : Fjall} (rel : Reliable db) (clock : ℕ → ℕ) (w : World db) (user_key : Bytes)
    (start_ts : ℕ) where
  check_conflict-scan : check_conflict db clock start_ts user_key w ≡ (
    scan fjall
        (mvcc corrupted_state)
        user_key
        (conflict_version user_key start_ts)
        u64_max
        (rel.entries w.keyspace p_write),
    w,
  )
  unfolding check_conflict
  check_conflict-scan = rw (rel.range_lem w.keyspace p_write (encode user_key u64_max))

  -- The check writes nothing, whatever it finds.
  pub check_conflict_settles :
      (check_conflict db clock start_ts user_key w ≡ (ok next, w))
      ⊎ ((e : TxnError db.Error) × (check_conflict db clock start_ts user_key w ≡ (err e, w)))
  check_conflict_settles = settle _ check_conflict-scan
    where
      settle :
          (r : Result (TxnError db.Error) (Flow ⊥))
          → check_conflict db clock start_ts user_key w ≡ (r, w)
          → (check_conflict db clock start_ts user_key w ≡ (ok next, w))
            ⊎ ((e : TxnError db.Error) × (check_conflict db clock start_ts user_key w ≡ (err e, w)))
      settle (ok flow) h = inl (h ∙ ap (λ f. (ok f, w)) (only_next flow))
      settle (err e) h = inr (e, h)

  pub check_conflict_passes :
      IsIsolated rel w.keyspace user_key
      → IsConflictFree rel w.keyspace user_key start_ts
      → check_conflict db clock start_ts user_key w ≡ (ok next, w)
  check_conflict_passes isolated free =
      check_conflict-scan
      ∙ ap (λ r. (r, w))
          (scan_ends fjall (mvcc corrupted_state) user_key (conflict_version user_key start_ts)
            u64_max (rel.entries w.keyspace p_write) (omega arith)
            (rel.entries_sorted w.keyspace p_write) isolated
            (λ t b le h. let f = free t b le h in passes user_key start_ts t b f.0 f.1))

  -- The check passes only where there is no conflict.
  pub check_conflict_passed :
      IsIsolated rel w.keyspace user_key
      → (check_conflict db clock start_ts user_key w).0 ≡ ok next
      → IsConflictFree rel w.keyspace user_key start_ts
  check_conflict_passed isolated passed t b le h = passes_inv user_key start_ts t b (
      scan_ended fjall (mvcc corrupted_state) user_key (conflict_version user_key start_ts) u64_max
        (rel.entries w.keyspace p_write) (omega arith) (rel.entries_sorted w.keyspace p_write)
        isolated (sym (ap (λ r. r.0) check_conflict-scan) ∙ passed) t b le h)

  -- The newest version decides: it is the rollback of the transaction, or not older than it.
  check_conflict_fails :
      (c : ℕ) (b : Bytes) (e : TxnError db.Error)
      → IsIsolated rel w.keyspace user_key
      → c ≤ u64_max
      → stored rel w.keyspace p_write (encode user_key c) ≡ some b
      → ((t : ℕ) (b' : Bytes)
          → c < t
          → t ≤ u64_max
          → stored rel w.keyspace p_write (encode user_key t) ≢ some b')
      → conflict_version user_key start_ts c b ≡ err e
      → check_conflict db clock start_ts user_key w ≡ (err e, w)
  check_conflict_fails c b e isolated fits here newest fails =
      check_conflict-scan
      ∙ ap (λ r. (r, w))
          (scan_finds fjall (mvcc corrupted_state) user_key (conflict_version user_key start_ts)
            u64_max c b (err e) (rel.entries w.keyspace p_write) (omega arith) fits
            (λ rest. rw fails) (rel.entries_sorted w.keyspace p_write) isolated here
            (λ t b' above upto h. absurd (newest t b' above upto h)))

module _ {db : Fjall} (rel : Reliable db) (clock : ℕ → ℕ) (w : World db) (start_ts : ℕ)
    (primary_key : Bytes) (lock_ttl : ℕ) (m : Mutation) where
  -- Without a conflict and without a lock, the value and the lock are written in one batch.
  pub prewrite_one_writes :
      IsIsolated rel w.keyspace (key m)
      → IsConflictFree rel w.keyspace (key m) start_ts
      → HasNoLock rel w.keyspace (key m)
      → prewrite_one db clock start_ts primary_key lock_ttl m w ≡ (
        ok tt,
        record w { keyspace = rel.after (stage start_ts primary_key lock_ttl m) w.keyspace },
      )
  unfolding prewrite_one resolve_existing check_lock
  prewrite_one_writes isolated free unlocked = rw (
    check_conflict_passes rel clock w (key m) start_ts isolated free,
    rel.get_lem w.keyspace p_lock (key m),
    unlocked,
    rel.commit_lem (stage start_ts primary_key lock_ttl m) w.keyspace,
  )

-- The version `c` is stored with the bytes `b`, and no newer one is stored.
pub record IsNewest {db : Fjall} (rel : Reliable db) (s : db.Keyspace) (user_key : Bytes) (c : ℕ)
    (b : Bytes) : Type 0 where
  pub fits : c ≤ u64_max
  pub here : stored rel s p_write (encode user_key c) ≡ some b
  pub newest :
      (t : ℕ) (b' : Bytes)
      → c < t
      → t ≤ u64_max
      → stored rel s p_write (encode user_key t) ≢ some b'

module _ {db : Fjall} (rel : Reliable db) (clock : ℕ → ℕ) (w : World db) (start_ts : ℕ)
    (primary_key : Bytes) (lock_ttl : ℕ) (m : Mutation) (c : ℕ) where
  -- On a keyspace that does not fail and stores no version of a prefix or an extension of the key:
  -- a newest version that is as new as start_ts, and not the rollback of this transaction, makes
  -- the prewrite fail with a write conflict and write nothing.
  pub prewrite_one_conflict :
      (b : Bytes)
      → IsIsolated rel w.keyspace (key m)
      → IsNewest rel w.keyspace (key m) c b
      → start_ts ≤ c
      → is_own_rollback start_ts (from_bytes b) ≡ false
      → prewrite_one db clock start_ts primary_key lock_ttl m w
        ≡ (err (write_conflict (key m) start_ts), w)
  unfolding prewrite_one conflict_version
  prewrite_one_conflict b isolated n le other = rw (
      check_conflict_fails rel clock w (key m) start_ts c b (write_conflict (key m) start_ts)
        isolated n.fits n.here n.newest (rw (other, le→leb start_ts c le)))

  -- So does the permanent record of the transaction's own rollback.
  pub prewrite_one_rolled_back :
      (rec : WriteRecord)
      → IsIsolated rel w.keyspace (key m)
      → IsNewest rel w.keyspace (key m) c (to_bytes rec)
      → rec.start_ts ≤ u64_max
      → rec.start_ts ≡ start_ts
      → rec.op ≡ rollback
      → prewrite_one db clock start_ts primary_key lock_ttl m w ≡ (err transaction_rolled_back, w)
  unfolding prewrite_one conflict_version is_own_rollback
  prewrite_one_rolled_back rec isolated n fits own undone = rw (
      check_conflict_fails rel clock w (key m) start_ts c (to_bytes rec) transaction_rolled_back
        isolated n.fits n.here n.newest
        (rw (from_bytes-to_bytes rec fits, own, undone, ==_refl start_ts)))
