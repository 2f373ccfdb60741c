-- ===== src/Txn/Resolver/Laws.antt =====
-- What crates/txn-coordinator/src/lock_resolver.rs finds out and does on each branch.
use distributed_acid_kv_stor.Common.{
  ℕ, ◌+◌, ◌≤◌, ◌<◌, ◌≡◌, ◌≢◌, refl, ◌∙◌, ap, ◌⊎◌, inl, inr, Option, none, some, true, false, ok,
  arith, ==_refl, ==_ne,
}
use distributed_acid_kv_stor.Common.Bytes.{Bytes}
use distributed_acid_kv_stor.Storage.Key.{u64_max, encode}
use distributed_acid_kv_stor.Storage.Record.{WriteRecord, rollback, from_bytes, to_bytes}
use distributed_acid_kv_stor.Storage.Record.Laws.{from_bytes-to_bytes}
use distributed_acid_kv_stor.Storage.Lock.{Lock}
use distributed_acid_kv_stor.Storage.Lock.Laws as LockLaws
use distributed_acid_kv_stor.Storage.Fjall.{Fjall, Reliable, p_lock, p_write}
use distributed_acid_kv_stor.Storage.Versions.{next, done}
use distributed_acid_kv_stor.Storage.Versions.Laws.{scan, scan_finds, scan_ends}
use distributed_acid_kv_stor.Storage.View.{stored, IsIsolated, HasVersion, HasLock, HasNoLock}
use distributed_acid_kv_stor.Storage.Reader.{corrupted_state}
use distributed_acid_kv_stor.Txn.World.{fjall, mvcc, rolled_back, locked, World, is_expired}
use distributed_acid_kv_stor.Txn.Resolver.{
  status_of, status_record, status_version, resolution, scan_status, after_scan, check_primary_lock,
  check_lock, expire_primary, check_txn_status, resolve_status, resolve_lock,
}

-- The versions of the primary key above `low` hold no record of the transaction.
abbrev pub NoRecordAbove :
    {db : Fjall} (rel : Reliable db) (s : db.Keyspace) → Bytes → ℕ → ℕ → Type 0
NoRecordAbove rel s primary_key start_ts low =
    (t : ℕ) (b : Bytes) (r : WriteRecord)
    → low < t
    → t ≤ u64_max
    → stored rel s p_write (encode primary_key t) ≡ some b
    → from_bytes b ≡ some r
    → r.start_ts ≢ start_ts

-- No version of the primary key holds a record of the transaction.
abbrev pub NoRecord : {db : Fjall} (rel : Reliable db) (s : db.Keyspace) → Bytes → ℕ → Type 0
NoRecord rel s primary_key start_ts =
    (t : ℕ) (b : Bytes) (r : WriteRecord)
    → t ≤ u64_max
    → stored rel s p_write (encode primary_key t) ≡ some b
    → from_bytes b ≡ some r
    → r.start_ts ≢ start_ts

status_passes :
    {E : Type 0} (start_ts t : ℕ) (o : Option WriteRecord)
    → ((r : WriteRecord) → o ≡ some r → r.start_ts ≢ start_ts)
    → status_record {E = E} start_ts t o ≡ ok next
unfolding status_record
status_passes start_ts t none h = refl
status_passes start_ts t (some r) h = rw (==_ne r.start_ts start_ts (h r refl))

module _ {db : Fjall} (rel : Reliable db) (clock : ℕ → ℕ) (w : World db) (primary_key : Bytes)
    (start_ts : ℕ) where
  scan_status-scan : scan_status db clock primary_key start_ts w ≡ (
    scan fjall
        (mvcc corrupted_state)
        primary_key
        (status_version start_ts)
        u64_max
        (rel.entries w.keyspace p_write),
    w,
  )
  unfolding scan_status
  scan_status-scan = rw (rel.range_lem w.keyspace p_write (encode primary_key u64_max))

  scan_status_ends :
      IsIsolated rel w.keyspace primary_key
      → NoRecord rel w.keyspace primary_key start_ts
      → scan_status db clock primary_key start_ts w ≡ (ok next, w)
  unfolding status_version
  scan_status_ends isolated unknown =
      scan_status-scan
      ∙ ap (λ r. (r, w))
          (scan_ends fjall (mvcc corrupted_state) primary_key (status_version start_ts) u64_max
            (rel.entries w.keyspace p_write) (omega arith) (rel.entries_sorted w.keyspace p_write)
            isolated
            (λ t b le h. status_passes start_ts t (from_bytes b) (λ r e. unknown t b r le h e)))

  scan_status_finds :
      (c : ℕ) (rec : WriteRecord)
      → IsIsolated rel w.keyspace primary_key
      → c ≤ u64_max
      → rec.start_ts ≤ u64_max
      → HasVersion rel w.keyspace primary_key c rec
      → rec.start_ts ≡ start_ts
      → NoRecordAbove rel w.keyspace primary_key start_ts c
      → scan_status db clock primary_key start_ts w ≡ (ok (done (status_of c rec.op)), w)
  unfolding status_version status_record
  scan_status_finds c rec isolated fits start_fits here own newest =
      scan_status-scan
      ∙ ap (λ r. (r, w))
          (scan_finds fjall (mvcc corrupted_state) primary_key (status_version start_ts) u64_max c
            (to_bytes rec) (ok (done (status_of c rec.op))) (rel.entries w.keyspace p_write)
            (omega arith) fits
            (λ rest. rw (from_bytes-to_bytes rec start_fits, own, ==_refl start_ts))
            (rel.entries_sorted w.keyspace p_write) isolated here
            (λ t b above upto h.
              status_passes start_ts t (from_bytes b) (λ r e. newest t b r above upto h e)))

  pub check_txn_status_recorded :
      (c : ℕ) (rec : WriteRecord)
      → IsIsolated rel w.keyspace primary_key
      → c ≤ u64_max
      → rec.start_ts ≤ u64_max
      → HasVersion rel w.keyspace primary_key c rec
      → rec.start_ts ≡ start_ts
      → NoRecordAbove rel w.keyspace primary_key start_ts c
      → check_txn_status db clock primary_key start_ts w ≡ (ok (status_of c rec.op), w)
  unfolding check_txn_status after_scan
  check_txn_status_recorded c rec isolated fits start_fits here own newest =
      rw (scan_status_finds c rec isolated fits start_fits here own newest)

  -- On a keyspace that does not fail and stores no version of a prefix or an extension of the
  -- primary key: without a record of the transaction there, its lock that has not expired gives
  -- the status locked with its time to live. Nothing is written, and the clock is read once.
  pub check_txn_status_locked :
      (l : Lock)
      → IsIsolated rel w.keyspace primary_key
      → NoRecord rel w.keyspace primary_key start_ts
      → HasLock rel w.keyspace primary_key l
      → l.start_ts ≡ start_ts
      → is_expired start_ts l.ttl (clock w.reads) ≡ false
      → check_txn_status db clock primary_key start_ts w
        ≡ (ok (locked l.ttl), record w { reads = w.reads + 1 })
  unfolding check_txn_status after_scan check_primary_lock check_lock expire_primary
  check_txn_status_locked l isolated unknown held own live = rw (
    scan_status_ends isolated unknown,
    rel.get_lem w.keyspace p_lock primary_key,
    held.0,
    LockLaws.from_bytes-to_bytes l held.1,
    own,
    ==_refl start_ts,
    live,
  )

  -- On a keyspace that does not fail and stores no version of a prefix or an extension of the
  -- primary key: without a record of the transaction there, its expired lock is replaced by its
  -- permanent rollback record, and the status is rolled back.
  pub check_txn_status_expired :
      (l : Lock)
      → IsIsolated rel w.keyspace primary_key
      → NoRecord rel w.keyspace primary_key start_ts
      → HasLock rel w.keyspace primary_key l
      → l.start_ts ≡ start_ts
      → is_expired start_ts l.ttl (clock w.reads) ≡ true
      → check_txn_status db clock primary_key start_ts w ≡ (
        ok rolled_back,
        record {
          keyspace = rel.after (resolution primary_key start_ts start_ts rollback) w.keyspace;
          reads = w.reads + 1;
        },
      )
  unfolding check_txn_status after_scan check_primary_lock check_lock expire_primary
  check_txn_status_expired l isolated unknown held own dead = rw (
    scan_status_ends isolated unknown,
    rel.get_lem w.keyspace p_lock primary_key,
    held.0,
    LockLaws.from_bytes-to_bytes l held.1,
    own,
    ==_refl start_ts,
    dead,
    rel.commit_lem (resolution primary_key start_ts start_ts rollback) w.keyspace,
  )

  -- On a keyspace that does not fail and stores no version of a prefix or an extension of the
  -- primary key: without a record there and without a lock of its own the transaction counts as
  -- rolled back, and no record of that is written.
  pub check_txn_status_unknown :
      IsIsolated rel w.keyspace primary_key
      → NoRecord rel w.keyspace primary_key start_ts
      → HasNoLock rel w.keyspace primary_key
        ⊎ ((l : Lock) × HasLock rel w.keyspace primary_key l × (l.start_ts ≢ start_ts))
      → check_txn_status db clock primary_key start_ts w ≡ (ok rolled_back, w)
  unfolding check_txn_status after_scan check_primary_lock check_lock
  check_txn_status_unknown isolated unknown (inl free) =
      rw (scan_status_ends isolated unknown, rel.get_lem w.keyspace p_lock primary_key, free)
  check_txn_status_unknown isolated unknown (inr (l, held, other)) = rw (
    scan_status_ends isolated unknown,
    rel.get_lem w.keyspace p_lock primary_key,
    held.0,
    LockLaws.from_bytes-to_bytes l held.1,
    ==_ne l.start_ts start_ts other,
  )

module _ {db : Fjall} (rel : Reliable db) (clock : ℕ → ℕ) (w : World db) (user_key : Bytes)
    (lock : Lock) (c : ℕ) (rec : WriteRecord) where
  -- The primary key of the lock's transaction has a record at `c`, and none above.
  pub record IsDecided : Type 0 where
    pub isolated : IsIsolated rel w.keyspace lock.primary_key
    pub fits : c ≤ u64_max
    pub start_fits : rec.start_ts ≤ u64_max
    pub here : HasVersion rel w.keyspace lock.primary_key c rec
    pub own : rec.start_ts ≡ lock.start_ts
    pub newest : NoRecordAbove rel w.keyspace lock.primary_key lock.start_ts c

  -- On a keyspace that does not fail, where the newest record of the lock's transaction on its
  -- primary key is a rollback: the lock is replaced by the rollback record of its transaction.
  pub resolve_lock_rolled_back :
      IsDecided
      → rec.op ≡ rollback
      → resolve_lock db clock user_key lock w ≡ (
        ok tt,
        record w {
          keyspace =
              rel.after (resolution user_key lock.start_ts lock.start_ts rollback) w.keyspace;
        },
      )
  unfolding resolve_lock resolve_status status_of
  resolve_lock_rolled_back d undone = rw (
    check_txn_status_recorded rel clock w lock.primary_key lock.start_ts c rec d.isolated d.fits
        d.start_fits d.here d.own d.newest,
    undone,
    rel.commit_lem (resolution user_key lock.start_ts lock.start_ts rollback) w.keyspace,
  )
