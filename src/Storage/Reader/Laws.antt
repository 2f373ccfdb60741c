-- ===== src/Storage/Reader/Laws.antt =====
-- What a snapshot read of crates/storage/src/mvcc/reader.rs returns.
use distributed_acid_kv_stor.Common.{
  ℕ, ◌≤◌, ◌≡◌, ◌∙◌, inl, inr, ◌⊎◌, Option, none, some, Result, ok, err, le→leb, lt→leb, ap,
}
use distributed_acid_kv_stor.Common.Bytes.{Bytes}
use distributed_acid_kv_stor.Storage.Key.{u64_max, encode}
use distributed_acid_kv_stor.Storage.Record.{WriteRecord, put, delete, to_bytes}
use distributed_acid_kv_stor.Storage.Record.Laws.{from_bytes-to_bytes}
use distributed_acid_kv_stor.Storage.Lock.{Lock}
use distributed_acid_kv_stor.Storage.Lock.Laws as LockLaws
use distributed_acid_kv_stor.Storage.Fjall.{Fjall, Reliable, p_default, p_lock, p_write}
use distributed_acid_kv_stor.Storage.Versions.{Flow, next, done, proceed}
use distributed_acid_kv_stor.Storage.Versions.Laws.{scan, scan_finds, scan_ends}
use distributed_acid_kv_stor.Storage.View.{
  stored, IsIsolated, HasVersion, HasLock, IsReadable, IsRollback, OnlyRollbacks,
}
use distributed_acid_kv_stor.Storage.Reader.{
  MvccError, fjall, key_is_locked, corrupted_state, check_lock, returned, read_record, read_version,
  get,
}

module _ {db : Fjall} (rel : Reliable db) (s : db.Keyspace) (key : Bytes) (read_ts : ℕ) where
  readable_passes : IsReadable rel s key read_ts → check_lock read_ts (db.get s p_lock key) ≡ ok tt
  unfolding check_lock
  readable_passes (inl free) = rw (rel.get_lem s p_lock key, free)
  readable_passes (inr (l, held, later)) = rw (
    rel.get_lem s p_lock key,
    held.0,
    check_lock,
    LockLaws.from_bytes-to_bytes l held.1,
    lt→leb l.start_ts read_ts later,
  )

  -- Past the lock check, a read is the loop over the versions of the key.
  get-scan :
      IsReadable rel s key read_ts
      → get db key read_ts s
        ≡ returned (
            scan fjall corrupted_state key
              (read_version db key read_ts s)
              read_ts
              (rel.entries s p_write))
  unfolding get
  get-scan free = rw (get, readable_passes free, rel.range_lem s p_write (encode key read_ts))

  skip_rollback :
      (t : ℕ) (b : Bytes) → t ≤ read_ts → IsRollback b → read_version db key read_ts s t b ≡ ok next
  unfolding read_version
  skip_rollback t b le (r, e, o) = rw (le→leb t read_ts le, e, o)

  -- A read that starts at a stored version stops there, if the record is no rollback and all
  -- newer ones up to the read timestamp are.
  get_stops :
      (c : ℕ) (rec : WriteRecord) (r : Result (MvccError db.Error) (Flow (Option Bytes)))
      → read_ts ≤ u64_max
      → rec.start_ts ≤ u64_max
      → IsIsolated rel s key
      → IsReadable rel s key read_ts
      → c ≤ read_ts
      → HasVersion rel s key c rec
      → OnlyRollbacks rel s key c read_ts
      → ((rest : Result (MvccError db.Error) (Flow (Option Bytes)))
          → proceed (read_record db key s (some rec)) rest ≡ r)
      → get db key read_ts s ≡ returned r
  unfolding read_version
  get_stops c rec r fits start_fits isolated free le here newer result =
      get-scan free
      ∙ ap returned (
          scan_finds fjall corrupted_state key (read_version db key read_ts s) read_ts c
            (to_bytes rec) r (rel.entries s p_write) fits le
            (λ rest. rw (le→leb c read_ts le, from_bytes-to_bytes rec start_fits) (result rest))
            (rel.entries_sorted s p_write) isolated here
            (λ t b above upto h. skip_rollback t b upto (newer t b above upto h)))

  -- On a keyspace that does not fail and stores no version of a prefix or an extension of the key,
  -- and under no lock at or below the 64-bit read_ts: the newest version up to `read_ts` that is no
  -- rollback is a put whose value is stored; the read returns that value.
  pub get_newest_put :
      (c : ℕ) (rec : WriteRecord) (value : Bytes)
      → read_ts ≤ u64_max
      → rec.start_ts ≤ u64_max
      → IsIsolated rel s key
      → IsReadable rel s key read_ts
      → c ≤ read_ts
      → HasVersion rel s key c rec
      → OnlyRollbacks rel s key c read_ts
      → rec.op ≡ put
      → stored rel s p_default (encode key rec.start_ts) ≡ some value
      → get db key read_ts s ≡ ok (some value)
  unfolding read_record
  get_newest_put c rec value fits start_fits isolated free le here newer is_put data_there =
      get_stops c rec (ok (done (some value))) fits start_fits isolated free le here newer
        (λ rest. rw (is_put, rel.get_lem s p_default (encode key rec.start_ts), data_there))

  -- On a keyspace that does not fail and stores no version of a prefix or an extension of the key,
  -- and under no lock at or below the 64-bit read_ts: the newest version up to `read_ts` that is no
  -- rollback is a delete; the read returns nothing.
  pub get_newest_delete :
      (c : ℕ) (rec : WriteRecord)
      → read_ts ≤ u64_max
      → rec.start_ts ≤ u64_max
      → IsIsolated rel s key
      → IsReadable rel s key read_ts
      → c ≤ read_ts
      → HasVersion rel s key c rec
      → OnlyRollbacks rel s key c read_ts
      → rec.op ≡ delete
      → get db key read_ts s ≡ ok none
  unfolding read_record
  get_newest_delete c rec fits start_fits isolated free le here newer is_delete =
      get_stops c rec (ok (done none)) fits start_fits isolated free le here newer
        (λ rest. rw is_delete)

  -- What a record at the newest version gives its reader.
  abbrev pub Yields : WriteRecord → Option Bytes → Type 0
  Yields rec v =
      ((rec.op ≡ put)
        × (value : Bytes) × (stored rel s p_default (encode key rec.start_ts) ≡ some value)
        × (v ≡ some value))
      ⊎ ((rec.op ≡ delete) × (v ≡ none))

  -- On a keyspace that does not fail and stores no version of a prefix or an extension of the key,
  -- and under no lock at or below the 64-bit read_ts: the newest version up to `read_ts` that is no
  -- rollback is a put whose value is stored, and the read returns that value, or it is a delete, and
  -- the read returns nothing.
  pub get_newest :
      (c : ℕ) (rec : WriteRecord) (v : Option Bytes)
      → read_ts ≤ u64_max
      → rec.start_ts ≤ u64_max
      → IsIsolated rel s key
      → IsReadable rel s key read_ts
      → c ≤ read_ts
      → HasVersion rel s key c rec
      → OnlyRollbacks rel s key c read_ts
      → Yields rec v
      → get db key read_ts s ≡ ok v
  get_newest c rec v fits start_fits isolated free le here newer (inl (is_put, value, there, e)) =
      rw e (get_newest_put c rec value fits start_fits isolated free le here newer is_put there)
  get_newest c rec v fits start_fits isolated free le here newer (inr (is_delete, e)) =
      rw e (get_newest_delete c rec fits start_fits isolated free le here newer is_delete)

  -- A newest put without a stored value makes the read fail.
  pub get_newest_broken :
      (c : ℕ) (rec : WriteRecord)
      → read_ts ≤ u64_max
      → rec.start_ts ≤ u64_max
      → IsIsolated rel s key
      → IsReadable rel s key read_ts
      → c ≤ read_ts
      → HasVersion rel s key c rec
      → OnlyRollbacks rel s key c read_ts
      → rec.op ≡ put
      → stored rel s p_default (encode key rec.start_ts) ≡ none
      → get db key read_ts s ≡ err corrupted_state
  unfolding read_record
  get_newest_broken c rec fits start_fits isolated free le here newer is_put gone =
      get_stops c rec (err corrupted_state) fits start_fits isolated free le here newer
        (λ rest. rw (is_put, rel.get_lem s p_default (encode key rec.start_ts), gone))

  -- On a keyspace that does not fail and stores no version of a prefix or an extension of the key,
  -- and under no lock at or below the 64-bit read_ts: no version up to `read_ts` is stored but
  -- records of rollbacks; the read returns nothing.
  pub get_unwritten :
      read_ts ≤ u64_max
      → IsIsolated rel s key
      → IsReadable rel s key read_ts
      → ((t : ℕ) (b : Bytes)
          → t ≤ read_ts
          → stored rel s p_write (encode key t) ≡ some b
          → IsRollback b)
      → get db key read_ts s ≡ ok none
  get_unwritten fits isolated free older =
      get-scan free
      ∙ ap returned (
          scan_ends fjall corrupted_state key (read_version db key read_ts s) read_ts
            (rel.entries s p_write) fits (rel.entries_sorted s p_write) isolated
            (λ t b upto h. skip_rollback t b upto (older t b upto h)))

  -- A lock taken at or before `read_ts` stops the read, and is reported.
  pub get_locked :
      (l : Lock)
      → HasLock rel s key l
      → l.start_ts ≤ read_ts
      → get db key read_ts s ≡ err (key_is_locked l.primary_key l.start_ts)
  unfolding get
  get_locked l held le = rw (
    get,
    rel.get_lem s p_lock key,
    held.0,
    check_lock,
    LockLaws.from_bytes-to_bytes l held.1,
    le→leb l.start_ts read_ts le,
  )
