-- ===== src/Storage/Reader/Snapshot.antt =====
-- What a snapshot read of crates/storage/src/mvcc/reader.rs depends on: the versions up to its
-- timestamp, and the values that they point to.
use distributed_acid_kv_stor.Common.{
  ℕ, zero, suc, ◌≤◌, ◌<◌, ◌≡◌, ◌≢◌, refl, sym, subst, ap, ◌∙◌, ◌⊎◌, inl, inr, some, Option-cases,
  arith,
}
use distributed_acid_kv_stor.Common.Bytes.{Bytes}
use distributed_acid_kv_stor.Storage.Key.{u64_max, encode}
use distributed_acid_kv_stor.Storage.Record.{
  WriteRecord, OpType, put, delete, rollback, to_bytes, from_bytes,
}
use distributed_acid_kv_stor.Storage.Record.Laws.{from_bytes-to_bytes}
use distributed_acid_kv_stor.Storage.Fjall.{Fjall, Reliable, p_default, p_write}
use distributed_acid_kv_stor.Storage.View.{
  stored, IsIsolated, HasVersion, IsReadable, IsRollback, OnlyRollbacks,
}
use distributed_acid_kv_stor.Storage.Reader.{get}
use distributed_acid_kv_stor.Storage.Reader.Laws.{
  get_newest_put, get_newest_delete, get_newest_broken, get_unwritten,
}

le_split : (a b : ℕ) → a ≤ b → (a ≡ b) ⊎ (a < b)
le_split a b h = ground arith

module _ {db : Fjall} (rel : Reliable db) (key : Bytes) (read_ts : ℕ) where
  -- Every version up to `read_ts` holds the record of a transaction that started by then.
  abbrev pub IsRecorded : db.Keyspace → Type 0
  IsRecorded s =
      (t : ℕ) (b : Bytes)
      → t ≤ read_ts
      → stored rel s p_write (encode key t) ≡ some b
      → (rec : WriteRecord) × (b ≡ to_bytes rec) × (rec.start_ts ≤ t)

  -- The newest version up to `read_ts` that is no rollback.
  pub record IsNewest (s : db.Keyspace) (c : ℕ) (rec : WriteRecord) : Type 0 where
    pub le : c ≤ read_ts
    pub started : rec.start_ts ≤ c
    pub here : HasVersion rel s key c rec
    pub newer : OnlyRollbacks rel s key c read_ts
    pub kept : rec.op ≢ rollback

  abbrev pub RollbacksFrom : db.Keyspace → ℕ → Type 0
  RollbacksFrom s c =
      (t : ℕ) (b : Bytes)
      → c ≤ t
      → t ≤ read_ts
      → stored rel s p_write (encode key t) ≡ some b
      → IsRollback b

  abbrev pub Found : db.Keyspace → Type 0
  Found s = (c : ℕ) × (rec : WriteRecord) × IsNewest s c rec

  module _ (s : db.Keyspace) (fits : read_ts ≤ u64_max) (recorded : IsRecorded s) where
    extend :
        (c : ℕ)
        → ((b : Bytes) → stored rel s p_write (encode key c) ≡ some b → IsRollback b)
        → OnlyRollbacks rel s key c read_ts
        → RollbacksFrom s c
    extend c here newer t b from upto h = elim (le_split c t from) [
      | inl e ↦ here b (subst (λ x. stored rel s p_write (encode key x) ≡ some b) (sym e) h)
      | inr above ↦ newer t b above upto h
    ]

    of_record :
        (c : ℕ) (rec : WriteRecord) (op : OpType)
        → rec.op ≡ op
        → c ≤ read_ts
        → rec.start_ts ≤ c
        → HasVersion rel s key c rec
        → OnlyRollbacks rel s key c read_ts
        → Found s ⊎ RollbacksFrom s c
    of_record c rec rollback o le started here newer = inr (
        extend c
          (λ b h. (
            rec,
            subst (λ x. from_bytes x ≡ some rec) (cc) (from_bytes-to_bytes rec (omega arith)),
            o,
          ))
          newer)
    of_record c rec put o le started here newer =
        inl (
          c,
          rec,
          record { le = le; started = started; here = here; newer = newer; kept = λ e. cc },
        )
    of_record c rec delete o le started here newer =
        inl (
          c,
          rec,
          record { le = le; started = started; here = here; newer = newer; kept = λ e. cc },
        )

    at_version :
        (c : ℕ) → c ≤ read_ts → OnlyRollbacks rel s key c read_ts → Found s ⊎ RollbacksFrom s c
    at_version c le newer = elim (Option-cases (stored rel s p_write (encode key c))) [
      | inl gone ↦ inr (extend c (λ b h. absurd (cc)) newer)
      | inr (b, h) ↦
          let (rec, e, started) = recorded c b le h in
          of_record c rec rec.op refl le started (h ∙ ap some e) newer
    ]

    search_down :
        (c : ℕ) → c ≤ read_ts → OnlyRollbacks rel s key c read_ts → Found s ⊎ RollbacksFrom s 0
    search_down zero le newer = at_version zero le newer
    search_down (suc c) le newer = elim (at_version (suc c) le newer) [
      | inl found ↦ inl found
      | inr more ↦ search_down c (omega arith) (λ t b above upto h. more t b (omega arith) upto h)
    ]

    -- A reader has a newest version that is no rollback, or only rollbacks.
    pub snapshot_cases : Found s ⊎ RollbacksFrom s 0
    snapshot_cases =
        search_down read_ts (omega arith) (λ t b above upto h. absurd (omega (arith, above, upto)))

  -- Two keyspaces that agree on the versions of the key up to `read_ts` and on the values of the
  -- transactions up to there.
  pub record Agree (s s' : db.Keyspace) : Type 0 where
    pub versions :
        (t : ℕ)
        → t ≤ read_ts
        → stored rel s' p_write (encode key t) ≡ stored rel s p_write (encode key t)
    pub values :
        (t : ℕ)
        → t ≤ read_ts
        → stored rel s' p_default (encode key t) ≡ stored rel s p_default (encode key t)

  module _ (s s' : db.Keyspace) (fits : read_ts ≤ u64_max) (agree : Agree s s')
      (isolated : IsIsolated rel s key) (isolated' : IsIsolated rel s' key)
      (free : IsReadable rel s key read_ts) (free' : IsReadable rel s' key read_ts) where
    newer_there : (c : ℕ) → OnlyRollbacks rel s key c read_ts → OnlyRollbacks rel s' key c read_ts
    newer_there c newer t b above upto h = newer t b above upto (sym (agree.versions t upto) ∙ h)

    get_newest_agrees :
        (c : ℕ) (rec : WriteRecord) (op : OpType)
        → rec.op ≡ op
        → IsNewest s c rec
        → get db key read_ts s' ≡ get db key read_ts s
    get_newest_agrees c rec put o n =
        elim (Option-cases (stored rel s p_default (encode key rec.start_ts))) [
          | inl gone ↦
              get_newest_broken rel s' key read_ts c rec fits (omega (arith, n.started, n.le))
                isolated' free' n.le (agree.versions c n.le ∙ n.here) (newer_there c n.newer) o
                (agree.values rec.start_ts (omega (arith, n.started, n.le)) ∙ gone)
              ∙ sym (
                  get_newest_broken rel s key read_ts c rec fits (omega (arith, n.started, n.le))
                    isolated free n.le n.here n.newer o gone)
          | inr (value, there) ↦
              get_newest_put rel s' key read_ts c rec value fits (omega (arith, n.started, n.le))
                isolated' free' n.le (agree.versions c n.le ∙ n.here) (newer_there c n.newer) o
                (agree.values rec.start_ts (omega (arith, n.started, n.le)) ∙ there)
              ∙ sym (
                  get_newest_put rel s key read_ts c rec value fits (omega (arith, n.started, n.le))
                    isolated free n.le n.here n.newer o there)
        ]
    get_newest_agrees c rec delete o n =
        get_newest_delete rel s' key read_ts c rec fits (omega (arith, n.started, n.le)) isolated'
          free' n.le (agree.versions c n.le ∙ n.here) (newer_there c n.newer) o
        ∙ sym (
            get_newest_delete rel s key read_ts c rec fits (omega (arith, n.started, n.le)) isolated
              free n.le n.here n.newer o)
    get_newest_agrees c rec rollback o n = absurd (n.kept o)

    -- Readers of both get the same, errors included.
    pub get_agrees : IsRecorded s → get db key read_ts s' ≡ get db key read_ts s
    get_agrees recorded = elim (snapshot_cases s fits recorded) [
      | inl (c, rec, n) ↦ get_newest_agrees c rec rec.op refl n
      | inr older ↦
          get_unwritten rel s' key read_ts fits isolated' free'
            (λ t b upto h. older t b (omega arith) upto (sym (agree.versions t upto) ∙ h))
          ∙ sym (
              get_unwritten rel s key read_ts fits isolated free
                (λ t b upto h. older t b (omega arith) upto h))
    ]
