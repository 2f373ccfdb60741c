-- ===== src/Storage/Engine/Preserves.antt =====
-- Where `gc_keys_older_than` of crates/storage/src/engine.rs changes nothing that a reader at or
-- above the safe point gets.
use distributed_acid_kv_stor.Common.{
  ℕ, ◌≤◌, ◌<◌, ◌≡◌, ◌≢◌, refl, sym, ap, ◌∙◌, inl, inr, le_or_gt, Bool-cases, Option-cases, some,
  List, map, All, ltb, ok, arith, if◌then◌else◌,
}
use distributed_acid_kv_stor.Common.Bytes.{Bytes}
use distributed_acid_kv_stor.Storage.Key.{u64_max, encode}
use distributed_acid_kv_stor.Storage.Record.{WriteRecord, OpType, put, delete, rollback, from_bytes}
use distributed_acid_kv_stor.Storage.Record.Laws.{from_bytes-to_bytes}
use distributed_acid_kv_stor.Storage.Fjall.{Fjall, Reliable, BatchOp, p_default, p_write}
use distributed_acid_kv_stor.Storage.View.{
  stored, IsIsolated, HasVersion, IsReadable, IsRollback, OnlyRollbacks,
}
use distributed_acid_kv_stor.Storage.View.After.{after-IsIsolated}
use distributed_acid_kv_stor.Storage.Reader.{get}
use distributed_acid_kv_stor.Storage.Reader.Laws.{
  get_newest_put, get_newest_delete, get_newest_broken, get_unwritten,
}
use distributed_acid_kv_stor.Storage.Reader.Snapshot.{
  IsRecorded, IsNewest, RollbacksFrom, snapshot_cases,
}
use distributed_acid_kv_stor.Storage.Engine.{
  GcState, gc_start, gc_loop, gc_finish, gc_keys_older_than,
}
use distributed_acid_kv_stor.Storage.Engine.Spares.{Spares, gc_loop-Spares, gc_start-Keeps}
use distributed_acid_kv_stor.Storage.Engine.Removals.{
  IsRemoval, removals-IsReadable, effects-write_left, All-KeepsPlaces, effects-version,
  effects-value, All-IsRemoval, gc_loop-IsRemoval,
}

module _ {db : Fjall} (rel : Reliable db) (s : db.Keyspace) (key : Bytes) (safe read_ts : ℕ) where
  -- What the collection must find of the versions of the key up to `read_ts`.
  pub record IsCollectable : Type 0 where
    pub fits : read_ts ≤ u64_max
    pub at_or_above : safe ≤ read_ts
    pub isolated : IsIsolated rel s key
    pub readable : IsReadable rel s key read_ts
    pub recorded : IsRecorded rel key read_ts s
    -- One transaction writes one version of the key.
    pub distinct :
        (t u : ℕ) (r q : WriteRecord)
        → t ≤ read_ts
        → u ≤ read_ts
        → r.start_ts ≤ t
        → q.start_ts ≤ u
        → HasVersion rel s key t r
        → HasVersion rel s key u q
        → r.start_ts ≡ q.start_ts
        → t ≡ u
    -- Above the record of a rollback below the safe point stands another version below it that is
    -- none.
    pub covered :
        (t : ℕ) (b : Bytes)
        → t < safe
        → stored rel s p_write (encode key t) ≡ some b
        → IsRollback b
        → (u : ℕ) × (d : Bytes) × (t < u)
          × (u < safe)
          × (stored rel s p_write (encode key u) ≡ some d)
          × (IsRollback d → ⊥)

  -- The keyspace after a batch of removals, or with none.
  abbrev collected : GcState → db.Keyspace
  collected g = if ltb 0 g.gc_count then rel.after g.batch s else s

  finish_lem : (g : GcState) → gc_finish db (ok g) s ≡ (ok g.gc_count, collected g)
  unfolding gc_finish
  finish_lem g = elim (Bool-cases (ltb 0 g.gc_count)) [
    | inl some_found ↦ rw (gc_finish, some_found, rel.commit_lem g.batch s) refl
    | inr none_found ↦ rw (gc_finish, none_found) refl
  ]

  module _ (p : IsCollectable) (b : List BatchOp) where
    left_there :
        (k x : Bytes)
        → All IsRemoval b
        → stored rel (rel.after b s) p_write k ≡ some x
        → stored rel s p_write k ≡ some x
    left_there k x h e =
        effects-write_left b k x (stored rel s p_write k) h
          (sym (rel.lookup-after b s p_write k) ∙ e)

    after-IsReadable : All IsRemoval b → IsReadable rel (rel.after b s) key read_ts
    after-IsReadable h = removals-IsReadable rel s key read_ts b h p.readable

    after-IsIsolated_removals : All IsRemoval b → IsIsolated rel (rel.after b s) key
    after-IsIsolated_removals h = after-IsIsolated rel s key b (All-KeepsPlaces key b h) p.isolated

    still_newer :
        (c : ℕ)
        → All IsRemoval b
        → OnlyRollbacks rel s key c read_ts
        → OnlyRollbacks rel (rel.after b s) key c read_ts
    still_newer c h newer t x above upto e = newer t x above upto (left_there (encode key t) x h e)

    -- Nothing but rollbacks was there.
    read_nothing :
        All IsRemoval b
        → RollbacksFrom rel key read_ts s 0
        → get db key read_ts (rel.after b s) ≡ get db key read_ts s
    read_nothing h older =
        get_unwritten rel (rel.after b s) key read_ts p.fits (after-IsIsolated_removals h)
          (after-IsReadable h)
          (λ t x upto e. older t x (omega arith) upto (left_there (encode key t) x h e))
        ∙ sym (
            get_unwritten rel s key read_ts p.fits p.isolated p.readable
              (λ t x upto e. older t x (omega arith) upto e))

    module _ (c : ℕ) (rec : WriteRecord) (n : IsNewest rel key read_ts s c rec)
        (spares : All (Spares (encode key c) (encode key rec.start_ts)) b) where
      removals : All IsRemoval b
      removals = All-IsRemoval (encode key c) (encode key rec.start_ts) b spares

      version_there : HasVersion rel (rel.after b s) key c rec
      version_there =
          rel.lookup-after b s p_write (encode key c)
          ∙ effects-version (encode key c) (encode key rec.start_ts) b
              (stored rel s p_write (encode key c)) spares
          ∙ n.here

      value_there :
          stored rel (rel.after b s) p_default (encode key rec.start_ts)
          ≡ stored rel s p_default (encode key rec.start_ts)
      value_there =
          rel.lookup-after b s p_default (encode key rec.start_ts)
          ∙ effects-value (encode key c) (encode key rec.start_ts) b
              (stored rel s p_default (encode key rec.start_ts)) spares

      start_fits : rec.start_ts ≤ u64_max
      start_fits = omega (arith, n.started, n.le, p.fits)

      read_newest :
          (op : OpType) → rec.op ≡ op → get db key read_ts (rel.after b s) ≡ get db key read_ts s
      read_newest put o = elim (Option-cases (stored rel s p_default (encode key rec.start_ts))) [
        | inl gone ↦
            get_newest_broken rel (rel.after b s) key read_ts c rec p.fits start_fits
              (after-IsIsolated_removals removals) (after-IsReadable removals) n.le version_there
              (still_newer c removals n.newer) o (value_there ∙ gone)
            ∙ sym (
                get_newest_broken rel s key read_ts c rec p.fits start_fits p.isolated p.readable
                  n.le n.here n.newer o gone)
        | inr (value, there) ↦
            get_newest_put rel (rel.after b s) key read_ts c rec value p.fits start_fits
              (after-IsIsolated_removals removals) (after-IsReadable removals) n.le version_there
              (still_newer c removals n.newer) o (value_there ∙ there)
            ∙ sym (
                get_newest_put rel s key read_ts c rec value p.fits start_fits p.isolated p.readable
                  n.le n.here n.newer o there)
      ]
      read_newest delete o =
          get_newest_delete rel (rel.after b s) key read_ts c rec p.fits start_fits
            (after-IsIsolated_removals removals) (after-IsReadable removals) n.le version_there
            (still_newer c removals n.newer) o
          ∙ sym (
              get_newest_delete rel s key read_ts c rec p.fits start_fits p.isolated p.readable n.le
                n.here n.newer o)
      read_newest rollback o = absurd (n.kept o)

  module _ (p : IsCollectable) (c : ℕ) (rec : WriteRecord)
      (n : IsNewest rel key read_ts s c rec) where
    -- Between the newest version that is no rollback and the safe point there is none.
    nearest : (t : ℕ) (x : Bytes) → stored rel s p_write (encode key t) ≡ some x → c < t → safe ≤ t
    nearest t x h above = elim (le_or_gt safe t) [
      | inl le ↦ le
      | inr below ↦
          let (u, d, after, under, there, kept) =
            p.covered t x below h (n.newer t x above (omega (arith, below, p.at_or_above)) h) in
          absurd (
            kept (
              n.newer u d (omega (arith, above, after)) (omega (arith, under, p.at_or_above))
                there))
    ]

    elsewhere :
        (t : ℕ) (x : Bytes)
        → stored rel s p_write (encode key t) ≡ some x
        → t < safe
        → t ≢ c
        → (q : WriteRecord) → from_bytes x ≡ some q
        → (q.start_ts ≤ u64_max) × (q.start_ts ≢ rec.start_ts)
    elsewhere t x h below ne q e =
        let upto : t ≤ read_ts = omega (arith, below, p.at_or_above) in
        let (r, is_r, started) = p.recorded t x upto h in
        let fits : r.start_ts ≤ u64_max = omega (arith, started, upto, p.fits) in
        let same : some r ≡ some q =
          sym (from_bytes-to_bytes r fits) ∙ ap from_bytes (sym is_r) ∙ e in
        let eq : r ≡ q = cc same in
        (
          rw (← eq) fits,
          λ starts. ne (
              p.distinct t c r rec upto n.le started n.started (h ∙ ap some is_r) n.here
                (ap (λ z. z.start_ts) eq ∙ starts)),
        )

  abbrev Preserved : Type 0
  Preserved =
      (count : ℕ) × ((gc_keys_older_than db safe s).0 ≡ ok count)
      × (get db key read_ts (gc_keys_older_than db safe s).1 ≡ get db key read_ts s)

  -- From the state in which the loop ends.
  from_state :
      (g : GcState)
      → gc_loop {F = db.Error} safe (map ok (rel.entries s p_write)) gc_start ≡ ok g
      → get db key read_ts (rel.after g.batch s) ≡ get db key read_ts s
      → Preserved
  unfolding gc_keys_older_than
  from_state g e same =
      (g.gc_count, ap (λ x. x.0) ran, ap (λ x. get db key read_ts x.1) ran ∙ same_collected)
    where
      ran : gc_keys_older_than db safe s ≡ (ok g.gc_count, collected g)
      ran = rw (gc_keys_older_than, rel.iter_lem s p_write, e) (finish_lem g)

      same_collected : get db key read_ts (collected g) ≡ get db key read_ts s
      same_collected = elim (Bool-cases (ltb 0 g.gc_count)) [
        | inl some_found ↦ rw some_found same
        | inr none_found ↦ rw none_found refl
      ]

  -- On a keyspace that does not fail, for a key read at or above the safe point, that no lock keeps
  -- from being read: no version of a prefix or an extension of it is stored, its versions up to
  -- read_ts hold records of transactions that started by then, no two of the same transaction, and
  -- a record of a rollback below the safe point has another version above it, below the safe point,
  -- that is none. The collection succeeds, and the read gives after it what it gave before, errors
  -- included.
  pub gc-get :
      IsCollectable
      → (count : ℕ) × ((gc_keys_older_than db safe s).0 ≡ ok count)
        × (get db key read_ts (gc_keys_older_than db safe s).1 ≡ get db key read_ts s)
  gc-get p = elim (snapshot_cases rel key read_ts s p.fits p.recorded) [
    | inl (c, rec, n) ↦
        let (g, e, spares) =
          gc_loop-Spares key safe c rec.start_ts (omega (arith, n.le, p.fits))
            (omega (arith, n.started, n.le, p.fits)) {F = db.Error} (rel.entries s p_write) gc_start
            (rel.entries_sorted s p_write) p.isolated (nearest p c rec n) (elsewhere p c rec n)
            (gc_start-Keeps key safe c rec.start_ts (omega (arith, n.le, p.fits))
              (omega (arith, n.started, n.le, p.fits)) (rel.entries s p_write)) in
        from_state g e (read_newest p g.batch c rec n spares rec.op refl)
    | inr older ↦
        let (g, e, removes) =
          gc_loop-IsRemoval safe {F = db.Error} (rel.entries s p_write) gc_start tt in
        from_state g e (read_nothing p g.batch removes older)
  ]
