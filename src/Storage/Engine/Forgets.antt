-- ===== src/Storage/Engine/Forgets.antt =====
-- Where `gc_keys_older_than` of crates/storage/src/engine.rs changes what a reader gets: it keeps the
-- record of a rollback as the newest version of a key.
use distributed_acid_kv_stor.Common.{
  ℕ, ◌≤◌, ◌<◌, ◌≡◌, refl, sym, ap, ◌∙◌, subst, inl, inr, le_or_gt, Option, none, some, map, All,
  Result, ok, lt→ltb, arith,
}
use distributed_acid_kv_stor.Common.Bytes.{Bytes}
use distributed_acid_kv_stor.Storage.Key.{u64_max, encode}
use distributed_acid_kv_stor.Storage.Record.{WriteRecord, put, to_bytes}
use distributed_acid_kv_stor.Storage.Fjall.{Fjall, Reliable, p_default, p_write}
use distributed_acid_kv_stor.Storage.View.{
  stored, IsIsolated, HasVersion, IsReadable, OnlyRollbacks, IsRollback,
}
use distributed_acid_kv_stor.Storage.View.After.{after-IsIsolated}
use distributed_acid_kv_stor.Storage.Engine.{
  GcState, gc_start, gc_loop, gc_finish, gc_keys_older_than,
}
use distributed_acid_kv_stor.Storage.Engine.Removals.{
  IsRemoval, removals-IsReadable, effects-write_left, All-KeepsPlaces, gc_loop-IsRemoval,
}
use distributed_acid_kv_stor.Storage.Engine.Dropped.{Removes, effects-removed, gc_loop-Drops}
use distributed_acid_kv_stor.Storage.Reader.{get}
use distributed_acid_kv_stor.Storage.Reader.Laws.{get_newest_put, get_unwritten}

module _ {db : Fjall} (rel : Reliable db) (s : db.Keyspace) (key value : Bytes) (rec : WriteRecord)
    (r c safe read_ts : ℕ) where
  -- A readable key of which the put at `c` is what a reader at `read_ts` sees, and which has another
  -- version above it and below the safe point: the record of a rollback, since there is no other
  -- between `c` and the read.
  pub record IsPutUnderRollback : Type 0 where
    pub fits : read_ts ≤ u64_max
    pub start_fits : rec.start_ts ≤ u64_max
    pub at_or_above : safe ≤ read_ts
    pub isolated : IsIsolated rel s key
    pub readable : IsReadable rel s key read_ts
    pub here : HasVersion rel s key c rec
    pub is_put : rec.op ≡ put
    pub data_there : stored rel s p_default (encode key rec.start_ts) ≡ some value
    pub newer : OnlyRollbacks rel s key c read_ts
    pub above : c < r
    pub old : r < safe
    pub over : (x : Bytes) × (stored rel s p_write (encode key r) ≡ some x)

  none-some : (x : Bytes) → Option.none ≡ some x → ⊥
  none-some x h = cc

  same_state : (g h : GcState) → ◌≡◌ {A = Result db.Error GcState} (ok g) (ok h) → g ≡ h
  same_state g h e = cc

  module _ (p : IsPutUnderRollback) where
    -- The state in which the loop ends.
    ends :
        (g : GcState) × (gc_loop {F = db.Error} safe (map ok (rel.entries s p_write)) gc_start
          ≡ ok g)
        × All IsRemoval g.batch
        × (0 < g.gc_count)
        × ((t : ℕ) (b : Bytes)
            → t < r
            → stored rel s p_write (encode key t) ≡ some b
            → Removes (encode key t) g.batch)
    ends =
        let (g, e, removes) =
          gc_loop-IsRemoval safe {F = db.Error} (rel.entries s p_write) gc_start tt in
        let same : (h : GcState)
            → gc_loop {F = db.Error} safe (map ok (rel.entries s p_write)) gc_start ≡ ok h
            → h ≡ g =
          λ h f. same_state h g (sym f ∙ e) in
        let drops =
          λ (t : ℕ) (b : Bytes) (less : t < r)
              (there : stored rel s p_write (encode key t) ≡ some b).
            gc_loop-Drops key safe r t (omega (arith, p.old, p.at_or_above, p.fits)) less p.old
              db.Error (rel.entries s p_write) gc_start p.over.0 b (rel.entries_sorted s p_write)
              p.isolated p.over.1 there in
        let (h, f, dropped) = drops c (to_bytes rec) p.above p.here in
        (
          g,
          e,
          removes,
          subst (λ x. 0 < x.gc_count) (same h f) dropped.1,
          λ t b less there.
              let (h, f, dropped) = drops t b less there in
              subst (λ x. Removes (encode key t) x.batch) (same h f) dropped.0,
        )

    abbrev collected : db.Keyspace
    collected = rel.after ends.0.batch s

    gc_collects : gc_keys_older_than db safe s ≡ (ok ends.0.gc_count, collected)
    unfolding gc_keys_older_than gc_finish
    gc_collects =
        let (g, e, removes, counted, drops) = ends in
        rw
          (
            gc_keys_older_than,
            rel.iter_lem s p_write,
            e,
            gc_finish,
            lt→ltb 0 g.gc_count counted,
            rel.commit_lem g.batch s,
          )
          refl

    -- Below the rollback nothing is left, and above it are rollbacks.
    left_rolled_back :
        (t : ℕ) (b : Bytes)
        → t ≤ read_ts
        → stored rel collected p_write (encode key t) ≡ some b
        → IsRollback b
    left_rolled_back t b upto h =
        let was =
          effects-write_left ends.0.batch (encode key t) b (stored rel s p_write (encode key t))
            ends.2 (sym (rel.lookup-after ends.0.batch s p_write (encode key t)) ∙ h) in
        elim (le_or_gt r t) [
          | inl from ↦ p.newer t b (omega (arith, p.above, from)) upto was
          | inr below ↦ absurd (
              none-some b (
                sym (
                  effects-removed ends.0.batch (encode key t) (stored rel s p_write (encode key t))
                    ends.2 (ends.4 t b below was))
                ∙ sym (rel.lookup-after ends.0.batch s p_write (encode key t))
                ∙ h))
        ]

  -- On a keyspace that does not fail, for a key that no lock keeps from being read at or above the
  -- safe point, and of which no version of a prefix or an extension is stored: if what the reader sees
  -- is a put, so that all versions between it and the read are rollbacks, and one of these is below
  -- the safe point, then the reader gets the value of the put before the collection and nothing after
  -- it. The collection succeeds, keeps the rollback as the newest version and removes the put.
  pub gc-get_forgets :
      IsPutUnderRollback
      → (get db key read_ts s ≡ ok (some value))
        × (count : ℕ) × ((gc_keys_older_than db safe s).0 ≡ ok count)
        × (get db key read_ts (gc_keys_older_than db safe s).1 ≡ ok none)
  gc-get_forgets p = (
    get_newest_put rel s key read_ts c rec value p.fits p.start_fits p.isolated p.readable
        (omega (arith, p.above, p.old, p.at_or_above)) p.here p.newer p.is_put p.data_there,
    (ends p).0.gc_count,
    ap (λ x. x.0) (gc_collects p),
    ap (λ x. get db key read_ts x.1) (gc_collects p)
        ∙ get_unwritten rel (collected p) key read_ts p.fits
            (after-IsIsolated rel s key (ends p).0.batch
              (All-KeepsPlaces key (ends p).0.batch (ends p).2) p.isolated)
            (removals-IsReadable rel s key read_ts (ends p).0.batch (ends p).2 p.readable)
            (left_rolled_back p),
  )
