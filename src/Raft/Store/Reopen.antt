-- ===== src/Raft/Store/Reopen.antt =====
-- What crates/raft-engine/src/store.rs reads back after `append` when it is opened again.
use distributed_acid_kv_stor.Common.{
  ℕ, ◌+◌, ◌%◌, ◌^◌, ◌≤◌, ◌≡◌, ◌∙◌, refl, sym, ap, subst, some, List, [], ◌∷◌, ◌++◌, All, ◌-◌, ok,
}
use distributed_acid_kv_stor.Common.Bytes.{Bytes}
use distributed_acid_kv_stor.Storage.Fjall.{Fjall, BatchOp, p_default, Reliable}
use distributed_acid_kv_stor.Storage.Fjall.Entries.{Entry, put, IsSorted, put-IsSorted, sorted_ext}
use distributed_acid_kv_stor.Storage.Fjall.Memory.{run, apply, run-IsSorted, lookup-run}
use distributed_acid_kv_stor.Raft.Store.{
  Eraftpb, RaftStorage, entry_prefix, entry_key, load_loop, or_dummy, new, first_index, append,
  entry_batch, spliced,
}
use distributed_acid_kv_stor.Raft.Store.Placed.{placed_all, Ascends, placed_all_end}
use distributed_acid_kv_stor.Raft.Store.Loaded.{
  loaded, load_loop-loaded, Codes, IsLogged, All-put, loaded-put, ltb-false,
}

module _ (pb : Eraftpb) where
  module _ (region_id : ℕ) where
    -- Entries that the codec keeps, with 64-bit indexes.
    abbrev pub AreCoded : List pb.Entry → Type 0
    AreCoded ns = All (λ e. (bytes : Bytes) × Codes pb bytes e) ns

    run_places :
        (db : Fjall) (ns : List pb.Entry) (es : List Entry)
        → AreCoded ns
        → IsSorted es
        → All (IsLogged pb region_id) es
        → (loaded pb (entry_prefix region_id) (run p_default (entry_batch pb db region_id ns) es)
            ≡ placed_all pb ns (loaded pb (entry_prefix region_id) es))
          × All (IsLogged pb region_id) (run p_default (entry_batch pb db region_id ns) es)
    unfolding run apply entry_batch
    run_places db [] es c s l = (refl, l)
    run_places db (n ∷ ns) es ((bytes, c), cs) s l =
        let key = entry_key region_id (pb.get_index n) in
        let rest =
          run_places db ns (put key bytes es) cs (put-IsSorted key bytes es s)
            (All-put pb (IsLogged pb region_id) key bytes es (λ own. (n, c.1, c.2, refl)) l) in
        rw (entry_batch, c.0)
          (rest.0 ∙ ap (placed_all pb ns) (loaded-put pb region_id n bytes es c s l), rest.1)

    module _ {db : Fjall} (rel : Reliable db) where
      stored_run :
          (batch : List BatchOp) (s : db.Keyspace)
          → rel.entries (rel.after batch s) p_default
            ≡ run p_default batch (rel.entries s p_default)
      stored_run batch s =
          sorted_ext (rel.entries (rel.after batch s) p_default)
            (run p_default batch (rel.entries s p_default))
            (rel.entries_sorted (rel.after batch s) p_default)
            (run-IsSorted p_default batch (rel.entries s p_default)
              (rel.entries_sorted s p_default))
            (λ k.
              rel.lookup-after batch s p_default k
              ∙ sym (lookup-run p_default batch k (rel.entries s p_default)))

      -- The log that is read back from a keyspace.
      abbrev pub log_of : db.Keyspace → List pb.Entry
      log_of s =
          load_loop pb db (entry_prefix region_id) (db.range s p_default (entry_prefix region_id))

      -- Nothing but entries is stored under the prefix of the region.
      abbrev pub KeepsLog : db.Keyspace → Type 0
      KeepsLog s = All (IsLogged pb region_id) (rel.entries s p_default)

      log_of-loaded :
          (s : db.Keyspace)
          → log_of s ≡ loaded pb (entry_prefix region_id) (rel.entries s p_default)
      log_of-loaded s =
          ap (load_loop pb db (entry_prefix region_id))
            (rel.range_lem s p_default (entry_prefix region_id))
          ∙ load_loop-loaded pb db (entry_prefix region_id) (rel.entries s p_default)
              (rel.entries_sorted s p_default)

      log_of-after :
          (ns : List pb.Entry) (s : db.Keyspace)
          → AreCoded ns
          → KeepsLog s
          → (log_of (rel.after (entry_batch pb db region_id ns) s) ≡ placed_all pb ns (log_of s))
            × KeepsLog (rel.after (entry_batch pb db region_id ns) s)
      log_of-after ns s c l =
          let ran =
            run_places db ns (rel.entries s p_default) c (rel.entries_sorted s p_default) l in
          let same = stored_run (entry_batch pb db region_id ns) s in
          (
            log_of-loaded (rel.after (entry_batch pb db region_id ns) s)
                ∙ ap (loaded pb (entry_prefix region_id)) same
                ∙ ran.0
                ∙ ap (placed_all pb ns) (sym (log_of-loaded s)),
            subst (All (IsLogged pb region_id)) (sym same) ran.1,
          )

      append_writes :
          (s : RaftStorage pb db) (b n : pb.Entry) (bs ns : List pb.Entry)
          → s.core.entries ≡ b ∷ bs
          → s.region_id ≡ region_id
          → pb.get_index b ≤ pb.get_index n
          → (t : RaftStorage pb db) × (append pb db (n ∷ ns) s ≡ some (ok tt, t))
            × (t.core.entries ≡ spliced pb db (b ∷ bs) (pb.get_index n - pb.get_index b) (n ∷ ns))
            × (t.keyspace ≡ rel.after (entry_batch pb db region_id (n ∷ ns)) s.keyspace)
      unfolding append
      append_writes s b n bs ns here own le = (
        record s {
          core = record s.core {
            entries = spliced pb db (b ∷ bs) (pb.get_index n - pb.get_index b) (n ∷ ns);
          };
          keyspace = (db.commit (entry_batch pb db s.region_id (n ∷ ns)) s.keyspace).1;
        },
        rw (append, here, ltb-false pb (pb.get_index n) (pb.get_index b) le) refl,
        refl,
        rw (own, rel.commit_lem (entry_batch pb db region_id (n ∷ ns)) s.keyspace) refl,
      )

      -- On a keyspace that does not fail, with nothing but entries under the prefix of the region:
      -- an append that is not refused as compacted succeeds, and when the storage is opened again,
      -- the log read back is the one that was stored before with each new entry put at its index.
      pub append_reads_back :
          (s : RaftStorage pb db) (b n : pb.Entry) (bs ns : List pb.Entry)
          → s.core.entries ≡ b ∷ bs
          → s.region_id ≡ region_id
          → pb.get_index b ≤ pb.get_index n
          → AreCoded (n ∷ ns)
          → KeepsLog s.keyspace
          → (t : RaftStorage pb db) × (append pb db (n ∷ ns) s ≡ some (ok tt, t))
            × ((new pb db t.keyspace region_id).core.entries
                ≡ or_dummy pb db (placed_all pb (n ∷ ns) (log_of s.keyspace)))
            × KeepsLog t.keyspace
            × (t.core.entries ≡ spliced pb db (b ∷ bs) (pb.get_index n - pb.get_index b) (n ∷ ns))
      unfolding new
      append_reads_back s b n bs ns here own le coded keeps =
          let (t, e, core, written) = append_writes s b n bs ns here own le in
          let kept = log_of-after (n ∷ ns) s.keyspace coded keeps in
          (
            t,
            e,
            ap (or_dummy pb db) (ap log_of written ∙ kept.0),
            subst KeepsLog (sym written) kept.1,
            core,
          )

      -- On a keyspace that does not fail, with nothing but entries under the prefix of the region,
      -- and for entries that decode to what was encoded, where the entries stored before and the new
      -- ones together are e and then es, with ascending 64-bit indexes: an append that is not refused
      -- as compacted succeeds, and when the storage is opened again, its log is e and es, and its
      -- first index is one above that of e. Nothing but entries is under the prefix then, either.
      pub new-append :
          (s : RaftStorage pb db) (b n e : pb.Entry) (bs ns es : List pb.Entry)
          → s.core.entries ≡ b ∷ bs
          → s.region_id ≡ region_id
          → pb.get_index b ≤ pb.get_index n
          → AreCoded (n ∷ ns)
          → KeepsLog s.keyspace
          → log_of s.keyspace ++ n ∷ ns ≡ e ∷ es
          → Ascends pb (e ∷ es)
          → (t : RaftStorage pb db) × (append pb db (n ∷ ns) s ≡ some (ok tt, t))
            × ((new pb db t.keyspace region_id).core.entries ≡ e ∷ es)
            × (first_index pb db (new pb db t.keyspace region_id)
                ≡ some ((pb.get_index e + 1) % 2 ^ 64))
            × KeepsLog t.keyspace
      unfolding or_dummy first_index
      new-append s b n e bs ns es here own le coded keeps all up =
          let (t, ran, back, kept, core) = append_reads_back s b n bs ns here own le coded keeps in
          let read =
            back
            ∙ ap (or_dummy pb db) (
                placed_all_end pb (n ∷ ns) (log_of s.keyspace) (subst (Ascends pb) (sym all) up)
                ∙ all) in
          (t, ran, read, rw (first_index, read) refl, kept)
