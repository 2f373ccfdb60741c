-- ===== src/Raft/Store/Suffix.antt =====
-- What an `append` of crates/raft-engine/src/store.rs that cuts the log leaves in the engine.
use Prim.Native.Nat.Ordering.{lt, eq, gt}
use distributed_acid_kv_stor.Common.{
  ℕ, ◌-◌, ◌<◌, ◌≤◌, ◌≡◌, ◌⊎◌, ◌∙◌, inl, inr, refl, sym, ap, subst, Option, some, none, List, [],
  ◌∷◌, ◌++◌, All, compare, take, ltb, length, if◌then◌else◌, ok, arith,
}
use distributed_acid_kv_stor.Storage.Fjall.{Fjall, Reliable}
use distributed_acid_kv_stor.Raft.Store.{
  Eraftpb, RaftStorage, or_dummy, new, append, spliced, last_index, last,
}
use distributed_acid_kv_stor.Raft.Store.Placed.{placed, placed_all, placed_at}
use distributed_acid_kv_stor.Raft.Store.Reopen.{AreCoded, KeepsLog, log_of, append_reads_back}

module _ (pb : Eraftpb) where
  abbrev last_of : List pb.Entry → Option ℕ
  last_of xs = elim (last xs) [ none ↦ none | some e ↦ some (pb.get_index e) ]

  none-some : (m : ℕ) → ◌≡◌ {A = Option ℕ} none (some m) → ⊥
  none-some m h = ground arith

  some_same : (a b : ℕ) → some a ≡ some b → a ≡ b
  some_same a b h = ground arith

  compare-cases : (i j : ℕ) → (compare i j ≡ lt) ⊎ (compare i j ≡ eq) ⊎ (compare i j ≡ gt)
  compare-cases i j = ground arith

  lt-compare : (i j : ℕ) → i < j → compare i j ≡ lt
  lt-compare i j h = ground arith

  last_cons :
      (x : pb.Entry) (xs : List pb.Entry) (m : ℕ) → last_of xs ≡ some m → last_of (x ∷ xs) ≡ some m
  last_cons x [] m h = absurd (none-some m h)
  last_cons x (y ∷ ys) m h = h

  last-append : (xs ys : List pb.Entry) (m : ℕ) → last_of ys ≡ some m → last_of (xs ++ ys) ≡ some m
  last-append [] ys m h = h
  last-append (x ∷ xs) ys m h = last_cons x (xs ++ ys) m (last-append xs ys m h)

  -- An entry put below the last one leaves it the last.
  last-placed :
      (e : pb.Entry) (xs : List pb.Entry) (m : ℕ)
      → pb.get_index e < m
      → last_of xs ≡ some m
      → last_of (placed pb e xs) ≡ some m
  last-placed e [] m less h = absurd (none-some m h)
  last-placed e (x ∷ []) m less h =
      ap last_of (
        placed_at pb e x [] lt (
          lt-compare (pb.get_index e) (pb.get_index x)
            (subst (λ i. pb.get_index e < i) (sym (some_same (pb.get_index x) m h)) less)))
      ∙ h
  last-placed e (x ∷ y ∷ ys) m less h = elim (compare-cases (pb.get_index e) (pb.get_index x)) [
    | inl below ↦ ap last_of (placed_at pb e x (y ∷ ys) lt below) ∙ h
    | inr (inl same) ↦ ap last_of (placed_at pb e x (y ∷ ys) eq same) ∙ h
    | inr (inr above) ↦
        ap last_of (placed_at pb e x (y ∷ ys) gt above)
        ∙ last_cons x (placed pb e (y ∷ ys)) m (last-placed e (y ∷ ys) m less h)
  ]

  last-placed_all :
      (ns xs : List pb.Entry) (m : ℕ)
      → All (λ e. pb.get_index e < m) ns
      → last_of xs ≡ some m
      → last_of (placed_all pb ns xs) ≡ some m
  last-placed_all [] xs m less h = h
  last-placed_all (n ∷ ns) xs m less h =
      last-placed_all ns (placed pb n xs) m less.1 (last-placed n xs m less.0 h)

  last-or_dummy :
      (db : Fjall) (xs : List pb.Entry) (m : ℕ)
      → last_of xs ≡ some m
      → last_of (or_dummy pb db xs) ≡ some m
  unfolding or_dummy
  last-or_dummy db [] m h = absurd (none-some m h)
  last-or_dummy db (x ∷ xs) m h = h

  last-spliced :
      (db : Fjall) (old : List pb.Entry) (diff : ℕ) (ns : List pb.Entry) (m : ℕ)
      → last_of ns ≡ some m
      → last_of (spliced pb db old diff ns) ≡ some m
  unfolding spliced
  last-spliced db old diff ns m h =
      last-append (if ltb diff (length old) then take diff old else old) ns m h

  module _ {db : Fjall} (rel : Reliable db) (region_id : ℕ) where
    -- On a keyspace that does not fail, with nothing but entries under the prefix of the region, and
    -- for entries with 64-bit indexes that decode to what was encoded: a storage that was opened
    -- with a log from x to the index m, and appends entries not below x of which all have an index
    -- below m, ends with the last of them, but has the last index m again when it is opened anew.
    pub last_index-append :
        (keyspace : db.Keyspace) (x n l : pb.Entry) (xs ns : List pb.Entry) (m : ℕ)
        → log_of pb region_id rel keyspace ≡ x ∷ xs
        → KeepsLog pb region_id rel keyspace
        → AreCoded pb region_id (n ∷ ns)
        → pb.get_index x ≤ pb.get_index n
        → last_index pb db (new pb db keyspace region_id) ≡ some m
        → All (λ e. pb.get_index e < m) (n ∷ ns)
        → last (n ∷ ns) ≡ some l
        → (t : RaftStorage pb db) × (append pb db (n ∷ ns) (new pb db keyspace region_id)
            ≡ some (ok tt, t))
          × (last_index pb db t ≡ some (pb.get_index l))
          × (last_index pb db (new pb db t.keyspace region_id) ≡ some m)
    unfolding last_index new or_dummy
    last_index-append keyspace x n l xs ns m stored keeps coded le ends less end =
        let opened = ap (or_dummy pb db) stored in
        let (t, e, back, kept, core) =
          append_reads_back pb region_id rel (new pb db keyspace region_id) x n xs ns opened refl le
            coded keeps in
        (
          t,
          e,
          ap last_of core
              ∙ last-spliced db (x ∷ xs) (pb.get_index n - pb.get_index x) (n ∷ ns) (pb.get_index l)
                  (ap
                    (λ o. elim o as (λ q. Option ℕ) [
                      | none ↦ none
                      | some e ↦ some (pb.get_index e)
                    ])
                    end),
          ap last_of back
              ∙ last-or_dummy db (placed_all pb (n ∷ ns) (log_of pb region_id rel keyspace)) m (
                  last-placed_all (n ∷ ns) (log_of pb region_id rel keyspace) m less
                    (ap last_of stored ∙ sym (ap last_of opened) ∙ ends)),
        )
