-- ===== src/Raft/Store/Loaded.antt =====
-- The entries that the loop of `new` of crates/raft-engine/src/store.rs reads out of a partition in
-- key order, and one more entry put among them.
use Prim.Native.Nat.Ordering.{lt, eq, gt}
use distributed_acid_kv_stor.Common.{
  ℕ, ◌^◌, ◌<◌, ◌≤◌, ◌≡◌, ◌⊎◌, ◌∙◌, inl, inr, refl, sym, ap, subst, Bool-cases, true, false, some,
  none, List, [], ◌∷◌, All, map, ltb, compare, Ordering, if◌then◌else◌, ok, arith,
}
use distributed_acid_kv_stor.Common.Bytes.{Bytes, ◌≺◌, compare_bytes, ge_bytes, eq_of_compare_bytes}
use distributed_acid_kv_stor.Storage.Fjall.{Fjall}
use distributed_acid_kv_stor.Storage.Fjall.Entries.{Entry, from, put, IsSorted, All-trans}
use distributed_acid_kv_stor.Raft.Store.{Eraftpb, entry_prefix, entry_key, starts_with, load_loop}
use distributed_acid_kv_stor.Raft.Store.Placed.{placed, placed_at, placed_below}
use distributed_acid_kv_stor.Raft.Store.Keys.{
  compare-entry_key, starts_with-entry_key, starts_with-ge_bytes, starts_with_above,
}

module _ (pb : Eraftpb) where
  -- The entries that decode, of the keys with a prefix.
  abbrev pub loaded : Bytes → List Entry → List pb.Entry
  loaded prefix [] = []
  loaded prefix ((k, v) ∷ es) =
      let rest = loaded prefix es in
      if starts_with k prefix
      then elim (pb.parse_entry v) [ some e ↦ e ∷ rest | none ↦ rest ]
      else rest

  none-above :
      (prefix k : Bytes) (es : List Entry)
      → ge_bytes k prefix ≡ true
      → starts_with k prefix ≡ false
      → All (λ x. k ≺ x.0) es
      → loaded prefix es ≡ []
  none-above prefix k [] g n a = refl
  none-above prefix k ((j, v) ∷ es) g n a =
      rw (starts_with_above k j prefix g n a.0) (none-above prefix k es g n a.1)

  -- The range from the prefix on, up to the first key without it, holds all of them.
  pub load_loop-loaded :
      (db : Fjall) (prefix : Bytes) (es : List Entry)
      → IsSorted es
      → load_loop pb db prefix (map ok (from prefix es)) ≡ loaded prefix es
  unfolding load_loop
  load_loop-loaded db prefix [] s = refl
  load_loop-loaded db prefix ((k, v) ∷ es) s = elim (Bool-cases (starts_with k prefix)) [
    | inl own ↦
        rw (starts_with-ge_bytes k prefix own, own)
          (ap (λ t. elim (pb.parse_entry v) [ some e ↦ e ∷ t | none ↦ t ])
            (load_loop-loaded db prefix es s.1))
    | inr other ↦ elim (Bool-cases (ge_bytes k prefix)) [
      | inl above ↦ rw (above, other) (sym (none-above prefix k es above other s.0))
      | inr below ↦ rw (below, other) (load_loop-loaded db prefix es s.1)
    ]
  ]

  put_at :
      (k v j w : Bytes) (es : List Entry) (o : Ordering)
      → compare_bytes k j ≡ o
      → put k v ((j, w) ∷ es)
        ≡ elim o [ lt ↦ (k, v) ∷ (j, w) ∷ es | eq ↦ (k, v) ∷ es | gt ↦ (j, w) ∷ put k v es ]
  put_at k v j w es o h = rw (put, h) refl

  loaded_own :
      (prefix k v : Bytes) (e : pb.Entry) (es : List Entry)
      → starts_with k prefix ≡ true
      → pb.parse_entry v ≡ some e
      → loaded prefix ((k, v) ∷ es) ≡ e ∷ loaded prefix es
  loaded_own prefix k v e es own parsed = rw (own, parsed) refl

  loaded_other :
      (prefix k v : Bytes) (es : List Entry)
      → starts_with k prefix ≡ false
      → loaded prefix ((k, v) ∷ es) ≡ loaded prefix es
  loaded_other prefix k v es other = rw other refl

  -- What the codec does of an entry with a 64-bit index.
  abbrev pub Codes : Bytes → pb.Entry → Type 0
  Codes bytes e =
      (pb.entry_bytes e ≡ some bytes) × (pb.parse_entry bytes ≡ some e) × (pb.get_index e < 2 ^ 64)

  -- Keys with the prefix of a region are those of entries that decode.
  abbrev pub IsLogged : ℕ → Entry → Type 0
  IsLogged region_id (k, v) =
      starts_with k (entry_prefix region_id) ≡ true
      → (e : pb.Entry) × (pb.parse_entry v ≡ some e)
        × (pb.get_index e < 2 ^ 64)
        × (k ≡ entry_key region_id (pb.get_index e))

  pub All-put :
      (P : Entry → Type 0) (k v : Bytes) (es : List Entry)
      → P (k, v)
      → All P es
      → All P (put k v es)
  All-put P k v [] h a = (h, tt)
  All-put P k v ((j, w) ∷ es) h a = ground (arith, All-put P k v es h a.1)

  compare-cases :
      (k j : Bytes) → (compare_bytes k j ≡ lt) ⊎ (compare_bytes k j ≡ gt) ⊎ (compare_bytes k j ≡ eq)
  compare-cases k j = ground arith

  pub ltb-false : (i j : ℕ) → j ≤ i → ltb i j ≡ false
  ltb-false i j h = ground arith

  lt_of_compare : (i j : ℕ) → compare i j ≡ lt → i < j
  lt_of_compare i j h = ground arith

  module _ (region_id : ℕ) where
    loaded_above :
        (i : ℕ) (es : List Entry)
        → i < 2 ^ 64
        → All (λ x. entry_key region_id i ≺ x.0) es
        → All (IsLogged region_id) es
        → All (λ x. i < pb.get_index x) (loaded (entry_prefix region_id) es)
    loaded_above i [] f a l = tt
    loaded_above i ((k, v) ∷ es) f a l =
        elim (Bool-cases (starts_with k (entry_prefix region_id))) [
          | inr other ↦ rw other (loaded_above i es f a.1 l.1)
          | inl own ↦
              let (e, parsed, fits, at) = l.0 own in
              rw (own, parsed)
                (
                  lt_of_compare i (pb.get_index e) (
                      sym
                        (compare-entry_key region_id i (pb.get_index e) (omega arith) (omega arith))
                      ∙ subst (λ x. entry_key region_id i ≺ x) at a.0),
                  loaded_above i es f a.1 l.1,
                )
        ]

    index_of :
        (e f : pb.Entry) (k : Bytes)
        → pb.get_index e < 2 ^ 64
        → pb.get_index f < 2 ^ 64
        → k ≡ entry_key region_id (pb.get_index f)
        → (o : Ordering) → compare_bytes (entry_key region_id (pb.get_index e)) k ≡ o
        → compare (pb.get_index e) (pb.get_index f) ≡ o
    index_of e f k i j at o h =
        sym (
          compare-entry_key region_id (pb.get_index e) (pb.get_index f) (omega arith) (omega arith))
        ∙ subst (λ x. compare_bytes (entry_key region_id (pb.get_index e)) x ≡ o) at h

    put_later :
        (e : pb.Entry) (bytes k v : Bytes) (es : List Entry)
        → Codes bytes e
        → IsLogged region_id (k, v)
        → compare_bytes (entry_key region_id (pb.get_index e)) k ≡ gt
        → loaded (entry_prefix region_id) (put (entry_key region_id (pb.get_index e)) bytes es)
          ≡ placed pb e (loaded (entry_prefix region_id) es)
        → loaded
            (entry_prefix region_id)
            ((k, v) ∷ put (entry_key region_id (pb.get_index e)) bytes es)
          ≡ placed pb e (loaded (entry_prefix region_id) ((k, v) ∷ es))
    put_later e bytes k v es c logged above ih =
        let rest = put (entry_key region_id (pb.get_index e)) bytes es in
        elim (Bool-cases (starts_with k (entry_prefix region_id))) [
          | inr other ↦
              loaded_other (entry_prefix region_id) k v rest other
              ∙ ih
              ∙ ap (placed pb e) (sym (loaded_other (entry_prefix region_id) k v es other))
          | inl own ↦
              let (x, parsed, fits, at) = logged own in
              loaded_own (entry_prefix region_id) k v x rest own parsed
              ∙ ap (λ t. x ∷ t) ih
              ∙ sym (
                  placed_at pb e x (loaded (entry_prefix region_id) es) gt
                    (index_of e x k c.2 fits at gt above))
              ∙ ap (placed pb e) (sym (loaded_own (entry_prefix region_id) k v x es own parsed))
        ]

    pub loaded-put :
        (e : pb.Entry) (bytes : Bytes) (es : List Entry)
        → Codes bytes e
        → IsSorted es
        → All (IsLogged region_id) es
        → loaded (entry_prefix region_id) (put (entry_key region_id (pb.get_index e)) bytes es)
          ≡ placed pb e (loaded (entry_prefix region_id) es)
    loaded-put e bytes [] c s l = rw (starts_with-entry_key region_id (pb.get_index e), c.1) refl
    loaded-put e bytes ((k, v) ∷ es) c s l =
        let key = entry_key region_id (pb.get_index e) in
        let mine = starts_with-entry_key region_id (pb.get_index e) in
        elim (compare-cases key k) [
          | inl below ↦
              ap (loaded (entry_prefix region_id)) (put_at key bytes k v es lt below)
              ∙ loaded_own (entry_prefix region_id) key bytes e ((k, v) ∷ es) mine c.1
              ∙ sym (
                  placed_below pb e (loaded (entry_prefix region_id) ((k, v) ∷ es)) (
                    loaded_above (pb.get_index e) ((k, v) ∷ es) c.2
                      (below, All-trans key k es below s.0) l))
          | inr (inl above) ↦
              ap (loaded (entry_prefix region_id)) (put_at key bytes k v es gt above)
              ∙ put_later e bytes k v es c l.0 above (loaded-put e bytes es c s.1 l.1)
          | inr (inr same) ↦
              let own =
                subst (λ x. starts_with x (entry_prefix region_id) ≡ true)
                  (eq_of_compare_bytes key k same) mine in
              let (x, parsed, fits, at) = l.0 own in
              ap (loaded (entry_prefix region_id)) (put_at key bytes k v es eq same)
              ∙ loaded_own (entry_prefix region_id) key bytes e es mine c.1
              ∙ sym (
                  placed_at pb e x (loaded (entry_prefix region_id) es) eq
                    (index_of e x k c.2 fits at eq same))
              ∙ ap (placed pb e) (sym (loaded_own (entry_prefix region_id) k v x es own parsed))
        ]
