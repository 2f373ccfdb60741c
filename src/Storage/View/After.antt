-- ===== src/Storage/View/After.antt =====
-- The view of the partitions after a batch: what the versions of a key are placed among.
use distributed_acid_kv_stor.Common.{
  ◌≡◌, sym, ◌∙◌, Bool-cases, inl, inr, Option, some, List, [], ◌∷◌, All, subst,
}
use distributed_acid_kv_stor.Common.Bytes.{Bytes, eq_bytes, eq_of_eq_bytes}
use distributed_acid_kv_stor.Storage.Fjall.{
  Fjall, Reliable, BatchOp, insert, remove, effect, effects, p_default, p_lock, p_write,
}
use distributed_acid_kv_stor.Storage.Fjall.Entries.{lookup, All-of_lookup, of_lookup_all}
use distributed_acid_kv_stor.Storage.Versions.Places.{IsPlaced}
use distributed_acid_kv_stor.Storage.View.{IsIsolated}

-- What a staged change writes to the write partition keeps the versions of `key` together.
abbrev pub KeepsPlaces : Bytes → BatchOp → Type 0
KeepsPlaces key (insert p_write k v) = IsPlaced key k
KeepsPlaces key _ = Unit {0}

effect-IsPlaced :
    (key k v : Bytes) (o : BatchOp) (old : Option Bytes)
    → KeepsPlaces key o
    → ((u : Bytes) → old ≡ some u → IsPlaced key k)
    → effect o p_write k old ≡ some v
    → IsPlaced key k
effect-IsPlaced key k v (insert p_default j w) old keeps placed h = placed v h
effect-IsPlaced key k v (insert p_lock j w) old keeps placed h = placed v h
effect-IsPlaced key k v (insert p_write j w) old keeps placed h = elim (Bool-cases (eq_bytes j k)) [
  | inl same ↦ subst (IsPlaced key) (eq_of_eq_bytes j k same) keeps
  | inr other ↦ placed v (rw other at h)
]
effect-IsPlaced key k v (remove p_default j) old keeps placed h = placed v h
effect-IsPlaced key k v (remove p_lock j) old keeps placed h = placed v h
effect-IsPlaced key k v (remove p_write j) old keeps placed h = elim (Bool-cases (eq_bytes j k)) [
  | inl same ↦ absurd (none_some (rw same at h))
  | inr other ↦ placed v (rw other at h)
]
  where
    none_some : Option.none ≡ some v → ⊥
    none_some e = cc e

effects-IsPlaced :
    (key k v : Bytes) (os : List BatchOp) (old : Option Bytes)
    → All (KeepsPlaces key) os
    → ((u : Bytes) → old ≡ some u → IsPlaced key k)
    → effects os p_write k old ≡ some v
    → IsPlaced key k
effects-IsPlaced key k v [] old keeps placed h = placed v h
effects-IsPlaced key k v (o ∷ os) old keeps placed h =
    effects-IsPlaced key k v os (effect o p_write k old) keeps.1
      (λ u e. effect-IsPlaced key k u o old keeps.0 placed e) h

pub after-IsIsolated :
    {db : Fjall} (rel : Reliable db) (s : db.Keyspace) (key : Bytes) (b : List BatchOp)
    → All (KeepsPlaces key) b
    → IsIsolated rel s key
    → IsIsolated rel (rel.after b s) key
after-IsIsolated rel s key b keeps isolated =
    All-of_lookup (IsPlaced key) (rel.entries (rel.after b s) p_write)
      (rel.entries_sorted (rel.after b s) p_write)
      (λ k v h.
        effects-IsPlaced key k v b (lookup k (rel.entries s p_write)) keeps
          (λ u e. of_lookup_all (IsPlaced key) k u (rel.entries s p_write) isolated e)
          (sym (rel.lookup-after b s p_write k) ∙ h))
