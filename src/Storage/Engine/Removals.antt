-- ===== src/Storage/Engine/Removals.antt =====
-- That `gc_keys_older_than` of crates/storage/src/engine.rs only removes, and what its batch leaves.
use distributed_acid_kv_stor.Common.{
  ℕ, ◌≡◌, ◌∙◌, refl, inl, inr, Bool-cases, Option, none, some, List, [], ◌∷◌, map, All, All-append,
  ltb, ok, err, arith,
}
use distributed_acid_kv_stor.Common.Bytes.{Bytes, eq_bytes}
use distributed_acid_kv_stor.Storage.Key.{decode}
use distributed_acid_kv_stor.Storage.Record.{WriteRecord, from_bytes}
use distributed_acid_kv_stor.Storage.Fjall.{
  Fjall, Reliable, BatchOp, insert, remove, effects, p_default, p_lock, p_write,
}
use distributed_acid_kv_stor.Storage.Fjall.Entries.{Entry}
use distributed_acid_kv_stor.Storage.View.{stored, IsReadable}
use distributed_acid_kv_stor.Storage.View.After.{KeepsPlaces}
use distributed_acid_kv_stor.Storage.Engine.{
  GcState, gc_enter, gc_remove, gc_version, gc_item, gc_loop,
}
use distributed_acid_kv_stor.Storage.Engine.Spares.{Spares}

-- A removal from the partitions of the versions and of the values.
abbrev pub IsRemoval : BatchOp → Type 0
IsRemoval (remove p_write e) = Unit
IsRemoval (remove p_default e) = Unit
IsRemoval (remove p_lock e) = ⊥
IsRemoval (insert p e v) = ⊥

Spares-IsRemoval : (version value : Bytes) (o : BatchOp) → Spares version value o → IsRemoval o
Spares-IsRemoval version value (remove p_write e) h = tt
Spares-IsRemoval version value (remove p_default e) h = tt
Spares-IsRemoval version value (remove p_lock e) h = h
Spares-IsRemoval version value (insert p e v) h = h

pub effects-lock :
    (b : List BatchOp) (k : Bytes) (old : Option Bytes)
    → All IsRemoval b
    → effects b p_lock k old ≡ old
effects-lock [] k old h = refl
effects-lock (remove p_write e ∷ b) k old h = effects-lock b k old h.1
effects-lock (remove p_default e ∷ b) k old h = effects-lock b k old h.1
effects-lock (remove p_lock e ∷ b) k old h = absurd h.0
effects-lock (insert p e v ∷ b) k old h = absurd h.0

-- What is left was there.
pub effects-write_left :
    (b : List BatchOp) (k x : Bytes) (old : Option Bytes)
    → All IsRemoval b
    → effects b p_write k old ≡ some x
    → old ≡ some x
effects-write_left [] k x old h e = e
effects-write_left (remove p_write j ∷ b) k x old h e = elim (Bool-cases (eq_bytes j k)) [
  | inl same ↦ absurd (none_some (effects-write_left b k x none h.1 (rw same at e)))
  | inr other ↦ effects-write_left b k x old h.1 (rw other at e)
]
  where
    none_some : Option.none ≡ some x → ⊥
    none_some p = cc
effects-write_left (remove p_default j ∷ b) k x old h e = effects-write_left b k x old h.1 e
effects-write_left (remove p_lock j ∷ b) k x old h e = absurd h.0
effects-write_left (insert p j v ∷ b) k x old h e = absurd h.0

pub removals-IsReadable :
    {db : Fjall} (rel : Reliable db) (s : db.Keyspace) (key : Bytes) (read_ts : ℕ)
    (b : List BatchOp)
    → All IsRemoval b
    → IsReadable rel s key read_ts
    → IsReadable rel (rel.after b s) key read_ts
removals-IsReadable rel s key read_ts b h (inl free) =
    inl (rel.lookup-after b s p_lock key ∙ effects-lock b key (stored rel s p_lock key) h ∙ free)
removals-IsReadable rel s key read_ts b h (inr (l, held, later)) = inr (
  l,
  (
    rel.lookup-after b s p_lock key ∙ effects-lock b key (stored rel s p_lock key) h ∙ held.0,
    held.1,
  ),
  later,
)

pub All-KeepsPlaces : (key : Bytes) (b : List BatchOp) → All IsRemoval b → All (KeepsPlaces key) b
All-KeepsPlaces key [] h = tt
All-KeepsPlaces key (remove p_write j ∷ b) h = (tt, All-KeepsPlaces key b h.1)
All-KeepsPlaces key (remove p_default j ∷ b) h = (tt, All-KeepsPlaces key b h.1)
All-KeepsPlaces key (remove p_lock j ∷ b) h = absurd h.0
All-KeepsPlaces key (insert p j v ∷ b) h = absurd h.0

module _ (version value : Bytes) where
  pub effects-version :
      (b : List BatchOp) (old : Option Bytes)
      → All (Spares version value) b
      → effects b p_write version old ≡ old
  effects-version [] old h = refl
  effects-version (remove p_write j ∷ b) old h = rw h.0 (effects-version b old h.1)
  effects-version (remove p_default j ∷ b) old h = effects-version b old h.1
  effects-version (remove p_lock j ∷ b) old h = absurd h.0
  effects-version (insert p j v ∷ b) old h = absurd h.0

  pub effects-value :
      (b : List BatchOp) (old : Option Bytes)
      → All (Spares version value) b
      → effects b p_default value old ≡ old
  effects-value [] old h = refl
  effects-value (remove p_write j ∷ b) old h = effects-value b old h.1
  effects-value (remove p_default j ∷ b) old h = rw h.0 (effects-value b old h.1)
  effects-value (remove p_lock j ∷ b) old h = absurd h.0
  effects-value (insert p j v ∷ b) old h = absurd h.0

  pub All-IsRemoval : (b : List BatchOp) → All (Spares version value) b → All IsRemoval b
  All-IsRemoval [] h = tt
  All-IsRemoval (o ∷ b) h = (Spares-IsRemoval version value o h.0, All-IsRemoval b h.1)

-- The loop stages removals only.
gc_remove-IsRemoval : (enc u : Bytes) (o : Option WriteRecord) → All IsRemoval (gc_remove enc u o)
unfolding gc_remove
gc_remove-IsRemoval enc u none = (tt, tt)
gc_remove-IsRemoval enc u (some rec) = (tt, (tt, tt))

module _ (safe : ℕ) where
  gc_version-IsRemoval :
      (enc v u : Bytes) (t : ℕ) (g : GcState)
      → All IsRemoval g.batch
      → All IsRemoval (gc_version safe enc v u t g).batch
  unfolding gc_version
  gc_version-IsRemoval enc v u t g old = elim (Bool-cases (ltb t safe)) [
    | inr young ↦ rw (gc_version, young) old
    | inl below ↦ elim (Bool-cases g.seen_below_safe_point) [
      | inr first ↦ rw (gc_version, below, first) old
      | inl seen ↦
          rw (gc_version, below, seen)
            (All-append IsRemoval g.batch (gc_remove enc u (from_bytes v)) old
              (gc_remove-IsRemoval enc u (from_bytes v)))
    ]
  ]

  batch-gc_enter : (u : Bytes) (g : GcState) → (gc_enter u g).batch ≡ g.batch
  unfolding gc_enter
  batch-gc_enter u g = ground arith

  gc_item-IsRemoval :
      (j v : Bytes) (g : GcState)
      → All IsRemoval g.batch
      → All IsRemoval (gc_item safe (j, v) g).batch
  unfolding gc_item
  gc_item-IsRemoval j v g old =
      elim (decode j)
        as (λ d.
          All IsRemoval
            (elim d as (λ x. GcState) [
              | err _ ↦ g
              | ok (u, t) ↦ gc_version safe j v u t (gc_enter u g)
            ]).batch) [
              | err _ ↦ old
              | ok (u, t) ↦
                  gc_version-IsRemoval j v u t (gc_enter u g) (rw (batch-gc_enter u g) old)
            ]

  pub gc_loop-IsRemoval :
      {F : Type 0} (es : List Entry) (g : GcState)
      → All IsRemoval g.batch
      → (g' : GcState) × (gc_loop {F = F} safe (map ok es) g ≡ ok g') × All IsRemoval g'.batch
  unfolding gc_loop
  gc_loop-IsRemoval [] g old = (g, refl, old)
  gc_loop-IsRemoval ((j, v) ∷ es) g old =
      gc_loop-IsRemoval es (gc_item safe (j, v) g) (gc_item-IsRemoval j v g old)
