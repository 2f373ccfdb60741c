-- ===== src/Storage/Engine/Spares.antt =====
-- What the batch of `gc_keys_older_than` in crates/storage/src/engine.rs leaves alone: the newest
-- version of a key below the safe point, and the value that it points to.
use distributed_acid_kv_stor.Common.{
  ℕ, ◌≤◌, ◌<◌, ◌≡◌, ◌≢◌, refl, sym, ap, ◌∙◌, inl, inr, lt_eq_gt, true, false, Bool-cases, Option,
  none, some, Option-cases, List, [], ◌∷◌, map, All, All-append, ltb, ok, arith, le→ltb, ==_ne,
}
use distributed_acid_kv_stor.Common.Bytes.{Bytes, Apart, Apart-ne, eq_bytes, eq_of_eq_bytes}
use distributed_acid_kv_stor.Storage.Key.{u64_max, encode}
use distributed_acid_kv_stor.Storage.Key.Laws.{
  decode-encode, eq_bytes-encode, eq_bytes-encode-Apart,
}
use distributed_acid_kv_stor.Storage.Record.{WriteRecord, from_bytes}
use distributed_acid_kv_stor.Storage.Fjall.{BatchOp, insert, remove, p_default, p_lock, p_write}
use distributed_acid_kv_stor.Storage.Fjall.Entries.{Entry, lookup, IsSorted, lookup_tail, lookup_at}
use distributed_acid_kv_stor.Storage.Versions.Places.{IsPlaced, newer_first, lookup_own}
use distributed_acid_kv_stor.Storage.Engine.{
  GcState, gc_start, gc_enter, gc_remove, gc_version, gc_item, gc_loop, is_last,
}

-- A removal of neither this version nor this value.
abbrev pub Spares : Bytes → Bytes → BatchOp → Type 0
Spares version value (remove p_write e) = eq_bytes e version ≡ false
Spares version value (remove p_default e) = eq_bytes e value ≡ false
Spares version value (remove p_lock e) = ⊥
Spares version value (insert p e v) = ⊥

module _ (key : Bytes) (safe c start : ℕ) (c_fits : c ≤ u64_max)
    (start_fits : start ≤ u64_max) where
  abbrev pub SparesKept : BatchOp → Type 0
  SparesKept = Spares (encode key c) (encode key start)

  -- The state of the loop before these entries: nothing of the kept version is staged, and once a
  -- version below the safe point was seen, the kept one is not among them.
  pub record Keeps (g : GcState) (es : List Entry) : Type 0 where
    pub spares : All SparesKept g.batch
    pub passed :
        is_last g.last_user_key key ≡ true
        → g.seen_below_safe_point ≡ true
        → lookup (encode key c) es ≡ none

  -- What an old version that is not the kept one must satisfy.
  abbrev pub StartsElsewhere : Bytes → Type 0
  StartsElsewhere v =
      (rec : WriteRecord)
      → from_bytes v ≡ some rec
      → (rec.start_ts ≤ u64_max) × (rec.start_ts ≢ start)

  removes_own :
      (t : ℕ) (o : Option WriteRecord)
      → t ≤ u64_max
      → t ≢ c
      → ((rec : WriteRecord) → o ≡ some rec → (rec.start_ts ≤ u64_max) × (rec.start_ts ≢ start))
      → All SparesKept (gc_remove (encode key t) key o)
  unfolding gc_remove
  removes_own t none fits ne elsewhere = (eq_bytes-encode key t c fits c_fits ∙ ==_ne t c ne, tt)
  removes_own t (some rec) fits ne elsewhere =
      let (rf, rne) = elsewhere rec refl in
      (
        eq_bytes-encode key t c fits c_fits ∙ ==_ne t c ne,
        (eq_bytes-encode key rec.start_ts start rf start_fits ∙ ==_ne rec.start_ts start rne, tt),
      )

  removes_foreign :
      (u : Bytes) (t : ℕ) (o : Option WriteRecord)
      → Apart u key
      → All SparesKept (gc_remove (encode u t) u o)
  unfolding gc_remove
  removes_foreign u t none a = (eq_bytes-encode-Apart u key t c a, tt)
  removes_foreign u t (some rec) a =
      (eq_bytes-encode-Apart u key t c a, (eq_bytes-encode-Apart u key rec.start_ts start a, tt))

  version_spares :
      (enc v u : Bytes) (t : ℕ) (g : GcState)
      → All SparesKept g.batch
      → (t < safe
          → g.seen_below_safe_point ≡ true
          → All SparesKept (gc_remove enc u (from_bytes v)))
      → All SparesKept (gc_version safe enc v u t g).batch
  unfolding gc_version
  version_spares enc v u t g old new = elim (Bool-cases (ltb t safe)) [
    | inr young ↦ rw (gc_version, young) old
    | inl below ↦ elim (Bool-cases g.seen_below_safe_point) [
      | inr first ↦ rw (gc_version, below, first) old
      | inl seen ↦
          rw (gc_version, below, seen)
            (All-append SparesKept g.batch (gc_remove enc u (from_bytes v)) old
              (new (ground arith) seen))
    ]
  ]

  last-gc_version :
      (enc v u : Bytes) (t : ℕ) (g : GcState)
      → (gc_version safe enc v u t g).last_user_key ≡ g.last_user_key
  unfolding gc_version
  last-gc_version enc v u t g = ground arith

  seen-gc_version :
      (enc v u : Bytes) (t : ℕ) (g : GcState)
      → safe ≤ t
      → (gc_version safe enc v u t g).seen_below_safe_point ≡ g.seen_below_safe_point
  unfolding gc_version
  seen-gc_version enc v u t g h = rw (gc_version, le→ltb t safe h)

  enter_spares : (u : Bytes) (g : GcState) → (gc_enter u g).batch ≡ g.batch
  unfolding gc_enter
  enter_spares u g = ground arith

  enter_passed :
      (g : GcState) (es : List Entry)
      → Keeps g es
      → (gc_enter key g).seen_below_safe_point ≡ true
      → lookup (encode key c) es ≡ none
  unfolding gc_enter
  enter_passed g es k h = elim (Bool-cases (is_last g.last_user_key key)) [
    | inl same ↦ k.passed same (rw same at h)
    | inr other ↦ absurd (cc (rw other at h))
  ]

  -- The loop that has entered another key has not entered this one.
  entered :
      (u : Bytes) (g : GcState) → Apart u key → is_last (gc_enter u g).last_user_key key ≡ true → ⊥
  unfolding gc_enter
  entered u g a h = elim (Bool-cases (is_last g.last_user_key u)) [
    | inl same ↦ still g.last_user_key same (rw same at h)
    | inr other ↦ absurd (Apart-ne u key a (eq_of_eq_bytes u key (rw other at h)))
  ]
    where
      still : (last : Option Bytes) → is_last last u ≡ true → is_last last key ≡ true → ⊥
      still none e h = cc
      still (some l) e h = Apart-ne u key a (sym (eq_of_eq_bytes l u e) ∙ eq_of_eq_bytes l key h)

  some-none : (x : Bytes) → Option.some x ≡ none → ⊥
  some-none x e = cc

  module _ (j v : Bytes) (es : List Entry) (sorted : IsSorted ((j, v) ∷ es)) (g : GcState)
      (k : Keeps g ((j, v) ∷ es)) where
    -- A version that is no newer than the kept one, and the kept one does not follow.
    absent : (t : ℕ) → t ≤ u64_max → j ≡ encode key t → t ≤ c → lookup (encode key c) es ≡ none
    absent t fits e le = elim (Option-cases (lookup (encode key c) es)) [
      | inl gone ↦ gone
      | inr (b, h) ↦ absurd (omega (arith, newer_first key t c j b es fits c_fits e sorted.0 h))
    ]

    own_step :
        (t : ℕ)
        → t ≤ u64_max
        → j ≡ encode key t
        → (c < t → safe ≤ t)
        → (t < safe → t ≢ c → StartsElsewhere v)
        → Keeps (gc_version safe j v key t (gc_enter key g)) es
    own_step t fits e nearest elsewhere = elim (lt_eq_gt c t) [
      | inl newer ↦ record {
        spares =
            version_spares j v key t (gc_enter key g) (rw (enter_spares key g) k.spares)
              (λ old seen. absurd (omega (arith, old, nearest newer)));
        passed = λ last seen.
            sym (lookup_own key t c j v es fits c_fits e (omega arith))
            ∙ enter_passed g ((j, v) ∷ es) k
                (sym (seen-gc_version j v key t (gc_enter key g) (nearest newer)) ∙ seen);
      }
      | inr (inl same) ↦ record {
        spares =
            version_spares j v key t (gc_enter key g) (rw (enter_spares key g) k.spares)
              (λ old seen. absurd (
                some-none v (
                  sym (lookup_at j (encode key c) v es (rw same e))
                  ∙ enter_passed g ((j, v) ∷ es) k seen)));
        passed = λ last seen. absent t fits e (omega arith);
      }
      | inr (inr older) ↦ record {
        spares =
            version_spares j v key t (gc_enter key g) (rw (enter_spares key g) k.spares)
              (λ old seen.
                rw e
                  (removes_own t (from_bytes v) fits (omega arith) (elsewhere old (omega arith))));
        passed = λ last seen. absent t fits e (omega arith);
      }
    ]

    foreign_step :
        (u : Bytes) (t : ℕ)
        → j ≡ encode u t
        → Apart u key
        → Keeps (gc_version safe j v u t (gc_enter u g)) es
    foreign_step u t e a = record {
      spares =
          version_spares j v u t (gc_enter u g) (rw (enter_spares u g) k.spares)
            (λ old seen. rw e (removes_foreign u t (from_bytes v) a));
      passed = λ last seen. absurd (
          entered u g a
            (sym (ap (λ x. is_last x key) (last-gc_version j v u t (gc_enter u g))) ∙ last));
    }

    item_step :
        IsPlaced key j
        → ((t : ℕ) → j ≡ encode key t → c < t → safe ≤ t)
        → ((t : ℕ) → j ≡ encode key t → t < safe → t ≢ c → StartsElsewhere v)
        → Keeps (gc_item safe (j, v) g) es
    unfolding gc_item
    item_step (inl (t, fits, e)) nearest elsewhere =
        rw (gc_item, e, decode-encode key t fits) (own_step t fits e (nearest t e) (elsewhere t e))
    item_step (inr (u, t, fits, e, a)) nearest elsewhere =
        rw (gc_item, e, decode-encode u t fits) (foreign_step u t e a)

  -- The loop over an ordered partition stages nothing of the kept version.
  pub gc_loop-Spares :
      {F : Type 0} (es : List Entry) (g : GcState)
      → IsSorted es
      → All (λ e. IsPlaced key e.0) es
      → ((t : ℕ) (b : Bytes) → lookup (encode key t) es ≡ some b → c < t → safe ≤ t)
      → ((t : ℕ) (b : Bytes)
          → lookup (encode key t) es ≡ some b
          → t < safe
          → t ≢ c
          → StartsElsewhere b)
      → Keeps g es
      → (g' : GcState) × (gc_loop {F = F} safe (map ok es) g ≡ ok g') × All SparesKept g'.batch
  unfolding gc_loop
  gc_loop-Spares [] g sorted placed nearest elsewhere k = (g, refl, k.spares)
  gc_loop-Spares ((j, v) ∷ es) g sorted placed nearest elsewhere k =
      gc_loop-Spares es (gc_item safe (j, v) g) sorted.1 placed.1
        (λ t b h. nearest t b (lookup_tail j v (encode key t) b es sorted h))
        (λ t b h. elsewhere t b (lookup_tail j v (encode key t) b es sorted h))
        (item_step j v es sorted g k placed.0
          (λ t e. nearest t v (lookup_at j (encode key t) v es e))
          (λ t e. elsewhere t v (lookup_at j (encode key t) v es e)))

  pub gc_start-Keeps : (es : List Entry) → Keeps gc_start es
  gc_start-Keeps es = record { spares = tt; passed = λ last seen. absurd (cc) }
