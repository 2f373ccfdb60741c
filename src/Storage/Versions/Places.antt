-- ===== src/Storage/Versions/Places.antt =====
-- Where the versions of a key stand in an ordered write partition of crates/storage.
use distributed_acid_kv_stor.Common.{
  ℕ, ◌≤◌, ◌<◌, ◌≡◌, ◌≢◌, sym, ◌∙◌, ◌⊎◌, some, List, ◌∷◌, All, arith,
}
use distributed_acid_kv_stor.Common.Bytes.{Bytes, Apart, Apart-ne, ◌≺◌, eq_of_compare_bytes}
use distributed_acid_kv_stor.Storage.Key.{u64_max, encode}
use distributed_acid_kv_stor.Storage.Key.Laws.{compare-encode, compare-encode-Apart}
use distributed_acid_kv_stor.Storage.Fjall.Entries.{Entry, lookup, lt_of_lookup}

-- An encoded key is a version of `key`, or of a user key such that neither is a prefix of the
-- other. Only then do the versions of `key` stand together in the order of the bytes.
abbrev pub IsPlaced : Bytes → Bytes → Type 0
IsPlaced key e =
    ((t : ℕ) × (t ≤ u64_max) × (e ≡ encode key t))
    ⊎ ((u : Bytes) × (t : ℕ) × (t ≤ u64_max) × (e ≡ encode u t) × Apart u key)

module _ (key : Bytes) where
  -- Whether the first key is the version `c` shows in the order of the timestamps.
  pub lookup_own :
      (t c : ℕ) (j v : Bytes) (es : List Entry)
      → t ≤ u64_max
      → c ≤ u64_max
      → j ≡ encode key t
      → t ≢ c
      → lookup (encode key c) ((j, v) ∷ es) ≡ lookup (encode key c) es
  lookup_own t c j v es tf cf e n = rw e (ground (arith, compare-encode key t c tf cf))

  pub lookup_foreign :
      (u : Bytes) (t c : ℕ) (j v : Bytes) (es : List Entry)
      → j ≡ encode u t
      → Apart u key
      → lookup (encode key c) ((j, v) ∷ es) ≡ lookup (encode key c) es
  lookup_foreign u t c j v es e a = rw e (
      ground (arith, compare-encode-Apart u key t c a, eq_of_compare_bytes u key, Apart-ne u key a))

  -- The later keys of an ordered list lie above the first.
  pub newer_first :
      (t c : ℕ) (j b : Bytes) (es : List Entry)
      → t ≤ u64_max
      → c ≤ u64_max
      → j ≡ encode key t
      → All (λ x. j ≺ x.0) es
      → lookup (encode key c) es ≡ some b
      → c < t
  newer_first t c j b es tf cf e a h =
      let below : encode key t ≺ encode key c = rw e at (lt_of_lookup j (encode key c) b es a h) in
      ground (arith, compare-encode key t c tf cf)

  pub foreign_before :
      (u : Bytes) (t c : ℕ) (j b : Bytes) (es : List Entry)
      → j ≡ encode u t
      → Apart u key
      → All (λ x. j ≺ x.0) es
      → lookup (encode key c) es ≡ some b
      → u ≺ key
  foreign_before u t c j b es e a above h =
      sym (compare-encode-Apart u key t c a)
      ∙ (rw e at (lt_of_lookup j (encode key c) b es above h))
