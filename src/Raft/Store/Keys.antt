-- ===== src/Raft/Store/Keys.antt =====
-- The keys of crates/raft-engine/src/store.rs in byte order: those of the entries of a region lie
-- together, in the order of their indexes.
use native.Mathlib.Nat.{pow-suc}
use distributed_acid_kv_stor.Common.{
  ℕ, zero, suc, ◌+◌, ◌/◌, ◌%◌, ◌^◌, ◌<◌, ◌≡◌, ◌∙◌, refl, true, false, [], ◌∷◌, ◌++◌, length,
  compare, length-append, arith,
}
use distributed_acid_kv_stor.Common.Bytes.{
  Bytes, compare_bytes, compare-snoc, compare_cons_prefix, ge_bytes, ◌≺◌,
}
use distributed_acid_kv_stor.Raft.Store.{padded, starts_with, entry_prefix, entry_key}

length-padded : (n x : ℕ) → length (padded n x) ≡ n
length-padded zero x = refl
length-padded (suc n) x =
    omega (arith, length-append (padded n (x / 10)) ((48 + x % 10) ∷ []), length-padded n (x / 10))

compare-padded :
    (n x y : ℕ) → x < 10 ^ n → y < 10 ^ n → compare_bytes (padded n x) (padded n y) ≡ compare x y
compare-padded zero x y h k = ground arith
compare-padded (suc n) x y h k = ground (
  arith,
  compare-snoc (padded n (x / 10)) (padded n (y / 10)) (48 + x % 10) (48 + y % 10),
  length-padded n (x / 10),
  length-padded n (y / 10),
  compare-padded n (x / 10) (y / 10) (omega (arith, pow-suc 10 n)) (omega (arith, pow-suc 10 n)),
)

-- Entries are ordered by their index.
pub compare-entry_key :
    (region_id i j : ℕ)
    → i < 10 ^ 20
    → j < 10 ^ 20
    → compare_bytes (entry_key region_id i) (entry_key region_id j) ≡ compare i j
unfolding entry_key
compare-entry_key region_id i j h k =
    compare_cons_prefix (entry_prefix region_id) (padded 20 i) (padded 20 j)
    ∙ compare-padded 20 i j h k

starts_with_append : (p s : Bytes) → starts_with (p ++ s) p ≡ true
starts_with_append [] s = refl
starts_with_append (x ∷ p) s = ground (arith, starts_with_append p s)

pub starts_with-entry_key :
    (region_id i : ℕ) → starts_with (entry_key region_id i) (entry_prefix region_id) ≡ true
unfolding entry_key
starts_with-entry_key region_id i = starts_with_append (entry_prefix region_id) (padded 20 i)

-- The keys with a prefix are not below it.
pub starts_with-ge_bytes : (k p : Bytes) → starts_with k p ≡ true → ge_bytes k p ≡ true
starts_with-ge_bytes [] [] h = refl
starts_with-ge_bytes (x ∷ k) [] h = refl
starts_with-ge_bytes [] (y ∷ p) h = ground arith
starts_with-ge_bytes (x ∷ k) (y ∷ p) h = ground (arith, starts_with-ge_bytes k p)

-- Above a key without the prefix that is not below it there are none.
pub starts_with_above :
    (k j p : Bytes)
    → ge_bytes k p ≡ true
    → starts_with k p ≡ false
    → k ≺ j
    → starts_with j p ≡ false
starts_with_above k j [] g h l = absurd (ground arith)
starts_with_above [] j (y ∷ p) g h l = ground arith
starts_with_above (x ∷ k) [] (y ∷ p) g h l = refl
starts_with_above (x ∷ k) (z ∷ j) (y ∷ p) g h l = ground (arith, starts_with_above k j p)
