-- ===== src/Storage/Key/Laws.antt =====
-- The key format of crates/storage/src/mvcc/key.rs: its round trip and its order.
use distributed_acid_kv_stor.Common.{
  ℕ, ◌+◌, ◌-◌, ◌≤◌, ◌≡◌, ap, ◌∙◌, ok, le→ltb, length, length-append, take-length-append,
  drop-length-append, arith, compare, ◌==◌, false,
}
use distributed_acid_kv_stor.Common.Bytes.{
  Bytes, be_bytes, length-be_bytes, from_be-be_bytes, compare_bytes, compare-be_bytes,
  compare_cons_prefix, compare_append, Apart, Apart-ne, eq_of_compare_bytes, eq_bytes,
}
use distributed_acid_kv_stor.Storage.Key.{u64_max, invert, encode, decode}

pub length-encode : (k : Bytes) (ts : ℕ) → length (encode k ts) ≡ length k + 8
unfolding encode
length-encode k ts =
    omega (arith, length-append k (be_bytes 8 (invert ts)), length-be_bytes 8 (invert ts))

-- Decoding an encoded key returns the user key and the 64-bit timestamp.
pub decode-encode : (k : Bytes) (ts : ℕ) → ts ≤ u64_max → decode (encode k ts) ≡ ok (k, ts)
unfolding decode
decode-encode k ts h = rw (le→ltb (length (encode k ts)) 8 (omega (arith, length-encode k ts))) (
    rw split (
      unfold encode in
      rw (take-length-append, drop-length-append, from_be-be_bytes 8 (invert ts) (omega arith))
        (ap (λ t. ok (k, t)) (omega arith))))
  where
    split : length (encode k ts) - 8 ≡ length k
    split = omega (arith, length-encode k ts)

-- Two versions of one key are ordered by timestamp, the newer first.
pub compare-encode :
    (k : Bytes) (s t : ℕ)
    → s ≤ u64_max
    → t ≤ u64_max
    → compare_bytes (encode k s) (encode k t) ≡ compare t s
unfolding encode
compare-encode k s t h g =
    compare_cons_prefix k (be_bytes 8 (invert s)) (be_bytes 8 (invert t))
    ∙ compare-be_bytes 8 (invert s) (invert t) (omega arith) (omega arith)
    ∙ ground arith

-- Versions of two keys, neither a prefix of the other, are ordered as the keys.
pub compare-encode-Apart :
    (k j : Bytes) (s t : ℕ)
    → Apart k j
    → compare_bytes (encode k s) (encode j t) ≡ compare_bytes k j
unfolding encode
compare-encode-Apart k j s t h =
    compare_append k j (be_bytes 8 (invert s)) (be_bytes 8 (invert t)) h

-- Two versions of one key with 64-bit timestamps stand with the newer first. Versions of two keys,
-- neither a prefix of the other, stand in the order of the keys, whatever their timestamps.
pub encode_order :
    (k j : Bytes) (s t : ℕ)
    → s ≤ u64_max
    → t ≤ u64_max
    → (compare_bytes (encode k s) (encode k t) ≡ compare t s)
      × (Apart k j → compare_bytes (encode k s) (encode j t) ≡ compare_bytes k j)
encode_order k j s t h g = (compare-encode k s t h g, compare-encode-Apart k j s t)

pub eq_bytes-encode :
    (k : Bytes) (s t : ℕ)
    → s ≤ u64_max
    → t ≤ u64_max
    → eq_bytes (encode k s) (encode k t) ≡ (s == t)
eq_bytes-encode k s t h g = ground (arith, compare-encode k s t h g)

pub eq_bytes-encode-Apart :
    (k j : Bytes) (s t : ℕ) → Apart k j → eq_bytes (encode k s) (encode j t) ≡ false
eq_bytes-encode-Apart k j s t a =
    ground (arith, compare-encode-Apart k j s t a, eq_of_compare_bytes k j, Apart-ne k j a)
