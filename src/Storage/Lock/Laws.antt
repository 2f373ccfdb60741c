-- ===== src/Storage/Lock/Laws.antt =====
-- The round trip of the locks of crates/storage/src/lock.rs.
use distributed_acid_kv_stor.Common.{
  ℕ, ◌+◌, ◌-◌, ◌%◌, ◌^◌, ◌≤◌, ◌<◌, ◌++◌, ◌∷◌, [], ◌≡◌, ◌≢◌, refl, ok, some, arith, le→ltb, length,
  take, drop, take_exact, drop_exact, drop_past, take-length-append, append-nil, length-append, ◌∙◌,
}
use distributed_acid_kv_stor.Common.Bytes.{
  Bytes, be_bytes, from_be, length-be_bytes, from_be-be_bytes,
}
use distributed_acid_kv_stor.Storage.Key.{u64_max}
use distributed_acid_kv_stor.Storage.Record.{OpType, put, delete, rollback, op_byte}
use distributed_acid_kv_stor.Storage.Lock.{Lock, to_bytes, from_bytes, lock_op_of_byte, slice}

-- The fields of a lock fit their bytes, and its operation is one that a lock can hold.
pub record IsStorable (l : Lock) : Type 0 where
  pub start_fits : l.start_ts ≤ u64_max
  pub ttl_fits : l.ttl ≤ u64_max
  pub primary_fits : length l.primary_key < 2 ^ 32
  pub op_allowed : l.op ≢ rollback

lock_op_of_byte-op_byte : (o : OpType) → o ≢ rollback → lock_op_of_byte (op_byte o) ≡ some o
unfolding lock_op_of_byte op_byte
lock_op_of_byte-op_byte put h = refl
lock_op_of_byte-op_byte delete h = refl
lock_op_of_byte-op_byte rollback h = absurd (h refl)

-- The four cuts of `from_bytes`, over any parts of the right lengths.
module _ (o : ℕ) (s t n p : Bytes) (hs : length s ≡ 8) (ht : length t ≡ 8) (hn : length n ≡ 4) where
  slice_start : slice 1 9 (o ∷ (s ++ (t ++ (n ++ p)))) ≡ s
  slice_start = take_exact 8 s (t ++ (n ++ p)) hs

  slice_ttl : slice 9 17 (o ∷ (s ++ (t ++ (n ++ p)))) ≡ t
  slice_ttl = rw (drop_exact 8 s (t ++ (n ++ p)) hs) (take_exact 8 t (n ++ p) ht)

  slice_len : slice 17 21 (o ∷ (s ++ (t ++ (n ++ p)))) ≡ n
  slice_len =
      rw (drop_past 8 8 s (t ++ (n ++ p)) hs, drop_exact 8 t (n ++ p) ht) (take_exact 4 n p hn)

  drop_primary : drop 21 (o ∷ (s ++ (t ++ (n ++ p)))) ≡ p
  drop_primary =
      drop_past 8 12 s (t ++ (n ++ p)) hs ∙ drop_past 8 4 t (n ++ p) ht ∙ drop_exact 4 n p hn

  length_parts : length (o ∷ (s ++ (t ++ (n ++ p)))) ≡ 21 + length p
  length_parts =
      omega (arith, length-append s (t ++ (n ++ p)), length-append t (n ++ p), length-append n p)

  take_primary : take (21 + length p - 21) p ≡ p
  take_primary =
      let e : 21 + length p - 21 ≡ length p = omega arith in
      rw e (rw append-nil at (take-length-append p []))

  from_bytes_parts :
      (w : OpType)
      → lock_op_of_byte o ≡ some w
      → from_be 0 n ≡ length p
      → from_bytes (o ∷ (s ++ (t ++ (n ++ p))))
        ≡ ok (record { primary_key = p; start_ts = from_be 0 s; ttl = from_be 0 t; op = w })
  unfolding from_bytes
  from_bytes_parts w hw e = rw (
    le→ltb (length (o ∷ (s ++ (t ++ (n ++ p))))) 21 (omega (arith, length_parts)),
    hw,
    slice_len,
    e,
    le→ltb (length (o ∷ (s ++ (t ++ (n ++ p))))) (21 + length p) (omega (arith, length_parts)),
    slice_start,
    slice_ttl,
    drop_primary,
    take_primary,
  )

-- A storable lock is read back from its bytes.
pub from_bytes-to_bytes : (l : Lock) → IsStorable l → from_bytes (to_bytes l) ≡ ok l
unfolding to_bytes
from_bytes-to_bytes l h =
    let p = l.primary_key in
    let n = be_bytes 4 (length p % 2 ^ 32) in
    let fits : length p % 2 ^ 32 ≡ length p = omega (arith, h.primary_fits) in
    rw
      (
        from_be-be_bytes 8 l.start_ts (omega (arith, h.start_fits)),
        from_be-be_bytes 8 l.ttl (omega (arith, h.ttl_fits)),
      )
      at
      (from_bytes_parts (op_byte l.op) (be_bytes 8 l.start_ts) (be_bytes 8 l.ttl) n p
        (length-be_bytes 8 l.start_ts) (length-be_bytes 8 l.ttl)
        (length-be_bytes 4 (length p % 2 ^ 32)) l.op (lock_op_of_byte-op_byte l.op h.op_allowed)
        (from_be-be_bytes 4 (length p % 2 ^ 32) (omega arith) ∙ fits))
