-- ===== src/Storage/Record/Laws.antt =====
-- The round trip of the write records of crates/storage/src/mvcc/mod.rs.
use distributed_acid_kv_stor.Common.{
  ℕ, ◌≤◌, [], ◌≡◌, refl, some, arith, le→ltb, length, suc, take, take_exact, append-nil,
}
use distributed_acid_kv_stor.Common.Bytes.{be_bytes, length-be_bytes, from_be-be_bytes}
use distributed_acid_kv_stor.Storage.Key.{u64_max}
use distributed_acid_kv_stor.Storage.Record.{
  OpType, put, delete, rollback, op_byte, op_of_byte, WriteRecord, to_bytes, from_bytes,
}

pub op_of_byte-op_byte : (o : OpType) → op_of_byte (op_byte o) ≡ some o
unfolding op_of_byte op_byte
op_of_byte-op_byte put = refl
op_of_byte-op_byte delete = refl
op_of_byte-op_byte rollback = refl

take-be_bytes : (n x : ℕ) → take n (be_bytes n x) ≡ be_bytes n x
take-be_bytes n x = rw append-nil at (take_exact n (be_bytes n x) [] (length-be_bytes n x))

-- A record with a 64-bit timestamp is read back from its bytes.
pub from_bytes-to_bytes :
    (r : WriteRecord) → r.start_ts ≤ u64_max → from_bytes (to_bytes r) ≡ some r
unfolding to_bytes from_bytes
from_bytes-to_bytes r h =
    let t = be_bytes 8 r.start_ts in
    let long : 9 ≤ suc (length t) = omega (arith, length-be_bytes 8 r.start_ts) in
    rw (
      le→ltb (suc (length t)) 9 long,
      from_bytes,
      op_of_byte-op_byte r.op,
      take-be_bytes 8 r.start_ts,
      from_be-be_bytes 8 r.start_ts (omega arith),
    )
