-- ===== src/Storage/Lock.antt =====
-- crates/storage/src/lock.rs: the lock that a prewrite leaves on a key, and its bytes.
pub mod Laws
use Prim.Native.String.{String}
use distributed_acid_kv_stor.Common.{
  ℕ, ◌+◌, ◌-◌, ◌%◌, ◌^◌, ◌∷◌, ◌++◌, [], Option, none, some, Result, ok, err, if◌then◌else◌, ltb,
  length, take, drop, ◌==◌,
}
use distributed_acid_kv_stor.Common.Bytes.{Bytes, be_bytes, from_be}
use distributed_acid_kv_stor.Storage.Record.{OpType, put, delete, op_byte}

pub data LockError : Type 0 where
  decode_error : String → LockError

pub record Lock : Type 0 where
  pub primary_key : Bytes
  pub start_ts : ℕ
  pub ttl : ℕ
  pub op : OpType

-- `self.primary_key.len() as u32` keeps the low 32 bits.
unfoldable pub to_bytes : Lock → Bytes
unfolding op_byte
to_bytes l =
    op_byte l.op
    ∷ (be_bytes 8 l.start_ts
        ++ (be_bytes 8 l.ttl ++ (be_bytes 4 (length l.primary_key % 2 ^ 32) ++ l.primary_key)))

-- The match on `bytes[0]`: a lock is never a rollback.
unfoldable pub lock_op_of_byte : ℕ → Option OpType
lock_op_of_byte b = if b == 0 then some put else if b == 1 then some delete else none

-- `&bytes[from..to]`
abbrev pub slice : ℕ → ℕ → Bytes → Bytes
slice from to bytes = take (to - from) (drop from bytes)

unfoldable pub from_bytes : Bytes → Result LockError Lock
unfolding lock_op_of_byte
from_bytes [] = err (decode_error "Payload too short")
from_bytes (b ∷ rest) =
    let bytes = b ∷ rest in
    if ltb (length bytes) 21
    then err (decode_error "Payload too short")
    else elim (lock_op_of_byte b) [
      | none ↦ err (decode_error "Invalid OpType byte")
      | some o ↦
          let primary_len = from_be 0 (slice 17 21 bytes) in
          if ltb (length bytes) (21 + primary_len)
          then err (decode_error "Truncated primary key bytes")
          else ok (record {
            primary_key = slice 21 (21 + primary_len) bytes;
            start_ts = from_be 0 (slice 1 9 bytes);
            ttl = from_be 0 (slice 9 17 bytes);
            op = o;
          })
    ]
