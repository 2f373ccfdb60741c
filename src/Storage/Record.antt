-- ===== src/Storage/Record.antt =====
-- crates/storage/src/mvcc/mod.rs: the operation of a version, and the record of a commit.
pub mod Laws
use distributed_acid_kv_stor.Common.{
  ℕ, ◌<◌, ◌∷◌, [], List, Option, none, some, if◌then◌else◌, ltb, length, take, drop, ◌==◌,
  get_elem?,
}
use distributed_acid_kv_stor.Common.Bytes.{Bytes, be_bytes, from_be}

pub data OpType : Type 0 where
  put delete rollback : OpType

-- `op as u8`
unfoldable pub op_byte : OpType → ℕ
op_byte put = 0
op_byte delete = 1
op_byte rollback = 2

pub record WriteRecord : Type 0 where
  pub start_ts : ℕ
  pub op : OpType

unfoldable pub to_bytes : WriteRecord → Bytes
unfolding op_byte
to_bytes r = op_byte r.op ∷ be_bytes 8 r.start_ts

-- The match on `bytes[0]`.
unfoldable pub op_of_byte : ℕ → Option OpType
op_of_byte b =
    if b == 0
    then some put
    else if b == 1
    then some delete
    else if b == 2
    then some rollback
    else none

unfoldable pub from_bytes : Bytes → Option WriteRecord
unfolding op_of_byte
from_bytes [] = none
from_bytes (b ∷ bytes) = if ltb (length (b ∷ bytes)) 9 then none else elim (op_of_byte b) [
  | none ↦ none
  | some o ↦ some (record { start_ts = from_be 0 (take 8 bytes); op = o })
]
