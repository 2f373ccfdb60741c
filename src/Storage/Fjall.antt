-- ===== src/Storage/Fjall.antt =====
-- The interface of the `fjall` crate as crates/storage uses it: a keyspace of three partitions,
-- point reads, ordered iteration and atomic batches. The crate is not part of the repository, so
-- the keyspace, its errors and its operations are fields, and `Reliable` states what its
-- documentation promises of a keyspace whose I/O succeeds.
pub mod Entries
pub mod Memory
use distributed_acid_kv_stor.Common.{
  ◌≡◌, Bool, true, false, ◌&&◌, Option, none, some, List, [], ◌∷◌, map, Result, ok, Exec,
  if◌then◌else◌,
}
use distributed_acid_kv_stor.Common.Bytes.{Bytes, eq_bytes}
use distributed_acid_kv_stor.Storage.Fjall.Entries.{Entry, lookup, from, IsSorted}

-- PARTITION_DEFAULT, PARTITION_LOCK and PARTITION_WRITE.
pub data Partition : Type 0 where
  p_default p_lock p_write : Partition

abbrev pub same_partition : Partition → Partition → Bool
same_partition p_default p_default = true
same_partition p_lock p_lock = true
same_partition p_write p_write = true
same_partition _ _ = false

-- The calls that stage a change on a `Batch`.
pub data BatchOp : Type 0 where
  insert : Partition → Bytes → Bytes → BatchOp
  remove : Partition → Bytes → BatchOp

pub record Fjall : Type 1 where
  pub Keyspace : Type 0
  pub Error : Type 0
  pub get : Keyspace → Partition → Bytes → Result Error (Option Bytes)
  pub range : Keyspace → Partition → Bytes → List (Result Error Entry)
  pub iter : Keyspace → Partition → List (Result Error Entry)
  pub commit : List BatchOp → Exec Keyspace Error (Unit {0})

-- What a staged change makes of the value at a key.
abbrev pub effect : BatchOp → Partition → Bytes → Option Bytes → Option Bytes
effect (insert q j v) p k old = if same_partition q p && eq_bytes j k then some v else old
effect (remove q j) p k old = if same_partition q p && eq_bytes j k then none else old

abbrev pub effects : List BatchOp → Partition → Bytes → Option Bytes → Option Bytes
effects [] p k old = old
effects (o ∷ os) p k old = effects os p k (effect o p k old)

-- No call fails, iteration is in key order from the seek key on, and a committed batch takes
-- effect as a whole, in the order in which its changes were staged.
pub record Reliable (db : Fjall) : Type 0 where
  pub entries : db.Keyspace → Partition → List Entry
  pub after : List BatchOp → db.Keyspace → db.Keyspace
  pub entries_sorted : (s : db.Keyspace) (p : Partition) → IsSorted (entries s p)
  pub get_lem :
      (s : db.Keyspace) (p : Partition) (k : Bytes) → db.get s p k ≡ ok (lookup k (entries s p))
  pub range_lem :
      (s : db.Keyspace) (p : Partition) (k : Bytes) → db.range s p k ≡ map ok (from k (entries s p))
  pub iter_lem : (s : db.Keyspace) (p : Partition) → db.iter s p ≡ map ok (entries s p)
  pub commit_lem : (b : List BatchOp) (s : db.Keyspace) → db.commit b s ≡ (ok tt, after b s)
  pub lookup-after :
      (b : List BatchOp) (s : db.Keyspace) (p : Partition) (k : Bytes)
      → lookup k (entries (after b s) p) ≡ effects b p k (lookup k (entries s p))
