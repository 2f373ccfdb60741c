-- ===== src/Storage/Key.antt =====
-- crates/storage/src/mvcc/key.rs: a user key and a timestamp in one ordered byte string.
pub mod Laws
use distributed_acid_kv_stor.Common.{
  ℕ, ◌+◌, ◌-◌, ◌^◌, ◌++◌, Result, ok, err, if◌then◌else◌, ltb, length, take, drop,
}
use distributed_acid_kv_stor.Common.Bytes.{Bytes, be_bytes, from_be}

pub data KeyError : Type 0 where
  too_short : KeyError

abbrev pub u64_max : ℕ
u64_max = 2 ^ 64 - 1

-- `!ts` on a `u64`.
abbrev pub invert : ℕ → ℕ
invert ts = u64_max - ts

unfoldable pub encode : Bytes → ℕ → Bytes
encode user_key ts = user_key ++ be_bytes 8 (invert ts)

unfoldable pub decode : Bytes → Result KeyError (Bytes × ℕ)
decode encoded =
    if ltb (length encoded) 8
    then err too_short
    else let split_idx = length encoded - 8 in
      ok (take split_idx encoded, invert (from_be 0 (drop split_idx encoded)))
