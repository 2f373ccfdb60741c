-- ===== src/Client/Cli.antt =====
-- crates/client/src/bin/kv-cli.rs: the commands of the command line client, from a parsed command
-- line and a client that is connected to what is printed.
pub mod Clocks
use distributed_acid_kv_stor.Common.{
  ℕ, ◌+◌, ◌*◌, ◌%◌, ◌^◌, Option, none, some, List, [], ◌∷◌, pure, ◌>>=◌, ◌>>◌,
}
use distributed_acid_kv_stor.Common.Bytes.{Bytes}
use distributed_acid_kv_stor.Client.{
  Stubs, KvClient, Call, get as client_get, scan as client_scan, txn_prewrite, txn_commit,
}

pub data Commands : Type 0 where
  get : Bytes → Commands
  put : Bytes → Bytes → Commands
  scan : Bytes → Bytes → ℕ → Commands

-- What is printed, in place of the text: the bytes of a value, `(nil)`, `OK` or the pairs of a scan.
pub data Output : Type 0 where
  printed : Bytes → Output
  nil : Output
  done : Output
  pairs : List (Bytes × Bytes) → Output

unfoldable pub print_value : Option Bytes → Output
print_value (some val) = printed val
print_value none = nil

-- `physical_now << 16` on a `u64`, and the timestamp of the commit.
unfoldable pub start_of : ℕ → ℕ
start_of physical_now = physical_now * 2 ^ 16 % 2 ^ 64

unfoldable pub commit_of : ℕ → ℕ
commit_of start_ts = (start_ts + 1) % 2 ^ 64

module _ (rpc : Stubs) where
  -- `main`, at a reading of the system clock in milliseconds.
  unfoldable pub run : KvClient rpc → ℕ → Commands → Call rpc Output
  run client physical_now (get key) = do val ← client_get rpc client key; pure (print_value val)
  run client physical_now (put key value) =
      let start_ts = start_of physical_now in
      (do
        txn_prewrite rpc client start_ts ((key, some value) ∷ []) key 3000
        txn_commit rpc client start_ts (commit_of start_ts) (key ∷ [])
        pure done)
  run client physical_now (scan start_key end_key limit) = do
    results ← client_scan rpc client start_key end_key limit
    pure (pairs results)
