-- ===== src/Txn/Coordinator/Scan/Tests.antt =====
-- Runs of scans over an engine in memory.
use distributed_acid_kv_stor.Common.{◌≡◌, ◌≢◌, refl, some, List, [], ◌∷◌, ◌++◌, All, ok, arith}
use distributed_acid_kv_stor.Common.Bytes.{Bytes, be_bytes}
use distributed_acid_kv_stor.Storage.Key.{encode, decode}
use distributed_acid_kv_stor.Storage.Record.{put}
use distributed_acid_kv_stor.Storage.Record as Record
use distributed_acid_kv_stor.Storage.Reader as Reader
use distributed_acid_kv_stor.Storage.Versions.{for_versions}
use distributed_acid_kv_stor.Storage.Fjall.{BatchOp, insert, p_default, p_write}
use distributed_acid_kv_stor.Storage.Fjall.Memory.{
  memory, memory_reliable, memory_entries, run, apply,
}
use distributed_acid_kv_stor.Storage.Example.{
  apple, pear, seven, record_of, committed_put, after_changes,
}
use distributed_acid_kv_stor.Txn.Example.{clock, world, committed_put-get}
use distributed_acid_kv_stor.Txn.Coordinator.{
  get, after_read, scan, scan_loop, keep_result, limit_reached,
}
use distributed_acid_kv_stor.Txn.Coordinator.Scan.{IsRead, IsBounded, scan_sound}
use distributed_acid_kv_stor.Txn.Coordinator.Scan.Skips.{scan_skips}

get_apple : get memory clock apple 10 (world committed_put) ≡ (ok (some seven), world committed_put)
unfolding get after_read
get_apple = rw committed_put-get refl

scanned : (scan memory clock apple pear 1 10 (world committed_put)).0 ≡ ok ((apple, seven) ∷ [])
unfolding scan scan_loop keep_result limit_reached memory memory_entries after_changes run apply
    encode decode be_bytes
scanned = rw get_apple refl

scan_sound_example :
    All (IsRead memory clock apple pear 1 10 (world committed_put)) ((apple, seven) ∷ [])
    × IsBounded memory clock apple pear 1 10 ((apple, seven) ∷ [])
scan_sound_example =
    scan_sound memory clock apple pear 1 10 (world committed_put) ((apple, seven) ∷ []) scanned

-- A committed put of `ab`, an extension of `a`, and one of `pear`.
abbrev ab : Bytes
ab = apple ++ 98 ∷ []

abbrev committed_two : List BatchOp
committed_two =
    insert p_default (encode ab 5) seven
    ∷ insert p_write (encode ab 9) (Record.to_bytes (record_of put))
    ∷ insert p_default (encode pear 5) seven
    ∷ insert p_write (encode pear 9) (Record.to_bytes (record_of put))
    ∷ []

scanned_one : (scan memory clock apple [] 0 20 (world committed_two)).0 ≡ ok ((pear, seven) ∷ [])
unfolding scan scan_loop keep_result limit_reached get after_read Reader.get Reader.check_lock
    Reader.read_version Reader.read_record Reader.found_value for_versions Record.from_bytes
    Record.to_bytes Record.op_byte Record.op_of_byte memory memory_entries after_changes run apply
    encode decode be_bytes
scanned_one = refl

scan_skips_example : All (λ (found : Bytes × Bytes). found.0 ≢ ab) ((pear, seven) ∷ [])
scan_skips_example =
    scan_skips memory_reliable clock 97 [] [] 0 20 (world committed_two) ((pear, seven) ∷ []) 98 []
      (omega arith) scanned_one
