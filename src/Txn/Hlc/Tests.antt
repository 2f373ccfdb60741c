-- ===== src/Txn/Hlc/Tests.antt =====
-- Runs of the clock at concrete states.
use distributed_acid_kv_stor.Common.{ℕ, ◌<◌, ◌≡◌, refl, arith}
use distributed_acid_kv_stor.Txn.Hlc.{HlcInner, now, update}
use distributed_acid_kv_stor.Txn.Hlc.Laws.{stamp, now_increases, now_goes_back, update_increases}

abbrev at_100 : ℕ → HlcInner
at_100 logical = record { latest_physical = 100; logical = logical }

now_increases_example :
    (stamp (at_100 3) < (now 90 (at_100 3)).0)
    × ((now 90 (at_100 3)).0 ≡ stamp (now 90 (at_100 3)).1)
now_increases_example = now_increases 90 (at_100 3) (omega arith) (omega arith) (omega arith)

now_goes_back_example : (now 90 (at_100 65535)).0 < stamp (at_100 65535)
now_goes_back_example = now_goes_back 90 (at_100 65535) (omega arith) (omega arith) refl

update_increases_example :
    (7000000 < stamp (update 90 7000000 (at_100 3)))
    × (stamp (at_100 3) < stamp (update 90 7000000 (at_100 3)))
update_increases_example =
    update_increases 90 7000000 (at_100 3) (omega arith) (omega arith) (omega arith) (omega arith)
      (omega arith)
