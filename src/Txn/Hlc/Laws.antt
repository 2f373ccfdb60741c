-- ===== src/Txn/Hlc/Laws.antt =====
-- The order of the timestamps that the clock of crates/txn-coordinator/src/hlc.rs issues.
use distributed_acid_kv_stor.Common.{ℕ, ◌+◌, ◌-◌, ◌%◌, ◌^◌, ◌≤◌, ◌<◌, ◌≡◌, arith}
use distributed_acid_kv_stor.Txn.Hlc.{Timestamp, HlcInner, encode, decode, now, update}

-- The timestamp that the state of the clock stands for: the last one issued.
abbrev pub stamp : HlcInner → ℕ
stamp inner = encode (record { physical = inner.latest_physical; logical = inner.logical })

-- A timestamp whose parts fit 48 and 16 bits is read back.
pub decode-encode :
    (t : Timestamp) → t.physical < 2 ^ 48 → t.logical < 2 ^ 16 → decode (encode t) ≡ t
unfolding decode encode
decode-encode t h k = ground arith

-- Each call issues a timestamp above all before it, and the state then stands for it, as long as
-- the physical part fits 48 bits and the counter has not reached the end of its 16 bits.
pub now_increases :
    (physical_now : ℕ) (inner : HlcInner)
    → physical_now < 2 ^ 48
    → inner.latest_physical < 2 ^ 48
    → inner.logical + 1 < 2 ^ 16
    → (stamp inner < (now physical_now inner).0)
      × ((now physical_now inner).0 ≡ stamp (now physical_now inner).1)
unfolding now
now_increases physical_now inner p l c = ground arith

-- At the end of the 16 bits, while the system clock has not passed the last physical part, the
-- call issues a timestamp below the one before.
pub now_goes_back :
    (physical_now : ℕ) (inner : HlcInner)
    → inner.latest_physical < 2 ^ 48
    → physical_now ≤ inner.latest_physical
    → inner.logical % 2 ^ 16 ≡ 2 ^ 16 - 1
    → (now physical_now inner).0 < stamp inner
unfolding now
now_goes_back physical_now inner l p c = ground arith

-- After a message with a 64-bit timestamp is received, the clock stands above that timestamp and
-- above all that it issued itself, where neither counter is at the end of its 16 bits (the logical
-- part of the clock and the low 16 bits of the timestamp are below 65535) and the system time and
-- the clock's physical part fit 48 bits.
pub update_increases :
    (physical_now remote_ts : ℕ) (inner : HlcInner)
    → physical_now < 2 ^ 48
    → remote_ts < 2 ^ 64
    → inner.latest_physical < 2 ^ 48
    → inner.logical + 1 < 2 ^ 16
    → remote_ts % 2 ^ 16 + 1 < 2 ^ 16
    → (remote_ts < stamp (update physical_now remote_ts inner))
      × (stamp inner < stamp (update physical_now remote_ts inner))
unfolding update encode
update_increases physical_now remote_ts inner p r l c d = ground arith

-- Timestamps fit 64 bits.
pub now_fits : (physical_now : ℕ) (inner : HlcInner) → (now physical_now inner).0 < 2 ^ 64
unfolding now
now_fits physical_now inner = omega arith
