-- ===== src/Txn/Hlc.antt =====
-- crates/txn-coordinator/src/hlc.rs: the hybrid logical clock. A reading of the system clock, in
-- milliseconds, is an argument; the mutex makes each call one step on `HlcInner`.
pub mod Laws
mod Tests
use distributed_acid_kv_stor.Common.{
  ℕ, ◌+◌, ◌*◌, ◌/◌, ◌%◌, ◌^◌, max, ◌&&◌, ◌==◌, ltb, if◌then◌else◌,
}

pub record Timestamp : Type 0 where
  pub physical : ℕ
  pub logical : ℕ

-- `(self.physical << 16) | (self.logical as u64 & 0xFFFF)`: the shift drops what passes 64 bits,
-- and the two parts share no bit.
unfoldable pub encode : Timestamp → ℕ
encode t = t.physical * 2 ^ 16 % 2 ^ 64 + t.logical % 2 ^ 16

unfoldable pub decode : ℕ → Timestamp
decode ts = record { physical = ts / 2 ^ 16; logical = ts % 2 ^ 16 }

pub record HlcInner : Type 0 where
  pub latest_physical : ℕ
  pub logical : ℕ

-- `HybridLogicalClock::new`
unfoldable pub new : ℕ → HlcInner
new now_ms = record { latest_physical = now_ms; logical = 0 }

-- `logical += 1` on a `u32`, in a release build.
abbrev pub tick : ℕ → ℕ
tick logical = (logical + 1) % 2 ^ 32

unfoldable pub advance : ℕ → HlcInner → HlcInner
advance physical_now inner =
    if ltb inner.latest_physical physical_now
    then record { latest_physical = physical_now; logical = 0 }
    else record inner { logical = tick inner.logical }

unfoldable pub now : ℕ → HlcInner → ℕ × HlcInner
unfolding advance encode
now physical_now inner =
    let inner' = advance physical_now inner in
    (encode (record { physical = inner'.latest_physical; logical = inner'.logical }), inner')

unfoldable pub update : ℕ → ℕ → HlcInner → HlcInner
unfolding decode
update physical_now remote_ts inner =
    let remote = decode remote_ts in
    let max_physical = max (max physical_now inner.latest_physical) remote.physical in
    record {
      latest_physical = max_physical;
      logical =
          if max_physical == inner.latest_physical && max_physical == remote.physical
          then tick (max inner.logical remote.logical)
          else if max_physical == inner.latest_physical
          then tick inner.logical
          else if max_physical == remote.physical
          then tick remote.logical
          else 0;
    }
