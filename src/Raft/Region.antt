-- ===== src/Raft/Region.antt =====
-- crates/raft-engine/src/region: the regions with their leader and size (mod.rs), their lookup by
-- key (router.rs) and the decision and computation of a split (splitter.rs).
pub mod Halves
use distributed_acid_kv_stor.Common.{
  ℕ, ◌*◌, ◌/◌, Bool, ◌&&◌, ◌||◌, Option, none, some, List, [], ◌∷◌, if◌then◌else◌, leb,
}
use distributed_acid_kv_stor.Common.Bytes.{Bytes, lt_bytes, ge_bytes, is_empty}
use distributed_acid_kv_stor.Common.BTreeMap as BTreeMap
use distributed_acid_kv_stor.Common.BTreeMap.{bytes_order}

pub record Region : Type 0 where
  pub id : ℕ
  pub start_key : Bytes
  pub end_key : Bytes
  pub leader_addr : Bytes
  pub size_bytes : ℕ

unfoldable pub contains_key : Region → Bytes → Bool
contains_key r key =
    (is_empty r.start_key || ge_bytes key r.start_key)
    && (is_empty r.end_key || lt_bytes key r.end_key)

-- End key to region.
abbrev pub RegionRouter : Type 0
RegionRouter = BTreeMap.BTreeMap Bytes Region

abbrev pub new : RegionRouter
new = []

unfoldable pub insert_region : Region → RegionRouter → RegionRouter
insert_region region regions = BTreeMap.insert region.end_key region regions

-- The loop of `route` over the regions.
unfoldable pub route_loop : Bytes → List Region → Option Region
route_loop key [] = none
route_loop key (r ∷ rs) = if contains_key r key then some r else route_loop key rs

unfoldable pub route : Bytes → RegionRouter → Option Region
route key regions = route_loop key (BTreeMap.values regions)

abbrev pub default_split_size_bytes : ℕ
default_split_size_bytes = 64 * 1024 * 1024

pub record RegionSplitter : Type 0 where
  pub split_threshold_bytes : ℕ

-- `RegionSplitter::default()`
abbrev pub default_splitter : RegionSplitter
default_splitter = record { split_threshold_bytes = default_split_size_bytes }

-- `RegionSplitter::new`
abbrev pub new_splitter : ℕ → RegionSplitter
new_splitter threshold_bytes = record { split_threshold_bytes = threshold_bytes }

unfoldable pub should_split : RegionSplitter → Region → Bool
should_split splitter region = leb splitter.split_threshold_bytes region.size_bytes

unfoldable pub split_region : Region → Bytes → ℕ → Region × Region
split_region region split_key new_region_id = (
  record region { end_key = split_key; size_bytes = region.size_bytes / 2 },
  record region { id = new_region_id; start_key = split_key; size_bytes = region.size_bytes / 2 },
)
