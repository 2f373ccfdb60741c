-- ===== src/Raft/Router.antt =====
-- crates/raft-engine/src/router.rs: which region holds a key, and the split of a region. The two
-- maps stand behind locks that each method holds from start to end, so a method is one step.
pub mod Cover
pub mod Places
pub mod Halves
pub mod Indexed
pub mod Split
use distributed_acid_kv_stor.Common.{
  ℕ, ◌+◌, ◌%◌, ◌^◌, Bool, not, ◌&&◌, ◌||◌, Option, none, some, List, [], ◌∷◌, Result, ok, err,
  if◌then◌else◌, reverse,
}
use distributed_acid_kv_stor.Common.Bytes.{Bytes, lt_bytes, ge_bytes, eq_bytes, is_empty}
use distributed_acid_kv_stor.Common.BTreeMap as BTreeMap
use distributed_acid_kv_stor.Common.BTreeMap.{id_order, bytes_order}

pub data RouterError : Type 0 where
  region_not_found : Bytes → RouterError
  region_id_not_found : ℕ → RouterError
  region_epoch_not_match : ℕ → RouterError

pub record RegionEpoch : Type 0 where
  pub conf_ver : ℕ
  pub version : ℕ

pub record Region : Type 0 where
  pub id : ℕ
  pub start_key : Bytes
  pub end_key : Bytes
  pub peers : List ℕ
  pub epoch : RegionEpoch

unfoldable pub new_region : ℕ → Bytes → Bytes → List ℕ → Region
new_region id start_key end_key peers = record {
  id = id;
  start_key = start_key;
  end_key = end_key;
  peers = peers;
  epoch = record { conf_ver = 1; version = 1 };
}

unfoldable pub contains_key : Region → Bytes → Bool
contains_key r key =
    (is_empty r.start_key || ge_bytes key r.start_key)
    && (is_empty r.end_key || lt_bytes key r.end_key)

pub record RegionRouter : Type 0 where
  pub regions_by_id : BTreeMap.BTreeMap ℕ Region
  pub regions_by_key : BTreeMap.BTreeMap Bytes Region

abbrev pub new_router : RegionRouter
new_router = record { regions_by_id = []; regions_by_key = [] }

unfoldable pub insert_region : Region → RegionRouter → RegionRouter
insert_region r router = record {
  regions_by_id = BTreeMap.insert r.id r router.regions_by_id;
  regions_by_key = BTreeMap.insert r.start_key r router.regions_by_key;
}

unfoldable pub get_region : ℕ → RegionRouter → Option Region
get_region region_id router = BTreeMap.get region_id router.regions_by_id

-- The loop of `route_key` over the regions in its order.
unfoldable pub route_loop : Bytes → List Region → Result RouterError Region
unfolding contains_key
route_loop key [] = err (region_not_found key)
route_loop key (r ∷ rs) = if contains_key r key then ok r else route_loop key rs

unfoldable pub route_key : Bytes → RegionRouter → Result RouterError Region
route_key key router = route_loop key (reverse (BTreeMap.values router.regions_by_key))

unfoldable pub left_region : Region → Bytes → Region
left_region old split_key = record old {
  end_key = split_key;
  epoch = record { conf_ver = old.epoch.conf_ver; version = (old.epoch.version + 1) % 2 ^ 64 };
}

unfoldable pub right_region : Region → Bytes → ℕ → Region
right_region old split_key new_region_id = record old {
  id = new_region_id;
  start_key = split_key;
  epoch = record { conf_ver = old.epoch.conf_ver; version = 1 };
}

-- The four insertions after the removal of the old region from the map by keys.
unfoldable pub replace_region : Region → Region → Region → RegionRouter → RegionRouter
replace_region old left right router = record {
  regions_by_id =
      BTreeMap.insert right.id right (BTreeMap.insert left.id left router.regions_by_id);
  regions_by_key =
      BTreeMap.insert right.start_key right
        (BTreeMap.insert left.start_key left (BTreeMap.remove old.start_key router.regions_by_key));
}

unfoldable pub split_old :
    Bytes → ℕ → Region → RegionRouter → Result RouterError (Region × Region) × RegionRouter
split_old split_key new_region_id old router =
    if not (contains_key old split_key) || eq_bytes split_key old.start_key
    then (err (region_not_found split_key), router)
    else let left = left_region old split_key in
      let right = right_region old split_key new_region_id in
      (ok (left, right), replace_region old left right router)

unfoldable pub split_region :
    ℕ → Bytes → ℕ → RegionRouter → Result RouterError (Region × Region) × RegionRouter
split_region region_id split_key new_region_id router = elim (get_region region_id router) [
  | none ↦ (err (region_id_not_found region_id), router)
  | some old ↦ split_old split_key new_region_id old router
]
