-- ===== src/Raft/Router/Split.antt =====
-- The split of a region in crates/raft-engine/src/router.rs: the two halves share out the keys of
-- the old region, and the regions of the map still cover the key space.
use distributed_acid_kv_stor.Common.{
  ℕ, ◌≡◌, ◌≢◌, refl, sym, ◌∙◌, inl, inr, true, false, Bool-cases, some, [], ok, arith, ◌||◌, ◌&&◌,
}
use distributed_acid_kv_stor.Common.Bytes.{
  Bytes, ge_bytes, lt_bytes, eq_bytes, eq_bytes_ne, eq_bytes_refl, is_empty, ◌≺◌, ≺_trans, lt_of_gt,
  gt_of_lt, eq_of_compare_bytes,
}
use distributed_acid_kv_stor.Common.BTreeMap as BTreeMap
use distributed_acid_kv_stor.Common.BTreeMap.{BTreeMap, bytes_order, insert, remove, same_key}
use distributed_acid_kv_stor.Raft.Router.{
  Region, RegionRouter, contains_key, get_region, left_region, right_region, replace_region,
  split_old, split_region,
}
use distributed_acid_kv_stor.Raft.Router.Cover.{Covers}
use distributed_acid_kv_stor.Raft.Router.Places.{not_empty_above, bytes_cases}
use distributed_acid_kv_stor.Raft.Router.Halves.{SplitsAt, contains_splits, split-Covers}

lt_bytes_of : (a b : Bytes) → a ≺ b → lt_bytes a b ≡ true
lt_bytes_of a b h = ground arith

below_of : (a b : Bytes) → lt_bytes a b ≡ true → a ≺ b
below_of a b h = ground arith

-- Where the regions cover the key space, and the region of the split stands under its start key and
-- holds the split key, which is not its start: the split returns the two halves, and the regions
-- cover the key space still.
pub split_region-Covers :
    (router : RegionRouter) (old : Region) (region_id new_region_id : ℕ) (split_key : Bytes)
    → Covers (some []) router.regions_by_key
    → get_region region_id router ≡ some old
    → BTreeMap.get old.start_key router.regions_by_key ≡ some old
    → contains_key old split_key ≡ true
    → split_key ≢ old.start_key
    → ((split_region region_id split_key new_region_id router).0
        ≡ ok (left_region old split_key, right_region old split_key new_region_id))
      × Covers (some []) ((split_region region_id split_key new_region_id router).1.regions_by_key)
unfolding split_region split_old replace_region right_region left_region
split_region-Covers router old region_id new_region_id k c found placed held ne =
    let at = contains_splits old k held ne in
    rw (split_region, found, split_old, held, eq_bytes_ne k old.start_key ne)
      (refl, split-Covers (some []) router.regions_by_key old k new_region_id c placed at)

bool_apart : true ≡ false → ⊥
bool_apart h = ground arith

pub ne_of_eq_bytes : (a b : Bytes) → eq_bytes a b ≡ false → a ≢ b
ne_of_eq_bytes a b h e = absurd (bool_apart (sym (eq_bytes_refl b) ∙ (rw e at h)))

not_ge : (a b : Bytes) → lt_bytes a b ≡ true → ge_bytes a b ≡ false
not_ge a b h = ground arith

ge_of_not_lt : (a b : Bytes) → lt_bytes a b ≡ false → ge_bytes a b ≡ true
ge_of_not_lt a b h = ground arith

-- A key below the split key lies before the end of the old region.
ends_after :
    (old : Region) (k key : Bytes)
    → SplitsAt old k
    → lt_bytes key k ≡ true
    → (is_empty old.end_key || lt_bytes key old.end_key) ≡ true
ends_after old k key at below = elim at.before [
  | inl open_end ↦ rw open_end
  | inr before ↦
      rw (lt_bytes_of key old.end_key (≺_trans key k old.end_key (below_of key k below) before))
        (ground arith)
]

-- A key from the split key on lies after the start of the old region.
starts_before :
    (old : Region) (k key : Bytes)
    → SplitsAt old k
    → lt_bytes key k ≡ false
    → ge_bytes key old.start_key ≡ true
starts_before old k key at above = elim (bytes_cases key k) [
  | inl same ↦ rw (eq_of_compare_bytes key k same, ge_bytes, gt_of_lt old.start_key k at.above)
  | inr (inl below) ↦ ground arith
  | inr (inr gt_k) ↦ rw (
    ge_bytes,
    gt_of_lt old.start_key key (≺_trans old.start_key k key at.above (lt_of_gt key k gt_k)),
  )
]

-- For a split key inside the old region that is not its start: the two halves share out the keys of
-- the old region. A key is in the old region exactly where it is in one of the halves, and it is
-- never in both.
pub split_shares :
    (old : Region) (split_key : Bytes) (new_region_id : ℕ) (key : Bytes)
    → contains_key old split_key ≡ true
    → split_key ≢ old.start_key
    → (contains_key old key ≡ (
        contains_key (left_region old split_key) key
        || contains_key (right_region old split_key new_region_id) key))
      × ((contains_key (left_region old split_key) key
            && contains_key (right_region old split_key new_region_id) key)
          ≡ false)
unfolding contains_key left_region right_region
split_shares old k new_id key held ne =
    let at = contains_splits old k held ne in
    elim (Bool-cases (lt_bytes key k)) [
      | inl below ↦
          rw (not_empty_above old.start_key k at.above, below, not_ge key k below)
            (rw (ends_after old k key at below) (ground arith))
      | inr above ↦
          rw (not_empty_above old.start_key k at.above, above, ge_of_not_lt key k above)
            (rw (starts_before old k key at above) (ground arith))
    ]
