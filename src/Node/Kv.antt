-- ===== src/Node/Kv.antt =====
-- The key-value service of crates/node/src/service.rs: reads, scans, splits and region statistics.
pub mod Split
use Prim.Native.String.{String}
use distributed_acid_kv_stor.Common.{
  ℕ, ◌*◌, Bool, true, false, not, ◌||◌, Option, none, some, List, [], Result, ok, err, Exec, pure,
  throw, continue, ◌>>=◌, if◌then◌else◌, leb, ◌==◌,
}
use distributed_acid_kv_stor.Common.Bytes.{Bytes, is_empty}
use distributed_acid_kv_stor.Common.BTreeMap as BTreeMap
use distributed_acid_kv_stor.Common.BTreeMap.{id_order}
use distributed_acid_kv_stor.Storage.Fjall.{Fjall}
use distributed_acid_kv_stor.Storage.Engine.{
  StorageError, RegionStats, find_median_key, calculate_region_stats,
}
use distributed_acid_kv_stor.Txn.World.{TxnError}
use distributed_acid_kv_stor.Txn.Coordinator as Coordinator
use distributed_acid_kv_stor.Raft.Router.{
  Region, RouterError, contains_key, get_region, route_key, split_region,
}
use distributed_acid_kv_stor.Node.{
  Status, out_of_range, internal, unimplemented, RaftNodes, NodeState, Handler, alloc_region_id,
  hlc_now, call,
}
use distributed_acid_kv_stor.Node.TxnService.{answer}

pub data SplitError : Type 0 where
  no_region : ℕ → SplitError
  no_split_key : SplitError
  refused : RouterError → SplitError

pub record AskSplitResponse : Type 0 where
  pub new_region_id : ℕ
  pub left_start_key : Bytes
  pub left_end_key : Bytes
  pub right_start_key : Bytes
  pub right_end_key : Bytes
  pub error : Option SplitError

abbrev pub failed : SplitError → AskSplitResponse
failed e = record {
  new_region_id = 0;
  left_start_key = [];
  left_end_key = [];
  right_start_key = [];
  right_end_key = [];
  error = some e;
}

abbrev pub split_into : ℕ → Region → Region → AskSplitResponse
split_into new_region_id left right = record {
  new_region_id = new_region_id;
  left_start_key = left.start_key;
  left_end_key = left.end_key;
  right_start_key = right.start_key;
  right_end_key = right.end_key;
  error = none;
}

pub record GetResponse : Type 0 where
  pub found : Bool
  pub value : Bytes

-- `found: value.is_some(), value: value.unwrap_or_default()`
unfoldable pub get_response : Option Bytes → GetResponse
get_response none = record { found = false; value = [] }
get_response (some value) = record { found = true; value = value }

pub record RegionStatsResponse : Type 0 where
  pub split_recommended : Bool
  pub suggested_split_key : Bytes

-- `if let Ok(region) = route_key(key) { if !region.contains_key(key) { .. } }`
unfoldable pub misrouted : Bytes → Result RouterError Region → Bool
misrouted key (ok region) = not (contains_key region key)
misrouted key (err e) = false

module _ {db : Fjall} (raft : RaftNodes db) (clock : ℕ → ℕ) where
  -- The timestamp of a request, where 0 stands for the present.
  unfoldable pub read_version : ℕ → {E : Type 0} → Exec (NodeState raft) E ℕ
  read_version version = if version == 0 then hlc_now raft clock else pure version

  unfoldable pub get : Bytes → ℕ → Handler raft (TxnError db.Error) GetResponse
  get key version s =
      if misrouted key (route_key key s.router)
      then throw out_of_range s
      else (do
        read_ts ← read_version version
        value ← call raft (Coordinator.get db clock key read_ts)
        found ← answer internal value
        pure (get_response found))
          s

  unfoldable pub scan :
      Bytes → Bytes → ℕ → ℕ → Handler raft (TxnError db.Error) (List (Bytes × Bytes))
  scan start_key end_key limit version = do
    read_ts ← read_version version
    kvs ← call raft (Coordinator.scan db clock start_key end_key limit read_ts)
    answer internal kvs

  unfoldable pub execute_txn : Handler raft (TxnError db.Error) (Unit {0})
  execute_txn = throw unimplemented

  -- `find_median_key`, where an error counts as no key.
  unfoldable pub median_of : Result (StorageError db.Error) (Option Bytes) → Option Bytes
  median_of (ok key) = key
  median_of (err e) = none

  unfoldable pub chosen_key : Bytes → Region → db.Keyspace → Option Bytes
  chosen_key split_key region keyspace =
      if not (is_empty split_key)
      then some split_key
      else median_of (find_median_key db region.start_key region.end_key keyspace)

  -- The raft node of the new region, if it starts.
  unfoldable pub add_node : ℕ → Option raft.Node → NodeState raft → NodeState raft
  add_node region_id none s = s
  add_node region_id (some node) s = record s {
    raft_nodes = BTreeMap.insert region_id node s.raft_nodes;
  }

  -- What `ask_split` does after the split of the router.
  unfoldable pub after_split :
      ℕ → Result RouterError (Region × Region) → NodeState raft → AskSplitResponse × NodeState raft
  after_split new_region_id (ok (left, right)) s = (
    split_into new_region_id left right,
    add_node new_region_id (raft.start s.world.keyspace s.node_id new_region_id) s,
  )
  after_split new_region_id (err e) s = (failed (refused e), s)

  unfoldable pub split_at : ℕ → Bytes → NodeState raft → AskSplitResponse × NodeState raft
  split_at region_id split_key s =
      let (new_region_id, s') = alloc_region_id raft s in
      let (result, router) = split_region region_id split_key new_region_id s'.router in
      after_split new_region_id result (record s' { router = router })

  unfoldable pub ask_split : ℕ → Bytes → NodeState raft → AskSplitResponse × NodeState raft
  ask_split region_id split_key s = elim (get_region region_id s.router) [
    | none ↦ (failed (no_region region_id), s)
    | some region ↦ elim (chosen_key split_key region s.world.keyspace) [
      | none ↦ (failed no_split_key, s)
      | some k ↦ split_at region_id k s
    ]
  ]

  -- `calculate_region_stats(..).unwrap_or((0, 0))`
  unfoldable pub stats_or_zero : Result (StorageError db.Error) RegionStats → RegionStats
  stats_or_zero (ok stats) = stats
  stats_or_zero (err e) = record { key_count = 0; total_bytes = 0 }

  unfoldable pub is_large : RegionStats → Bool
  is_large stats = leb 10000 stats.key_count || leb (64 * 1024 * 1024) stats.total_bytes

  -- `unwrap_or(None).unwrap_or_default()`
  unfoldable pub key_or_empty : Option Bytes → Bytes
  key_or_empty none = []
  key_or_empty (some key) = key

  unfoldable pub report_region_stats : ℕ → NodeState raft → RegionStatsResponse
  report_region_stats region_id s = elim (get_region region_id s.router) [
    | none ↦ record { split_recommended = false; suggested_split_key = [] }
    | some region ↦
        let large = is_large (
          stats_or_zero
            (calculate_region_stats db region.start_key region.end_key s.world.keyspace)) in
        record {
          split_recommended = large;
          suggested_split_key =
              if large
              then key_or_empty
                  (median_of (find_median_key db region.start_key region.end_key s.world.keyspace))
              else [];
        }
  ]
