-- ===== src/Client/Loopback.antt =====
-- The client of crates/client/src/client.rs connected to one node of crates/node: each call reaches
-- its handler in crates/node/src/service.rs, and its answer the client.
pub mod Writes
use distributed_acid_kv_stor.Common.{ℕ, zero, suc, Bool, true, false, not, ok, err}
use distributed_acid_kv_stor.Common.{
  ◌+◌, ◌≤◌, ◌<◌, ◌^◌, ◌≡◌, ◌≢◌, refl, sym, Option, none, some, List, [], ◌∷◌, Result, Exec, ◌>>=◌,
  ◌>>◌, arith, length, ◌==◌, if◌then◌else◌, Bool-cases, ne→==, reverse,
}
use distributed_acid_kv_stor.Common.Bytes.{Bytes}
use distributed_acid_kv_stor.Common.BTreeMap as BTreeMap
use distributed_acid_kv_stor.Storage.Key.{u64_max, encode}
use distributed_acid_kv_stor.Storage.Fjall.{Fjall, Reliable, p_write}
use distributed_acid_kv_stor.Storage.View.{stored, IsIsolated, HasNoLock, IsRollback}
use distributed_acid_kv_stor.Txn.Hlc as Hlc
use distributed_acid_kv_stor.Txn.World.{World, TxnError}
use distributed_acid_kv_stor.Txn.Coordinator.{Mutation, put_value, delete_key, key}
use distributed_acid_kv_stor.Txn.Coordinator as Coordinator
use distributed_acid_kv_stor.Txn.Coordinator.Prewrite as Prewrite
use distributed_acid_kv_stor.Txn.Coordinator.Prewrite.Laws.{IsConflictFree}
use distributed_acid_kv_stor.Txn.Coordinator.Commit as Commit
use distributed_acid_kv_stor.Txn.Coordinator.TwoPhase.{
  prewritten, finished, prewrite_writes, commit_writes, read_finished, read_unfinished,
}
use distributed_acid_kv_stor.Raft.Router.{Region, RegionRouter, contains_key, route_loop, route_key}
use distributed_acid_kv_stor.Node.{Status, RaftNodes, NodeState, mutation_of, hlc_now}
use distributed_acid_kv_stor.Node.Kv as Kv
use distributed_acid_kv_stor.Node.Kv.{GetResponse, get_response, misrouted, read_version}
use distributed_acid_kv_stor.Node.TxnService as TxnService
use distributed_acid_kv_stor.Client.{
  Stubs, KvClient, value_of, proto_mutation, txn_prewrite, txn_commit, txn_get, get,
}

-- A region is found for a key only if it holds the key, so that a read is never refused.
route_loop-misrouted : (key : Bytes) (rs : List Region) → misrouted key (route_loop key rs) ≡ false
unfolding misrouted route_loop
route_loop-misrouted key [] = refl
route_loop-misrouted key (r ∷ rs) = ground (arith, route_loop-misrouted key rs)

pub route_key-misrouted :
    (key : Bytes) (router : RegionRouter) → misrouted key (route_key key router) ≡ false
unfolding route_key
route_key-misrouted key router =
    route_loop-misrouted key (reverse (BTreeMap.values router.regions_by_key))

module _ {db : Fjall} (raft : RaftNodes db) (clock : ℕ → ℕ) where
  -- Every call succeeds in reaching the node; its changes to the node are those of the handler.
  abbrev pub node_stubs : Stubs
  node_stubs = record {
    World = NodeState raft;
    Endpoint = Unit {0};
    Channel = Unit {0};
    Status = Status (TxnError db.Error);
    TransportError = Unit {0};
    InvalidUri = Unit {0};
    Text = TxnError db.Error;
    from_shared = λ _. ok tt;
    connect = λ _ s. (ok tt, s);
    get = λ _ key version. Kv.get raft clock key version;
    scan = λ _ req. Kv.scan raft clock req.start_key req.end_key req.limit req.version;
    batch_prewrite = λ _ req. TxnService.batch_prewrite raft clock req;
    batch_commit = λ _ req. TxnService.batch_commit raft clock req;
    ask_split = λ _ region_id split_key s. (
      ok (Kv.ask_split raft clock region_id split_key s).0,
      (Kv.ask_split raft clock region_id split_key s).1,
    );
    prewrite = λ _ req. TxnService.prewrite raft clock req;
    commit = λ _ req. TxnService.commit raft clock req;
    rollback = λ _ start_ts keys. TxnService.rollback raft clock start_ts keys;
    heart_beat = λ _ key start_ts ttl. TxnService.heart_beat raft clock key start_ts ttl;
  }

  abbrev pub client : KvClient node_stubs
  client = record { kv_inner = tt; txn_inner = tt }

  -- What the coordinator answers is what the client gets.
  pub txn_prewrite_lem :
      (s : NodeState raft) (start_ts lock_ttl : ℕ) (k : Bytes) (v : Option Bytes) (u : Unit {0})
      (w : World db)
      → Prewrite.prewrite db clock start_ts
          (mutation_of (proto_mutation (k, v)) ∷ [])
          k
          lock_ttl
          s.world
        ≡ (ok u, w)
      → txn_prewrite node_stubs client start_ts ((k, v) ∷ []) k lock_ttl s
        ≡ (ok u, record s { world = w })
  unfolding txn_prewrite TxnService.prewrite
  txn_prewrite_lem s start_ts lock_ttl k v u w h = rw h

  pub txn_commit_lem :
      (s : NodeState raft) (start_ts commit_ts : ℕ) (keys : List Bytes) (u : Unit {0})
      (w : World db)
      → Commit.commit db start_ts commit_ts keys s.world ≡ (ok u, w)
      → txn_commit node_stubs client start_ts commit_ts keys s ≡ (ok u, record s { world = w })
  unfolding txn_commit TxnService.commit
  txn_commit_lem s start_ts commit_ts keys u w h = rw h

  get_response_lem : (v : Option Bytes) → value_of (get_response v) ≡ v
  unfolding value_of get_response
  get_response_lem none = refl
  get_response_lem (some x) = refl

  -- The timestamp of a read comes first, the clock's for version 0.
  kv_get_lem :
      (s t : NodeState raft) (k : Bytes) (version read_ts : ℕ) (v : Option Bytes) (w : World db)
      → read_version raft clock version {E = Status (TxnError db.Error)} s ≡ (ok read_ts, t)
      → Coordinator.get db clock k read_ts t.world ≡ (ok v, w)
      → Kv.get raft clock k version s ≡ (ok (get_response v), record t { world = w })
  unfolding Kv.get
  kv_get_lem s t k version read_ts v w e h =
      rw (route_key-misrouted k s.router, if◌then◌else◌, ◌>>=◌, e, h)

  -- A read at a version other than 0.
  pub txn_get_lem :
      (s : NodeState raft) (k : Bytes) (read_ts : ℕ) (v : Option Bytes) (w : World db)
      → 0 < read_ts
      → Coordinator.get db clock k read_ts s.world ≡ (ok v, w)
      → txn_get node_stubs client k read_ts s ≡ (ok v, record s { world = w })
  unfolding txn_get read_version
  txn_get_lem s k read_ts v w pos h = rw (
    kv_get_lem s s k read_ts read_ts v w (rw (ne→== read_ts 0 (omega arith))) h,
    get_response_lem v,
  )

  -- A read at the present, by the clock of the node.
  abbrev pub present : NodeState raft → ℕ
  present s = (Hlc.now (clock s.world.reads) s.hlc).0

  abbrev pub after_now : NodeState raft → NodeState raft
  after_now s = record s {
    hlc = (Hlc.now (clock s.world.reads) s.hlc).1;
    world = record s.world { reads = s.world.reads + 1 };
  }

  pub get_lem :
      (s : NodeState raft) (k : Bytes) (v : Option Bytes)
      → Coordinator.get db clock k (present s) (after_now s).world ≡ (ok v, (after_now s).world)
      → get node_stubs client k s ≡ (ok v, after_now s)
  unfolding get read_version hlc_now
  get_lem s k v h =
      rw (
        kv_get_lem s (after_now s) k 0 (present s) v (after_now s).world refl h,
        get_response_lem v,
      )
