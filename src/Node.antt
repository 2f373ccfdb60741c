-- ===== src/Node.antt =====
-- crates/node: the state that the services of a node share (src/server.rs). A handler of
-- src/service.rs is a step on this state; every part stands behind a lock or an atomic that one call
-- holds at a time.
pub mod Kv
pub mod Main
pub mod TxnService
pub mod RaftService
pub mod Example
use distributed_acid_kv_stor.Common.{
  ℕ, ◌+◌, ◌%◌, ◌^◌, ◌==◌, Option, none, some, List, [], ◌∷◌, Result, ok, err, Exec, continue, ◌>>=◌,
  ◌>>◌, if◌then◌else◌,
}
use distributed_acid_kv_stor.Common.Bytes.{Bytes}
use distributed_acid_kv_stor.Common.BTreeMap as BTreeMap
use distributed_acid_kv_stor.Storage.Fjall.{Fjall}
use distributed_acid_kv_stor.Txn.Hlc as Hlc
use distributed_acid_kv_stor.Txn.World.{World, TxnError}
use distributed_acid_kv_stor.Txn.Coordinator.{Mutation, put_value, delete_key}
use distributed_acid_kv_stor.Raft.Router.{RegionRouter, new_region, new_router, insert_region}

-- `Status` of the tonic crate. A text made of an error is the error here.
pub data Status (E : Type 0) : Type 0 where
  out_of_range : Status E
  internal aborted : E → Status E
  unimplemented : Status E

-- The raft node of a region (`MultiRaftNode`), which wraps the raft crate: its start over the
-- engine, for a node id and a region id, and a step on a message.
pub record RaftNodes (db : Fjall) : Type 1 where
  pub Node : Type 0
  pub Message : Type 0
  pub start : db.Keyspace → ℕ → ℕ → Option Node
  pub parse : Bytes → Option Message
  pub step : Message → Node → Node

module _ {db : Fjall} (raft : RaftNodes db) where
  pub record NodeState : Type 0 where
    pub node_id : ℕ
    pub hlc : Hlc.HlcInner
    pub world : World db
    pub router : RegionRouter
    pub raft_nodes : BTreeMap.BTreeMap ℕ raft.Node
    pub next_region_id : ℕ

  abbrev pub Handler : Type 0 → Type 0 → Type 0
  Handler E A = Exec NodeState (Status E) A

  -- `NodeState::new`, for an engine that opened, a reading of the system clock, and the raft node
  -- of region 1 that started.
  unfoldable pub new : ℕ → World db → ℕ → raft.Node → NodeState
  new node_id world now_ms raft_node = record {
    node_id = node_id;
    hlc = Hlc.new now_ms;
    world = world;
    router = insert_region (new_region 1 [] [] (node_id ∷ [])) new_router;
    raft_nodes = (1, raft_node) ∷ [];
    next_region_id = 2;
  }

  unfoldable pub alloc_region_id : NodeState → ℕ × NodeState
  alloc_region_id s =
      (s.next_region_id, record s { next_region_id = (s.next_region_id + 1) % 2 ^ 64 })

  -- `self.node.hlc.now()`, with the clock that the coordinator reads too.
  unfoldable pub hlc_now : (ℕ → ℕ) → {E : Type 0} → Exec NodeState E ℕ
  hlc_now clock s =
      let (ts, inner) = Hlc.now (clock s.world.reads) s.hlc in
      (ok ts, record s { hlc = inner; world = record s.world { reads = s.world.reads + 1 } })

  -- A call of the coordinator. Its result is looked at by the handler.
  abbrev pub call : {E F A : Type 0} → Exec (World db) E A → Exec NodeState F (Result E A)
  call m s = (ok (m s.world).0, record s { world = (m s.world).1 })

-- A mutation of a request, of which the operation 1 is a delete.
pub record MutationMessage : Type 0 where
  pub op : ℕ
  pub key : Bytes
  pub value : Bytes

unfoldable pub mutation_of : MutationMessage → Mutation
mutation_of m = if m.op == 1 then delete_key m.key else put_value m.key m.value
