-- ===== src/Node/RaftService.antt =====
-- The raft service of crates/node/src/service.rs. Its answers do not depend on the request.
use distributed_acid_kv_stor.Common.{ℕ, Option, none, some, List, [], ◌∷◌, Result, ok, err}
use distributed_acid_kv_stor.Common.Bytes.{Bytes}
use distributed_acid_kv_stor.Common.BTreeMap as BTreeMap
use distributed_acid_kv_stor.Common.BTreeMap.{id_order}
use distributed_acid_kv_stor.Storage.Fjall.{Fjall}
use distributed_acid_kv_stor.Node.{RaftNodes, NodeState}

pub record RaftMessage : Type 0 where
  pub region_id : ℕ
  pub message_data : Bytes

module _ {db : Fjall} (raft : RaftNodes db) where
  -- `if let Some(raft_node) = nodes.get_mut(&region_id) { let _ = raft_node.step(msg); }`
  unfoldable pub step_node :
      ℕ
      → raft.Message
      → Option raft.Node
      → BTreeMap.BTreeMap ℕ raft.Node
      → BTreeMap.BTreeMap ℕ raft.Node
  step_node region_id msg none nodes = nodes
  step_node region_id msg (some node) nodes = BTreeMap.insert region_id (raft.step msg node) nodes

  unfoldable pub deliver : ℕ → Option raft.Message → NodeState raft → NodeState raft
  deliver region_id none s = s
  deliver region_id (some msg) s = record s {
    raft_nodes = step_node region_id msg (BTreeMap.get region_id s.raft_nodes) s.raft_nodes;
  }

  unfoldable pub send_message : RaftMessage → NodeState raft → NodeState raft
  send_message msg s = deliver msg.region_id (raft.parse msg.message_data) s

  -- `step` takes the messages of a stream until it ends or fails.
  unfoldable pub step : {E : Type 0} → List (Result E RaftMessage) → NodeState raft → NodeState raft
  step [] s = s
  step (err e ∷ msgs) s = s
  step (ok msg ∷ msgs) s = step msgs (send_message msg s)
