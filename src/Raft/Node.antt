-- ===== src/Raft/Node.antt =====
-- crates/raft-engine/src/node.rs: one raft group of a node. `RawNode` of the raft crate is a
-- parameter: it reads the storage that it shares with the node, and never writes it.
pub mod Ready
use distributed_acid_kv_stor.Common.{
  ℕ, Bool, not, Option, none, some, List, [], ◌∷◌, map_err, Result, ok, err, if◌then◌else◌,
}
use distributed_acid_kv_stor.Common.Bytes.{Bytes, is_empty}
use distributed_acid_kv_stor.Storage.Fjall.{Fjall}
use distributed_acid_kv_stor.Storage.Engine as Engine
use distributed_acid_kv_stor.Raft.Store.{Eraftpb, StorageError, RaftStorage, append, set_hard_state}
use distributed_acid_kv_stor.Raft.Store as Store

pub data NodeError (E F : Type 0) : Type 0 where
  raft : E → NodeError E F
  raft_storage : StorageError → NodeError E F
  storage : Engine.StorageError F → NodeError E F

pub data RaftCmd : Type 0 where
  split_cmd : ℕ → Bytes → ℕ → RaftCmd
  txn_cmd : Bytes → RaftCmd

-- `serde_json::to_vec(cmd).unwrap_or_default()`, for the encoding of the serde_json crate.
abbrev pub bytes_or_default : (RaftCmd → Option Bytes) → RaftCmd → Bytes
bytes_or_default to_vec cmd = elim (to_vec cmd) [ some data_bytes ↦ data_bytes | none ↦ [] ]

module _ (pb : Eraftpb) (db : Fjall) where
  -- What `ready()` hands out.
  pub record Readiness (Message : Type 0) : Type 0 where
    pub entries : List pb.Entry
    pub hs : Option pb.HardState
    pub messages : List Message
    pub committed_entries : List pb.Entry

  pub record RawNode : Type 1 where
    pub State : Type 0
    pub Message : Type 0
    pub Error : Type 0
    -- for a node id and a storage
    pub create : ℕ → RaftStorage pb db → Result Error State
    pub tick : RaftStorage pb db → State → State
    pub step : Message → RaftStorage pb db → State → Result Error (Unit {0}) × State
    pub propose : Bytes → RaftStorage pb db → State → Result Error (Unit {0}) × State
    pub has_ready : RaftStorage pb db → State → Bool
    pub ready : RaftStorage pb db → State → Readiness Message × State
    pub advance : Readiness Message → RaftStorage pb db → State → State

  module _ (raw : RawNode) where
    pub record MultiRaftNode : Type 0 where
      pub region_id : ℕ
      pub raw_node : raw.State
      pub storage : RaftStorage pb db

    unfoldable pub new : ℕ → ℕ → db.Keyspace → Result (NodeError raw.Error db.Error) MultiRaftNode
    new region_id node_id keyspace =
        let storage = Store.new pb db keyspace region_id in
        elim (raw.create node_id storage) [
          | err e ↦ err (raft e)
          | ok state ↦ ok (record { region_id = region_id; raw_node = state; storage = storage })
        ]

    unfoldable pub tick : MultiRaftNode → MultiRaftNode
    tick n = record n { raw_node = raw.tick n.storage n.raw_node }

    unfoldable pub step :
        raw.Message
        → MultiRaftNode
        → Result (NodeError raw.Error db.Error) (Unit {0}) × MultiRaftNode
    step msg n =
        let (result, state) = raw.step msg n.storage n.raw_node in
        (map_err raft result, record n { raw_node = state })

    unfoldable pub propose :
        Bytes → MultiRaftNode → Result (NodeError raw.Error db.Error) (Unit {0}) × MultiRaftNode
    propose data_bytes n =
        let (result, state) = raw.propose data_bytes n.storage n.raw_node in
        (map_err raft result, record n { raw_node = state })

    unfoldable pub propose_cmd :
        (RaftCmd → Option Bytes)
        → RaftCmd
        → MultiRaftNode
        → Result (NodeError raw.Error db.Error) (Unit {0}) × MultiRaftNode
    propose_cmd to_vec cmd n = propose (bytes_or_default to_vec cmd) n

    -- The payloads of the committed entries that have one.
    unfoldable pub payloads : List pb.Entry → List Bytes
    payloads [] = []
    payloads (e ∷ es) =
        let rest = payloads es in
        if not (is_empty (pb.get_data e)) then pb.get_data e ∷ rest else rest

    abbrev pub Outcome : Type 0
    Outcome = Result (NodeError raw.Error db.Error) (List raw.Message × List Bytes) × MultiRaftNode

    -- `if let Some(hs) = ready.hs() { .. }`
    unfoldable pub keep_hard_state : Option pb.HardState → RaftStorage pb db → RaftStorage pb db
    keep_hard_state none s = s
    keep_hard_state (some hs) s = set_hard_state pb db hs s

    -- What follows the append.
    unfoldable pub after_append :
        Readiness raw.Message
        → MultiRaftNode
        → Result StorageError (Unit {0}) × RaftStorage pb db
        → Outcome
    after_append ready n (err e, s) = (err (raft_storage e), record n { storage = s })
    after_append ready n (ok _, s) =
        let s' = keep_hard_state ready.hs s in
        (
          ok (ready.messages, payloads ready.committed_entries),
          record n { storage = s'; raw_node = raw.advance ready s' n.raw_node },
        )

    -- `none` is a panic of the append.
    unfoldable pub handle_ready : Readiness raw.Message → MultiRaftNode → Option Outcome
    handle_ready ready n = elim (append pb db ready.entries n.storage) [
      | none ↦ none
      | some r ↦ some (after_append ready n r)
    ]

    unfoldable pub process_ready : MultiRaftNode → Option Outcome
    process_ready n =
        if not (raw.has_ready n.storage n.raw_node)
        then some (ok ([], []), n)
        else let (ready, state) = raw.ready n.storage n.raw_node in
          handle_ready ready (record n { raw_node = state })
