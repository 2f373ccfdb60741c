-- ===== src/Node/Example.antt =====
-- A node of crates/node over an engine in memory, for the runs that the tests make.
use distributed_acid_kv_stor.Common.{ℕ, ◌+◌, some, List}
use distributed_acid_kv_stor.Common.Bytes.{Bytes}
use distributed_acid_kv_stor.Storage.Fjall.{BatchOp}
use distributed_acid_kv_stor.Storage.Fjall.Memory.{memory}
use distributed_acid_kv_stor.Storage.Example.{after_changes}
use distributed_acid_kv_stor.Node.{RaftNodes, NodeState, new}

-- A raft node that counts its messages.
abbrev pub counters : RaftNodes memory
counters = record {
  Node = ℕ;
  Message = Bytes;
  start = λ keyspace node_id region_id. some 0;
  parse = λ bytes. some bytes;
  step = λ msg n. n + 1;
}

-- A node that has just started at 4000, over the engine after these changes.
abbrev pub fresh : List BatchOp → NodeState counters
fresh changes = new counters 1 (record { keyspace = after_changes changes; reads = 0 }) 4000 0
