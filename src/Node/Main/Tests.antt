-- ===== src/Node/Main/Tests.antt =====
-- A start of a node over an engine in memory.
use Prim.Native.String.{String}
use distributed_acid_kv_stor.Common.{ℕ, ◌≡◌, refl, some, none, List, [], ok}
use distributed_acid_kv_stor.Storage.Fjall.{BatchOp}
use distributed_acid_kv_stor.Storage.Fjall.Memory.{memory}
use distributed_acid_kv_stor.Storage.Open.{Opener, open_with_config}
use distributed_acid_kv_stor.Storage.Example.{apple, pear, committed_put, after_changes}
use distributed_acid_kv_stor.Raft.Router.{Region, route_key}
use distributed_acid_kv_stor.Raft.Router.Cover.{Owner}
use distributed_acid_kv_stor.Txn.Example.{clock}
use distributed_acid_kv_stor.Node.{NodeState, new}
use distributed_acid_kv_stor.Node.Example.{counters}
use distributed_acid_kv_stor.Node.Kv.{ask_split}
use distributed_acid_kv_stor.Node.Kv.Split.{started, asked}
use distributed_acid_kv_stor.Node.Main.{
  Host, Args, Config, overridden, default_server, file_addr, server_config, start, main,
}
use distributed_acid_kv_stor.Node.Main.Serves.{main-route_key}

-- A disk that holds what an engine in memory was told.
abbrev opener : Opener memory
opener = record {
  PathBuf = ℕ;
  Disk = List BatchOp;
  Handle = Unit {0};
  open_keyspace = λ config disk. (ok tt, disk);
  open_partition = λ handle p size disk. (ok tt, disk);
  contents = λ handle disk. after_changes disk;
}

-- A host with a file at every path that gives the node the id 3.
abbrev host : Host opener
host = record {
  SocketAddr = String;
  parse_addr = λ text. some text;
  path_of = λ text. 0;
  read_to_string = λ path disk. some "node_id = 3";
  parse_toml = λ text. some (record { node_id = some 3; grpc_addr = none; storage_path = none });
}

abbrev args : Args ℕ String
args = record { node_id = 1; addr = "10.0.0.1:80"; data_dir = 5; config = some 7 }

abbrev node : NodeState counters
node = new counters 3 (record { keyspace = after_changes committed_put; reads = 1 }) 4000 0

-- A split at a key, and then one of region 1 at the median, which finds too few keys.
abbrev twice : NodeState counters
twice = (ask_split counters clock 1 [] (ask_split counters clock 1 pear node).1).1

starts :
    main counters opener host clock args committed_put ≡ (ok ("10.0.0.1:80", node), committed_put)
unfolding main server_config overridden file_addr default_server start open_with_config
starts = refl

main-route_key_example :
    (config : Config counters opener host) × ((server_config counters opener host args
        committed_put).0
      ≡ ok config)
    × ("10.0.0.1:80" ≡ config.addr)
    × (3 ≡ config.node_id)
    × (r : Region) × (route_key apple twice.router ≡ ok r)
    × Owner apple r twice.router.regions_by_key
unfolding new
main-route_key_example =
    main-route_key counters opener host clock args committed_put committed_put "10.0.0.1:80" node
      twice apple starts (asked 1 [] (asked 1 pear started))
