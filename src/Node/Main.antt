-- ===== src/Node/Main.antt =====
-- How a node starts: crates/node/src/main.rs and `NodeState::new` of src/server.rs.
pub mod Serves
mod Tests
use Prim.Native.String.{String}
use distributed_acid_kv_stor.Common.{
  ℕ, Option, none, some, List, [], ◌∷◌, Result, ok, err, map_err, Exec, pure, lift, wrap, continue,
  ◌>>=◌, ◌>>◌,
}
use distributed_acid_kv_stor.Storage.Fjall.{Fjall}
use distributed_acid_kv_stor.Storage.Engine.{StorageError}
use distributed_acid_kv_stor.Storage.Open.{StorageConfig, default_config, Opener, open_with_config}
use distributed_acid_kv_stor.Node.{RaftNodes, NodeState, new}

-- Why a node does not start. The last two are panics, of `unwrap` and of `expect`.
pub data StartError (F : Type 0) : Type 0 where
  file_not_read : StartError F
  file_not_parsed : StartError F
  address_not_parsed : StartError F
  storage : StorageError F → StartError F
  default_not_parsed : StartError F
  raft_not_started : StartError F

-- The values in a configuration file, each of which may be missing.
pub record ConfigFile (PathBuf : Type 0) : Type 0 where
  pub node_id : Option ℕ
  pub grpc_addr : Option String
  pub storage_path : Option PathBuf

-- `ServerConfig` of src/server.rs
pub record ServerConfig (PathBuf SocketAddr : Type 0) : Type 0 where
  pub node_id : ℕ
  pub addr : SocketAddr
  pub data_dir : PathBuf
  pub raft_tick_ms : ℕ
  pub storage_config : StorageConfig

-- The command line as clap has parsed it, with its defaults filled in.
pub record Args (PathBuf SocketAddr : Type 0) : Type 0 where
  pub node_id : ℕ
  pub addr : SocketAddr
  pub data_dir : PathBuf
  pub config : Option PathBuf

-- What the start calls of the standard library and of the toml crate.
pub record Host {db : Fjall} (opener : Opener db) : Type 1 where
  pub SocketAddr : Type 0
  pub parse_addr : String → Option SocketAddr
  pub path_of : String → opener.PathBuf
  pub read_to_string : opener.PathBuf → opener.Disk → Option String
  pub parse_toml : String → Option (ConfigFile opener.PathBuf)

module _ {db : Fjall} (raft : RaftNodes db) (opener : Opener db) (host : Host opener) where
  abbrev pub Start : Type 0 → Type 0
  Start A = Exec opener.Disk (StartError db.Error) A

  abbrev pub Config : Type 0
  Config = ServerConfig opener.PathBuf host.SocketAddr

  abbrev pub or_fail :
      {A : Type 0} → StartError db.Error → Option A → Result (StartError db.Error) A
  or_fail e none = err e
  or_fail e (some a) = ok a

  abbrev pub or_else : {A : Type 0} → A → Option A → A
  or_else a none = a
  or_else a (some b) = b

  abbrev read_file : opener.PathBuf → Start String
  read_file path disk = (or_fail file_not_read (host.read_to_string path disk), disk)

  -- `ServerConfig::default()`
  unfoldable pub default_server : Result (StartError db.Error) Config
  default_server = elim (host.parse_addr "127.0.0.1:50051") [
    | none ↦ err default_not_parsed
    | some addr ↦ ok (record {
      node_id = 1;
      addr = addr;
      data_dir = host.path_of "./data/node-1";
      raft_tick_ms = 100;
      storage_config = default_config;
    })
  ]

  -- The address of the file, or else that of the command line.
  unfoldable pub file_addr :
      host.SocketAddr → Option String → Result (StartError db.Error) host.SocketAddr
  file_addr addr none = ok addr
  file_addr addr (some text) = or_fail address_not_parsed (host.parse_addr text)

  -- The command line with what the file says in its place.
  unfoldable pub overridden :
      Args opener.PathBuf host.SocketAddr → Start (Args opener.PathBuf host.SocketAddr)
  overridden args = elim args.config [
    | none ↦ pure args
    | some config_path ↦ do
      content ← read_file config_path
      parsed ← lift (or_fail file_not_parsed (host.parse_toml content))
      addr ← lift (file_addr args.addr parsed.grpc_addr)
      pure (record args {
        node_id = or_else args.node_id parsed.node_id;
        addr = addr;
        data_dir = or_else args.data_dir parsed.storage_path;
      })
  ]

  unfoldable pub server_config : Args opener.PathBuf host.SocketAddr → Start Config
  server_config args = do
    given ← overridden args
    default ← lift default_server
    pure (record default { node_id = given.node_id; addr = given.addr; data_dir = given.data_dir })

  -- `NodeState::new`. The clock is read once, by the hybrid logical clock.
  unfoldable pub start : (ℕ → ℕ) → Config → Start (NodeState raft)
  start clock config = do
    keyspace ← wrap storage (open_with_config opener config.data_dir config.storage_config)
    raft_node ← lift (or_fail raft_not_started (raft.start keyspace config.node_id 1))
    pure (new raft config.node_id (record { keyspace = keyspace; reads = 1 }) (clock 0) raft_node)

  -- `main`, up to the server that listens at an address with the services over a node.
  unfoldable pub main :
      (ℕ → ℕ) → Args opener.PathBuf host.SocketAddr → Start (host.SocketAddr × NodeState raft)
  main clock args = do
    config ← server_config args
    node ← start clock config
    pure (config.addr, node)
