-- ===== src/Node/Main/Serves.antt =====
-- The nodes that `main` of crates/node/src/main.rs starts.
use distributed_acid_kv_stor.Common.{
  ℕ, ◌≡◌, ◌∙◌, sym, ap, subst, Result, ok, pure, lift, wrap, ◌>>=◌, bind_inv,
}
use distributed_acid_kv_stor.Common.Bytes.{Bytes}
use distributed_acid_kv_stor.Storage.Fjall.{Fjall}
use distributed_acid_kv_stor.Storage.Open.{Opener, open_with_config}
use distributed_acid_kv_stor.Raft.Router.{Region, route_key}
use distributed_acid_kv_stor.Raft.Router.Cover.{Owner, route_key-Owner}
use distributed_acid_kv_stor.Node.{RaftNodes, NodeState, new}
use distributed_acid_kv_stor.Node.Kv.Split.{IsRoutable, new-IsRoutable, Reached, Reached-IsRoutable}
use distributed_acid_kv_stor.Node.Main.{
  storage, raft_not_started, Start, or_fail, Host, Args, Config, server_config, start, main,
}

module _ {db : Fjall} (raft : RaftNodes db) (opener : Opener db) (host : Host opener)
    (clock : ℕ → ℕ) where
  ok_same : {E A : Type 0} (a b : A) → ◌≡◌ {A = Result E A} (ok a) (ok b) → a ≡ b
  ok_same a b h = cc

  -- What `start` does over the opened keyspace, and `main` with the configuration.
  abbrev with_keyspace :
      Config raft opener host → db.Keyspace → Start raft opener host (NodeState raft)
  with_keyspace config keyspace = do
    raft_node ←
        lift (or_fail raft opener host raft_not_started (raft.start keyspace config.node_id 1))
    pure (new raft config.node_id (record { keyspace = keyspace; reads = 1 }) (clock 0) raft_node)

  abbrev with_config :
      Config raft opener host → Start raft opener host (host.SocketAddr × NodeState raft)
  with_config config = do node ← start raft opener host clock config; pure (config.addr, node)

  start_new :
      (config : Config raft opener host) (disk : opener.Disk) (node : NodeState raft)
      → (start raft opener host clock config disk).0 ≡ ok node
      → (keyspace : db.Keyspace) × (raft_node : raft.Node) × (new raft config.node_id
            (record { keyspace = keyspace; reads = 1 })
            (clock 0)
            raft_node
          ≡ node)
  unfolding start
  start_new config disk node h =
      let opens = wrap storage (open_with_config opener config.data_dir config.storage_config) in
      let (keyspace, opened, rest) = bind_inv opens (with_keyspace config) disk node h in
      let (raft_node, ran, made) =
        bind_inv
          (lift (or_fail raft opener host raft_not_started (raft.start keyspace config.node_id 1)))
          (λ raft_node. pure (
            new raft config.node_id (record { keyspace = keyspace; reads = 1 }) (clock 0)
              raft_node))
          (opens disk).1 node rest in
      (keyspace, raft_node, ok_same _ node made)

  -- A node that main starts listens at the address of its configuration, with the id of it. After it
  -- was asked for any number of splits, each by a key or at the median and made or refused, every
  -- key is routed, and to the one region that holds it.
  pub main-route_key :
      (args : Args opener.PathBuf host.SocketAddr) (disk after : opener.Disk)
      (addr : host.SocketAddr) (node s : NodeState raft) (key : Bytes)
      → main raft opener host clock args disk ≡ (ok (addr, node), after)
      → Reached raft clock node s
      → (config : Config raft opener host) × ((server_config raft opener host args disk).0
          ≡ ok config)
        × (addr ≡ config.addr)
        × (node.node_id ≡ config.node_id)
        × (r : Region) × (route_key key s.router ≡ ok r)
        × Owner key r s.router.regions_by_key
  unfolding main new
  main-route_key args disk after addr node s key h reached =
      let (config, configured, rest) =
        bind_inv (server_config raft opener host args) with_config disk (addr, node)
          (ap (λ r. r.0) h) in
      let (n, starts, made) =
        bind_inv (start raft opener host clock config) (λ n. pure (config.addr, n))
          (server_config raft opener host args disk).1 (addr, node) rest in
      let same = ok_same (config.addr, n) (addr, node) made in
      let (keyspace, raft_node, is_new) =
        start_new config (server_config raft opener host args disk).1 n starts in
      let node_is = is_new ∙ ap (λ x. x.1) same in
      let routable =
        subst (λ x. IsRoutable raft clock x.router) node_is
          (new-IsRoutable raft clock config.node_id (clock 0)
            (record { keyspace = keyspace; reads = 1 }) raft_node) in
      let (r, routed, owner) =
        route_key-Owner key s.router (Reached-IsRoutable raft clock node s routable reached).0 in
      (
        config,
        configured,
        sym (ap (λ x. x.0) same),
        sym (ap (λ x. x.node_id) node_is),
        r,
        routed,
        owner,
      )
