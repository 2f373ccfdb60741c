-- ===== src/Node/Kv/Split.antt =====
-- The splits that `ask_split` of crates/node/src/service.rs makes of the regions of a node.
use distributed_acid_kv_stor.Common.{
  ℕ, ◌+◌, ◌%◌, ◌^◌, refl, sym, subst, inl, arith, ◌≡◌, Option, none, some, [], Result, ok, err,
}
use distributed_acid_kv_stor.Common.Bytes.{Bytes}
use distributed_acid_kv_stor.Storage.Fjall.{Fjall}
use distributed_acid_kv_stor.Raft.Router.{
  Region, RegionRouter, RouterError, new_region, insert_region, get_region, split_region,
}
use distributed_acid_kv_stor.Raft.Router.Cover.{Covers}
use distributed_acid_kv_stor.Raft.Router.Indexed.{IsIndexed, split_region_keeps}
use distributed_acid_kv_stor.Common.BTreeMap as BTreeMap
use distributed_acid_kv_stor.Txn.World.{World}
use distributed_acid_kv_stor.Node.{new, RaftNodes, NodeState, alloc_region_id}
use distributed_acid_kv_stor.Node.Kv.{
  AskSplitResponse, failed, no_split_key, chosen_key, add_node, after_split, split_at, ask_split,
}

module _ {db : Fjall} (raft : RaftNodes db) (clock : ℕ → ℕ) where
  add_node_router :
      (id : ℕ) (o : Option raft.Node) (s : NodeState raft)
      → (add_node raft clock id o s).router ≡ s.router
  unfolding add_node
  add_node_router id none s = refl
  add_node_router id (some n) s = refl

  after_split_router :
      (id : ℕ) (r : Result RouterError (Region × Region)) (s : NodeState raft)
      → (after_split raft clock id r s).1.router ≡ s.router
  unfolding after_split
  after_split_router id (err e) s = refl
  after_split_router id (ok (l, r)) s =
      add_node_router id (raft.start s.world.keyspace s.node_id id) s

  -- The regions cover the key space, and the two maps agree.
  abbrev pub IsRoutable : RegionRouter → Type 0
  IsRoutable router = Covers (some []) router.regions_by_key × IsIndexed router

  split_at-IsRoutable :
      (s : NodeState raft) (region_id : ℕ) (k : Bytes)
      → IsRoutable s.router
      → IsRoutable (split_at raft clock region_id k s).1.router
  unfolding split_at alloc_region_id
  split_at-IsRoutable s region_id k routable =
      subst IsRoutable
        (sym (
          after_split_router s.next_region_id (split_region region_id k s.next_region_id s.router).0
            (record s {
              next_region_id = (s.next_region_id + 1) % 2 ^ 64;
              router = (split_region region_id k s.next_region_id s.router).1;
            })))
        (split_region_keeps s.router region_id s.next_region_id k routable.0 routable.1)

  chosen-IsRoutable :
      (s : NodeState raft) (region_id : ℕ) (o : Option Bytes)
      → IsRoutable s.router
      → IsRoutable (
          (elim o as (λ _. AskSplitResponse × NodeState raft) [
            | none ↦ (failed no_split_key, s)
            | some k ↦ split_at raft clock region_id k s
          ]).1.router)
  chosen-IsRoutable s region_id none routable = routable
  chosen-IsRoutable s region_id (some k) routable = split_at-IsRoutable s region_id k routable

  ask_split_found :
      (s : NodeState raft) (region_id : ℕ) (split_key : Bytes) (o : Option Region)
      → get_region region_id s.router ≡ o
      → IsRoutable s.router
      → IsRoutable (ask_split raft clock region_id split_key s).1.router
  unfolding ask_split
  ask_split_found s region_id split_key none e routable = rw (ask_split, e) routable
  ask_split_found s region_id split_key (some region) e routable =
      rw (ask_split, e)
        (chosen-IsRoutable s region_id (chosen_key raft clock split_key region s.world.keyspace)
          routable)

  -- The router of a new node has the one region of all keys: it is routable.
  pub new-IsRoutable :
      (node_id now_ms : ℕ) (world : World db) (node : raft.Node)
      → IsRoutable (new raft node_id world now_ms node).router
  unfolding new insert_region BTreeMap.insert new_region get_region BTreeMap.get
  new-IsRoutable node_id now_ms world node = ((refl, refl, inl refl, tt), λ id q h. ground arith)

  -- The states of a node that is asked for splits.
  pub data Reached (first : NodeState raft) : NodeState raft → Type 0 where
    started : Reached first first
    asked :
        {s : NodeState raft} (region_id : ℕ) (split_key : Bytes)
        → Reached first s
        → Reached first (ask_split raft clock region_id split_key s).1

  pub Reached-IsRoutable :
      (first s : NodeState raft) → IsRoutable first.router → Reached first s → IsRoutable s.router
  Reached-IsRoutable first s routable started = routable
  Reached-IsRoutable first s routable (asked {s = t} region_id split_key before) =
      ask_split_found t region_id split_key (get_region region_id t.router) refl
        (Reached-IsRoutable first t routable before)
