-- ===== src/Raft/Tests.antt =====
-- Runs of the raft crate at concrete inputs: regions that meet at `m`, and a log in memory.
use distributed_acid_kv_stor.Common.{
  ℕ, ◌≡◌, refl, inl, inr, some, List, [], ◌∷◌, ◌++◌, length, ok, arith, if◌then◌else◌, ltb,
}
use distributed_acid_kv_stor.Common.Bytes.{Bytes, lt_bytes}
use distributed_acid_kv_stor.Storage.Fjall.Memory.{memory, memory_reliable}
use distributed_acid_kv_stor.Storage.Example.{after_changes}
use distributed_acid_kv_stor.Common.BTreeMap as BTreeMap
use distributed_acid_kv_stor.Raft.Router.{
  Region, RegionRouter, contains_key, get_region, left_region, right_region, split_region,
}
use distributed_acid_kv_stor.Raft.Router.Cover.{Covers}
use distributed_acid_kv_stor.Raft.Router.Indexed.{IsIndexed, split_region_keeps}
use distributed_acid_kv_stor.Raft.Router.Split.{split_region-Covers}
use distributed_acid_kv_stor.Raft.Region as Sized
use distributed_acid_kv_stor.Raft.Region.Halves.{route-split_region}
use distributed_acid_kv_stor.Raft.Example.{pb}
use distributed_acid_kv_stor.Raft.Store.{RaftStorage, new, append, entries, term, set_hard_state}
use distributed_acid_kv_stor.Raft.Store.Log.{IsLog, term_from, term-append, entries_inside}
use distributed_acid_kv_stor.Raft.Node.{Readiness, RawNode, MultiRaftNode, payloads, process_ready}
use distributed_acid_kv_stor.Raft.Node.Ready.{term-process_ready}
use distributed_acid_kv_stor.Common.{◌+◌, true}
use distributed_acid_kv_stor.Raft.Store.Recovery.{new-set_hard_state}

-- The first keys of the regions, and keys inside the lower one.
abbrev m : Bytes
m = 109 ∷ []

abbrev g : Bytes
g = 103 ∷ []

abbrev c : Bytes
c = 99 ∷ []

abbrev lower : Region
lower = record {
  id = 1;
  start_key = [];
  end_key = m;
  peers = 1 ∷ 2 ∷ [];
  epoch = record { conf_ver = 1; version = 1 };
}

abbrev upper : Region
upper = record {
  id = 2;
  start_key = m;
  end_key = [];
  peers = 1 ∷ 2 ∷ [];
  epoch = record { conf_ver = 1; version = 1 };
}

abbrev two_regions : RegionRouter
two_regions = record {
  regions_by_id = (1, lower) ∷ (2, upper) ∷ [];
  regions_by_key = ([], lower) ∷ (m, upper) ∷ [];
}

two_regions-Covers : Covers (some []) two_regions.regions_by_key
two_regions-Covers = (refl, refl, inr refl, (refl, refl, inl refl, tt))

split_region-Covers_example :
    ((split_region 1 g 3 two_regions).0 ≡ ok (left_region lower g, right_region lower g 3))
    × Covers (some []) ((split_region 1 g 3 two_regions).1.regions_by_key)
unfolding contains_key get_region BTreeMap.get
split_region-Covers_example =
    split_region-Covers two_regions lower 1 3 g two_regions-Covers refl refl refl
      (λ h. ground arith)

abbrev sized : Sized.Region
sized = record { id = 1; start_key = c; end_key = m; leader_addr = []; size_bytes = 101 }

route-split_region_example :
    Sized.route c (
      Sized.insert_region (Sized.split_region sized g 3).0 (
        Sized.insert_region (Sized.split_region sized g 3).1 (Sized.insert_region sized Sized.new)))
    ≡ some (
        if lt_bytes c g then (Sized.split_region sized g 3).0 else (Sized.split_region sized g 3).1)
unfolding Sized.contains_key
route-split_region_example = route-split_region sized g 3 c (refl, inr refl) refl

abbrev old_log : List (ℕ × ℕ)
old_log = (0, 0) ∷ (1, 1) ∷ (2, 1) ∷ (3, 1) ∷ []

abbrev new_log : List (ℕ × ℕ)
new_log = (2, 2) ∷ (3, 2) ∷ []

abbrev storage : RaftStorage pb memory
storage = record {
  region_id = 7;
  keyspace = after_changes [];
  core = record { hard_state = 0; conf_state = 0; entries = old_log };
}

term-append_example :
    (t : RaftStorage pb memory) × (append pb memory new_log storage ≡ some (ok tt, t))
    × IsLog pb memory 0 t.core.entries
    × (term pb memory 3 t
        ≡ (if ltb 3 2 then term pb memory 3 storage else some (term_from pb memory 2 new_log 3)))
term-append_example =
    term-append pb memory storage (0, 0) (2, 2) ((1, 1) ∷ (2, 1) ∷ (3, 1) ∷ []) ((3, 2) ∷ []) 0 2 3
      refl (refl, (refl, (refl, (refl, tt)))) (refl, (refl, tt)) (omega arith) (omega arith)

entries_inside_example :
    (before es after : List (ℕ × ℕ)) × (entries pb memory 1 3 storage ≡ some (ok es))
    × (old_log ≡ before ++ (es ++ after))
    × (length before ≡ 1)
    × (length es ≡ 2)
    × IsLog pb memory 1 es
entries_inside_example =
    entries_inside pb memory storage (0, 0) ((1, 1) ∷ (2, 1) ∷ (3, 1) ∷ []) 0 1 3 refl
      (refl, (refl, (refl, (refl, tt)))) (omega arith) (omega arith) (omega arith) (omega arith)

new-set_hard_state_example :
    ((new pb memory (set_hard_state pb memory 4 storage).keyspace 7).core.hard_state ≡ 4)
    × ((new pb memory (set_hard_state pb memory 4 storage).keyspace 7).core.conf_state
        ≡ (new pb memory storage.keyspace 7).core.conf_state)
new-set_hard_state_example =
    new-set_hard_state pb memory memory_reliable storage 4 (4 ∷ []) refl refl

-- A raft crate that has always the new entries ready, and commits entry 1.
abbrev readiness : Readiness pb memory Bytes
readiness = record {
  entries = new_log;
  hs = some 2;
  messages = g ∷ [];
  committed_entries = (1, 1) ∷ [];
}

abbrev raw : RawNode pb memory
raw = record {
  State = ℕ;
  Message = Bytes;
  Error = ℕ;
  create = λ node_id s. ok 0;
  tick = λ s n. n;
  step = λ msg s n. (ok tt, n);
  propose = λ bytes s n. (ok tt, n);
  has_ready = λ s n. true;
  ready = λ s n. (readiness, n + 1);
  advance = λ r s n. n + 1;
}

abbrev raft_node : MultiRaftNode pb memory raw
raft_node = record { region_id = 7; raw_node = 0; storage = storage }

term-process_ready_example :
    (after : MultiRaftNode pb memory raw) × (process_ready pb memory raw raft_node
      ≡ some (ok (g ∷ [], payloads pb memory raw ((1, 1) ∷ [])), after))
    × IsLog pb memory 0 after.storage.core.entries
    × (term pb memory 3 after.storage
        ≡ (if ltb 3 2 then term pb memory 3 storage else some (term_from pb memory 2 new_log 3)))
term-process_ready_example =
    term-process_ready pb memory raw raft_node 1 readiness (0, 0) (2, 2)
      ((1, 1) ∷ (2, 1) ∷ (3, 1) ∷ []) ((3, 2) ∷ []) 0 2 3 refl refl refl refl
      (refl, (refl, (refl, (refl, tt)))) (refl, (refl, tt)) (omega arith) (omega arith)

two_regions-IsIndexed : IsIndexed two_regions
unfolding get_region BTreeMap.get
two_regions-IsIndexed id q h = ground arith

split_region_keeps_example :
    Covers (some []) ((split_region 1 g 3 two_regions).1.regions_by_key)
    × IsIndexed (split_region 1 g 3 two_regions).1
split_region_keeps_example =
    split_region_keeps two_regions 1 3 g two_regions-Covers two_regions-IsIndexed
