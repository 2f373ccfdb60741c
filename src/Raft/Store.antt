-- ===== src/Raft/Store.antt =====
-- crates/raft-engine/src/store.rs: the log and state of one raft group, kept in memory and written
-- to the default partition. The core stands behind a lock that each method holds from start to
-- end, so a method is one step. `none` stands for a panic (an index or a slice out of range).
pub mod Log
pub mod Recovery
pub mod Keys
pub mod Placed
pub mod Loaded
pub mod Reopen
pub mod Suffix
mod Tests
use distributed_acid_kv_stor.Common.{
  ℕ, zero, suc, ◌+◌, ◌-◌, ◌*◌, ◌/◌, ◌%◌, ◌^◌, Bool, true, false, Option, none, some, List, [], ◌∷◌,
  ◌++◌, length, take, drop, get_elem?, ltb, leb, ◌==◌, if◌then◌else◌, ◌&&◌, Result, ok, err,
}
use distributed_acid_kv_stor.Common.Bytes.{Bytes, is_empty}
use distributed_acid_kv_stor.Storage.Fjall.{Fjall, BatchOp, insert, p_default}

-- `StorageError` of the raft crate, as far as this storage answers with it.
pub data StorageError : Type 0 where
  compacted unavailable : StorageError

-- The messages of the raft crate and their protobuf codec, which are not part of the repository.
pub record Eraftpb : Type 1 where
  pub Entry : Type 0
  pub HardState : Type 0
  pub ConfState : Type 0
  pub Snapshot : Type 0
  pub get_index : Entry → ℕ
  pub get_term : Entry → ℕ
  pub get_data : Entry → Bytes
  -- `Entry::default()` with index and term set
  pub entry : ℕ → ℕ → Entry
  pub default_hard_state : HardState
  pub default_conf_state : ConfState
  -- `Snapshot::default()` with index, term and configuration set in its metadata
  pub snapshot_at : ℕ → ℕ → ConfState → Snapshot
  pub entry_bytes : Entry → Option Bytes
  pub hard_state_bytes : HardState → Option Bytes
  pub conf_state_bytes : ConfState → Option Bytes
  pub parse_entry : Bytes → Option Entry
  pub parse_hard_state : Bytes → Option HardState
  pub parse_conf_state : Bytes → Option ConfState

-- The last `n` decimal digits of a number, as `{:0n}` prints a number of at most `n` digits.
abbrev pub padded : ℕ → ℕ → Bytes
padded zero x = []
padded (suc n) x = padded n (x / 10) ++ (48 + x % 10) ∷ []

abbrev strip : Bytes → Bytes
strip [] = []
strip (c ∷ []) = c ∷ []
strip (c ∷ d ∷ cs) = if c == 48 then strip (d ∷ cs) else c ∷ d ∷ cs

-- `{}` of a u64, which has at most 20 digits
abbrev pub decimal : ℕ → Bytes
decimal x = strip (padded 20 x)

-- "r_hs_"
unfoldable pub hs_key : ℕ → Bytes
hs_key region_id = (114 ∷ 95 ∷ 104 ∷ 115 ∷ 95 ∷ []) ++ decimal region_id

-- "r_cs_"
unfoldable pub cs_key : ℕ → Bytes
cs_key region_id = (114 ∷ 95 ∷ 99 ∷ 115 ∷ 95 ∷ []) ++ decimal region_id

-- "r_entry_"
unfoldable pub entry_prefix : ℕ → Bytes
entry_prefix region_id =
    (114 ∷ 95 ∷ 101 ∷ 110 ∷ 116 ∷ 114 ∷ 121 ∷ 95 ∷ []) ++ decimal region_id ++ 95 ∷ []

unfoldable pub entry_key : ℕ → ℕ → Bytes
entry_key region_id idx = entry_prefix region_id ++ padded 20 idx

abbrev pub starts_with : Bytes → Bytes → Bool
starts_with k [] = true
starts_with [] (p ∷ ps) = false
starts_with (x ∷ k) (p ∷ ps) = x == p && starts_with k ps

abbrev pub last : {A : Type 0} → List A → Option A
last [] = none
last (x ∷ []) = some x
last (x ∷ y ∷ xs) = last (y ∷ xs)

module _ (pb : Eraftpb) (db : Fjall) where
  pub record RaftStorageCore : Type 0 where
    pub hard_state : pb.HardState
    pub conf_state : pb.ConfState
    pub entries : List pb.Entry

  -- The keyspace of the engine stands beside the core.
  pub record RaftStorage : Type 0 where
    pub region_id : ℕ
    pub keyspace : db.Keyspace
    pub core : RaftStorageCore

  -- `parse_from_bytes(..).unwrap_or_default()` of what is stored, the default where nothing is.
  unfoldable pub stored_or :
      {A : Type 0} → (Bytes → Option A) → A → Result db.Error (Option Bytes) → A
  stored_or parse default (ok (some bytes)) = elim (parse bytes) [ some a ↦ a | none ↦ default ]
  stored_or parse default (ok none) = default
  stored_or parse default (err e) = default

  -- The loop of `new` over the range from the prefix on.
  unfoldable pub load_loop : Bytes → List (Result db.Error (Bytes × Bytes)) → List pb.Entry
  load_loop prefix [] = []
  load_loop prefix (err e ∷ items) = load_loop prefix items
  load_loop prefix (ok (k, v) ∷ items) =
      let rest = load_loop prefix items in
      if starts_with k prefix
      then elim (pb.parse_entry v) [ some e ↦ e ∷ rest | none ↦ rest ]
      else []

  unfoldable pub or_dummy : List pb.Entry → List pb.Entry
  or_dummy [] = pb.entry 0 0 ∷ []
  or_dummy (e ∷ es) = e ∷ es

  unfoldable pub new : db.Keyspace → ℕ → RaftStorage
  new keyspace region_id = record {
    region_id = region_id;
    keyspace = keyspace;
    core = record {
      hard_state =
          stored_or pb.parse_hard_state pb.default_hard_state
            (db.get keyspace p_default (hs_key region_id));
      conf_state =
          stored_or pb.parse_conf_state pb.default_conf_state
            (db.get keyspace p_default (cs_key region_id));
      entries = or_dummy (
          load_loop (entry_prefix region_id)
            (db.range keyspace p_default (entry_prefix region_id)));
    };
  }

  -- The changes that `append` stages.
  unfoldable pub entry_batch : ℕ → List pb.Entry → List BatchOp
  entry_batch region_id [] = []
  entry_batch region_id (e ∷ es) =
      let rest = entry_batch region_id es in
      elim (pb.entry_bytes e) [
        | some bytes ↦ insert p_default (entry_key region_id (pb.get_index e)) bytes ∷ rest
        | none ↦ rest
      ]

  -- The log in memory after `append`: cut at the first new index, then extended.
  unfoldable pub spliced : List pb.Entry → ℕ → List pb.Entry → List pb.Entry
  spliced old diff new_entries =
      (if ltb diff (length old) then take diff old else old) ++ new_entries

  unfoldable pub append :
      List pb.Entry → RaftStorage → Option (Result StorageError (Unit {0}) × RaftStorage)
  append [] s = some (ok tt, s)
  append (n ∷ ns) s = elim s.core.entries [
    | [] ↦ none
    | b ∷ bs ↦ some (
        if ltb (pb.get_index n) (pb.get_index b) then (err compacted, s) else (
          ok tt,
          record s {
            core = record s.core {
              entries = spliced (b ∷ bs) (pb.get_index n - pb.get_index b) (n ∷ ns);
            };
            keyspace = (db.commit (entry_batch s.region_id (n ∷ ns)) s.keyspace).1;
          },
        ))
  ]

  -- `set_hard_state` and `set_conf_state` write nothing where the message does not encode.
  unfoldable pub persist : Bytes → Option Bytes → db.Keyspace → db.Keyspace
  persist key none keyspace = keyspace
  persist key (some bytes) keyspace = (db.commit (insert p_default key bytes ∷ []) keyspace).1

  unfoldable pub set_hard_state : pb.HardState → RaftStorage → RaftStorage
  set_hard_state hs s = record s {
    core = record s.core { hard_state = hs };
    keyspace = persist (hs_key s.region_id) (pb.hard_state_bytes hs) s.keyspace;
  }

  unfoldable pub set_conf_state : pb.ConfState → RaftStorage → RaftStorage
  set_conf_state cs s = record s {
    core = record s.core { conf_state = cs };
    keyspace = persist (cs_key s.region_id) (pb.conf_state_bytes cs) s.keyspace;
  }

  unfoldable pub initial_state : RaftStorage → pb.HardState × pb.ConfState
  initial_state s = (s.core.hard_state, s.core.conf_state)

  -- `v[start..end]`
  unfoldable pub slice_of : ℕ → ℕ → List pb.Entry → Option (List pb.Entry)
  slice_of start end es =
      if leb start end && leb end (length es)
      then some (take (end - start) (drop start es))
      else none

  unfoldable pub last_index_of : List pb.Entry → ℕ
  last_index_of es = elim (last es) [ some e ↦ pb.get_index e | none ↦ 0 ]

  -- Where `high` is below the first index, the difference underflows and the call panics.
  unfoldable pub entries : ℕ → ℕ → RaftStorage → Option (Result StorageError (List pb.Entry))
  entries low high s = elim s.core.entries [
    | [] ↦ none
    | b ∷ bs ↦
        if ltb low (pb.get_index b)
        then some (err compacted)
        else if ltb ((last_index_of (b ∷ bs) + 1) % 2 ^ 64) high
        then some (err unavailable)
        else if ltb high (pb.get_index b)
        then none
        else elim (slice_of (low - pb.get_index b) (high - pb.get_index b) (b ∷ bs)) [
          | some es ↦ some (ok es)
          | none ↦ none
        ]
  ]

  unfoldable pub term : ℕ → RaftStorage → Option (Result StorageError ℕ)
  term idx s = elim s.core.entries [
    | [] ↦ none
    | b ∷ bs ↦
        if ltb idx (pb.get_index b)
        then some (err compacted)
        else elim (get_elem? (b ∷ bs) (idx - pb.get_index b)) [
          | some e ↦ some (ok (pb.get_term e))
          | none ↦ some (err unavailable)
        ]
  ]

  unfoldable pub first_index : RaftStorage → Option ℕ
  first_index s = elim s.core.entries [ [] ↦ none | b ∷ bs ↦ some ((pb.get_index b + 1) % 2 ^ 64) ]

  unfoldable pub last_index : RaftStorage → Option ℕ
  last_index s = elim (last s.core.entries) [ none ↦ none | some e ↦ some (pb.get_index e) ]

  unfoldable pub snapshot : RaftStorage → Option pb.Snapshot
  snapshot s = elim s.core.entries [
    | [] ↦ none
    | b ∷ bs ↦ some (pb.snapshot_at (pb.get_index b) (pb.get_term b) s.core.conf_state)
  ]
