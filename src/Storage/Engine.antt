-- ===== src/Storage/Engine.antt =====
-- crates/storage/src/engine.rs: errors, garbage collection and the key statistics of a range.
-- The partition accessors and `batch` are calls of fjall and carry no logic.
pub mod Forgets
pub mod Spares
pub mod Removals
pub mod Dropped
mod Tests
pub mod Preserves
use Prim.Native.String.{String}
use distributed_acid_kv_stor.Common.{
  ℕ, ◌+◌, ◌/◌, ◌%◌, ◌^◌, Bool, true, false, not, ◌&&◌, ◌||◌, Option, none, some, List, [], ◌∷◌,
  ◌++◌, Result, ok, err, map_err, Exec, pure, wrap, ◌>>◌, if◌then◌else◌, ltb, length, get_elem?,
}
use distributed_acid_kv_stor.Common.Bytes.{Bytes, eq_bytes, lt_bytes, ge_bytes, is_empty}
use distributed_acid_kv_stor.Storage.Key.{encode, decode}
use distributed_acid_kv_stor.Storage.Record.{WriteRecord, from_bytes}
use distributed_acid_kv_stor.Storage.Fjall.{Fjall, BatchOp, remove, p_default, p_write}
use distributed_acid_kv_stor.Storage.Fjall.Entries.{Entry}

pub data StorageError (F : Type 0) : Type 0 where
  fjall : F → StorageError F
  missing_partition : String → StorageError F

-- `last.as_deref() == Some(user_key)`
abbrev pub is_last : Option Bytes → Bytes → Bool
is_last none k = false
is_last (some j) k = eq_bytes j k

-- The local variables of `gc_keys_older_than`.
pub record GcState : Type 0 where
  pub batch : List BatchOp
  pub gc_count : ℕ
  pub last_user_key : Option Bytes
  pub seen_below_safe_point : Bool

-- `if last_user_key.as_deref() != Some(user_key) { … }`
unfoldable pub gc_enter : Bytes → GcState → GcState
gc_enter user_key g =
    if is_last g.last_user_key user_key
    then g
    else record g { last_user_key = some user_key; seen_below_safe_point = false }

-- The calls that stage the removal of one old version.
unfoldable pub gc_remove : Bytes → Bytes → Option WriteRecord → List BatchOp
gc_remove enc_key user_key none = remove p_write enc_key ∷ []
gc_remove enc_key user_key (some rec) =
    remove p_write enc_key ∷ remove p_default (encode user_key rec.start_ts) ∷ []

unfoldable pub gc_version : ℕ → Bytes → Bytes → Bytes → ℕ → GcState → GcState
unfolding gc_remove
gc_version safe_point_ts enc_key write_bytes user_key commit_ts g =
    if ltb commit_ts safe_point_ts
    then (if g.seen_below_safe_point
        then record g {
          batch = g.batch ++ gc_remove enc_key user_key (from_bytes write_bytes);
          gc_count = g.gc_count + 1;
        }
        else record g { seen_below_safe_point = true })
    else g

unfoldable pub gc_item : ℕ → Entry → GcState → GcState
unfolding gc_enter gc_version
gc_item safe_point_ts (enc_key, write_bytes) g = elim (decode enc_key) [
  | err _ ↦ g
  | ok (user_key, commit_ts) ↦
      gc_version safe_point_ts enc_key write_bytes user_key commit_ts (gc_enter user_key g)
]

unfoldable pub gc_loop : {F : Type 0} → ℕ → List (Result F Entry) → GcState → Result F GcState
gc_loop safe_point_ts [] g = ok g
gc_loop safe_point_ts (err e ∷ items) g = err e
gc_loop safe_point_ts (ok item ∷ items) g =
    gc_loop safe_point_ts items (gc_item safe_point_ts item g)

abbrev pub gc_start : GcState
gc_start = record { batch = []; gc_count = 0; last_user_key = none; seen_below_safe_point = false }

-- `!start_key.is_empty() && user_key < start_key` and the like: the key is skipped.
unfoldable pub out_of_range : Bytes → Bytes → Bytes → Bool
out_of_range start_key end_key user_key =
    (not (is_empty start_key) && lt_bytes user_key start_key)
    || (not (is_empty end_key) && ge_bytes user_key end_key)

-- The loop of `get_keys_in_range`.
unfoldable pub keys_loop :
    {F : Type 0}
    → Bytes
    → Bytes
    → List (Result F Entry)
    → Option Bytes
    → List Bytes
    → Result F (List Bytes)
keys_loop start_key end_key [] last_seen keys = ok keys
keys_loop start_key end_key (err e ∷ items) last_seen keys = err e
keys_loop start_key end_key (ok (enc_key, _) ∷ items) last_seen keys = elim (decode enc_key) [
  | err _ ↦ keys_loop start_key end_key items last_seen keys
  | ok (user_key, _) ↦
      let skip = out_of_range start_key end_key user_key || is_last last_seen user_key in
      keys_loop start_key end_key items (if skip then last_seen else some user_key)
        (if skip then keys else keys ++ user_key ∷ [])
]

-- `sort` of byte strings, and `dedup` of equal neighbours.
unfoldable pub insert_key : Bytes → List Bytes → List Bytes
insert_key k [] = k ∷ []
insert_key k (j ∷ js) = let rest = insert_key k js in if lt_bytes j k then j ∷ rest else k ∷ j ∷ js

unfoldable pub sort : List Bytes → List Bytes
unfolding insert_key
sort [] = []
sort (k ∷ ks) = insert_key k (sort ks)

-- The keys that follow a kept key.
unfoldable pub dedup_from : Bytes → List Bytes → List Bytes
dedup_from k [] = []
dedup_from k (j ∷ js) =
    let same = eq_bytes k j in
    let rest = dedup_from (if same then k else j) js in if same then rest else j ∷ rest

unfoldable pub dedup : List Bytes → List Bytes
unfolding dedup_from
dedup [] = []
dedup (k ∷ ks) = k ∷ dedup_from k ks

pub record RegionStats : Type 0 where
  pub key_count : ℕ
  pub total_bytes : ℕ

unfoldable pub stats_loop :
    {F : Type 0}
    → Bytes
    → Bytes
    → List (Result F Entry)
    → Option Bytes
    → RegionStats
    → Result F RegionStats
stats_loop start_key end_key [] last_seen stats = ok stats
stats_loop start_key end_key (err e ∷ items) last_seen stats = err e
stats_loop start_key end_key (ok (enc_key, val_bytes) ∷ items) last_seen stats =
    elim (decode enc_key) [
      | err _ ↦ stats_loop start_key end_key items last_seen stats
      | ok (user_key, _) ↦
          let skip = out_of_range start_key end_key user_key in
          let total = (stats.total_bytes + (length enc_key + length val_bytes)) % 2 ^ 64 in
          stats_loop start_key end_key items (if skip then last_seen else some user_key) (
            if skip then stats else record {
              key_count =
                  if is_last last_seen user_key
                  then stats.key_count
                  else (stats.key_count + 1) % 2 ^ 64;
              total_bytes = total;
            })
    ]

-- `if keys.len() < 2 { None } else { Some(keys[keys.len() / 2].clone()) }`
unfoldable pub median : List Bytes → Option Bytes
median keys = if ltb (length keys) 2 then none else get_elem? keys (length keys / 2)

module _ (db : Fjall) where
  -- `if gc_count > 0 { self.commit_batch(batch)?; } Ok(gc_count)`
  unfoldable pub gc_finish : Result db.Error GcState → Exec db.Keyspace (StorageError db.Error) ℕ
  gc_finish (err e) s = (err (fjall e), s)
  gc_finish (ok g) s =
      if ltb 0 g.gc_count
      then (do wrap fjall (db.commit g.batch); pure g.gc_count) s
      else (ok g.gc_count, s)

  unfoldable pub gc_keys_older_than : ℕ → Exec db.Keyspace (StorageError db.Error) ℕ
  unfolding gc_loop gc_finish
  gc_keys_older_than safe_point_ts s =
      gc_finish (gc_loop safe_point_ts (db.iter s p_write) gc_start) s

  unfoldable pub get_keys_in_range :
      Bytes → Bytes → db.Keyspace → Result (StorageError db.Error) (List Bytes)
  unfolding keys_loop sort dedup
  get_keys_in_range start_key end_key s =
      elim (keys_loop start_key end_key (db.iter s p_write) none []) [
        | err e ↦ err (fjall e)
        | ok keys ↦ ok (dedup (sort keys))
      ]

  unfoldable pub calculate_region_stats :
      Bytes → Bytes → db.Keyspace → Result (StorageError db.Error) RegionStats
  unfolding stats_loop
  calculate_region_stats start_key end_key s = map_err fjall (
      stats_loop start_key end_key (db.iter s p_write) none
        (record { key_count = 0; total_bytes = 0 }))

  unfoldable pub find_median_key :
      Bytes → Bytes → db.Keyspace → Result (StorageError db.Error) (Option Bytes)
  unfolding get_keys_in_range median
  find_median_key start_key end_key s = elim (get_keys_in_range start_key end_key s) [
    | err e ↦ err e
    | ok keys ↦ ok (median keys)
  ]
