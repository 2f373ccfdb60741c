-- ===== src/Raft/Store/Recovery.antt =====
-- The hard state and the configuration that crates/raft-engine/src/store.rs reads back when it is
-- opened again.
use distributed_acid_kv_stor.Common.{
  ℕ, ◌≡◌, refl, Bool, false, Option, some, [], ◌∷◌, if◌then◌else◌, Result, ok, arith,
}
use distributed_acid_kv_stor.Common.Bytes.{Bytes, eq_bytes, eq_bytes_refl}
use distributed_acid_kv_stor.Storage.Fjall.{Fjall, insert, p_default, Reliable}
use distributed_acid_kv_stor.Storage.Fjall.Entries.{lookup}
use distributed_acid_kv_stor.Raft.Store.{
  Eraftpb, RaftStorage, hs_key, cs_key, stored_or, new, persist, set_hard_state,
}

module _ (pb : Eraftpb) (db : Fjall) where
  -- The keys of the hard state and of the configuration are apart.
  keys_apart : (region_id : ℕ) → eq_bytes (hs_key region_id) (cs_key region_id) ≡ false
  unfolding hs_key cs_key
  keys_apart region_id = refl

  if_ok :
      (c : Bool) (x y : Option Bytes)
      → ◌≡◌ {A = Result db.Error (Option Bytes)}
          (ok (if c then x else y))
          (if c then ok x else ok y)
  if_ok c x y = ground arith

  persisted_get :
      (r : Reliable db) (key j bytes : Bytes) (keyspace : db.Keyspace)
      → db.get (persist pb db key (some bytes) keyspace) p_default j
        ≡ (if eq_bytes key j then ok (some bytes) else db.get keyspace p_default j)
  unfolding persist
  persisted_get r key j bytes keyspace =
      rw
        (
          persist,
          r.commit_lem (insert p_default key bytes ∷ []) keyspace,
          r.get_lem (r.after (insert p_default key bytes ∷ []) keyspace) p_default j,
          r.lookup-after (insert p_default key bytes ∷ []) keyspace p_default j,
          r.get_lem keyspace p_default j,
        )
        (if_ok (eq_bytes key j) (some bytes) (lookup j (r.entries keyspace p_default)))

  -- On a keyspace that does not fail, and for messages that decode to what was encoded: a hard
  -- state that was set is the one read back when the storage is opened again, whatever was stored
  -- before, and the configuration read back is the one stored before.
  pub new-set_hard_state :
      (r : Reliable db) (s : RaftStorage pb db) (hs : pb.HardState) (bytes : Bytes)
      → pb.hard_state_bytes hs ≡ some bytes
      → pb.parse_hard_state bytes ≡ some hs
      → ((new pb db (set_hard_state pb db hs s).keyspace s.region_id).core.hard_state ≡ hs)
        × ((new pb db (set_hard_state pb db hs s).keyspace s.region_id).core.conf_state
            ≡ (new pb db s.keyspace s.region_id).core.conf_state)
  unfolding new set_hard_state stored_or
  new-set_hard_state r s hs bytes enc dec = (
    rw
        (
          enc,
          persisted_get r (hs_key s.region_id) (hs_key s.region_id) bytes s.keyspace,
          eq_bytes_refl (hs_key s.region_id),
          dec,
        )
        refl,
    rw
        (
          enc,
          persisted_get r (hs_key s.region_id) (cs_key s.region_id) bytes s.keyspace,
          keys_apart s.region_id,
        )
        refl,
  )
