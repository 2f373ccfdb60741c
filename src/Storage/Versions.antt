-- ===== src/Storage/Versions.antt =====
-- The loop `for item in write_p.range(seek_key..)` over the versions of one user key, which
-- storage/src/mvcc/reader.rs and txn-coordinator's lock_resolver.rs and coordinator.rs share.
pub mod Laws
pub mod Places
use distributed_acid_kv_stor.Common.{ℕ, List, [], ◌∷◌, Result, ok, err, if◌then◌else◌}
use distributed_acid_kv_stor.Common.Bytes.{Bytes, eq_bytes}
use distributed_acid_kv_stor.Storage.Key.{decode}
use distributed_acid_kv_stor.Storage.Fjall.Entries.{Entry}

-- What the body of a loop does: go on to the next item, or return from the function.
pub data Flow (A : Type 0) : Type 0 where
  next : Flow A
  done : A → Flow A

-- After the body has run, `rest` is what the remaining items give.
abbrev pub proceed : {E A : Type 0} → Result E (Flow A) → Result E (Flow A) → Result E (Flow A)
proceed (err e) rest = err e
proceed (ok next) rest = rest
proceed (ok (done a)) rest = ok (done a)

module _ {F E A : Type 0} (io : F → E) (corrupted : E) where
  -- An I/O error and a key that does not decode end the loop by an error, and the first foreign
  -- user key by `break`.
  unfoldable pub for_versions :
      Bytes → (ℕ → Bytes → Result E (Flow A)) → List (Result F Entry) → Result E (Flow A)
  for_versions key body [] = ok next
  for_versions key body (err e ∷ items) = err (io e)
  for_versions key body (ok (enc_key, bytes) ∷ items) =
      let rest = for_versions key body items in
      elim (decode enc_key) [
        | err _ ↦ err corrupted
        | ok (curr_user_key, commit_ts) ↦
            if eq_bytes curr_user_key key then proceed (body commit_ts bytes) rest else ok next
      ]
