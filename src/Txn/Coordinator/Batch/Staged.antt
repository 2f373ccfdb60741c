-- ===== src/Txn/Coordinator/Batch/Staged.antt =====
-- What `batch_prewrite` of crates/txn-coordinator/src/coordinator.rs stages of the values, and keys
-- whose versions do not interleave.
use distributed_acid_kv_stor.Common.{
  ℕ, ◌≤◌, ◌≡◌, ◌≢◌, refl, sym, ap, ◌∙◌, inl, inr, Option, some, List, [], ◌∷◌, ◌++◌, map, All,
}
use distributed_acid_kv_stor.Common.Bytes.{
  Apart, Apart-ne, Apart-symm, eq_bytes_refl, Bytes, eq_bytes_ne,
}
use distributed_acid_kv_stor.Storage.Key.{u64_max, encode}
use distributed_acid_kv_stor.Storage.Fjall.{BatchOp, effects, p_default}
use distributed_acid_kv_stor.Txn.Coordinator.{Mutation, put_value, delete_key, key, stage}
use distributed_acid_kv_stor.Txn.Coordinator.Commit.Keys.{AllDistinct, encode_ne}
use distributed_acid_kv_stor.Txn.Coordinator.Batch.{effects-append, All-map, All-zip, stages}
use distributed_acid_kv_stor.Storage.Versions.Places.{IsPlaced}
use distributed_acid_kv_stor.Storage.View.After.{KeepsPlaces}

-- Of no two keys is one a prefix of the other.
abbrev pub AllApart : List Bytes → Type 0
AllApart [] = Unit {0}
AllApart (k ∷ ks) = All (λ j. Apart k j) ks × AllApart ks

pub AllApart-AllDistinct : (ks : List Bytes) → AllApart ks → AllDistinct ks
AllApart-AllDistinct [] h = tt
AllApart-AllDistinct (k ∷ ks) h =
    (All-map (λ j a. Apart-ne k j a) ks h.0, AllApart-AllDistinct ks h.1)

-- The versions of such keys at one timestamp do not part those of any of them.
pub versions-IsPlaced :
    (ts : ℕ) (ks : List Bytes)
    → ts ≤ u64_max
    → AllApart ks
    → All (λ k. All (λ j. IsPlaced k (encode j ts)) ks) ks
versions-IsPlaced ts [] f h = tt
versions-IsPlaced ts (k ∷ ks) f h = (
  (inl (ts, f, refl), All-map (λ j a. inr (j, ts, f, refl, Apart-symm k j a)) ks h.0),
  All-zip (λ j a placed. (inr (k, ts, f, refl, a), placed)) ks h.0 (versions-IsPlaced ts ks f h.1),
)

module _ (start_ts : ℕ) (primary_key : Bytes) (lock_ttl : ℕ) (sf : start_ts ≤ u64_max) where
  stage-default_other :
      (m : Mutation) (k : Bytes) (old : Option Bytes)
      → k ≢ key m
      → effects (stage start_ts primary_key lock_ttl m) p_default (encode k start_ts) old ≡ old
  stage-default_other (put_value j v) k old n =
      rw
        (eq_bytes_ne (encode j start_ts) (encode k start_ts)
          (encode_ne j k start_ts sf (λ e. n (sym e))))
        refl
  stage-default_other (delete_key j) k old n = refl

  stages-default_other :
      (ms : List Mutation) (k : Bytes) (old : Option Bytes)
      → All (λ j. k ≢ j) (map key ms)
      → effects (stages start_ts primary_key lock_ttl ms) p_default (encode k start_ts) old ≡ old
  stages-default_other [] k old n = refl
  stages-default_other (m ∷ ms) k old n =
      effects-append (stage start_ts primary_key lock_ttl m)
        (stages start_ts primary_key lock_ttl ms) p_default (encode k start_ts) old
      ∙ ap (λ o. effects (stages start_ts primary_key lock_ttl ms) p_default (encode k start_ts) o)
          (stage-default_other m k old n.0)
      ∙ stages-default_other ms k old n.1

  -- The batch stores the value of a put.
  abbrev pub Stores : List BatchOp → Mutation → Type 0
  Stores b (put_value k v) =
      (old : Option Bytes) → effects b p_default (encode k start_ts) old ≡ some v
  Stores b (delete_key k) = Unit {0}

  Stores-later : (xs ys : List BatchOp) (m : Mutation) → Stores ys m → Stores (xs ++ ys) m
  Stores-later xs ys (put_value k v) h = λ old.
      effects-append xs ys p_default (encode k start_ts) old
      ∙ h (effects xs p_default (encode k start_ts) old)
  Stores-later xs ys (delete_key k) h = tt

  Stores-first :
      (m : Mutation) (ms : List Mutation)
      → All (λ j. key m ≢ j) (map key ms)
      → Stores (stages start_ts primary_key lock_ttl (m ∷ ms)) m
  Stores-first (put_value k v) ms n = λ old.
      effects-append (stage start_ts primary_key lock_ttl (put_value k v))
        (stages start_ts primary_key lock_ttl ms) p_default (encode k start_ts) old
      ∙ stages-default_other ms k _ n
      ∙ rw (eq_bytes_refl (encode k start_ts)) refl
  Stores-first (delete_key k) ms n = tt

  pub stages-Stores :
      (ms : List Mutation)
      → AllDistinct (map key ms)
      → All (Stores (stages start_ts primary_key lock_ttl ms)) ms
  stages-Stores [] d = tt
  stages-Stores (m ∷ ms) d = (
    Stores-first m ms d.0,
    All-map
        (λ n h.
          Stores-later (stage start_ts primary_key lock_ttl m)
            (stages start_ts primary_key lock_ttl ms) n h)
        ms (stages-Stores ms d.1),
  )

  All-append_KeepsPlaces :
      (k : Bytes) (m : Mutation) (ys : List BatchOp)
      → All (KeepsPlaces k) ys
      → All (KeepsPlaces k) (stage start_ts primary_key lock_ttl m ++ ys)
  All-append_KeepsPlaces k (put_value j v) ys h = (tt, (tt, h))
  All-append_KeepsPlaces k (delete_key j) ys h = (tt, h)

  pub stages-KeepsPlaces :
      (k : Bytes) (ms : List Mutation)
      → All (KeepsPlaces k) (stages start_ts primary_key lock_ttl ms)
  stages-KeepsPlaces k [] = tt
  stages-KeepsPlaces k (m ∷ ms) =
      All-append_KeepsPlaces k m (stages start_ts primary_key lock_ttl ms) (stages-KeepsPlaces k ms)
