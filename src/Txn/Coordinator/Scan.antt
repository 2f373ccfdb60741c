-- ===== src/Txn/Coordinator/Scan.antt =====
-- `scan` of crates/txn-coordinator/src/coordinator.rs.
pub mod Skips
mod Tests
use distributed_acid_kv_stor.Common.{
  ℕ, ◌+◌, ◌<◌, ◌≤◌, ◌≡◌, ◌⊎◌, inl, inr, refl, sym, ap, ◌∙◌, Bool, Bool-cases, true, false, not,
  ◌&&◌, Option, none, some, List, [], ◌∷◌, ◌++◌, length, All, Result, ok, err, subst, bind_inv, leb,
  ltb, if◌then◌else◌, arith, length-append, Exec, continue, pure, ◌>>=◌,
}
use distributed_acid_kv_stor.Common.Bytes.{Bytes, ge_bytes, lt_bytes, is_empty}
use distributed_acid_kv_stor.Storage.Key.{KeyError, encode, decode}
use distributed_acid_kv_stor.Storage.Engine.{is_last}
use distributed_acid_kv_stor.Storage.Fjall.{Fjall, p_write}
use distributed_acid_kv_stor.Storage.Fjall.Entries.{Entry}
use distributed_acid_kv_stor.Txn.World.{World, TxnError}
use distributed_acid_kv_stor.Txn.Coordinator.Batch.{All-map}
use distributed_acid_kv_stor.Txn.Coordinator.{get, keep_result, limit_reached, scan_loop, scan}

-- The worlds that reads at the timestamp, one after the other and nothing else, lead to.
pub data AfterReads (db : Fjall) (clock : ℕ → ℕ) (read_ts : ℕ) (w : World db)
    : World db → Type 0 where
  unread : AfterReads db clock read_ts w w
  read_next :
      {u : World db} (key : Bytes)
      → AfterReads db clock read_ts w u
      → AfterReads db clock read_ts w (get db clock key read_ts u).1

module _ (db : Fjall) (clock : ℕ → ℕ) (start_key end_key : Bytes) (limit read_ts : ℕ) where
  -- A key of the range, with the value that a read of it returns in the world or after other reads.
  abbrev pub IsRead : World db → Bytes × Bytes → Type 0
  IsRead w (key, value) =
      (ge_bytes key start_key ≡ true)
      × ((end_key ≡ []) ⊎ (lt_bytes key end_key ≡ true))
      × (u : World db) × AfterReads db clock read_ts w u
      × ((get db clock key read_ts u).0 ≡ ok (some value))

  abbrev pub IsBounded : List (Bytes × Bytes) → Type 0
  IsBounded results = (limit ≡ 0) ⊎ (length results ≤ limit)

  limit_cases : (limit ≡ 0) ⊎ (0 < limit)
  limit_cases = ground arith

module _ (db : Fjall) (clock : ℕ → ℕ) (start_key end_key : Bytes) (limit read_ts : ℕ)
    (P : Bytes → Type 0) (first : World db) where
  -- And that it was seen in an encoded key with the property.
  abbrev IsSeen : Bytes → Type 0
  IsSeen key = (e : Bytes) × (t : ℕ) × (decode e ≡ ok (key, t)) × P e

  abbrev IsFound : Bytes × Bytes → Type 0
  IsFound x = IsRead db clock start_key end_key limit read_ts first x × IsSeen x.0

  abbrev pub OnItem : Result db.Error Entry → Type 0
  OnItem (ok item) = P item.0
  OnItem (err e) = Unit {0}

  -- The loop goes on only below the limit.
  abbrev IsOpen : List (Bytes × Bytes) → Type 0
  IsOpen results = (limit ≡ 0) ⊎ (length results < limit)

  abbrev IsSound : List (Bytes × Bytes) → Type 0
  IsSound results = All IsFound results × ((limit ≡ 0) ⊎ (length results ≤ limit))

  All-snoc :
      (xs : List (Bytes × Bytes)) (x : Bytes × Bytes)
      → All IsFound xs
      → IsFound x
      → All IsFound (xs ++ x ∷ [])
  All-snoc [] x a h = (h, tt)
  All-snoc (y ∷ xs) x a h = (a.0, All-snoc xs x a.1 h)

  abbrev Loop : Type 0
  Loop =
      Option Bytes
      → List (Bytes × Bytes)
      → Exec (World db) (TxnError db.Error) (List (Bytes × Bytes))

  abbrev IsSafe : Loop → Type 0
  IsSafe loop =
      (last : Option Bytes) (results : List (Bytes × Bytes)) (w : World db)
      (out : List (Bytes × Bytes))
      → AfterReads db clock read_ts first w
      → All IsFound results
      → IsOpen results
      → (loop last results w).0 ≡ ok out
      → IsSound out

  ok_same :
      (a b : List (Bytes × Bytes))
      → ◌≡◌ {A = Result (TxnError db.Error) (List (Bytes × Bytes))} (ok a) (ok b)
      → a ≡ b
  ok_same a b h = cc

  length-snoc :
      (xs : List (Bytes × Bytes)) (x : Bytes × Bytes) → length (xs ++ x ∷ []) ≡ length xs + 1
  length-snoc xs x = length-append xs (x ∷ [])

  open_still :
      (n m : ℕ) → m ≡ n + 1 → (ltb 0 limit && leb limit m) ≡ false → (limit ≡ 0) ⊎ (m < limit)
  open_still n m e h = ground arith

  in_bound : (n m : ℕ) → m ≡ n + 1 → (limit ≡ 0) ⊎ (n < limit) → (limit ≡ 0) ⊎ (m ≤ limit)
  in_bound n m e (inl z) = inl z
  in_bound n m e (inr l) = inr (omega arith)

  open_bound : (n : ℕ) → (limit ≡ 0) ⊎ (n < limit) → (limit ≡ 0) ⊎ (n ≤ limit)
  open_bound n (inl z) = inl z
  open_bound n (inr l) = inr (omega arith)

  -- The rest of a turn, once the value is read.
  abbrev after_value :
      Loop
      → Bytes
      → List (Bytes × Bytes)
      → Option Bytes
      → Exec (World db) (TxnError db.Error) (List (Bytes × Bytes))
  after_value loop key results value =
      let results' = keep_result key value results in
      if limit_reached limit value results' then pure results' else loop (some key) results'

  value-IsSound :
      (loop : Loop) (key : Bytes) (results : List (Bytes × Bytes)) (value : Option Bytes)
      (u w : World db) (out : List (Bytes × Bytes))
      → IsSafe loop
      → AfterReads db clock read_ts first u
      → AfterReads db clock read_ts first w
      → All IsFound results
      → IsOpen results
      → IsSeen key
      → ge_bytes key start_key ≡ true
      → (end_key ≡ []) ⊎ (lt_bytes key end_key ≡ true)
      → (get db clock key read_ts u).0 ≡ ok value
      → (after_value loop key results value w).0 ≡ ok out
      → IsSound out
  unfolding keep_result limit_reached
  value-IsSound loop key results none u w out safe at_u at_w found under seen from below read h =
      safe (some key) results w out at_w found under h
  value-IsSound loop key results (some v) u w out safe at_u at_w found under seen from below read
        h =
      let found' = All-snoc results (key, v) found ((from, below, u, at_u, read), seen) in
      let len = length-snoc results (key, v) in
      elim (Bool-cases (ltb 0 limit && leb limit (length (results ++ (key, v) ∷ [])))) [
        | inl ends ↦
            let same = ok_same (results ++ (key, v) ∷ []) out (rw ends at h) in
            subst IsSound same
              (found', in_bound (length results) (length (results ++ (key, v) ∷ [])) len under)
        | inr goes_on ↦
            safe (some key) (results ++ (key, v) ∷ []) w out at_w found'
              (open_still (length results) (length (results ++ (key, v) ∷ [])) len goes_on)
              (rw goes_on at h)
      ]

  -- A turn of the loop at a version of a key.
  abbrev turn : Loop → Bytes → Loop
  turn loop key last results =
      if not (is_empty start_key) && lt_bytes key start_key
      then loop last results
      else if not (is_empty end_key) && ge_bytes key end_key
      then pure results
      else if is_last last key
      then loop last results
      else (get db clock key read_ts >>= after_value loop key results)

  from_start :
      (key : Bytes)
      → (not (is_empty start_key) && lt_bytes key start_key) ≡ false
      → ge_bytes key start_key ≡ true
  from_start key h = not_below start_key key h
    where
      not_below : (s k : Bytes) → (not (is_empty s) && lt_bytes k s) ≡ false → ge_bytes k s ≡ true
      not_below [] [] h = refl
      not_below [] (x ∷ k) h = refl
      not_below (y ∷ s) k h = ground arith

  below_end :
      (key : Bytes)
      → (not (is_empty end_key) && ge_bytes key end_key) ≡ false
      → (end_key ≡ []) ⊎ (lt_bytes key end_key ≡ true)
  below_end key h = not_above end_key key h
    where
      not_above :
          (s k : Bytes)
          → (not (is_empty s) && ge_bytes k s) ≡ false
          → (s ≡ []) ⊎ (lt_bytes k s ≡ true)
      not_above [] k h = inl refl
      not_above (y ∷ s) k h = inr (ground arith)

  turn_sound : (loop : Loop) (key : Bytes) → IsSeen key → IsSafe loop → IsSafe (turn loop key)
  turn_sound loop key seen safe last results w out at_w found under h =
      elim (Bool-cases (not (is_empty start_key) && lt_bytes key start_key)) [
        | inl before ↦ safe last results w out at_w found under (rw before at h)
        | inr from ↦ elim (Bool-cases (not (is_empty end_key) && ge_bytes key end_key)) [
          | inl past ↦
              subst IsSound (ok_same results out (rw (from, past) at h))
                (found, open_bound (length results) under)
          | inr below ↦ elim (Bool-cases (is_last last key)) [
            | inl again ↦ safe last results w out at_w found under (rw (from, below, again) at h)
            | inr first ↦
                let (value, read, rest) =
                  bind_inv (get db clock key read_ts) (after_value loop key results) w out
                    (rw (from, below, first) at h) in
                value-IsSound loop key results value w (get db clock key read_ts w).1 out safe at_w
                  (read_next key at_w) found under seen (from_start key from) (below_end key below)
                  read rest
          ]
        ]
      ]

  abbrev loop_of : List (Result db.Error Entry) → Loop
  loop_of items last results = scan_loop db clock start_key end_key limit read_ts items last results

  not_ok :
      (e : TxnError db.Error) (out : List (Bytes × Bytes))
      → ◌≡◌ {A = Result (TxnError db.Error) (List (Bytes × Bytes))} (err e) (ok out)
      → ⊥
  not_ok e out h = cc

  decoded_sound :
      (enc value : Bytes) (items : List (Result db.Error Entry)) (d : Result KeyError (Bytes × ℕ))
      → decode enc ≡ d
      → P enc
      → IsSafe (loop_of items)
      → IsSafe (loop_of (ok (enc, value) ∷ items))
  unfolding scan_loop
  decoded_sound enc value items (err e) at p safe last results w out at_w found under h =
      absurd (not_ok _ out (rw (scan_loop, at) at h))
  decoded_sound enc value items (ok (key, t)) at p safe last results w out at_w found under h =
      turn_sound (loop_of items) key (enc, t, at, p) safe last results w out at_w found under
        (rw (scan_loop, at) at h)

  pub loop_sound :
      (items : List (Result db.Error Entry)) → All OnItem items → IsSafe (loop_of items)
  unfolding scan_loop
  loop_sound [] on last results w out at_w found under h =
      subst IsSound (ok_same results out h) (found, open_bound (length results) under)
  loop_sound (err e ∷ items) on last results w out at_w found under h = absurd (not_ok _ out h)
  loop_sound (ok (enc, value) ∷ items) on last results w out at_w found under h =
      decoded_sound enc value items (decode enc) refl on.0 (loop_sound items on.1) last results w
        out at_w found under h

module _ (db : Fjall) (clock : ℕ → ℕ) (start_key end_key : Bytes) (limit read_ts : ℕ) where
  any_item :
      (w : World db) (items : List (Result db.Error Entry))
      → All (OnItem db clock start_key end_key limit read_ts (λ e. Unit {0}) w) items
  any_item w [] = tt
  any_item w (ok x ∷ items) = (tt, any_item w items)
  any_item w (err e ∷ items) = (tt, any_item w items)

  -- Whatever the engine does: each result of a scan that succeeds is a key of the range, which is not
  -- below the start key and, where the end key is not empty, below that, with the value that a read
  -- of the key at the timestamp returns in the world of the scan or in one that other reads at the
  -- timestamp lead to from it, and there are not more results than a limit above 0.
  pub scan_sound :
      (w : World db) (out : List (Bytes × Bytes))
      → (scan db clock start_key end_key limit read_ts w).0 ≡ ok out
      → All (IsRead db clock start_key end_key limit read_ts w) out
        × IsBounded db clock start_key end_key limit read_ts out
  unfolding scan
  scan_sound w out h =
      let sound =
        loop_sound db clock start_key end_key limit read_ts (λ e. Unit {0}) w _ (any_item w _) none
          [] w out unread tt (limit_cases db clock start_key end_key limit read_ts) h in
      (All-map (λ x f. f.0) out sound.0, sound.1)
