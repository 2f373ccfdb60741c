-- ===== src/Txn/Coordinator/Scan/Skips.antt =====
-- Where `scan` of crates/txn-coordinator/src/coordinator.rs begins.
use distributed_acid_kv_stor.Common.{
  ℕ, ◌/◌, ◌%◌, ◌^◌, ◌<◌, ◌≡◌, ◌≢◌, sym, ap, ◌∙◌, subst, Bool-cases, inl, inr, true, none, List, [],
  ◌∷◌, ◌++◌, ◌-◌, length, drop, take-append-drop, map, ltb, All, Result, ok, err, arith,
  append_assoc,
}
use distributed_acid_kv_stor.Common.Bytes.{Bytes, compare_cons_prefix, ge_bytes, be_bytes, ◌≺◌}
use distributed_acid_kv_stor.Storage.Key.{KeyError, encode, decode, invert}
use distributed_acid_kv_stor.Storage.Fjall.{Fjall, Reliable, p_write}
use distributed_acid_kv_stor.Storage.Fjall.Entries.{Entry, from}
use distributed_acid_kv_stor.Txn.World.{World}
use distributed_acid_kv_stor.Txn.Coordinator.{scan}
use distributed_acid_kv_stor.Txn.Coordinator.Batch.{All-map}
use distributed_acid_kv_stor.Txn.Coordinator.Scan.{unread, OnItem, loop_sound, limit_cases}

from_above : (k : Bytes) (es : List Entry) → All (λ e. ge_bytes e.0 k ≡ true) (from k es)
from_above k [] = tt
from_above k ((j, v) ∷ es) = elim (Bool-cases (ge_bytes j k)) [
  | inl above ↦ rw above (above, from_above k es)
  | inr below ↦ rw below (from_above k es)
]

not_decoded :
    (e : KeyError) (x : Bytes × ℕ) → ◌≡◌ {A = Result KeyError (Bytes × ℕ)} (err e) (ok x) → ⊥
not_decoded e x h = cc

ok_same : (x y : Bytes × ℕ) → ◌≡◌ {A = Result KeyError (Bytes × ℕ)} (ok x) (ok y) → x ≡ y
ok_same x y h = cc

-- An encoded key starts with the user key.
decoded_starts : (e k : Bytes) (t : ℕ) → decode e ≡ ok (k, t) → (s : Bytes) × (e ≡ k ++ s)
unfolding decode
decoded_starts e k t h = elim (Bool-cases (ltb (length e) 8)) [
  | inl short ↦ absurd (not_decoded _ (k, t) (rw short at h))
  | inr long ↦
      let n = length e - 8 in
      (
        drop n e,
        sym (take-append-drop n e)
            ∙ ap (λ x. x ++ drop n e) (ap (λ x. x.0) (ok_same _ (k, t) (rw long at h))),
      )
]

be_bytes_first : (x : ℕ) → (s : Bytes) × (be_bytes 8 x ≡ (x / 256 ^ 7) % 256 ∷ s)
unfolding be_bytes
be_bytes_first x = (drop 1 (be_bytes 8 x), ap (λ y. y ∷ drop 1 (be_bytes 8 x)) (omega arith))

first_below :
    (c x : ℕ) (r s : Bytes) → c < (x / 256 ^ 7) % 256 → (c ∷ r) ≺ ((x / 256 ^ 7) % 256 ∷ s)
first_below c x r s h = ground arith

-- Every version of an extension of a key whose next byte is below the first of the inverted
-- timestamp stands before the version of the key.
extension_below :
    (k r : Bytes) (c ts : ℕ) → c < (invert ts / 256 ^ 7) % 256 → (k ++ c ∷ r) ≺ encode k ts
unfolding encode
extension_below k r c ts h =
    let (s, e) = be_bytes_first (invert ts) in
    compare_cons_prefix k (c ∷ r) (be_bytes 8 (invert ts))
    ∙ subst (λ b. (c ∷ r) ≺ b) (sym e) (first_below c (invert ts) r s h)

not_above : (a b : Bytes) → ge_bytes a b ≡ true → a ≺ b → ⊥
not_above a b h l = ground arith

no_item :
    (start_key key : Bytes) (read_ts t c : ℕ) (r e : Bytes)
    → c < (invert read_ts / 256 ^ 7) % 256
    → key ≡ start_key ++ c ∷ r
    → decode e ≡ ok (key, t)
    → ge_bytes e (encode start_key read_ts) ≡ true
    → ⊥
no_item start_key key read_ts t c r e less is d above =
    let (s, at) = decoded_starts e key t d in
    not_above e (encode start_key read_ts) above (
      subst (λ x. x ≺ encode start_key read_ts)
        (sym (at ∙ ap (λ x. x ++ s) is ∙ append_assoc start_key (c ∷ r) s))
        (extension_below start_key (r ++ s) c read_ts less))

module _ {db : Fjall} (rel : Reliable db) (clock : ℕ → ℕ) (x : ℕ) (xs end_key : Bytes)
    (limit read_ts : ℕ) where
  abbrev start_key : Bytes
  start_key = x ∷ xs

  above_items :
      (w : World db) (es : List Entry)
      → All (λ e. ge_bytes e.0 (encode start_key read_ts) ≡ true) es
      → All
          (OnItem db clock start_key end_key limit read_ts
            (λ e. ge_bytes e (encode start_key read_ts) ≡ true)
            w)
          (map ok es)
  above_items w [] a = tt
  above_items w (e ∷ es) a = (a.0, above_items w es a.1)

  -- On a keyspace that does not fail: a scan from a key that is not empty returns no extension of it
  -- of which the next byte is below the first byte of the inverted timestamp, whatever is stored.
  pub scan_skips :
      (w : World db) (out : List (Bytes × Bytes)) (c : ℕ) (r : Bytes)
      → c < (invert read_ts / 256 ^ 7) % 256
      → (scan db clock start_key end_key limit read_ts w).0 ≡ ok out
      → All (λ found. found.0 ≢ start_key ++ c ∷ r) out
  unfolding scan
  scan_skips w out c r less h =
      let seek = encode start_key read_ts in
      let sound =
        loop_sound db clock start_key end_key limit read_ts (λ e. ge_bytes e seek ≡ true) w
          (db.range w.keyspace p_write seek)
          (subst
            (All (OnItem db clock start_key end_key limit read_ts (λ e. ge_bytes e seek ≡ true) w))
            (sym (rel.range_lem w.keyspace p_write seek))
            (above_items w (from seek (rel.entries w.keyspace p_write))
              (from_above seek (rel.entries w.keyspace p_write))))
          none [] w out unread tt (limit_cases db clock start_key end_key limit read_ts) h in
      All-map
        (λ found seen same.
          let (e, t, d, above) = seen.1 in
          no_item start_key found.0 read_ts t c r e less same d above)
        out sound.0
