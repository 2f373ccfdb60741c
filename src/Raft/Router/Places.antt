-- ===== src/Raft/Router/Places.antt =====
-- The map by start keys of crates/raft-engine/src/router.rs, whose regions lie end to end: where a
-- key stands in it, and what an insertion, a removal and a lookup do there.
use distributed_acid_kv_stor.Common.{
  ◌≡◌, ◌≢◌, refl, sym, ap, ◌∙◌, ◌⊎◌, inl, inr, true, false, Option, none, some, [], ◌∷◌, arith,
}
use distributed_acid_kv_stor.Common.Bytes.{
  Bytes, compare_bytes, ge_bytes, is_empty, ◌≺◌, ≺_trans, lt_of_gt, gt_of_lt, eq_of_compare_bytes,
  compare_bytes_refl,
}
use Prim.Native.Nat.Ordering.{eq, gt}
use distributed_acid_kv_stor.Common.BTreeMap as BTreeMap
use distributed_acid_kv_stor.Common.BTreeMap.{BTreeMap, bytes_order, insert, remove, same_key}
use distributed_acid_kv_stor.Raft.Router.{Region}
use distributed_acid_kv_stor.Raft.Router.Cover.{Covers, next_start}

-- `key` lies below the start of the next region, where there is one.
abbrev pub Below : Bytes → Option Bytes → Type 0
Below key n = (e : Bytes) → n ≡ some e → key ≺ e

-- The next region begins above this one.
next_above :
    (r : Region) (s : Bytes)
    → (is_empty r.end_key ≡ true) ⊎ (s ≺ r.end_key)
    → Below s (next_start r)
next_above r s grows e h = ground arith

pub Below-trans : (a b : Bytes) (n : Option Bytes) → a ≺ b → Below b n → Below a n
Below-trans a b n h k e ne = ≺_trans a b e h (k e ne)

pub insert_first :
    (k : Bytes) (v : Region) (n : Option Bytes) (m : BTreeMap Bytes Region)
    → Covers n m
    → Below k n
    → insert k v m ≡ (k, v) ∷ m
unfolding insert
insert_first k v n [] c b = refl
insert_first k v none (e ∷ m) c b = absurd c
insert_first k v (some s) ((j, r) ∷ m) (ke, se, grows, rest) b =
    rw (insert, ke, b s refl) (ap (λ x. (k, v) ∷ (x, r) ∷ m) ke)

pub remove-Below :
    (k : Bytes) (n : Option Bytes) (m : BTreeMap Bytes Region)
    → Covers n m
    → Below k n
    → remove k m ≡ m
unfolding remove
remove-Below k n [] c b = refl
remove-Below k none (e ∷ m) c b = absurd c
remove-Below k (some s) ((j, r) ∷ m) (ke, se, grows, rest) b = rw (
  remove-Below k (next_start r) m rest
      (Below-trans k s (next_start r) (b s refl) (next_above r s grows)),
  ke,
  same_key,
  b s refl,
)

pub get-Below :
    (k : Bytes) (n : Option Bytes) (m : BTreeMap Bytes Region)
    → Covers n m
    → Below k n
    → BTreeMap.get k m ≡ none
unfolding BTreeMap.get
get-Below k n [] c b = refl
get-Below k none (e ∷ m) c b = absurd c
get-Below k (some s) ((j, r) ∷ m) (ke, se, grows, rest) b = rw (
  ke,
  same_key,
  b s refl,
  get-Below k (next_start r) m rest
      (Below-trans k s (next_start r) (b s refl) (next_above r s grows)),
)

pub lt_of_ge : (a b : Bytes) → ge_bytes a b ≡ true → a ≢ b → b ≺ a
lt_of_ge a b h ne = ground (arith, eq_of_compare_bytes a b, lt_of_gt a b, ne)

pub above_nil : (a b : Bytes) → is_empty b ≡ true → a ≢ b → b ≺ a
above_nil [] [] h ne = absurd (ne refl)
above_nil (x ∷ xs) [] h ne = refl
above_nil a (y ∷ ys) h ne = ground arith

pub insert_after :
    (j k : Bytes) (r v : Region) (m : BTreeMap Bytes Region)
    → j ≺ k
    → insert k v ((j, r) ∷ m) ≡ (j, r) ∷ insert k v m
unfolding insert
insert_after j k r v m h = rw (insert, gt_of_lt j k h)

pub remove_after :
    (j k : Bytes) (r : Region) (m : BTreeMap Bytes Region)
    → j ≺ k
    → remove k ((j, r) ∷ m) ≡ (j, r) ∷ remove k m
unfolding remove
remove_after j k r m h = rw (same_key, gt_of_lt j k h)

pub remove_here :
    (k : Bytes) (r : Region) (m : BTreeMap Bytes Region) → remove k ((k, r) ∷ m) ≡ remove k m
unfolding remove
remove_here k r m = rw (same_key, compare_bytes_refl k)

pub not_empty_above : (a b : Bytes) → a ≺ b → is_empty b ≡ false
not_empty_above [] [] h = ground arith
not_empty_above (x ∷ xs) [] h = ground arith
not_empty_above a (y ∷ ys) h = refl

Below-itself : (k s : Bytes) → k ≺ s → Below k (some s)
Below-itself k s h e se = ground arith

pub none_is_not_some : (r : Region) → none ≡ some r → ⊥
none_is_not_some r h = ground arith

pub bytes_cases : (a b : Bytes) → (compare_bytes a b ≡ eq) ⊎ ((a ≺ b) ⊎ (compare_bytes a b ≡ gt))
bytes_cases a b = ground arith

-- The first region is the one looked up, or that one begins above it.
pub get_first :
    (k s : Bytes) (r old : Region) (m : BTreeMap Bytes Region)
    → Covers (some s) ((s, r) ∷ m)
    → BTreeMap.get k ((s, r) ∷ m) ≡ some old
    → ((k ≡ s) × (r ≡ old)) ⊎ ((s ≺ k) × (BTreeMap.get k m ≡ some old))
unfolding BTreeMap.get
get_first k s r old m all g = elim (bytes_cases k s) [
  | inl same ↦ inl (eq_of_compare_bytes k s same, ground arith)
  | inr (inl below) ↦ absurd (
      none_is_not_some old
        (sym (get-Below k (some s) ((s, r) ∷ m) all (Below-itself k s below)) ∙ g))
  | inr (inr above) ↦ inr (lt_of_gt k s above, ground arith)
]
