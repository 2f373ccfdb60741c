-- ===== src/Raft/Router/Halves.antt =====
-- The two halves of a split in the map of crates/raft-engine/src/router.rs.
use distributed_acid_kv_stor.Common.{
  ℕ, ◌≡◌, ◌≢◌, refl, sym, ◌⊎◌, inl, inr, true, Bool-cases, Option, none, some, [], ◌∷◌, subst,
  arith,
}
use distributed_acid_kv_stor.Common.Bytes.{Bytes, ge_bytes, is_empty, ◌≺◌, ≺_trans}
use distributed_acid_kv_stor.Common.BTreeMap as BTreeMap
use distributed_acid_kv_stor.Common.BTreeMap.{BTreeMap, bytes_order, insert, remove, same_key}
use distributed_acid_kv_stor.Raft.Router.{Region, contains_key, left_region, right_region}
use distributed_acid_kv_stor.Raft.Router.Cover.{Covers, next_start}
use distributed_acid_kv_stor.Raft.Router.Places.{
  Below, Below-trans, insert_first, remove-Below, lt_of_ge, above_nil, insert_after, remove_after,
  remove_here, not_empty_above, none_is_not_some, get_first,
}

-- What the split asks of the region and the key.
pub record SplitsAt (old : Region) (split_key : Bytes) : Type 0 where
  pub above : old.start_key ≺ split_key
  pub before : (is_empty old.end_key ≡ true) ⊎ (split_key ≺ old.end_key)

pub contains_splits :
    (old : Region) (k : Bytes) → contains_key old k ≡ true → k ≢ old.start_key → SplitsAt old k
unfolding contains_key
contains_splits old k held ne = record {
  above = elim (Bool-cases (ge_bytes k old.start_key)) [
    | inl at_least ↦ lt_of_ge k old.start_key at_least ne
    | inr under ↦ above_nil k old.start_key (ground arith) ne
  ];
  before = ground arith;
}

pub before_next :
    (old : Region) (k : Bytes)
    → (is_empty old.end_key ≡ true) ⊎ (k ≺ old.end_key)
    → Below k (next_start old)
before_next old k h e n = ground arith

-- Two regions in place of the one under the first key.
abbrev pub halves : Bytes → Region → Bytes → Region → BTreeMap Bytes Region → BTreeMap Bytes Region
halves s l k r m = insert k r (insert s l (remove s m))

halves_here :
    (s k : Bytes) (old l r : Region) (n : Option Bytes) (m : BTreeMap Bytes Region)
    → Covers n m
    → s ≺ k
    → Below k n
    → halves s l k r ((s, old) ∷ m) ≡ (s, l) ∷ (k, r) ∷ m
halves_here s k old l r n m c h b = rw (
  remove_here s old m,
  remove-Below s n m c (Below-trans s k n h b),
  insert_first s l n m c (Below-trans s k n h b),
  insert_after s k l r m h,
  insert_first k r n m c b,
)

halves_after :
    (j s k : Bytes) (q l r : Region) (m : BTreeMap Bytes Region)
    → j ≺ s
    → s ≺ k
    → halves s l k r ((j, q) ∷ m) ≡ (j, q) ∷ halves s l k r m
halves_after j s k q l r m h hk = rw (
  remove_after j s q m h,
  insert_after j s q l (remove s m) h,
  insert_after j k q r (insert s l (remove s m)) (≺_trans j s k h hk),
)

halves_cover :
    (s k : Bytes) (old : Region) (m : BTreeMap Bytes Region) (new_id : ℕ)
    → old.start_key ≡ s
    → Covers (next_start old) m
    → s ≺ k
    → (is_empty old.end_key ≡ true) ⊎ (k ≺ old.end_key)
    → Covers (some s) ((s, left_region old k) ∷ (k, right_region old k new_id) ∷ m)
unfolding left_region right_region
halves_cover s k old m new_id se rest above before =
    (refl, se, inr above, rw (not_empty_above s k above) (refl, refl, before, rest))

-- The two halves in place of the old region, where it is the first one.
split_first :
    (j s k : Bytes) (r old : Region) (m : BTreeMap Bytes Region) (new_id : ℕ)
    → j ≡ s
    → Covers (next_start r) m
    → old.start_key ≡ s
    → r ≡ old
    → SplitsAt old k
    → Covers
        (some s)
        (halves old.start_key (left_region old k) k (right_region old k new_id) ((j, r) ∷ m))
split_first j s k r old m new_id ke rest same is_old at =
    let above = subst (λ x. x ≺ k) same at.above in
    let placed = subst (λ q. Covers (next_start q) m) is_old rest in
    subst
      (λ x.
        Covers (some s) (halves x (left_region old k) k (right_region old k new_id) ((j, r) ∷ m)))
      (sym same)
      (subst
        (λ x.
          Covers (some s) (halves s (left_region old k) k (right_region old k new_id) ((x, r) ∷ m)))
        (sym ke)
        (subst (Covers (some s))
          (sym (
            halves_here s k r (left_region old k) (right_region old k new_id) (next_start old) m
              placed above (before_next old k at.before)))
          (halves_cover s k old m new_id same placed above at.before)))

-- The two halves in place of the old region.
pub split-Covers :
    (s : Option Bytes) (m : BTreeMap Bytes Region) (old : Region) (k : Bytes) (new_id : ℕ)
    → Covers s m
    → BTreeMap.get old.start_key m ≡ some old
    → SplitsAt old k
    → Covers s (halves old.start_key (left_region old k) k (right_region old k new_id) m)
unfolding BTreeMap.get
split-Covers none [] old k new_id c g at = absurd (none_is_not_some old g)
split-Covers none (e ∷ m) old k new_id c g at = absurd c
split-Covers (some s) [] old k new_id c g at = absurd c
split-Covers (some s) ((j, r) ∷ m) old k new_id (ke, se, grows, rest) g at =
    elim (get_first old.start_key s r old m (refl, se, grows, rest)
      (subst (λ x. BTreeMap.get old.start_key ((x, r) ∷ m) ≡ some old) ke g)) [
        | inl (same, is_old) ↦ split_first j s k r old m new_id ke rest same is_old at
        | inr (above, g2) ↦
            subst (Covers (some s))
              (sym (
                halves_after j old.start_key k r (left_region old k) (right_region old k new_id) m
                  (subst (λ x. x ≺ old.start_key) (sym ke) above) at.above))
              (ke, se, grows, split-Covers (next_start r) m old k new_id rest g2 at)
      ]
