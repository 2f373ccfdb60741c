-- ===== src/Raft/Region/Halves.antt =====
-- The split of crates/raft-engine/src/region/splitter.rs put into the map of region/router.rs.
use Prim.Native.Nat.Ordering.{gt}
use distributed_acid_kv_stor.Common.{
  ◌⊎◌, ℕ, ◌≡◌, refl, inl, inr, Bool, true, false, Bool-cases, some, [], ◌∷◌, arith, if◌then◌else◌,
  ◌||◌, ◌&&◌,
}
use distributed_acid_kv_stor.Common.Bytes.{
  Bytes, ge_bytes, lt_bytes, is_empty, ◌≺◌, compare_bytes, compare_bytes_refl,
}
use distributed_acid_kv_stor.Common.BTreeMap.{bytes_order, insert}
use distributed_acid_kv_stor.Raft.Region.{
  Region, contains_key, insert_region, route_loop, route, new, split_region,
}

-- A split key that is inside a region, the last one of the key space included, and not its start.
abbrev pub IsInside : Bytes → Region → Type 0
IsInside k r = (r.start_key ≺ k) × ((r.end_key ≡ []) ⊎ (k ≺ r.end_key))

-- The halves in a map that holds the region alone: the right half takes the region's place,
-- since it has its end key, and the left half goes before it.
two_halves :
    (r : Region) (k : Bytes) (new_id : ℕ)
    → k ≺ r.end_key
    → insert_region
        (split_region r k new_id).0
        (insert_region (split_region r k new_id).1 (insert_region r new))
      ≡ (k, (split_region r k new_id).0) ∷ (r.end_key, (split_region r k new_id).1) ∷ []
unfolding insert_region split_region insert
two_halves r k new_id before = rw (insert, compare_bytes_refl r.end_key, before) refl

-- In the map of a region without an end the right half, of which the end key is empty, comes first.
gt_empty : (a b end : Bytes) → a ≺ b → end ≡ [] → compare_bytes b end ≡ gt
gt_empty a [] end h e = absurd (none_below a h)
  where
    none_below : (a : Bytes) → a ≺ [] → ⊥
    none_below [] h = ground arith
    none_below (x ∷ a) h = ground arith
gt_empty a (y ∷ b) end h e = rw e refl

two_halves_last :
    (r : Region) (k : Bytes) (new_id : ℕ)
    → r.start_key ≺ k
    → r.end_key ≡ []
    → insert_region
        (split_region r k new_id).0
        (insert_region (split_region r k new_id).1 (insert_region r new))
      ≡ (r.end_key, (split_region r k new_id).1) ∷ (k, (split_region r k new_id).0) ∷ []
unfolding insert_region split_region insert
two_halves_last r k new_id above last =
    rw (insert, compare_bytes_refl r.end_key, gt_empty r.start_key k r.end_key above last) refl

not_empty : (a b : Bytes) → a ≺ b → is_empty b ≡ false
not_empty [] [] h = ground arith
not_empty (x ∷ xs) [] h = ground arith
not_empty a (y ∷ ys) h = refl

ge_of_not_lt : (a b : Bytes) → lt_bytes a b ≡ false → ge_bytes a b ≡ true
ge_of_not_lt a b h = ground arith

not_ge_of_lt : (a b : Bytes) → lt_bytes a b ≡ true → ge_bytes a b ≡ false
not_ge_of_lt a b h = ground arith

both : (a b : Bool) → (a && b) ≡ true → (a ≡ true) × (b ≡ true)
both a b h = ground arith

module _ (r : Region) (k : Bytes) (new_id : ℕ) (key : Bytes)
    (begins : (is_empty r.start_key || ge_bytes key r.start_key) ≡ true)
    (ends : (is_empty r.end_key || lt_bytes key r.end_key) ≡ true) (above : r.start_key ≺ k) where
  abbrev IsRouted : Type 0
  IsRouted =
      route key (
        insert_region (split_region r k new_id).0
          (insert_region (split_region r k new_id).1 (insert_region r new)))
      ≡ some (if lt_bytes key k then (split_region r k new_id).0 else (split_region r k new_id).1)

  routed_inner : k ≺ r.end_key → IsRouted
  unfolding route route_loop contains_key split_region
  routed_inner before = elim (Bool-cases (lt_bytes key k)) [
    | inl left ↦ rw (two_halves r k new_id before, begins, left) (ground arith)
    | inr right ↦
        rw
          (
            two_halves r k new_id before,
            begins,
            right,
            not_empty r.start_key k above,
            ge_of_not_lt key k right,
            ends,
          )
          (ground arith)
  ]

  routed_last : r.end_key ≡ [] → IsRouted
  unfolding route route_loop contains_key split_region
  routed_last last = elim (Bool-cases (lt_bytes key k)) [
    | inl left ↦
        rw
          (
            two_halves_last r k new_id above last,
            begins,
            left,
            not_empty r.start_key k above,
            not_ge_of_lt key k left,
          )
          (ground arith)
    | inr right ↦
        rw (two_halves_last r k new_id above last, ge_of_not_lt key k right, ends, right)
          (ground arith)
  ]

-- After a region was split at a key inside it, be its end bounded or not, and both halves inserted
-- in a map that held the region alone, each key of the region is found in the left half below the
-- split key, and in the right half from it on.
pub route-split_region :
    (r : Region) (k : Bytes) (new_id : ℕ) (key : Bytes)
    → IsInside k r
    → contains_key r key ≡ true
    → route key (
        insert_region
          (split_region r k new_id).0
          (insert_region (split_region r k new_id).1 (insert_region r new)))
      ≡ some (if lt_bytes key k then (split_region r k new_id).0 else (split_region r k new_id).1)
unfolding contains_key
route-split_region r k new_id key (above, inside) held =
    let (begins, ends) =
      both (is_empty r.start_key || ge_bytes key r.start_key)
        (is_empty r.end_key || lt_bytes key r.end_key) held in
    elim inside [
      | inl last ↦ routed_last r k new_id key begins ends above last
      | inr before ↦ routed_inner r k new_id key begins ends above before
    ]
