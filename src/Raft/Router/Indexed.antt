-- ===== src/Raft/Router/Indexed.antt =====
-- The two maps of crates/raft-engine/src/router.rs agree: each region found by its id stands in the
-- map by keys under its start key, and a split keeps this.
use distributed_acid_kv_stor.Common.{
  ℕ, ◌≡◌, ◌≢◌, refl, sym, ap, ◌∙◌, subst, ◌⊎◌, inl, inr, Bool, true, false, Bool-cases, Option,
  none, some, [], ◌∷◌, arith, if◌then◌else◌,
}
use distributed_acid_kv_stor.Common.Bytes.{
  Bytes, compare_bytes_refl, eq_of_compare_bytes, eq_bytes, ◌≺◌, ≺_trans,
}
use Prim.Native.Nat.Ordering.{lt, eq}
use distributed_acid_kv_stor.Common.BTreeMap as BTreeMap
use distributed_acid_kv_stor.Common.BTreeMap.{
  BTreeMap, bytes_order, id_order, same_key, get-insert, get-remove,
}
use distributed_acid_kv_stor.Raft.Router.{
  Region, RegionRouter, contains_key, get_region, left_region, right_region, replace_region,
  split_old, split_region,
}
use distributed_acid_kv_stor.Raft.Router.Cover.{Covers, next_start}
use distributed_acid_kv_stor.Raft.Router.Places.{get-Below, get_first, none_is_not_some}
use distributed_acid_kv_stor.Raft.Router.Halves.{
  SplitsAt, before_next, contains_splits, split-Covers,
}
use distributed_acid_kv_stor.Raft.Router.Split.{ne_of_eq_bytes}

irreflexive : (a : Bytes) → a ≺ a → ⊥
irreflexive a h = go (sym (compare_bytes_refl a) ∙ h)
  where
    go : eq ≡ lt → ⊥
    go e = ground arith

-- No region begins inside another one.
none_inside :
    (s : Option Bytes) (m : BTreeMap Bytes Region) (old q : Region) (k : Bytes)
    → Covers s m
    → BTreeMap.get old.start_key m ≡ some old
    → SplitsAt old k
    → BTreeMap.get k m ≡ some q
    → ⊥
unfolding BTreeMap.get
none_inside none [] old q k c g at h = none_is_not_some q h
none_inside none (e ∷ m) old q k c g at h = c
none_inside (some s) [] old q k c g at h = c
none_inside (some s) ((j, r) ∷ m) old q k (ke, se, grows, rest) g at h =
    elim (get_first old.start_key s r old m (refl, se, grows, rest)
      (subst (λ x. BTreeMap.get old.start_key ((x, r) ∷ m) ≡ some old) ke g)) [
        | inl (same, is_old) ↦
            elim (get_first k s r q m (refl, se, grows, rest)
              (subst (λ x. BTreeMap.get k ((x, r) ∷ m) ≡ some q) ke h)) [
                | inl (start, is_q) ↦
                    irreflexive s
                      (subst (λ x. x ≺ s) same (subst (λ x. old.start_key ≺ x) start at.above))
                | inr (above, later) ↦ none_is_not_some q (
                    sym (
                      get-Below k (next_start old) m
                        (subst (λ x. Covers (next_start x) m) is_old rest)
                        (before_next old k at.before))
                    ∙ later)
              ]
        | inr (above, g2) ↦
            elim (get_first k s r q m (refl, se, grows, rest)
              (subst (λ x. BTreeMap.get k ((x, r) ∷ m) ≡ some q) ke h)) [
                | inl (start, is_q) ↦ irreflexive s (
                    ≺_trans s old.start_key s above (subst (λ x. old.start_key ≺ x) start at.above))
                | inr (beyond, later) ↦ none_inside (next_start r) m old q k rest g2 at later
              ]
      ]

-- Each region found by its id has that id, and stands under its start key.
abbrev pub IsIndexed : RegionRouter → Type 0
IsIndexed router =
    (id : ℕ) (q : Region)
    → get_region id router ≡ some q
    → (q.id ≡ id) × (BTreeMap.get q.start_key router.regions_by_key ≡ some q)

same_key_refl : (k : Bytes) → same_key k k ≡ true
same_key_refl k = rw (same_key, compare_bytes_refl k)

same_key_ne : (a b : Bytes) → a ≢ b → same_key a b ≡ false
same_key_ne a b n = ground (arith, eq_of_compare_bytes a b)

-- What stands under a start key after the split.
get-halves :
    (m : BTreeMap Bytes Region) (s k x : Bytes) (l r : Region)
    → BTreeMap.get x (BTreeMap.insert k r (BTreeMap.insert s l (BTreeMap.remove s m)))
      ≡ (if same_key x k then some r else if same_key x s then some l else BTreeMap.get x m)
get-halves m s k x l r =
    rw
      (
        get-insert k x r (BTreeMap.insert s l (BTreeMap.remove s m)),
        get-insert s x l (BTreeMap.remove s m),
        get-remove s x m,
      )
      (go (same_key x k) (same_key x s))
  where
    go :
        (a b : Bool)
        → (if a then some r else if b then some l else if b then none else BTreeMap.get x m)
          ≡ (if a then some r else if b then some l else BTreeMap.get x m)
    go true b = refl
    go false true = refl
    go false false = refl

id_of_same : (j n : ℕ) → same_key j n ≡ true → j ≡ n
id_of_same j n h = ground arith

ne_of_other : (j n : ℕ) → same_key j n ≡ false → j ≢ n
ne_of_other j n h = ground arith

some_inj : (r q : Region) → some r ≡ some q → r ≡ q
some_inj r q h = ground arith

-- The region that an id finds after the split.
found_after :
    (m : BTreeMap ℕ Region) (i n j : ℕ) (l r q : Region)
    → BTreeMap.get j (BTreeMap.insert n r (BTreeMap.insert i l m)) ≡ some q
    → ((j ≡ n) × (r ≡ q)) ⊎ (((j ≡ i) × (l ≡ q)) ⊎ ((j ≢ i) × (BTreeMap.get j m ≡ some q)))
found_after m i n j l r q h =
    let first = sym (get-insert n j r (BTreeMap.insert i l m)) ∙ h in
    elim (Bool-cases (same_key j n)) [
      | inl same ↦ inl (id_of_same j n same, some_inj r q (rw same at first))
      | inr other ↦
          let second = sym (get-insert i j l m) ∙ (rw other at first) in
          inr (elim (Bool-cases (same_key j i)) [
            | inl same2 ↦ inl (id_of_same j i same2, some_inj l q (rw same2 at second))
            | inr other2 ↦ inr (ne_of_other j i other2, rw other2 at second)
          ])
    ]

abbrev after_keys : BTreeMap Bytes Region → Region → Region → Region → BTreeMap Bytes Region
after_keys m old l r =
    BTreeMap.insert r.start_key r (BTreeMap.insert l.start_key l (BTreeMap.remove old.start_key m))

ne_of_below : (a b : Bytes) → a ≺ b → a ≢ b
ne_of_below a b h e = irreflexive b (subst (λ x. x ≺ b) e h)

halves-Covers :
    (router : RegionRouter) (old : Region) (k : Bytes) (new_id : ℕ)
    → Covers (some []) router.regions_by_key
    → BTreeMap.get old.start_key router.regions_by_key ≡ some old
    → SplitsAt old k
    → Covers
        (some [])
        ((replace_region old (left_region old k) (right_region old k new_id) router).regions_by_key)
unfolding replace_region left_region right_region
halves-Covers router old k new_id c placed at =
    split-Covers (some []) router.regions_by_key old k new_id c placed at

-- Each case of `found_after` in turn stands under its start key.
halves-IsIndexed :
    (router : RegionRouter) (old : Region) (k : Bytes) (region_id new_id : ℕ)
    → Covers (some []) router.regions_by_key
    → IsIndexed router
    → get_region region_id router ≡ some old
    → SplitsAt old k
    → IsIndexed (replace_region old (left_region old k) (right_region old k new_id) router)
unfolding replace_region get_region left_region right_region
halves-IsIndexed router old k region_id new_id c indexed found at j q h =
    let (is_id, placed) = indexed region_id old found in
    let l = left_region old k in
    let r = right_region old k new_id in
    let m = router.regions_by_key in
    elim (found_after router.regions_by_id old.id new_id j l r q h) [
      | inl (is_new, is_right) ↦
          subst (λ x. (x.id ≡ j) × (BTreeMap.get x.start_key (after_keys m old l r) ≡ some x))
            is_right (sym is_new, get-halves m old.start_key k k l r ∙ rw (same_key_refl k) refl)
      | inr (inl (is_old, is_left)) ↦
          subst (λ x. (x.id ≡ j) × (BTreeMap.get x.start_key (after_keys m old l r) ≡ some x))
            is_left
            (
              sym is_old,
              get-halves m old.start_key k old.start_key l r
                  ∙ rw
                      (
                        same_key_ne old.start_key k (ne_of_below old.start_key k at.above),
                        same_key_refl old.start_key,
                      )
                      refl,
            )
      | inr (inr (other, kept)) ↦
          let (q_id, q_placed) = indexed j q kept in
          (
            q_id,
            get-halves m old.start_key k q.start_key l r
                ∙ rw
                    (
                      same_key_ne q.start_key k (λ e.
                          none_inside (some []) m old q k c placed at
                            (subst (λ x. BTreeMap.get x m ≡ some q) e q_placed)),
                      same_key_ne q.start_key old.start_key (λ e. other (
                          sym q_id
                          ∙ ap (λ x. x.id)
                              (some_inj q old (
                                sym (subst (λ x. BTreeMap.get x m ≡ some q) e q_placed)
                                ∙ placed)))),
                    )
                    q_placed,
          )
    ]

split_old_keeps :
    (router : RegionRouter) (old : Region) (k : Bytes) (region_id new_id : ℕ)
    → Covers (some []) router.regions_by_key
    → IsIndexed router
    → get_region region_id router ≡ some old
    → Covers (some []) ((split_old k new_id old router).1.regions_by_key)
      × IsIndexed (split_old k new_id old router).1
unfolding split_old
split_old_keeps router old k region_id new_id c indexed found =
    elim (Bool-cases (contains_key old k)) [
      | inr outside ↦ rw outside (c, indexed)
      | inl held ↦ elim (Bool-cases (eq_bytes k old.start_key)) [
        | inl same ↦ rw (held, same) (c, indexed)
        | inr other ↦
            let at = contains_splits old k held (ne_of_eq_bytes k old.start_key other) in
            rw (held, other)
              (
                halves-Covers router old k new_id c (indexed region_id old found).1 at,
                halves-IsIndexed router old k region_id new_id c indexed found at,
              )
      ]
    ]

split_region_found :
    (router : RegionRouter) (region_id new_region_id : ℕ) (k : Bytes) (o : Option Region)
    → get_region region_id router ≡ o
    → Covers (some []) router.regions_by_key
    → IsIndexed router
    → Covers (some []) ((split_region region_id k new_region_id router).1.regions_by_key)
      × IsIndexed (split_region region_id k new_region_id router).1
unfolding split_region
split_region_found router region_id new_region_id k none e c indexed =
    rw (split_region, e) (c, indexed)
split_region_found router region_id new_region_id k (some old) e c indexed =
    rw (split_region, e) (split_old_keeps router old k region_id new_region_id c indexed e)

-- Whatever a split is asked for, and whatever id the new region is given, the regions cover the key
-- space after it and the two maps agree, if it was so before.
pub split_region_keeps :
    (router : RegionRouter) (region_id new_region_id : ℕ) (split_key : Bytes)
    → Covers (some []) router.regions_by_key
    → IsIndexed router
    → Covers (some []) ((split_region region_id split_key new_region_id router).1.regions_by_key)
      × IsIndexed (split_region region_id split_key new_region_id router).1
split_region_keeps router region_id new_region_id split_key c indexed =
    split_region_found router region_id new_region_id split_key (get_region region_id router) refl c
      indexed
