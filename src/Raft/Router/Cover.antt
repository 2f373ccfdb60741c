-- ===== src/Raft/Router/Cover.antt =====
-- The regions of crates/raft-engine/src/router.rs cover the key space without overlap: every key
-- is routed to the one region that holds it.
use distributed_acid_kv_stor.Common.{
  ◌≡◌, refl, ◌⊎◌, inl, inr, true, false, Bool-cases, Option, none, some, List, [], ◌∷◌, ◌++◌, All,
  All-append, reverse, reverse-cons, subst, ok, arith, if◌then◌else◌,
}
use distributed_acid_kv_stor.Common.Bytes.{Bytes, ge_bytes, lt_bytes, is_empty, ◌≺◌, ≺_trans}
use distributed_acid_kv_stor.Common.BTreeMap.{BTreeMap, values}
use distributed_acid_kv_stor.Raft.Router.{Region, RegionRouter, contains_key, route_loop, route_key}

-- Where the regions after `r` begin: nowhere, if `r` reaches to the end of the key space.
abbrev pub next_start : Region → Option Bytes
next_start r = if is_empty r.end_key then none else some r.end_key

-- The regions lie end to end from a first key on up to the end of the key space, each under its
-- start key.
abbrev pub Covers : Option Bytes → BTreeMap Bytes Region → Type 0
Covers none [] = Unit {0}
Covers none (e ∷ m) = ⊥
Covers (some s) [] = ⊥
Covers (some s) ((k, r) ∷ m) =
    (k ≡ s)
    × (r.start_key ≡ s)
    × ((is_empty r.end_key ≡ true) ⊎ (s ≺ r.end_key))
    × Covers (next_start r) m

-- `r` is the one region of the map that holds `key`.
pub data Owner (key : Bytes) (r : Region) : BTreeMap Bytes Region → Type 0 where
  here :
      {k : Bytes} {m : BTreeMap Bytes Region}
      → contains_key r key ≡ true
      → All (λ q. contains_key q key ≡ false) (values m)
      → Owner key r ((k, r) ∷ m)
  there :
      {k : Bytes} {q : Region} {m : BTreeMap Bytes Region}
      → contains_key q key ≡ false
      → Owner key r m
      → Owner key r ((k, q) ∷ m)

not_below_nil : (a : Bytes) → a ≺ [] → ⊥
not_below_nil [] h = ground arith
not_below_nil (x ∷ xs) h = ground arith

-- A region that begins above a key does not hold it.
begins_above : (r : Region) (key s : Bytes) → r.start_key ≡ s → key ≺ s → contains_key r key ≡ false
unfolding contains_key
begins_above r key [] e h = absurd (not_below_nil key h)
begins_above r key (x ∷ xs) e h = rw e (ground arith)

-- The start of the next region, where there is one, is the end of this one.
next_grows :
    (r : Region) (s e : Bytes)
    → (is_empty r.end_key ≡ true) ⊎ (s ≺ r.end_key)
    → next_start r ≡ some e
    → (s ≺ e) × (r.end_key ≡ e) × (is_empty r.end_key ≡ false)
next_grows r s e grows h = ground arith

beyond :
    (key : Bytes) (s : Option Bytes) (m : BTreeMap Bytes Region)
    → ((e : Bytes) → s ≡ some e → key ≺ e)
    → Covers s m
    → All (λ q. contains_key q key ≡ false) (values m)
beyond key none [] h c = tt
beyond key none (e ∷ m) h c = absurd c
beyond key (some s) [] h c = absurd c
beyond key (some s) ((k, r) ∷ m) h (ke, se, grows, rest) = (
  begins_above r key s se (h s refl),
  beyond key (next_start r) m (λ e n. ≺_trans key s e (h s refl) (next_grows r s e grows n).0) rest,
)

-- A region that begins at or below a key holds it, unless it ends at or below the key.
holds :
    (r : Region) (key s : Bytes)
    → r.start_key ≡ s
    → ge_bytes key s ≡ true
    → ((contains_key r key ≡ true) × ((e : Bytes) → next_start r ≡ some e → key ≺ e))
      ⊎ ((contains_key r key ≡ false)
          × (next_start r ≡ some r.end_key)
          × (ge_bytes key r.end_key ≡ true))
unfolding contains_key
holds r key s e h = elim (Bool-cases (is_empty r.end_key)) [
  | inl open_end ↦ inl (rw (e, h, open_end) (ground arith), λ x n. ground arith)
  | inr bounded ↦ elim (Bool-cases (lt_bytes key r.end_key)) [
    | inl below ↦ inl (rw (e, h, bounded, below) (ground arith), λ x n. ground arith)
    | inr above ↦ inr (rw (e, h, bounded, above) (ground arith), rw bounded, ground arith)
  ]
]

Covers-Owner :
    (key s : Bytes) (m : BTreeMap Bytes Region)
    → Covers (some s) m
    → ge_bytes key s ≡ true
    → (r : Region) × Owner key r m
Covers-Owner key s [] c h = absurd c
Covers-Owner key s ((k, r) ∷ m) (ke, se, grows, rest) h = elim (holds r key s se h) [
  | inl held ↦ (r, here held.0 (beyond key (next_start r) m held.1 rest))
  | inr passed ↦
      let (q, own) =
        Covers-Owner key r.end_key m (subst (λ n. Covers n m) passed.1 rest) passed.2 in
      (q, there passed.0 own)
]

ge_nil : (key : Bytes) → ge_bytes key [] ≡ true
ge_nil [] = refl
ge_nil (x ∷ xs) = refl

route_skip :
    (key : Bytes) (xs ys : List Region)
    → All (λ q. contains_key q key ≡ false) xs
    → route_loop key (xs ++ ys) ≡ route_loop key ys
unfolding route_loop
route_skip key [] ys a = refl
route_skip key (x ∷ xs) ys a = rw a.0 (route_skip key xs ys a.1)

route_found :
    (key : Bytes) (r : Region) (xs ys : List Region)
    → route_loop key xs ≡ ok r
    → route_loop key (xs ++ ys) ≡ ok r
unfolding route_loop
route_found key r [] ys h = ground arith
route_found key r (x ∷ xs) ys h = ground (arith, route_found key r xs ys)

All-reverse :
    (key : Bytes) (xs : List Region)
    → All (λ q. contains_key q key ≡ false) xs
    → All (λ q. contains_key q key ≡ false) (reverse xs)
All-reverse key [] a = tt
All-reverse key (x ∷ xs) a = rw (reverse-cons x xs) (
    All-append (λ q. contains_key q key ≡ false) (reverse xs) (x ∷ []) (All-reverse key xs a.1)
      (a.0, tt))

-- The loop from the last region down finds the owner.
route_loop-Owner :
    (key : Bytes) (r : Region) (m : BTreeMap Bytes Region)
    → Owner key r m
    → route_loop key (reverse (values m)) ≡ ok r
unfolding route_loop
route_loop-Owner key r [] own = elim own [ ]
route_loop-Owner key r (e ∷ m) (here held others) = rw (
  reverse-cons r (values m),
  route_skip key (reverse (values m)) (r ∷ []) (All-reverse key (values m) others),
  held,
)
route_loop-Owner key r ((k, q) ∷ m) (there passed own) =
    rw (reverse-cons q (values m))
      (route_found key r (reverse (values m)) (q ∷ []) (route_loop-Owner key r m own))

-- Where the regions cover the key space from the empty key on, every key is routed, and to the
-- one region of the map that holds it.
pub route_key-Owner :
    (key : Bytes) (router : RegionRouter)
    → Covers (some []) router.regions_by_key
    → (r : Region) × (route_key key router ≡ ok r) × Owner key r router.regions_by_key
unfolding route_key
route_key-Owner key router c =
    let (r, own) = Covers-Owner key [] router.regions_by_key c (ge_nil key) in
    (r, route_loop-Owner key r router.regions_by_key own, own)
