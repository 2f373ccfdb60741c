-- ===== src/Storage/Engine/Dropped.antt =====
-- That `gc_keys_older_than` of crates/storage/src/engine.rs removes the versions of a key below
-- another one that is below the safe point.
use Prim.Native.Nat.Ordering.{lt, gt}
use distributed_acid_kv_stor.Common.{
  Ordering, ℕ, ◌≤◌, ◌<◌, ◌≡◌, ◌⊎◌, refl, sym, ap, ◌∙◌, subst, inl, inr, lt_eq_gt, Bool, true, false,
  Bool-cases, Option, none, some, List, [], ◌∷◌, ◌++◌, map, All, ltb, lt→ltb, ok, err, arith,
}
use distributed_acid_kv_stor.Common.Bytes.{
  Bytes, Apart, Apart-symm, ◌≺◌, compare_bytes, gt_of_lt, eq_bytes, eq_bytes_refl,
}
use distributed_acid_kv_stor.Storage.Key.{u64_max, encode, decode}
use distributed_acid_kv_stor.Storage.Key.Laws.{decode-encode, compare-encode-Apart}
use distributed_acid_kv_stor.Storage.Record.{from_bytes}
use distributed_acid_kv_stor.Storage.Fjall.{
  BatchOp, insert, remove, effects, p_default, p_lock, p_write,
}
use distributed_acid_kv_stor.Storage.Fjall.Entries.{Entry, lookup, IsSorted, lt_of_lookup}
use distributed_acid_kv_stor.Storage.Versions.Places.{
  IsPlaced, newer_first, lookup_own, lookup_foreign,
}
use distributed_acid_kv_stor.Storage.Engine.{
  GcState, gc_enter, gc_remove, gc_version, gc_item, gc_loop, is_last,
}
use distributed_acid_kv_stor.Storage.Engine.Removals.{IsRemoval}

-- The removal of this version is staged.
abbrev pub Removes : Bytes → List BatchOp → Type 0
Removes k [] = ⊥
Removes k (o ∷ b) = (o ≡ remove p_write k) ⊎ Removes k b

Removes-before : (k : Bytes) (xs ys : List BatchOp) → Removes k xs → Removes k (xs ++ ys)
Removes-before k [] ys h = absurd h
Removes-before k (x ∷ xs) ys (inl e) = inl e
Removes-before k (x ∷ xs) ys (inr h) = inr (Removes-before k xs ys h)

Removes-behind : (k : Bytes) (xs ys : List BatchOp) → Removes k ys → Removes k (xs ++ ys)
Removes-behind k [] ys h = h
Removes-behind k (x ∷ xs) ys h = inr (Removes-behind k xs ys h)

still_gone : (b : List BatchOp) (k : Bytes) → All IsRemoval b → effects b p_write k none ≡ none
still_gone [] k h = refl
still_gone (remove p_write j ∷ b) k h = elim (Bool-cases (eq_bytes j k)) [
  | inl same ↦ rw same (still_gone b k h.1)
  | inr other ↦ rw other (still_gone b k h.1)
]
still_gone (remove p_default j ∷ b) k h = still_gone b k h.1
still_gone (remove p_lock j ∷ b) k h = absurd h.0
still_gone (insert p j v ∷ b) k h = absurd h.0

-- After a batch of removals it is gone.
pub effects-removed :
    (b : List BatchOp) (k : Bytes) (old : Option Bytes)
    → All IsRemoval b
    → Removes k b
    → effects b p_write k old ≡ none
effects-removed [] k old h r = absurd r
effects-removed (o ∷ b) k old h (inl e) = rw (e, eq_bytes_refl k) (still_gone b k h.1)
effects-removed (o ∷ b) k old h (inr r) = effects-removed b k _ h.1 r

module _ (key : Bytes) (safe r c : ℕ) (r_fits : r ≤ u64_max) (older : c < r) (old : r < safe) where
  -- The removal of `c` is staged, and counted.
  abbrev pub IsDropped : GcState → Type 0
  IsDropped g = Removes (encode key c) g.batch × (0 < g.gc_count)

  -- A version below the safe point was seen of the key that the loop is in.
  abbrev IsPast : GcState → Type 0
  IsPast g = (is_last g.last_user_key key ≡ true) × (g.seen_below_safe_point ≡ true)

  enter_keeps : (u : Bytes) (g : GcState) → IsDropped g → IsDropped (gc_enter u g)
  unfolding gc_enter
  enter_keeps u g d = elim (Bool-cases (is_last g.last_user_key u)) [
    | inl same ↦ rw same d
    | inr other ↦ rw other d
  ]

  version_keeps :
      (enc v u : Bytes) (t : ℕ) (g : GcState)
      → IsDropped g
      → IsDropped (gc_version safe enc v u t g)
  unfolding gc_version
  version_keeps enc v u t g d = elim (Bool-cases (ltb t safe)) [
    | inr young ↦ rw (gc_version, young) d
    | inl below ↦ elim (Bool-cases g.seen_below_safe_point) [
      | inr first ↦ rw (gc_version, below, first) d
      | inl seen ↦
          rw (gc_version, below, seen)
            (
              Removes-before (encode key c) g.batch (gc_remove enc u (from_bytes v)) d.0,
              omega arith,
            )
    ]
  ]

  item_keeps : (j v : Bytes) (g : GcState) → IsDropped g → IsDropped (gc_item safe (j, v) g)
  unfolding gc_item
  item_keeps j v g d =
      elim (decode j)
        as (λ x. IsDropped (elim x as (λ y. GcState) [
          | err _ ↦ g
          | ok (u, t) ↦ gc_version safe j v u t (gc_enter u g)
        ])) [ err _ ↦ d | ok (u, t) ↦ version_keeps j v u t (gc_enter u g) (enter_keeps u g d) ]

  loop_keeps :
      {F : Type 0} (es : List Entry) (g : GcState)
      → IsDropped g
      → (g' : GcState) × (gc_loop {F = F} safe (map ok es) g ≡ ok g') × IsDropped g'
  unfolding gc_loop
  loop_keeps [] g d = (g, refl, d)
  loop_keeps ((j, v) ∷ es) g d = loop_keeps es (gc_item safe (j, v) g) (item_keeps j v g d)

  enter_past : (g : GcState) → is_last g.last_user_key key ≡ true → gc_enter key g ≡ g
  unfolding gc_enter
  enter_past g h = rw h refl

  enter_last : (g : GcState) → is_last (gc_enter key g).last_user_key key ≡ true
  unfolding gc_enter
  enter_last g = elim (Bool-cases (is_last g.last_user_key key)) [
    | inl same ↦ rw same same
    | inr other ↦ rw other (eq_bytes_refl key)
  ]

  -- A version below the safe point sets the flag, and no version resets it.
  version-IsPast :
      (enc v : Bytes) (t : ℕ) (g : GcState)
      → is_last g.last_user_key key ≡ true
      → (g.seen_below_safe_point ≡ true) ⊎ (t < safe)
      → IsPast (gc_version safe enc v key t g)
  unfolding gc_version
  version-IsPast enc v t g last h = elim (Bool-cases g.seen_below_safe_point) [
    | inl seen ↦ elim (Bool-cases (ltb t safe)) [
      | inl below ↦ rw (gc_version, below, seen) (last, refl)
      | inr young ↦ rw (gc_version, young) (last, seen)
    ]
    | inr first ↦
        rw (gc_version, lt→ltb t safe (unseen g.seen_below_safe_point t first h), first)
          (last, refl)
  ]
    where
      unseen : (b : Bool) (t : ℕ) → b ≡ false → (b ≡ true) ⊎ (t < safe) → t < safe
      unseen b t e h = ground arith

  version_drops :
      (v : Bytes) (g : GcState)
      → g.seen_below_safe_point ≡ true
      → IsDropped (gc_version safe (encode key c) v key c g)
  unfolding gc_version gc_remove
  version_drops v g seen =
      rw (gc_version, lt→ltb c safe (omega arith), seen)
        (
          Removes-behind (encode key c) g.batch (gc_remove (encode key c) key (from_bytes v))
              (removes (from_bytes v)),
          omega arith,
        )
    where
      removes : (o : _) → Removes (encode key c) (gc_remove (encode key c) key o)
      removes none = inl refl
      removes (some rec) = inl refl

  module _ (F : Type 0) where
    -- The loop over these entries ends with the removal staged.
    abbrev pub Drops : List Entry → GcState → Type 0
    Drops es g = (g' : GcState) × (gc_loop {F = F} safe (map ok es) g ≡ ok g') × IsDropped g'

    none_left : (b : Bytes) → Option.none ≡ some b → ⊥
    none_left b h = cc

    -- Between two versions of the key no version of another stands.
    no_other :
        (u : Bytes) (t : ℕ)
        → Apart u key
        → encode key r ≺ encode u t
        → encode u t ≺ encode key c
        → ⊥
    no_other u t a above below =
        let up : key ≺ u = sym (compare-encode-Apart key u r t (Apart-symm u key a)) ∙ above in
        let down : u ≺ key = sym (compare-encode-Apart u key t c a) ∙ below in
        not_lt (compare_bytes u key) (gt_of_lt key u up) down
      where
        not_lt : (o : Ordering) → o ≡ gt → o ≡ lt → ⊥
        not_lt o h l = ground arith

    IsPast-Drops :
        (es : List Entry) (g : GcState) (b : Bytes)
        → IsSorted es
        → All (λ e. IsPlaced key e.0) es
        → All (λ e. encode key r ≺ e.0) es
        → IsPast g
        → lookup (encode key c) es ≡ some b
        → Drops es g
    unfolding gc_loop gc_item
    IsPast-Drops [] g b sorted placed below past h = absurd (none_left b h)
    IsPast-Drops ((j, v) ∷ es) g b sorted placed below past h = elim placed.0 [
      | inr (u, t, fits, e, a) ↦ absurd (
          no_other u t a (subst (λ x. encode key r ≺ x) e below.0) (
            subst (λ x. x ≺ encode key c) e
              (lt_of_lookup j (encode key c) b es sorted.0
                (sym (lookup_foreign key u t c j v es e a) ∙ h))))
      | inl (t, fits, e) ↦ elim (lt_eq_gt c t) [
        | inl newer ↦
            rw (gc_item, e, decode-encode key t fits, enter_past g past.0)
              (IsPast-Drops es (gc_version safe (encode key t) v key t g) b sorted.1 placed.1
                below.1 (version-IsPast (encode key t) v t g past.0 (inl past.1))
                (sym (lookup_own key t c j v es fits (omega arith) e (omega arith)) ∙ h))
        | inr (inl same) ↦
            rw
              (
                gc_item,
                e ∙ ap (encode key) (sym same),
                decode-encode key c (omega arith),
                enter_past g past.0,
              )
              (loop_keeps es (gc_version safe (encode key c) v key c g) (version_drops v g past.1))
        | inr (inr after) ↦ absurd (
            omega (
              arith,
              after,
              newer_first key t c j b es fits (omega arith) e sorted.0
                  (sym (lookup_own key t c j v es fits (omega arith) e (omega arith)) ∙ h),
            ))
      ]
    ]

    -- Over an ordered partition that holds both versions, the removal of the older one is staged.
    pub gc_loop-Drops :
        (es : List Entry) (g : GcState) (x b : Bytes)
        → IsSorted es
        → All (λ e. IsPlaced key e.0) es
        → lookup (encode key r) es ≡ some x
        → lookup (encode key c) es ≡ some b
        → Drops es g
    unfolding gc_loop gc_item
    gc_loop-Drops [] g x b sorted placed over under = absurd (none_left x over)
    gc_loop-Drops ((j, v) ∷ es) g x b sorted placed over under = elim placed.0 [
      | inr (u, t, fits, e, a) ↦
          gc_loop-Drops es (gc_item safe (j, v) g) x b sorted.1 placed.1
            (sym (lookup_foreign key u t r j v es e a) ∙ over)
            (sym (lookup_foreign key u t c j v es e a) ∙ under)
      | inl (t, fits, e) ↦ elim (lt_eq_gt r t) [
        | inr (inl same) ↦
            rw (gc_item, e ∙ ap (encode key) (sym same), decode-encode key r r_fits)
              (IsPast-Drops es (gc_version safe (encode key r) v key r (gc_enter key g)) b sorted.1
                placed.1
                (subst (λ y. All (λ z. y ≺ z.0) es) (e ∙ ap (encode key) (sym same)) sorted.0)
                (version-IsPast (encode key r) v r (gc_enter key g) (enter_last g) (inr old))
                (sym (lookup_own key t c j v es fits (omega arith) e (omega arith)) ∙ under))
        | inl newer ↦
            gc_loop-Drops es (gc_item safe (j, v) g) x b sorted.1 placed.1
              (sym (lookup_own key t r j v es fits r_fits e (omega arith)) ∙ over)
              (sym (lookup_own key t c j v es fits (omega arith) e (omega arith)) ∙ under)
        | inr (inr after) ↦ absurd (
            omega (
              arith,
              after,
              newer_first key t r j x es fits r_fits e sorted.0
                  (sym (lookup_own key t r j v es fits r_fits e (omega arith)) ∙ over),
            ))
      ]
    ]
