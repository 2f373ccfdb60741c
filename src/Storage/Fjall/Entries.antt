-- ===== src/Storage/Fjall/Entries.antt =====
-- Key-value pairs in key order: what a partition of the engine holds.
use Prim.Native.Nat.Ordering.{lt, eq, gt}
use distributed_acid_kv_stor.Common.{
  ◌≡◌, ◌⊎◌, ◌∙◌, sym, ap, Bool-cases, false, subst, inl, inr, refl, Option, none, some, List, [],
  ◌∷◌, All, if◌then◌else◌, arith,
}
use distributed_acid_kv_stor.Common.Bytes.{
  Bytes, compare_bytes, eq_bytes, ge_bytes, ◌≺◌, ≺_trans, compare_bytes_refl, eq_of_compare_bytes,
  gt_of_lt, lt_of_gt, eq_of_eq_bytes,
}

abbrev pub Entry : Type 0
Entry = Bytes × Bytes

abbrev pub lookup : Bytes → List Entry → Option Bytes
lookup k [] = none
lookup k ((j, v) ∷ es) = if eq_bytes j k then some v else lookup k es

-- `range(k..)`
abbrev pub from : Bytes → List Entry → List Entry
from k [] = []
from k ((j, v) ∷ es) = let rest = from k es in if ge_bytes j k then (j, v) ∷ rest else rest

abbrev pub IsSorted : List Entry → Type 0
IsSorted [] = Unit
IsSorted (e ∷ es) = All (λ x. e.0 ≺ x.0) es × IsSorted es

pub lookup_head : (j v : Bytes) (es : List Entry) → lookup j ((j, v) ∷ es) ≡ some v
lookup_head j v es = ground (arith, compare_bytes_refl j)

pub lookup_at : (j k v : Bytes) (es : List Entry) → j ≡ k → lookup k ((j, v) ∷ es) ≡ some v
lookup_at j k v es e = rw e (lookup_head k v es)

-- A key that is found among later entries lies above their bound.
pub lt_of_lookup :
    (j k b : Bytes) (es : List Entry) → All (λ x. j ≺ x.0) es → lookup k es ≡ some b → j ≺ k
lt_of_lookup j k b [] a h = ground arith
lt_of_lookup j k b ((i, v) ∷ es) a h =
    ground (arith, eq_of_compare_bytes i k, lt_of_lookup j k b es a.1)

-- Looking past the first entry, from and to the whole list.
pub lookup_tail :
    (j v k b : Bytes) (es : List Entry)
    → IsSorted ((j, v) ∷ es)
    → lookup k es ≡ some b
    → lookup k ((j, v) ∷ es) ≡ some b
lookup_tail j v k b es s h = ground (arith, lt_of_lookup j k b es s.0 h)

lookup_below : (k : Bytes) (es : List Entry) → All (λ x. k ≺ x.0) es → lookup k es ≡ none
lookup_below k [] a = refl
lookup_below k ((i, v) ∷ es) a = ground (arith, lookup_below k es a.1, gt_of_lt k i a.0)

abbrev pub put : Bytes → Bytes → List Entry → List Entry
put k v [] = (k, v) ∷ []
put k v ((j, w) ∷ es) =
    let rest = put k v es in
    elim (compare_bytes k j) [ lt ↦ (k, v) ∷ (j, w) ∷ es | eq ↦ (k, v) ∷ es | gt ↦ (j, w) ∷ rest ]

abbrev pub erase : Bytes → List Entry → List Entry
erase k [] = []
erase k ((j, w) ∷ es) = let rest = erase k es in if eq_bytes j k then rest else (j, w) ∷ rest

pub All-trans :
    (k j : Bytes) (es : List Entry) → k ≺ j → All (λ x. j ≺ x.0) es → All (λ x. k ≺ x.0) es
All-trans k j [] h a = tt
All-trans k j ((i, v) ∷ es) h a = (≺_trans k j i h a.0, All-trans k j es h a.1)

All-put :
    (b k v : Bytes) (es : List Entry)
    → b ≺ k
    → All (λ x. b ≺ x.0) es
    → All (λ x. b ≺ x.0) (put k v es)
All-put b k v [] h a = (h, tt)
All-put b k v ((j, w) ∷ es) h a = ground (arith, All-put b k v es h a.1)

pub put-IsSorted : (k v : Bytes) (es : List Entry) → IsSorted es → IsSorted (put k v es)
put-IsSorted k v [] s = (tt, tt)
put-IsSorted k v ((j, w) ∷ es) s = ground (
  arith,
  put-IsSorted k v es s.1,
  All-trans k j es,
  All-put j k v es,
  lt_of_gt k j,
  eq_of_compare_bytes k j,
)

All-erase :
    (b k : Bytes) (es : List Entry) → All (λ x. b ≺ x.0) es → All (λ x. b ≺ x.0) (erase k es)
All-erase b k [] a = tt
All-erase b k ((j, w) ∷ es) a = ground (arith, All-erase b k es a.1)

pub erase-IsSorted : (k : Bytes) (es : List Entry) → IsSorted es → IsSorted (erase k es)
erase-IsSorted k [] s = tt
erase-IsSorted k ((j, w) ∷ es) s = ground (arith, erase-IsSorted k es s.1, All-erase j k es s.0)

pub lookup-put :
    (k v j : Bytes) (es : List Entry)
    → lookup j (put k v es) ≡ (if eq_bytes k j then some v else lookup j es)
lookup-put k v j [] = refl
lookup-put k v j ((i, w) ∷ es) = ground (
  arith,
  lookup-put k v j es,
  eq_of_compare_bytes k i,
  eq_of_compare_bytes k j,
  eq_of_compare_bytes i j,
  compare_bytes_refl k,
)

pub lookup-erase :
    (k j : Bytes) (es : List Entry)
    → lookup j (erase k es) ≡ (if eq_bytes k j then none else lookup j es)
lookup-erase k j [] = ground arith
lookup-erase k j ((i, w) ∷ es) = ground (
  arith,
  lookup-erase k j es,
  eq_of_compare_bytes i k,
  eq_of_compare_bytes k j,
  eq_of_compare_bytes i j,
  compare_bytes_refl k,
)

-- In an ordered list, a predicate of the keys holds of all entries when it holds of all that are
-- found.
pub All-of_lookup {κ} :
    (P : Bytes → Type κ) (es : List Entry)
    → IsSorted es
    → ((k v : Bytes) → lookup k es ≡ some v → P k)
    → All (λ e. P e.0) es
All-of_lookup P [] s h = tt
All-of_lookup P ((j, v) ∷ es) s h = (
  h j v (lookup_head j v es),
  All-of_lookup P es s.1 (λ k w f. h k w (lookup_tail j v k w es s f)),
)

pub of_lookup_all {κ} :
    (P : Bytes → Type κ) (k v : Bytes) (es : List Entry)
    → All (λ e. P e.0) es
    → lookup k es ≡ some v
    → P k
of_lookup_all P k v [] a h = ground arith
of_lookup_all P k v ((j, w) ∷ es) a h = elim (Bool-cases (eq_bytes j k)) [
  | inl same ↦ subst P (eq_of_eq_bytes j k same) a.0
  | inr other ↦ of_lookup_all P k v es a.1 (rw other at h)
]

found : (u v : Bytes) → some u ≡ some v → u ≡ v
found u v h = ground arith

none-some : (u : Bytes) → ◌≡◌ {A = Option Bytes} none (some u) → ⊥
none-some u h = ground arith

tails :
    (i j k u v : Bytes) (xs ys : List Entry)
    → i ≡ j
    → eq_bytes i k ≡ false
    → lookup k ((i, u) ∷ xs) ≡ lookup k ((j, v) ∷ ys)
    → lookup k xs ≡ lookup k ys
tails i j k u v xs ys same other h = ground arith

compare_cases : (i j : Bytes) → (i ≺ j) ⊎ (j ≺ i) ⊎ (i ≡ j)
compare_cases i j = ground (arith, lt_of_gt i j, eq_of_compare_bytes i j)

-- An ordered list is determined by what is found in it.
pub sorted_ext :
    (xs ys : List Entry)
    → IsSorted xs
    → IsSorted ys
    → ((k : Bytes) → lookup k xs ≡ lookup k ys)
    → xs ≡ ys
sorted_ext [] [] s t h = refl
sorted_ext [] ((j, v) ∷ ys) s t h = absurd (none-some v (h j ∙ lookup_head j v ys))
sorted_ext ((i, u) ∷ xs) [] s t h = absurd (none-some u (sym (h i) ∙ lookup_head i u xs))
sorted_ext ((i, u) ∷ xs) ((j, v) ∷ ys) s t h = elim (compare_cases i j) [
  | inl below ↦ absurd (
      none-some u (
        sym (lookup_below i ((j, v) ∷ ys) (below, All-trans i j ys below t.0))
        ∙ sym (h i)
        ∙ lookup_head i u xs))
  | inr (inl above) ↦ absurd (
      none-some v (
        sym (lookup_below j ((i, u) ∷ xs) (above, All-trans j i xs above s.0))
        ∙ h j
        ∙ lookup_head j v ys))
  | inr (inr same) ↦
      let value = found u v (sym (lookup_head i u xs) ∙ h i ∙ lookup_at j i v ys (sym same)) in
      rw (same, value)
        (ap (λ x. (j, v) ∷ x)
          (sorted_ext xs ys s.1 t.1 (λ k. elim (Bool-cases (eq_bytes i k)) [
            | inl here ↦
                let e = eq_of_eq_bytes i k here in
                lookup_below k xs (subst (λ x. All (λ y. x ≺ y.0) xs) e s.0)
                ∙ sym (lookup_below k ys (subst (λ x. All (λ y. x ≺ y.0) ys) (sym same ∙ e) t.0))
            | inr other ↦ tails i j k u v xs ys same other (h k)
          ])))
]
