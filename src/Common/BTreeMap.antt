-- ===== src/Common/BTreeMap.antt =====
-- `BTreeMap` of the Rust standard library: key-value pairs in key order, one pair for each key.
use Prim.Native.Nat.{ℕ, compare, Ordering}
use Prim.Native.Nat.Ordering.{lt, eq, gt}
use mathlib.Core.Path.{◌≡◌, refl}
use mathlib.Core.Bool.{Bool, true, false}
use mathlib.Core.Option.{Option, none, some}
use mathlib.Core.List.{List, [], ◌∷◌}
use native.Mathlib.Omega.{arith}
use distributed_acid_kv_stor.Common.Tests.{if◌then◌else◌}
use distributed_acid_kv_stor.Common.Bytes.{
  Bytes, compare_bytes, compare_bytes_refl, eq_of_compare_bytes, lt_of_gt, gt_of_lt, ≺_trans,
}

-- `Ord` of a key type.
pub record KeyOrder (K : Type 0) : Type 0 where
  pub cmp : K → K → Ordering
  pub cmp_refl : (a : K) → cmp a a ≡ eq
  pub eq_of_cmp : (a b : K) → cmp a b ≡ eq → a ≡ b
  pub cmp_flip : (a b : K) → cmp a b ≡ gt → cmp b a ≡ lt
  pub cmp_unflip : (a b : K) → cmp a b ≡ lt → cmp b a ≡ gt
  pub cmp_trans : (a b c : K) → cmp a b ≡ lt → cmp b c ≡ lt → cmp a c ≡ lt

pub compare_trans : (a b c : ℕ) → compare a b ≡ lt → compare b c ≡ lt → compare a c ≡ lt
compare_trans a b c h k = ground arith

pub compare_flip : (a b : ℕ) → compare a b ≡ gt → compare b a ≡ lt
compare_flip a b h = ground arith

pub compare_unflip : (a b : ℕ) → compare a b ≡ lt → compare b a ≡ gt
compare_unflip a b h = ground arith

pub eq_of_compare : (a b : ℕ) → compare a b ≡ eq → a ≡ b
eq_of_compare a b h = ground arith

pub compare_refl : (a : ℕ) → compare a a ≡ eq
compare_refl a = ground arith

instance abbrev pub id_order : KeyOrder ℕ
id_order = record {
  cmp = compare;
  cmp_refl = compare_refl;
  eq_of_cmp = eq_of_compare;
  cmp_flip = compare_flip;
  cmp_unflip = compare_unflip;
  cmp_trans = compare_trans;
}

instance abbrev pub bytes_order : KeyOrder Bytes
bytes_order = record {
  cmp = compare_bytes;
  cmp_refl = compare_bytes_refl;
  eq_of_cmp = eq_of_compare_bytes;
  cmp_flip = lt_of_gt;
  cmp_unflip = gt_of_lt;
  cmp_trans = ≺_trans;
}

abbrev pub BTreeMap : Type 0 → Type 0 → Type 0
BTreeMap K V = List (K × V)

abbrev pub values : {K V : Type 0} → BTreeMap K V → List V
values [] = []
values ((k, v) ∷ m) = v ∷ values m

abbrev pub same_key : {K : Type 0} ⦃o : KeyOrder K⦄ → K → K → Bool
same_key ⦃o⦄ a b = elim (o.cmp a b) [ eq ↦ true | lt ↦ false | gt ↦ false ]

module _ {K V : Type 0} ⦃o : KeyOrder K⦄ where
  unfoldable pub get : K → BTreeMap K V → Option V
  get k [] = none
  get k ((j, v) ∷ m) = if same_key k j then some v else get k m

  unfoldable pub insert : K → V → BTreeMap K V → BTreeMap K V
  insert k v [] = (k, v) ∷ []
  insert k v ((j, w) ∷ m) =
      let rest = insert k v m in
      elim (o.cmp k j) [ lt ↦ (k, v) ∷ (j, w) ∷ m | eq ↦ (k, v) ∷ m | gt ↦ (j, w) ∷ rest ]

  unfoldable pub remove : K → BTreeMap K V → BTreeMap K V
  remove k [] = []
  remove k ((j, w) ∷ m) = let rest = remove k m in if same_key k j then rest else (j, w) ∷ rest

  pub get-insert :
      (k j : K) (v : V) (m : BTreeMap K V)
      → get j (insert k v m) ≡ (if same_key j k then some v else get j m)
  unfolding get insert
  get-insert k j v [] = refl
  get-insert k j v ((i, w) ∷ m) =
      ground
        (arith, get-insert k j v m, o.eq_of_cmp k i, o.eq_of_cmp j k, o.eq_of_cmp j i, o.cmp_refl j)

  pub get-remove :
      (k j : K) (m : BTreeMap K V) → get j (remove k m) ≡ (if same_key j k then none else get j m)
  unfolding get remove
  get-remove k j [] = ground arith
  get-remove k j ((i, w) ∷ m) =
      ground
        (arith, get-remove k j m, o.eq_of_cmp k i, o.eq_of_cmp j k, o.eq_of_cmp j i, o.cmp_refl j)
