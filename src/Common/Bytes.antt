-- ===== src/Common/Bytes.antt =====
-- Byte strings: `Ord` of `[u8]`, and `u64::to_be_bytes` and `u64::from_be_bytes`.
use Prim.Native.Nat.{ℕ, zero, suc, ◌+◌, ◌*◌, ◌/◌, ◌%◌, ◌^◌, ◌<◌, compare, Ordering}
use Prim.Native.Nat.Ordering.{lt, eq, gt}
use mathlib.Core.Path.{◌≡◌, sym, refl}
use mathlib.Core.Logic.{◌≢◌, ◌⊎◌, inl, inr}
use mathlib.Core.Bool.{Bool, true, false}
use mathlib.Core.List.{List, [], ◌∷◌, ◌++◌}
use native.Mathlib.Omega.{arith}
use native.Mathlib.Nat.{pow-suc}
use distributed_acid_kv_stor.Common.Lists.{length, length-append}

abbrev pub Bytes : Type 0
Bytes = List ℕ

abbrev pub then : Ordering → Ordering → Ordering
then eq second = second
then first _ = first

-- `Ord::cmp` of byte slices: lexicographic, a proper prefix first.
abbrev pub compare_bytes : Bytes → Bytes → Ordering
compare_bytes [] [] = eq
compare_bytes [] (y ∷ ys) = lt
compare_bytes (x ∷ xs) [] = gt
compare_bytes (x ∷ xs) (y ∷ ys) = then (compare x y) (compare_bytes xs ys)

abbrev pub lt_bytes : Bytes → Bytes → Bool
lt_bytes a b = elim (compare_bytes a b) [ lt ↦ true | _ ↦ false ]

abbrev pub ge_bytes : Bytes → Bytes → Bool
ge_bytes a b = elim (compare_bytes a b) [ lt ↦ false | _ ↦ true ]

abbrev pub eq_bytes : Bytes → Bytes → Bool
eq_bytes a b = elim (compare_bytes a b) [ eq ↦ true | _ ↦ false ]

abbrev pub is_empty {ℓ} : {A : Type ℓ} → List A → Bool
is_empty [] = true
is_empty (x ∷ xs) = false

infix 50 ◌≺◌
abbrev pub ◌≺◌ : Bytes → Bytes → Type 0
a ≺ b = compare_bytes a b ≡ lt

pub compare_bytes_refl : (a : Bytes) → compare_bytes a a ≡ eq
compare_bytes_refl [] = refl
compare_bytes_refl (x ∷ xs) = ground (arith, compare_bytes_refl xs)

pub eq_of_compare_bytes : (a b : Bytes) → compare_bytes a b ≡ eq → a ≡ b
eq_of_compare_bytes [] [] h = refl
eq_of_compare_bytes [] (y ∷ ys) h = ground arith
eq_of_compare_bytes (x ∷ xs) [] h = ground arith
eq_of_compare_bytes (x ∷ xs) (y ∷ ys) h = ground (arith, eq_of_compare_bytes xs ys)

pub lt_of_gt : (a b : Bytes) → compare_bytes a b ≡ gt → b ≺ a
lt_of_gt [] [] h = ground arith
lt_of_gt [] (y ∷ ys) h = ground arith
lt_of_gt (x ∷ xs) [] h = refl
lt_of_gt (x ∷ xs) (y ∷ ys) h = ground (arith, lt_of_gt xs ys)

pub gt_of_lt : (a b : Bytes) → a ≺ b → compare_bytes b a ≡ gt
gt_of_lt [] [] h = ground arith
gt_of_lt [] (y ∷ ys) h = refl
gt_of_lt (x ∷ xs) [] h = ground arith
gt_of_lt (x ∷ xs) (y ∷ ys) h = ground (arith, gt_of_lt xs ys)

pub ≺_trans : (a b c : Bytes) → a ≺ b → b ≺ c → a ≺ c
≺_trans [] [] c h k = ground arith
≺_trans [] (y ∷ ys) [] h k = ground arith
≺_trans [] (y ∷ ys) (z ∷ zs) h k = refl
≺_trans (x ∷ xs) [] c h k = ground arith
≺_trans (x ∷ xs) (y ∷ ys) [] h k = ground arith
≺_trans (x ∷ xs) (y ∷ ys) (z ∷ zs) h k = ground (arith, ≺_trans xs ys zs)

pub eq_bytes_refl : (a : Bytes) → eq_bytes a a ≡ true
eq_bytes_refl a = ground (arith, compare_bytes_refl a)

pub eq_of_eq_bytes : (a b : Bytes) → eq_bytes a b ≡ true → a ≡ b
eq_of_eq_bytes a b h = ground (arith, eq_of_compare_bytes a b)

pub eq_bytes_ne : (a b : Bytes) → a ≢ b → eq_bytes a b ≡ false
eq_bytes_ne a b h = ground (arith, eq_of_compare_bytes a b)

-- Neither string is a prefix of the other.
abbrev pub Apart : Bytes → Bytes → Type 0
Apart [] ys = ⊥
Apart (x ∷ xs) [] = ⊥
Apart (x ∷ xs) (y ∷ ys) = (x ≢ y) ⊎ Apart xs ys

pub Apart-ne : (a b : Bytes) → Apart a b → a ≢ b
Apart-ne [] b h e = absurd h
Apart-ne (x ∷ xs) [] h e = absurd h
Apart-ne (x ∷ xs) (y ∷ ys) (inl h) e = ground arith
Apart-ne (x ∷ xs) (y ∷ ys) (inr h) e = Apart-ne xs ys h (ground arith)

pub Apart-symm : (a b : Bytes) → Apart a b → Apart b a
Apart-symm [] b h = absurd h
Apart-symm (x ∷ xs) [] h = absurd h
Apart-symm (x ∷ xs) (y ∷ ys) (inl h) = inl (λ e. h (sym e))
Apart-symm (x ∷ xs) (y ∷ ys) (inr h) = inr (Apart-symm xs ys h)

pub Apart-cases : (a b : Bytes) → Apart a b → (a ≺ b) ⊎ (compare_bytes a b ≡ gt)
Apart-cases a b h = ground (arith, Apart-ne a b h, eq_of_compare_bytes a b)

-- What follows two such strings does not matter to their order.
pub compare_append :
    (a b s t : Bytes) → Apart a b → compare_bytes (a ++ s) (b ++ t) ≡ compare_bytes a b
compare_append [] b s t h = absurd h
compare_append (x ∷ xs) [] s t h = absurd h
compare_append (x ∷ xs) (y ∷ ys) s t (inl h) = ground arith
compare_append (x ∷ xs) (y ∷ ys) s t (inr h) = ground (arith, compare_append xs ys s t h)

pub compare_cons_prefix : (a s t : Bytes) → compare_bytes (a ++ s) (a ++ t) ≡ compare_bytes s t
compare_cons_prefix [] s t = refl
compare_cons_prefix (x ∷ xs) s t = ground (arith, compare_cons_prefix xs s t)

-- `to_be_bytes` of an unsigned integer of `n` bytes, most significant byte first.
unfoldable pub be_bytes : ℕ → ℕ → Bytes
be_bytes zero x = []
be_bytes (suc n) x = be_bytes n (x / 256) ++ (x % 256) ∷ []

-- `from_be_bytes`, from the bytes read so far.
abbrev pub from_be : ℕ → Bytes → ℕ
from_be acc [] = acc
from_be acc (b ∷ bs) = from_be (acc * 256 + b) bs

from_be-snoc :
    (acc : ℕ) (bs : Bytes) (b : ℕ) → from_be acc (bs ++ b ∷ []) ≡ from_be acc bs * 256 + b
from_be-snoc acc [] b = refl
from_be-snoc acc (c ∷ bs) b = from_be-snoc (acc * 256 + c) bs b

pub from_be-be_bytes : (n x : ℕ) → x < 256 ^ n → from_be 0 (be_bytes n x) ≡ x
unfolding be_bytes
from_be-be_bytes zero x h = omega arith
from_be-be_bytes (suc n) x h = omega (
  arith,
  from_be-snoc 0 (be_bytes n (x / 256)) (x % 256),
  pow-suc 256 n,
  from_be-be_bytes n (x / 256) (omega (arith, pow-suc 256 n)),
)

pub length-be_bytes : (n x : ℕ) → length (be_bytes n x) ≡ n
unfolding be_bytes
length-be_bytes zero x = refl
length-be_bytes (suc n) x =
    omega
      (arith, length-append (be_bytes n (x / 256)) ((x % 256) ∷ []), length-be_bytes n (x / 256))

pub compare-snoc :
    (xs ys : Bytes) (a b : ℕ)
    → length xs ≡ length ys
    → compare_bytes (xs ++ a ∷ []) (ys ++ b ∷ []) ≡ then (compare_bytes xs ys) (compare a b)
compare-snoc [] [] a b h = ground arith
compare-snoc [] (y ∷ ys) a b h = absurd (omega arith)
compare-snoc (x ∷ xs) [] a b h = absurd (omega arith)
compare-snoc (x ∷ xs) (y ∷ ys) a b h = ground (arith, compare-snoc xs ys a b)

-- Big-endian bytes compare as the numbers that they stand for.
pub compare-be_bytes :
    (n x y : ℕ)
    → x < 256 ^ n
    → y < 256 ^ n
    → compare_bytes (be_bytes n x) (be_bytes n y) ≡ compare x y
unfolding be_bytes
compare-be_bytes zero x y h k = ground arith
compare-be_bytes (suc n) x y h k = ground (
  arith,
  compare-snoc (be_bytes n (x / 256)) (be_bytes n (y / 256)) (x % 256) (y % 256),
  length-be_bytes n (x / 256),
  length-be_bytes n (y / 256),
  compare-be_bytes n (x / 256) (y / 256) (omega (arith, pow-suc 256 n))
      (omega (arith, pow-suc 256 n)),
)
