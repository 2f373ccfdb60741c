-- ===== src/Common/Slices.antt =====
-- Lengths and elements of lists that were cut and joined.
use Prim.Native.Nat.{ℕ, zero, suc, ◌-◌, ◌<◌, ◌≤◌}
use mathlib.Core.Path.{◌≡◌, refl, ap}
use mathlib.Core.Logic.{◌⊎◌, inl, inr}
use mathlib.Core.List.{List, [], ◌∷◌, ◌++◌}
use mathlib.Core.Option.{none}
use native.Mathlib.Omega.{arith}
use distributed_acid_kv_stor.Common.Tests.{ltb, lt→ltb, le→ltb, if◌then◌else◌}
use distributed_acid_kv_stor.Common.Lists.{length, take, get_elem?}

pub sub_zero : (i : ℕ) → i - 0 ≡ i
sub_zero i = omega arith

pub suc_sub_suc : (i n : ℕ) → suc i - suc n ≡ i - n
suc_sub_suc i n = omega arith

pub lt_or_le : (i n : ℕ) → (i < n) ⊎ (n ≤ i)
lt_or_le i n = omega arith

module _ {ℓ} {A : Type ℓ} where
  pub length-take : (n : ℕ) (es : List A) → n ≤ length es → length (take n es) ≡ n
  length-take zero es h = refl
  length-take (suc n) [] h = ground arith
  length-take (suc n) (e ∷ es) h = ap suc (length-take n es (omega arith))

  pub get_elem?-left :
      (es fs : List A) (i : ℕ) → i < length es → get_elem? (es ++ fs) i ≡ get_elem? es i
  get_elem?-left [] fs i h = ground arith
  get_elem?-left (e ∷ es) fs zero h = refl
  get_elem?-left (e ∷ es) fs (suc i) h = get_elem?-left es fs i (omega arith)

  pub get_elem?-right :
      (es fs : List A) (i : ℕ)
      → length es ≤ i
      → get_elem? (es ++ fs) i ≡ get_elem? fs (i - length es)
  get_elem?-right [] fs i h = rw (sub_zero i)
  get_elem?-right (e ∷ es) fs zero h = ground arith
  get_elem?-right (e ∷ es) fs (suc i) h =
      rw (suc_sub_suc i (length es)) (get_elem?-right es fs i (omega arith))

  pub get_elem?-take :
      (n : ℕ) (es : List A) (i : ℕ) → i < n → get_elem? (take n es) i ≡ get_elem? es i
  get_elem?-take zero es i h = ground arith
  get_elem?-take (suc n) [] i h = refl
  get_elem?-take (suc n) (e ∷ es) zero h = refl
  get_elem?-take (suc n) (e ∷ es) (suc i) h = get_elem?-take n es i (omega arith)

  pub get_elem?-past : (es : List A) (i : ℕ) → length es ≤ i → get_elem? es i ≡ none
  get_elem?-past [] i h = refl
  get_elem?-past (e ∷ es) zero h = ground arith
  get_elem?-past (e ∷ es) (suc i) h = get_elem?-past es i (omega arith)

  pub take_all : (es : List A) → take (length es) es ≡ es
  take_all [] = refl
  take_all (e ∷ es) = ap (λ t. e ∷ t) (take_all es)

  pub get_elem?-spliced :
      (old fs : List A) (d i : ℕ)
      → d ≤ length old
      → get_elem? (take d old ++ fs) i ≡ (if ltb i d then get_elem? old i else get_elem? fs (i - d))
  get_elem?-spliced old fs d i h = elim (lt_or_le i d) [
    | inl less ↦ rw (
      lt→ltb i d less,
      get_elem?-left (take d old) fs i (rw (length-take d old h) less),
      get_elem?-take d old i less,
    )
    | inr past ↦ rw (
      le→ltb i d past,
      get_elem?-right (take d old) fs i (rw (length-take d old h) past),
      length-take d old h,
    )
  ]
