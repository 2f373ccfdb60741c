-- ===== src/Common/Results.antt =====
-- `Result`, and actions that change a state and may return early with an error (`?`).
use mathlib.Core.Path.{◌≡◌, refl, sym, ap, ◌∙◌}
use native.Mathlib.Omega.{arith}

pub data Result {ℓ} (E A : Type ℓ) : Type ℓ where
  ok : A → Result E A
  err : E → Result E A

module _ {ℓ} {E F A : Type ℓ} where
  abbrev pub map_err : (E → F) → Result E A → Result F A
  map_err f (ok a) = ok a
  map_err f (err e) = err (f e)

-- What was written before an error stays written, so the state comes back beside it.
abbrev pub Exec {ℓ} : Type ℓ → Type ℓ → Type ℓ → Type ℓ
Exec S E A = S → Result E A × S

module _ {ℓ} {S E A : Type ℓ} where
  abbrev pub pure : A → Exec S E A
  pure a s = (ok a, s)

  abbrev pub throw : E → Exec S E A
  throw e s = (err e, s)

  abbrev pub lift : Result E A → Exec S E A
  lift r s = (r, s)

module _ {ℓ} {S E F A : Type ℓ} where
  -- `e.map_err(f)` on an action
  abbrev pub wrap : (E → F) → Exec S E A → Exec S F A
  wrap f m s = (map_err f (m s).0, (m s).1)

module _ {ℓ} {S E A B : Type ℓ} where
  abbrev pub continue : Result E A → (A → Exec S E B) → Exec S E B
  continue (ok a) f s = f a s
  continue (err e) f s = (err e, s)

  infixl 10 ◌>>=◌ ◌>>◌
  abbrev pub ◌>>=◌ : Exec S E A → (A → Exec S E B) → Exec S E B
  ◌>>=◌ m f s = continue (m s).0 f (m s).1

  abbrev pub ◌>>◌ : Exec S E A → Exec S E B → Exec S E B
  m >> n = m >>= λ _. n

module _ {ℓ} {S E F A : Type ℓ} where
  -- An action whose error is looked at and not passed on.
  abbrev pub attempt : Exec S E A → Exec S F (Result E A)
  attempt m s = (ok (m s).0, (m s).1)

module _ {ℓ} {S E A B : Type ℓ} where
  -- What succeeds as a whole has succeeded in its first part.
  pub bind_ok :
      (m : Exec S E A) (f : A → Exec S E B) (s : S) (b : B)
      → ((m >>= f) s).0 ≡ ok b
      → (a : A) × ((m s).0 ≡ ok a)
  bind_ok m f s b h = go (m s).0 (m s).1 h
    where
      go : (r : Result E A) (t : S) → (continue r f t).0 ≡ ok b → (a : A) × (r ≡ ok a)
      go (ok a) t e = (a, refl)
      go (err x) t e = ground arith

  -- And its second part on what the first has returned.
  pub bind_inv :
      (m : Exec S E A) (f : A → Exec S E B) (s : S) (b : B)
      → ((m >>= f) s).0 ≡ ok b
      → (a : A) × ((m s).0 ≡ ok a) × ((f a (m s).1).0 ≡ ok b)
  bind_inv m f s b h =
      let (a, e) = bind_ok m f s b h in (a, e, sym (ap (λ r. (continue r f (m s).1).0) e) ∙ h)
