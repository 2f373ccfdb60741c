-- ===== src/Storage/Versions/Laws.antt =====
-- What the loop over the versions of a key finds in an ordered partition.
use Prim.Native.Nat.Ordering.{gt}
use distributed_acid_kv_stor.Common.{
  ℕ, ◌≤◌, ◌<◌, ◌≡◌, refl, sym, ◌∙◌, lt_eq_gt, le_or_gt, inl, inr, some, List, [], ◌∷◌, map, All,
  Result, ok, err, arith,
}
use distributed_acid_kv_stor.Common.Bytes.{
  Bytes, Apart, Apart-ne, Apart-cases, compare_bytes, ◌≺◌, eq_bytes_refl, eq_bytes_ne,
}
use distributed_acid_kv_stor.Storage.Key.{u64_max, encode}
use distributed_acid_kv_stor.Storage.Key.Laws.{decode-encode, compare-encode, compare-encode-Apart}
use distributed_acid_kv_stor.Storage.Fjall.Entries.{
  Entry, lookup, from, IsSorted, lookup_tail, lookup_at,
}
use distributed_acid_kv_stor.Storage.Versions.Places.{
  IsPlaced, lookup_own, lookup_foreign, newer_first, foreign_before,
}
use distributed_acid_kv_stor.Storage.Versions.{Flow, next, done, proceed, for_versions}

proceed_ended :
    {E A : Type 0} (r rest : Result E (Flow A))
    → proceed r rest ≡ ok next
    → (r ≡ ok next) × (rest ≡ ok next)
proceed_ended (err e) rest h = ground arith
proceed_ended (ok next) rest h = (refl, h)
proceed_ended (ok (done a)) rest h = ground arith

module _ {F E A : Type 0} (io : F → E) (corrupted : E) (key : Bytes)
    (body : ℕ → Bytes → Result E (Flow A)) where
  loop : List Entry → Result E (Flow A)
  loop es = for_versions io corrupted key body (map ok es)

  -- A version of the key is handed to the body.
  loop_own :
      (t : ℕ) (v : Bytes) (es : List Entry)
      → t ≤ u64_max
      → loop ((encode key t, v) ∷ es) ≡ proceed (body t v) (loop es)
  unfolding loop for_versions
  loop_own t v es h = rw (for_versions, decode-encode key t h, eq_bytes_refl key)

  -- A foreign key ends the loop.
  loop_foreign :
      (u : Bytes) (t : ℕ) (v : Bytes) (es : List Entry)
      → t ≤ u64_max
      → Apart u key
      → loop ((encode u t, v) ∷ es) ≡ ok next
  unfolding loop for_versions
  loop_foreign u t v es h a =
      rw (for_versions, decode-encode u t h, eq_bytes_ne u key (Apart-ne u key a))

  -- The loop from the newest version that may be read.
  abbrev pub scan : ℕ → List Entry → Result E (Flow A)
  scan top es = for_versions io corrupted key body (map ok (from (encode key top) es))

  -- One step of the loop, by the place of the first key.
  module _ (top : ℕ) (top_fits : top ≤ u64_max) (j v : Bytes) (es : List Entry) where
    scan_own :
        (t : ℕ)
        → t ≤ u64_max
        → j ≡ encode key t
        → t ≤ top
        → scan top ((j, v) ∷ es) ≡ proceed (body t v) (scan top es)
    unfolding loop
    scan_own t fits e le = rw e (
        ground (
          arith,
          compare-encode key t top fits top_fits,
          loop_own t v (from (encode key top) es) fits,
        ))

    scan_newer :
        (t : ℕ) → t ≤ u64_max → j ≡ encode key t → top < t → scan top ((j, v) ∷ es) ≡ scan top es
    scan_newer t fits e newer = rw e (ground (arith, compare-encode key t top fits top_fits))

    scan_before :
        (u : Bytes) (t : ℕ)
        → j ≡ encode u t
        → Apart u key
        → u ≺ key
        → scan top ((j, v) ∷ es) ≡ scan top es
    scan_before u t e a before = rw e (ground (arith, compare-encode-Apart u key t top a))

    scan_behind :
        (u : Bytes) (t : ℕ)
        → t ≤ u64_max
        → j ≡ encode u t
        → Apart u key
        → compare_bytes u key ≡ gt
        → scan top ((j, v) ∷ es) ≡ ok next
    unfolding loop
    scan_behind u t fits e a after = rw e (
        ground (
          arith,
          compare-encode-Apart u key t top a,
          loop_foreign u t v (from (encode key top) es) fits a,
        ))

  -- The body goes on at every stored version between `low` (left out) and `top`.
  abbrev pub Skips : ℕ → ℕ → List Entry → Type 0
  Skips low top es =
      (t : ℕ) (b : Bytes)
      → low < t
      → t ≤ top
      → lookup (encode key t) es ≡ some b
      → body t b ≡ ok next

  Skips-tail :
      (low top : ℕ) (j v : Bytes) (es : List Entry)
      → IsSorted ((j, v) ∷ es)
      → Skips low top ((j, v) ∷ es)
      → Skips low top es
  Skips-tail low top j v es s skips t b above le h =
      skips t b above le (lookup_tail j v (encode key t) b es s h)

  -- The loop ends at the version `c`, if the body returns there and goes on at the newer ones.
  pub scan_finds :
      (top c : ℕ) (b : Bytes) (r : Result E (Flow A)) (es : List Entry)
      → top ≤ u64_max
      → c ≤ top
      → ((rest : Result E (Flow A)) → proceed (body c b) rest ≡ r)
      → IsSorted es
      → All (λ e. IsPlaced key e.0) es
      → lookup (encode key c) es ≡ some b
      → Skips c top es
      → scan top es ≡ r
  scan_finds top c b r [] fits le stop s p h skips = ground arith
  scan_finds top c b r ((j, v) ∷ es) fits le stop s (inl (t, tf, e), p) h skips =
      elim (lt_eq_gt c t) [
        | inl newer ↦
            let here = lookup_own key t c j v es tf (omega arith) e (omega arith) in
            let rest =
              scan_finds top c b r es fits le stop s.1 p (sym here ∙ h)
                (Skips-tail c top j v es s skips) in
            elim (le_or_gt t top) [
              | inl visible ↦
                  let skip : body t v ≡ ok next =
                    skips t v newer visible (lookup_at j (encode key t) v es e) in
                  scan_own top fits j v es t tf e visible ∙ rw skip rest
              | inr hidden ↦ scan_newer top fits j v es t tf e hidden ∙ rest
            ]
        | inr (inl same) ↦
            let found : some v ≡ some b = sym (lookup_at j (encode key c) v es (rw same e)) ∙ h in
            let ve : v ≡ b = cc found in
            scan_own top fits j v es t tf e (omega arith) ∙ (rw (ve, ← same) (stop (scan top es)))
        | inr (inr older) ↦
            let here = lookup_own key t c j v es tf (omega arith) e (omega arith) in
            absurd (omega (arith, newer_first key t c j b es tf (omega arith) e s.0 (sym here ∙ h)))
      ]
  scan_finds top c b r ((j, v) ∷ es) fits le stop s (inr (u, t, tf, e, a), p) h skips =
      let later = sym (lookup_foreign key u t c j v es e a) ∙ h in
      scan_before top fits j v es u t e a (foreign_before key u t c j b es e a s.0 later)
      ∙ scan_finds top c b r es fits le stop s.1 p later (Skips-tail c top j v es s skips)

  -- The loop runs to its end, if the body goes on at every stored version up to `top`.
  pub scan_ends :
      (top : ℕ) (es : List Entry)
      → top ≤ u64_max
      → IsSorted es
      → All (λ e. IsPlaced key e.0) es
      → ((t : ℕ) (b : Bytes) → t ≤ top → lookup (encode key t) es ≡ some b → body t b ≡ ok next)
      → scan top es ≡ ok next
  unfolding for_versions
  scan_ends top [] fits s p skips = refl
  scan_ends top ((j, v) ∷ es) fits s (inl (t, tf, e), p) skips =
      let rest =
        scan_ends top es fits s.1 p
          (λ t b le h. skips t b le (lookup_tail j v (encode key t) b es s h)) in
      elim (le_or_gt t top) [
        | inl visible ↦
            let skip : body t v ≡ ok next = skips t v visible (lookup_at j (encode key t) v es e) in
            scan_own top fits j v es t tf e visible ∙ rw skip rest
        | inr hidden ↦ scan_newer top fits j v es t tf e hidden ∙ rest
      ]
  scan_ends top ((j, v) ∷ es) fits s (inr (u, t, tf, e, a), p) skips =
      let rest =
        scan_ends top es fits s.1 p
          (λ t b le h. skips t b le (lookup_tail j v (encode key t) b es s h)) in
      elim (Apart-cases u key a) [
        | inl before ↦ scan_before top fits j v es u t e a before ∙ rest
        | inr behind ↦ scan_behind top fits j v es u t tf e a behind
      ]

  -- Conversely: a loop that runs to its end has gone on at every stored version up to `top`.
  pub scan_ended :
      (top : ℕ) (es : List Entry)
      → top ≤ u64_max
      → IsSorted es
      → All (λ e. IsPlaced key e.0) es
      → scan top es ≡ ok next
      → (t : ℕ) (b : Bytes) → t ≤ top
      → lookup (encode key t) es ≡ some b
      → body t b ≡ ok next
  scan_ended top [] fits s p ended t b le h = ground arith
  scan_ended top ((j, v) ∷ es) fits s (inl (c, cf, e), p) ended t b le h = elim (le_or_gt c top) [
    | inl visible ↦
        let step : proceed (body c v) (scan top es) ≡ ok next =
          sym (scan_own top fits j v es c cf e visible) ∙ ended in
        let (here, rest) = proceed_ended (body c v) (scan top es) step in
        elim (lt_eq_gt t c) [
          | inl older ↦
              scan_ended top es fits s.1 p rest t b le
                (sym (lookup_own key c t j v es cf (omega arith) e (omega arith)) ∙ h)
          | inr (inl same) ↦
              let found : some v ≡ some b = sym (lookup_at j (encode key t) v es (rw same e)) ∙ h in
              let ve : v ≡ b = cc found in (rw (same, ← ve) here)
          | inr (inr newer) ↦
              scan_ended top es fits s.1 p rest t b le
                (sym (lookup_own key c t j v es cf (omega arith) e (omega arith)) ∙ h)
        ]
    | inr hidden ↦
        scan_ended top es fits s.1 p (sym (scan_newer top fits j v es c cf e hidden) ∙ ended) t b le
          (sym (lookup_own key c t j v es cf (omega arith) e (omega arith)) ∙ h)
  ]
  scan_ended top ((j, v) ∷ es) fits s (inr (u, c, cf, e, a), p) ended t b le h =
      let later = sym (lookup_foreign key u c t j v es e a) ∙ h in
      scan_ended top es fits s.1 p
        (sym (scan_before top fits j v es u c e a (foreign_before key u c t j b es e a s.0 later))
          ∙ ended)
        t b le later
