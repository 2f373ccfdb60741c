-- ===== src/Raft/Store/Log.antt =====
-- The log of crates/raft-engine/src/store.rs as raft sees it: entries with consecutive indices.
use distributed_acid_kv_stor.Common.{
  take-append-drop, sub_zero, suc_sub_suc, lt_or_le, length-take, take_all, get_elem?-spliced, ℕ,
  zero, suc, ◌+◌, ◌-◌, ◌%◌, ◌^◌, ◌≤◌, ◌<◌, ◌≡◌, refl, sym, ap, ◌∙◌, subst, inl, inr, Bool, false,
  Bool-cases, Option, none, some, List, [], ◌∷◌, ◌++◌, length, length-drop, take, drop, get_elem?,
  ltb, lt→ltb, le→ltb, le→leb, if◌then◌else◌, Result, ok, err, arith,
}
use distributed_acid_kv_stor.Storage.Fjall.{Fjall}
use distributed_acid_kv_stor.Raft.Store.{
  Eraftpb, RaftStorage, StorageError, compacted, unavailable, spliced, entry_batch, append,
  slice_of, last_index_of, entries, term,
}

module _ (pb : Eraftpb) (db : Fjall) where
  -- The indices of the entries are consecutive, from `i` on.
  abbrev pub IsLog : ℕ → List pb.Entry → Type 0
  IsLog i [] = Unit {0}
  IsLog i (e ∷ es) = (pb.get_index e ≡ i) × IsLog (suc i) es

  IsLog-take : (n i : ℕ) (es : List pb.Entry) → IsLog i es → IsLog i (take n es)
  IsLog-take zero i es h = tt
  IsLog-take (suc n) i [] h = tt
  IsLog-take (suc n) i (e ∷ es) h = (h.0, IsLog-take n (suc i) es h.1)

  IsLog-drop :
      (n i : ℕ) (es : List pb.Entry) → n ≤ length es → IsLog i es → IsLog (i + n) (drop n es)
  IsLog-drop zero i es le h = subst (λ k. IsLog k es) (omega arith) h
  IsLog-drop (suc n) i [] le h = ground arith
  IsLog-drop (suc n) i (e ∷ es) le h =
      subst (λ k. IsLog k (drop n es)) (omega arith) (IsLog-drop n (suc i) es (omega arith) h.1)

  IsLog-append :
      (i : ℕ) (es fs : List pb.Entry) → IsLog i es → IsLog (i + length es) fs → IsLog i (es ++ fs)
  IsLog-append i [] fs h k = subst (λ k. IsLog k fs) (omega arith) k
  IsLog-append i (e ∷ es) fs h k =
      (h.0, IsLog-append (suc i) es fs h.1 (subst (λ k. IsLog k fs) (omega arith) k))

  eq_of_not_less : (a b : ℕ) → a ≤ b → ltb a b ≡ false → a ≡ b
  eq_of_not_less a b h k = ground arith

  -- What stays of the log is a first part of it.
  spliced_lem :
      (old : List pb.Entry) (diff : ℕ) (fs : List pb.Entry)
      → diff ≤ length old
      → spliced pb db old diff fs ≡ take diff old ++ fs
  unfolding spliced
  spliced_lem old diff fs h = elim (Bool-cases (ltb diff (length old))) [
    | inl less ↦ rw less
    | inr not_less ↦ rw (not_less, eq_of_not_less diff (length old) h not_less, take_all old)
  ]

  last_index_of_log :
      (i : ℕ) (e : pb.Entry) (es : List pb.Entry)
      → IsLog i (e ∷ es)
      → last_index_of pb db (e ∷ es) ≡ i + length es
  unfolding last_index_of
  last_index_of_log i e [] h = h.0 ∙ omega arith
  last_index_of_log i e (f ∷ es) h = last_index_of_log (suc i) f es h.1 ∙ omega arith

  -- What raft asks for at an index of a list of entries that begins at `first`.
  abbrev pub term_of : Option pb.Entry → Result StorageError ℕ
  term_of (some e) = ok (pb.get_term e)
  term_of none = err unavailable

  abbrev pub term_from : ℕ → List pb.Entry → ℕ → Result StorageError ℕ
  term_from first es idx = term_of (get_elem? es (idx - first))

  answer_cases :
      (o : Option pb.Entry) (below : Bool)
      → (if below
          then some (err compacted)
          else elim o [ some e ↦ some (ok (pb.get_term e)) | none ↦ some (err unavailable) ])
        ≡ (if below then some (err compacted) else some (term_of o))
  answer_cases none below = refl
  answer_cases (some e) below = refl

  term_of_log :
      (s : RaftStorage pb db) (b : pb.Entry) (bs : List pb.Entry) (base idx : ℕ)
      → s.core.entries ≡ b ∷ bs
      → pb.get_index b ≡ base
      → term pb db idx s
        ≡ (if ltb idx base then some (err compacted) else some (term_from base (b ∷ bs) idx))
  unfolding term
  term_of_log s b bs base idx e h =
      rw (term, e, h) (answer_cases (get_elem? (b ∷ bs) (idx - base)) (ltb idx base))

  abbrev after_append : RaftStorage pb db → List pb.Entry → ℕ → List pb.Entry → RaftStorage pb db
  after_append s old diff fs = record s {
    core = record s.core { entries = spliced pb db old diff fs };
    keyspace = (db.commit (entry_batch pb db s.region_id fs) s.keyspace).1;
  }

  appended :
      (s : RaftStorage pb db) (b n : pb.Entry) (bs ns : List pb.Entry) (base first : ℕ)
      → s.core.entries ≡ b ∷ bs
      → pb.get_index b ≡ base
      → pb.get_index n ≡ first
      → base ≤ first
      → append pb db (n ∷ ns) s ≡ some (ok tt, after_append s (b ∷ bs) (first - base) (n ∷ ns))
  unfolding append
  appended s b n bs ns base first e hb hn le = rw (append, e, hb, hn, le→ltb first base le) refl

  take_pos :
      (d : ℕ) (b : pb.Entry) (bs : List pb.Entry) → 0 < d → take d (b ∷ bs) ≡ b ∷ take (d - 1) bs
  take_pos zero b bs h = ground arith
  take_pos (suc d) b bs h = rw (suc_sub_suc d 0, sub_zero d)

  -- The terms of a log that was cut at `first` and extended.
  term_spliced :
      (old fs : List pb.Entry) (base first idx : ℕ)
      → base ≤ first
      → first ≤ base + length old
      → (if ltb idx base
          then some (err compacted)
          else some (term_from base (take (first - base) old ++ fs) idx))
        ≡ (if ltb idx first
            then (if ltb idx base then some (err compacted) else some (term_from base old idx))
            else some (term_from first fs idx))
  term_spliced old fs base first idx le le2 = elim (lt_or_le idx base) [
    | inl below ↦ rw (lt→ltb idx base below, lt→ltb idx first (omega arith)) refl
    | inr inside ↦ elim (lt_or_le idx first) [
      | inl kept ↦
          rw (le→ltb idx base inside, lt→ltb idx first kept)
            (ap (λ o. some (term_of o))
              (get_elem?-spliced old fs (first - base) (idx - base) (omega arith)
                ∙ rw (lt→ltb (idx - base) (first - base) (omega arith)) refl))
      | inr new_part ↦
          rw (le→ltb idx base inside, le→ltb idx first new_part)
            (ap (λ o. some (term_of o))
              (get_elem?-spliced old fs (first - base) (idx - base) (omega arith)
                ∙ rw (le→ltb (idx - base) (first - base) (omega arith))
                    (ap (get_elem? fs) (omega arith))))
    ]
  ]

  IsLog-spliced :
      (old fs : List pb.Entry) (base first : ℕ)
      → IsLog base old
      → IsLog first fs
      → base ≤ first
      → first ≤ base + length old
      → IsLog base (spliced pb db old (first - base) fs)
  IsLog-spliced old fs base first h k le le2 =
      subst (IsLog base) (sym (spliced_lem old (first - base) fs (omega arith))) (
        IsLog-append base (take (first - base) old) fs (IsLog-take (first - base) base old h) (
          subst (λ i. IsLog i fs) (rw (length-take (first - base) old (omega arith)) (omega arith))
            k))

  -- An append of consecutive entries that begins above the first entry of a log with consecutive
  -- indices, and inside the log or right after it: it succeeds, the indices stay consecutive, and
  -- the term at every index is that of the new entries from the first new index on, with nothing
  -- after them, and the old one before it.
  pub term-append :
      (s : RaftStorage pb db) (b n : pb.Entry) (bs ns : List pb.Entry) (base first idx : ℕ)
      → s.core.entries ≡ b ∷ bs
      → IsLog base (b ∷ bs)
      → IsLog first (n ∷ ns)
      → base < first
      → first ≤ base + length (b ∷ bs)
      → (t : RaftStorage pb db) × (append pb db (n ∷ ns) s ≡ some (ok tt, t))
        × IsLog base t.core.entries
        × (term pb db idx t
            ≡ (if ltb idx first then term pb db idx s else some (term_from first (n ∷ ns) idx)))
  term-append s b n bs ns base first idx e h k lt le =
      let d = first - base in
      let same =
        spliced_lem (b ∷ bs) d (n ∷ ns) (omega arith)
        ∙ ap (λ es. es ++ n ∷ ns) (take_pos d b bs (omega arith)) in
      (
        after_append s (b ∷ bs) d (n ∷ ns),
        appended s b n bs ns base first e h.0 k.0 (omega arith),
        IsLog-spliced (b ∷ bs) (n ∷ ns) base first h k (omega arith) le,
        term_of_log (after_append s (b ∷ bs) d (n ∷ ns)) b (take (d - 1) bs ++ n ∷ ns) base idx same
              h.0
            ∙ rw (term_of_log s b bs base idx e h.0) (
                subst
                  (λ es.
                    (if ltb idx base
                      then some (err compacted)
                      else some (term_from base (es ++ n ∷ ns) idx))
                    ≡ (if ltb idx first
                        then (if ltb idx base
                            then some (err compacted)
                            else some (term_from base (b ∷ bs) idx))
                        else some (term_from first (n ∷ ns) idx)))
                  (take_pos d b bs (omega arith))
                  (term_spliced (b ∷ bs) (n ∷ ns) base first idx (omega arith) le)),
      )

  slice_inside :
      (es : List pb.Entry) (start end : ℕ)
      → start ≤ end
      → end ≤ length es
      → slice_of pb db start end es ≡ some (take (end - start) (drop start es))
  unfolding slice_of
  slice_inside es start end h k = rw (le→leb start end h, le→leb end (length es) k) refl

  fits :
      (base : ℕ) (b : pb.Entry) (bs : List pb.Entry) (high : ℕ)
      → IsLog base (b ∷ bs)
      → base + length (b ∷ bs) < 2 ^ 64
      → high ≤ base + length (b ∷ bs)
      → ltb ((last_index_of pb db (b ∷ bs) + 1) % 2 ^ 64) high ≡ false
  fits base b bs high h bound le =
      rw (last_index_of_log base b bs h)
        (le→ltb ((base + length bs + 1) % 2 ^ 64) high (omega arith))

  -- Two cuts of a list.
  cut :
      (es : List pb.Entry) (start count : ℕ)
      → es ≡ take start es ++ (take count (drop start es) ++ drop count (drop start es))
  cut es start count =
      sym (take-append-drop start es)
      ∙ ap (λ t. take start es ++ t) (sym (take-append-drop count (drop start es)))

  -- A range inside a log with consecutive indices that stay below 2^64: the answer is the part of
  -- the log whose first entry is low - base entries behind its start and whose length is that of the
  -- range, so that its indices are those from low on, and no slice is out of range.
  pub entries_inside :
      (s : RaftStorage pb db) (b : pb.Entry) (bs : List pb.Entry) (base low high : ℕ)
      → s.core.entries ≡ b ∷ bs
      → IsLog base (b ∷ bs)
      → base + length (b ∷ bs) < 2 ^ 64
      → base ≤ low
      → low ≤ high
      → high ≤ base + length (b ∷ bs)
      → (before es after : List pb.Entry) × (entries pb db low high s ≡ some (ok es))
        × (s.core.entries ≡ before ++ (es ++ after))
        × (length before ≡ low - base)
        × (length es ≡ high - low)
        × IsLog low es
  unfolding entries
  entries_inside s b bs base low high e h bound le le2 le3 = (
    take (low - base) (b ∷ bs),
    take (high - low) (drop (low - base) (b ∷ bs)),
    drop (high - low) (drop (low - base) (b ∷ bs)),
    rw
        (
          entries,
          e,
          h.0,
          le→ltb low base le,
          fits base b bs high h bound le3,
          le→ltb high base (omega arith),
        )
        (ap
          (λ o. elim o as (λ _. Option (Result StorageError (List pb.Entry))) [
            | some es ↦ some (ok es)
            | none ↦ none
          ])
          (slice_inside (b ∷ bs) (low - base) (high - base) (omega arith) (omega arith)
            ∙ ap (λ n. some (take n (drop (low - base) (b ∷ bs)))) (omega arith))),
    e ∙ cut (b ∷ bs) (low - base) (high - low),
    length-take (low - base) (b ∷ bs) (omega arith),
    length-take (high - low) (drop (low - base) (b ∷ bs))
        (rw (length-drop (low - base) (b ∷ bs)) (omega arith)),
    IsLog-take (high - low) low (drop (low - base) (b ∷ bs)) (
        subst (λ i. IsLog i (drop (low - base) (b ∷ bs))) (omega arith)
          (IsLog-drop (low - base) base (b ∷ bs) (omega arith) h)),
  )
