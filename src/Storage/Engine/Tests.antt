-- ===== src/Storage/Engine/Tests.antt =====
-- A run of the garbage collection of crates/storage/src/engine.rs that removes an old version.
use distributed_acid_kv_stor.Common.{
  ℕ, ◌≤◌, ◌≡◌, refl, sym, ap, ◌∙◌, ◌⊎◌, inl, inr, some, none, Option, List, ◌∷◌, ok, arith,
}
use distributed_acid_kv_stor.Common.Bytes.{Bytes, be_bytes}
use distributed_acid_kv_stor.Storage.Key.{u64_max, encode}
use distributed_acid_kv_stor.Storage.Key.Laws.{eq_bytes-encode}
use distributed_acid_kv_stor.Storage.Record.{WriteRecord, put, to_bytes, from_bytes}
use distributed_acid_kv_stor.Storage.Record.Laws.{from_bytes-to_bytes}
use distributed_acid_kv_stor.Storage.Fjall.{BatchOp, insert, effects, p_default, p_lock, p_write}
use distributed_acid_kv_stor.Storage.Fjall.Memory.{
  memory, memory_reliable, memory_entries, run, apply,
}
use distributed_acid_kv_stor.Storage.View.{stored, IsRollback}
use distributed_acid_kv_stor.Storage.Example.{
  apple, seven, record_of, committed_put, after_changes, stored-effects,
}
use distributed_acid_kv_stor.Storage.Reader.{get}
use distributed_acid_kv_stor.Storage.Engine.{gc_keys_older_than}
use distributed_acid_kv_stor.Storage.Engine.Preserves.{IsCollectable, gc-get}

abbrev first : WriteRecord
first = record { start_ts = 3; op = put }

-- A put of transaction 3 at version 7 under that of transaction 5 at version 9.
abbrev rewritten : List BatchOp
rewritten =
    insert p_default (encode apple 3) seven
    ∷ insert p_write (encode apple 7) (to_bytes first)
    ∷ committed_put

two_versions :
    (t : ℕ) (b : Bytes) (x : Option Bytes)
    → t ≤ u64_max
    → x ≡ effects rewritten p_write (encode apple t) none
    → x ≡ some b
    → ((t ≡ 9) × (b ≡ to_bytes (record_of put))) ⊎ ((t ≡ 7) × (b ≡ to_bytes first))
two_versions t b x f e h =
    ground
      (arith, eq_bytes-encode apple 9 t (omega arith) f, eq_bytes-encode apple 7 t (omega arith) f)

rewritten_versions :
    (t : ℕ) (b : Bytes)
    → t ≤ u64_max
    → stored memory_reliable (after_changes rewritten) p_write (encode apple t) ≡ some b
    → ((t ≡ 9) × (b ≡ to_bytes (record_of put))) ⊎ ((t ≡ 7) × (b ≡ to_bytes first))
rewritten_versions t b f h =
    two_versions t b (stored memory_reliable (after_changes rewritten) p_write (encode apple t)) f
      (stored-effects rewritten p_write (encode apple t)) h

not_rollback :
    (r : WriteRecord) (b : Bytes)
    → r.op ≡ put
    → r.start_ts ≤ u64_max
    → b ≡ to_bytes r
    → IsRollback b
    → ⊥
not_rollback r b is_put f e (q, read, is_rollback) =
    let same : some r ≡ some q = sym (from_bytes-to_bytes r f) ∙ ap from_bytes (sym e) ∙ read in
    absurd (ground arith)

same_record :
    (r q : WriteRecord)
    → r.start_ts ≤ u64_max
    → q.start_ts ≤ u64_max
    → to_bytes r ≡ to_bytes q
    → r.start_ts ≡ q.start_ts
same_record r q f g e =
    let same : some r ≡ some q =
      sym (from_bytes-to_bytes r f) ∙ ap from_bytes e ∙ from_bytes-to_bytes q g in
    ground arith

rewritten-IsCollectable : IsCollectable memory_reliable (after_changes rewritten) apple 10 12
unfolding memory memory_reliable memory_entries after_changes run apply encode be_bytes
rewritten-IsCollectable = record {
  fits = omega arith;
  at_or_above = omega arith;
  isolated = (inl (9, omega arith, refl), (inl (7, omega arith, refl), tt));
  readable = inl (stored-effects rewritten p_lock apple);
  recorded = λ t b upto h. elim (rewritten_versions t b (omega arith) h) [
    | inl (e, is) ↦ (record_of put, is, omega (arith, e))
    | inr (e, is) ↦ (first, is, omega (arith, e))
  ];
  distinct = λ t u r q f g rs qs h k starts.
      elim (rewritten_versions t (to_bytes r) (omega arith) h) [
        | inl (e, is) ↦ elim (rewritten_versions u (to_bytes q) (omega arith) k) [
          | inl (e', is') ↦ omega (arith, e, e')
          | inr (e', is') ↦ absurd (
              omega (
                arith,
                starts,
                same_record r (record_of put) (omega arith) (omega arith) is,
                same_record q first (omega arith) (omega arith) is',
              ))
        ]
        | inr (e, is) ↦ elim (rewritten_versions u (to_bytes q) (omega arith) k) [
          | inl (e', is') ↦ absurd (
              omega (
                arith,
                starts,
                same_record r first (omega arith) (omega arith) is,
                same_record q (record_of put) (omega arith) (omega arith) is',
              ))
          | inr (e', is') ↦ omega (arith, e, e')
        ]
      ];
  covered = λ t b below h undone. elim (rewritten_versions t b (omega arith) h) [
    | inl (e, is) ↦ absurd (not_rollback (record_of put) b refl (omega arith) is undone)
    | inr (e, is) ↦ absurd (not_rollback first b refl (omega arith) is undone)
  ];
}

gc-get_example :
    (count : ℕ) × ((gc_keys_older_than memory 10 (after_changes rewritten)).0 ≡ ok count)
    × (get memory apple 12 (gc_keys_older_than memory 10 (after_changes rewritten)).1
        ≡ get memory apple 12 (after_changes rewritten))
gc-get_example =
    gc-get memory_reliable (after_changes rewritten) apple 10 12 rewritten-IsCollectable
