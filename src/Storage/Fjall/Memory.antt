-- ===== src/Storage/Fjall/Memory.antt =====
-- A keyspace that meets `Reliable`: the log of the changes committed so far, in memory.
use distributed_acid_kv_stor.Common.{
  ◌≡◌, refl, ap, ◌∙◌, List, [], ◌∷◌, ◌++◌, map, ok, arith, if◌then◌else◌,
}
use distributed_acid_kv_stor.Common.Bytes.{Bytes}
use distributed_acid_kv_stor.Storage.Fjall.Entries.{
  Entry, lookup, from, IsSorted, put, erase, put-IsSorted, erase-IsSorted, lookup-put, lookup-erase,
}
use distributed_acid_kv_stor.Storage.Fjall.{
  Partition, BatchOp, insert, remove, same_partition, effect, effects, Fjall, Reliable,
}

unfoldable pub apply : Partition → BatchOp → List Entry → List Entry
apply p (insert q k v) es = if same_partition q p then put k v es else es
apply p (remove q k) es = if same_partition q p then erase k es else es

unfoldable pub run : Partition → List BatchOp → List Entry → List Entry
run p [] es = es
run p (o ∷ os) es = run p os (apply p o es)

apply-IsSorted :
    (p : Partition) (o : BatchOp) (es : List Entry) → IsSorted es → IsSorted (apply p o es)
unfolding apply
apply-IsSorted p (insert q k v) es s = ground (arith, put-IsSorted k v es s)
apply-IsSorted p (remove q k) es s = ground (arith, erase-IsSorted k es s)

pub run-IsSorted :
    (p : Partition) (os : List BatchOp) (es : List Entry) → IsSorted es → IsSorted (run p os es)
unfolding run
run-IsSorted p [] es s = s
run-IsSorted p (o ∷ os) es s = run-IsSorted p os (apply p o es) (apply-IsSorted p o es s)

lookup-apply :
    (p : Partition) (o : BatchOp) (k : Bytes) (es : List Entry)
    → lookup k (apply p o es) ≡ effect o p k (lookup k es)
unfolding apply
lookup-apply p (insert q j v) k es = ground (arith, lookup-put j v k es)
lookup-apply p (remove q j) k es = ground (arith, lookup-erase j k es)

pub lookup-run :
    (p : Partition) (os : List BatchOp) (k : Bytes) (es : List Entry)
    → lookup k (run p os es) ≡ effects os p k (lookup k es)
unfolding run
lookup-run p [] k es = refl
lookup-run p (o ∷ os) k es =
    lookup-run p os k (apply p o es) ∙ ap (effects os p k) (lookup-apply p o k es)

pub run-append :
    (p : Partition) (os ps : List BatchOp) (es : List Entry)
    → run p (os ++ ps) es ≡ run p ps (run p os es)
unfolding run
run-append p [] ps es = refl
run-append p (o ∷ os) ps es = run-append p os ps (apply p o es)

unfoldable pub memory_entries : List BatchOp → Partition → List Entry
unfolding run apply
memory_entries s p = run p s []

unfoldable pub memory : Fjall
unfolding memory_entries
memory = record {
  Keyspace = List BatchOp;
  Error = Unit {0};
  get = λ s p k. ok (lookup k (memory_entries s p));
  range = λ s p k. map ok (from k (memory_entries s p));
  iter = λ s p. map ok (memory_entries s p);
  commit = λ b s. (ok tt, s ++ b);
}

unfoldable pub memory_reliable : Reliable memory
unfolding memory
memory_reliable = record {
  entries = memory_entries;
  after = λ b s. s ++ b;
  entries_sorted = λ s p. run-IsSorted p s [] tt;
  get_lem = λ s p k. refl;
  range_lem = λ s p k. refl;
  iter_lem = λ s p. refl;
  commit_lem = λ b s. refl;
  lookup-after = λ b s p k. rw (run-append p s b []) (lookup-run p b k (run p s []));
}
