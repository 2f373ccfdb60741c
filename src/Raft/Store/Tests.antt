-- ===== src/Raft/Store/Tests.antt =====
-- Runs of the log storage on an engine in memory, opened again.
use distributed_acid_kv_stor.Common.{◌≡◌, refl, some, List, [], ◌∷◌, ok, arith}
use distributed_acid_kv_stor.Storage.Fjall.{BatchOp, insert, p_default}
use distributed_acid_kv_stor.Storage.Fjall.Memory.{
  memory, memory_reliable, memory_entries, run, apply,
}
use distributed_acid_kv_stor.Storage.Example.{after_changes}
use distributed_acid_kv_stor.Raft.Store.{
  RaftStorage, entry_key, entry_prefix, load_loop, or_dummy, new, append, first_index, last_index,
}
use distributed_acid_kv_stor.Raft.Store.Reopen.{KeepsLog, new-append}
use distributed_acid_kv_stor.Raft.Store.Suffix.{last_index-append}
use distributed_acid_kv_stor.Raft.Example.{pb, one_entry}

one_entry-KeepsLog : KeepsLog pb 7 memory_reliable (after_changes one_entry)
unfolding memory memory_reliable memory_entries after_changes run apply entry_key entry_prefix
one_entry-KeepsLog = ((λ own. ((1, 1), refl, omega arith, refl)), tt)

new-append_example :
    (t : RaftStorage pb memory) × (append pb memory
        ((2, 1) ∷ (3, 2) ∷ [])
        (new pb memory (after_changes one_entry) 7)
      ≡ some (ok tt, t))
    × ((new pb memory t.keyspace 7).core.entries ≡ (1, 1) ∷ (2, 1) ∷ (3, 2) ∷ [])
    × (first_index pb memory (new pb memory t.keyspace 7) ≡ some 2)
    × KeepsLog pb 7 memory_reliable t.keyspace
unfolding memory memory_reliable memory_entries after_changes run apply entry_key entry_prefix
    load_loop new or_dummy
new-append_example =
    new-append pb 7 memory_reliable (new pb memory (after_changes one_entry) 7) (1, 1) (2, 1) (1, 1)
      [] ((3, 2) ∷ []) ((2, 1) ∷ (3, 2) ∷ []) refl refl (omega arith)
      (((2 ∷ 1 ∷ []), (refl, refl, omega arith)), (((3 ∷ 2 ∷ []), (refl, refl, omega arith)), tt))
      one_entry-KeepsLog refl ((omega arith, (omega arith, tt)), ((omega arith, tt), (tt, tt)))

abbrev three_entries : List BatchOp
three_entries =
    insert p_default (entry_key 7 1) (1 ∷ 1 ∷ [])
    ∷ insert p_default (entry_key 7 2) (2 ∷ 1 ∷ [])
    ∷ insert p_default (entry_key 7 3) (3 ∷ 1 ∷ [])
    ∷ []

three_entries-KeepsLog : KeepsLog pb 7 memory_reliable (after_changes three_entries)
unfolding memory memory_reliable memory_entries after_changes run apply entry_key entry_prefix
three_entries-KeepsLog = (
  (λ own. ((1, 1), refl, omega arith, refl)),
  ((λ own. ((2, 1), refl, omega arith, refl)), ((λ own. ((3, 1), refl, omega arith, refl)), tt)),
)

last_index-append_example :
    (t : RaftStorage pb memory) × (append pb memory
        ((2, 2) ∷ [])
        (new pb memory (after_changes three_entries) 7)
      ≡ some (ok tt, t))
    × (last_index pb memory t ≡ some 2)
    × (last_index pb memory (new pb memory t.keyspace 7) ≡ some 3)
unfolding memory memory_reliable memory_entries after_changes run apply entry_key entry_prefix
    load_loop new or_dummy last_index
last_index-append_example =
    last_index-append pb memory_reliable 7 (after_changes three_entries) (1, 1) (2, 2) (2, 2)
      ((2, 1) ∷ (3, 1) ∷ []) [] 3 refl three_entries-KeepsLog
      (((2 ∷ 2 ∷ []), (refl, refl, omega arith)), tt) (omega arith) refl (omega arith, tt) refl
