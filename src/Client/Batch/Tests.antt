-- ===== src/Client/Batch/Tests.antt =====
-- Runs of the batch collector with batches of two, against a node in memory.
use distributed_acid_kv_stor.Common.{ℕ, ◌≡◌, refl, some, List, [], ◌∷◌, map, arith}
use distributed_acid_kv_stor.Storage.Example.{apple, pear, seven}
use distributed_acid_kv_stor.Txn.Example.{clock}
use distributed_acid_kv_stor.Node.Example.{counters, fresh}
use distributed_acid_kv_stor.Client.{batch_prewrite}
use distributed_acid_kv_stor.Client.Loopback.{node_stubs, client}
use distributed_acid_kv_stor.Client.Batch.{
  Event, received, timed_out, flush, work, PrewriteItem, CommitItem, submit, prewrite_call,
  prewrite_task,
}
use distributed_acid_kv_stor.Client.Batch.Laws.{submitted, Serves, work-Serves}
use distributed_acid_kv_stor.Client.Batch.Submit.{submit-prewrite_task}

abbrev prewrite_item : ℕ → PrewriteItem
prewrite_item n = record {
  start_ts = n;
  mutations = (apple, some seven) ∷ [];
  primary_key = apple;
  lock_ttl = 3000;
  tx = n;
}

abbrev commit_item : CommitItem
commit_item = record { start_ts = 12; commit_ts = 15; keys = apple ∷ pear ∷ []; tx = 1 }

-- A full batch, and one more item.
abbrev three : List (Event PrewriteItem)
three = map received (prewrite_item 1 ∷ prewrite_item 2 ∷ prewrite_item 3 ∷ [])

work-Serves_example :
    (served : List PrewriteItem) × Serves
      (λ item. item.tx)
      (prewrite_call (node_stubs counters clock) (client counters clock))
      2
      (submitted three)
      (fresh [])
      (work
        (λ item. item.tx)
        (prewrite_call (node_stubs counters clock) (client counters clock))
        2
        []
        three
        (fresh []))
      served
work-Serves_example =
    work-Serves (λ item. item.tx)
      (prewrite_call (node_stubs counters clock) (client counters clock)) 2 three (fresh [])

submitted-three : submitted three ≡ prewrite_item 1 ∷ prewrite_item 2 ∷ prewrite_item 3 ∷ []
unfolding submitted
submitted-three = refl

submit-prewrite_task_example :
    submit (node_stubs counters clock) 3 (
      prewrite_task
        (node_stubs counters clock)
        (client counters clock)
        2
        (received (prewrite_item 1)
          ∷ received (prewrite_item 2)
          ∷ received (prewrite_item 3)
          ∷ timed_out
          ∷ [])
        (fresh []))
    ≡ some
        (batch_prewrite
          (node_stubs counters clock)
          (client counters clock)
          3
          ((apple, some seven) ∷ [])
          apple
          3000
          (flush
            (λ item. item.tx)
            (prewrite_call (node_stubs counters clock) (client counters clock))
            (prewrite_item 1 ∷ prewrite_item 2 ∷ [])
            (fresh [])).1).0
submit-prewrite_task_example =
    submit-prewrite_task (node_stubs counters clock) (client counters clock) 2 (fresh []) three
      (prewrite_item 1 ∷ prewrite_item 2 ∷ []) [] (prewrite_item 3) (tt, (tt, (tt, tt)))
      submitted-three ((λ h. ground arith), ((λ h. ground arith), tt))
