-- ===== src/Client/Tests.antt =====
-- Runs of a client against a node in memory.
use distributed_acid_kv_stor.Common.{ℕ, ◌≤◌, ◌<◌, ◌≡◌, some, [], ◌∷◌, ok, ◌>>◌, arith}
use distributed_acid_kv_stor.Common.Bytes.{Bytes}
use distributed_acid_kv_stor.Storage.Key.{encode}
use distributed_acid_kv_stor.Storage.Fjall.{p_lock, p_write}
use distributed_acid_kv_stor.Storage.Fjall.Memory.{
  memory, memory_reliable, memory_entries, run as memory_run, apply,
}
use distributed_acid_kv_stor.Storage.View.{stored, IsIsolated}
use distributed_acid_kv_stor.Storage.Example.{apple, seven, after_changes, stored-effects, nothing}
use distributed_acid_kv_stor.Txn.Hlc as Hlc
use distributed_acid_kv_stor.Txn.Example.{clock}
use distributed_acid_kv_stor.Node.{new}
use distributed_acid_kv_stor.Node.Example.{counters, fresh}
use distributed_acid_kv_stor.Client.{txn_prewrite, txn_commit, txn_get}
use distributed_acid_kv_stor.Client.Loopback.{node_stubs, client, present, after_now}
use distributed_acid_kv_stor.Client.Loopback.Writes.{after_write, txn_prewrite-txn_commit-txn_get}
use distributed_acid_kv_stor.Client.Cli.{printed, nil, done, start_of}
use distributed_acid_kv_stor.Client.Cli.Clocks.{after_put, put_then_get, put-get, put-get_nil}

unwritten :
    (t : ℕ) (b : Bytes)
    → stored memory_reliable (after_changes []) p_write (encode apple t) ≡ some b
    → ⊥
unwritten t b h =
    nothing b (stored memory_reliable (after_changes []) p_write (encode apple t))
      (stored-effects [] p_write (encode apple t)) h

isolated : IsIsolated memory_reliable (after_changes []) apple
unfolding memory memory_reliable memory_entries after_changes memory_run apply
isolated = tt

txn_prewrite-txn_commit-txn_get_example :
    (do
      txn_prewrite
          (node_stubs counters clock)
          (client counters clock)
          12
          ((apple, some seven) ∷ [])
          apple
          3000
      txn_commit (node_stubs counters clock) (client counters clock) 12 15 (apple ∷ [])
      txn_get (node_stubs counters clock) (client counters clock) apple 20)
      (fresh [])
    ≡ (
      ok (some seven),
      after_write counters clock memory_reliable 12 15 3000 apple (some seven) (fresh []),
    )
unfolding new
txn_prewrite-txn_commit-txn_get_example =
    txn_prewrite-txn_commit-txn_get counters clock memory_reliable 12 15 3000 (fresh []) apple
      (some seven) 20 (omega arith) (omega arith) (omega arith) (omega arith) (omega arith) isolated
      (λ t b upto h. absurd (unwritten t b h)) (stored-effects [] p_lock apple)

earlier : start_of 3999 < present counters clock (fresh [])
unfolding start_of new Hlc.now Hlc.new
earlier = omega arith

-- The clock of the client is one second ahead of the node's.
ahead : present counters clock (fresh []) ≤ start_of 5000
unfolding start_of new Hlc.now Hlc.new
ahead = omega arith

put-get_example : put_then_get counters clock memory_reliable 3999 4001 apple seven (fresh []) ≡ (
  ok (done, printed seven),
  after_now counters clock (after_put counters clock memory_reliable 3999 apple seven (fresh [])),
)
unfolding new
put-get_example =
    put-get counters clock memory_reliable (fresh []) 3999 apple seven (omega arith) isolated
      (λ t b upto h. absurd (unwritten t b h)) (stored-effects [] p_lock apple) 4001 earlier

put-get_nil_example :
    put_then_get counters clock memory_reliable 5000 5001 apple seven (fresh []) ≡ (
      ok (done, nil),
      after_now counters clock
          (after_put counters clock memory_reliable 5000 apple seven (fresh [])),
    )
unfolding new
put-get_nil_example =
    put-get_nil counters clock memory_reliable (fresh []) 5000 apple seven (omega arith) isolated
      (λ t b upto h. absurd (unwritten t b h)) (stored-effects [] p_lock apple) 5001 ahead
      (λ t b upto h. absurd (unwritten t b h))
