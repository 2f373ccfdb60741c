-- ===== src/Client/Batch/Submit.antt =====
-- What a submission to the batch collector of crates/client/src/client.rs comes back with.
use distributed_acid_kv_stor.Common.{
  ℕ, ◌<◌, ◌≡◌, ◌≢◌, refl, some, List, [], ◌∷◌, ◌++◌, map, err, All, length,
}
use distributed_acid_kv_stor.Client.{Stubs, KvClient, batch_prewrite, channel_closed}
use distributed_acid_kv_stor.Client.Batch.{
  Sender, Event, received, closed, timed_out, turn, flush, work, PrewriteItem, CommitItem, reply_to,
  submit, awaited, prewrite_call, prewrite_task, commit_call, commit_task,
}
use distributed_acid_kv_stor.Client.Batch.Laws.{
  IsOpen, submitted, work_timed_out, reply_to-flush, work_gathers,
}

module _ (rpc : Stubs) (client : KvClient rpc) (batch_size : ℕ) (w : rpc.World) where
  -- While the channel is open, the submission of a prewrite has its answer once an interval is
  -- over: the answer of its own call, made after the calls of the submissions before it and no
  -- other. The senders of those differ from its own.
  pub submit-prewrite_task :
      (events : List (Event PrewriteItem)) (before after : List PrewriteItem) (item : PrewriteItem)
      → All IsOpen events
      → submitted events ≡ before ++ item ∷ after
      → All (λ x. x.tx ≢ item.tx) before
      → submit rpc item.tx (prewrite_task rpc client batch_size (events ++ timed_out ∷ []) w)
        ≡ some
            (batch_prewrite rpc client item.start_ts item.mutations item.primary_key item.lock_ttl
              (flush (λ x. x.tx) (prewrite_call rpc client) before w).1).0
  unfolding submit prewrite_task awaited prewrite_call
  submit-prewrite_task events before after item o e d = rw (
    work_timed_out (λ x. x.tx) (prewrite_call rpc client) batch_size [] events w o,
    e,
    reply_to-flush (λ x. x.tx) (prewrite_call rpc client) before after item w d,
  )

  -- If the channel closes while fewer commits than a batch wait, the task returns without a call for
  -- them, and each of their submissions fails with ChannelClosed.
  pub submit-commit_task_closed :
      (items : List CommitItem) (events : List (Event CommitItem)) (tx : Sender)
      → length items < batch_size
      → let run = commit_task rpc client batch_size (map received items ++ closed ∷ events) w in
        (run.world ≡ w) × (submit rpc tx run ≡ some (err channel_closed))
  unfolding submit commit_task awaited work turn reply_to
  submit-commit_task_closed items events tx h =
      rw
        (work_gathers (λ x. x.tx) (commit_call rpc client) batch_size [] items (closed ∷ events) w
          h)
        (refl, refl)
