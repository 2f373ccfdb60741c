-- ===== src/Client/Batch.antt =====
-- The batch collector of crates/client/src/client.rs: two tasks, each with the receiving end of a
-- channel of submissions. The source writes the task out for each kind of item; here it takes the
-- call that the kind makes.
--
-- What `select!` finds is a sequence of events: an item, the channel closed, or the interval over.
-- What other clients do to the server in between is part of its state, on which a call acts.
pub mod Laws
pub mod Submit
mod Tests
use distributed_acid_kv_stor.Common.{
  ℕ, Option, none, some, List, [], ◌∷◌, ◌++◌, Result, ok, err, if◌then◌else◌, leb, length, ◌==◌,
}
use distributed_acid_kv_stor.Common.Bytes.{Bytes}
use distributed_acid_kv_stor.Client.{
  Stubs, ClientError, channel_closed, KvClient, batch_prewrite, batch_commit,
}

-- The end of a oneshot channel, by its number.
abbrev pub Sender : Type 0
Sender = ℕ

pub record PrewriteItem : Type 0 where
  pub start_ts : ℕ
  pub mutations : List (Bytes × Option Bytes)
  pub primary_key : Bytes
  pub lock_ttl : ℕ
  pub tx : Sender

pub record CommitItem : Type 0 where
  pub start_ts : ℕ
  pub commit_ts : ℕ
  pub keys : List Bytes
  pub tx : Sender

pub data Event (Item : Type 0) : Type 0 where
  received : Item → Event Item
  closed : Event Item
  timed_out : Event Item

-- What an event does to the inner loop: it goes on, breaks, or the task returns.
pub data Turn (Item : Type 0) : Type 0 where
  goes_on : List Item → Turn Item
  breaks : List Item → Turn Item
  returns : Turn Item

-- The task after the events: still gathering, or returned with its items dropped.
pub data Phase (Item : Type 0) : Type 0 where
  gathering : List Item → Phase Item
  dropped : List Item → Phase Item

pub record Run (Item World A : Type 0) : Type 0 where
  pub replies : List (Sender × A)
  pub world : World
  pub phase : Phase Item

unfoldable pub turn : {Item : Type 0} → ℕ → List Item → Event Item → Turn Item
turn batch_size items (received it) =
    let items' = items ++ it ∷ [] in
    if leb batch_size (length items') then breaks items' else goes_on items'
turn batch_size items closed = returns
turn batch_size items timed_out = breaks items

module _ {Item World A : Type 0} where
  -- A run that goes on from what a batch has done.
  abbrev pub after_flush : List (Sender × A) → Run Item World A → Run Item World A
  after_flush replies r = record r { replies = replies ++ r.replies }

  module _ (tx : Item → Sender) (call : Item → World → A × World) where
    -- `for item in items { let res = ..; let _ = item.tx.send(res); }`
    unfoldable pub flush : List Item → World → List (Sender × A) × World
    flush [] w = ([], w)
    flush (item ∷ items) w =
        let (res, w') = call item w in
        let (replies, w'') = flush items w' in ((tx item, res) ∷ replies, w'')

    unfoldable pub work : ℕ → List Item → List (Event Item) → World → Run Item World A
    work batch_size items [] w = record { replies = []; world = w; phase = gathering items }
    work batch_size items (e ∷ events) w = elim (turn batch_size items e) [
      | goes_on items' ↦ work batch_size items' events w
      | breaks batch ↦ after_flush (flush batch w).0 (work batch_size [] events (flush batch w).1)
      | returns ↦ record { replies = []; world = w; phase = dropped items }
    ]

-- The first answer that was sent to this end.
unfoldable pub reply_to : {A : Type 0} → Sender → List (Sender × A) → Option A
reply_to tx [] = none
reply_to tx ((to, res) ∷ replies) = if to == tx then some res else reply_to tx replies

module _ (rpc : Stubs) where
  abbrev pub Reply : Type 0
  Reply = Result (ClientError rpc) (Unit {0})

  -- What `rx.await` gives: an answer, `ChannelClosed` if the other end was dropped, or nothing yet.
  unfoldable pub awaited : {Item : Type 0} → Phase Item → Option Reply → Option Reply
  awaited phase (some res) = some res
  awaited (gathering items) none = none
  awaited (dropped items) none = some (err channel_closed)

  -- `submit_prewrite` and `submit_commit`, for an item that was sent with this end.
  unfoldable pub submit : {Item : Type 0} → Sender → Run Item rpc.World Reply → Option Reply
  submit tx run = awaited run.phase (reply_to tx run.replies)

  module _ (client : KvClient rpc) where
    unfoldable pub prewrite_call : PrewriteItem → rpc.World → Reply × rpc.World
    prewrite_call item =
        batch_prewrite rpc client item.start_ts item.mutations item.primary_key item.lock_ttl

    unfoldable pub commit_call : CommitItem → rpc.World → Reply × rpc.World
    commit_call item = batch_commit rpc client item.start_ts item.commit_ts item.keys

    -- The tasks that `new` spawns, with nothing gathered.
    unfoldable pub prewrite_task :
        ℕ → List (Event PrewriteItem) → rpc.World → Run PrewriteItem rpc.World Reply
    prewrite_task batch_size = work (λ item. item.tx) prewrite_call batch_size []

    unfoldable pub commit_task :
        ℕ → List (Event CommitItem) → rpc.World → Run CommitItem rpc.World Reply
    commit_task batch_size = work (λ item. item.tx) commit_call batch_size []
