-- ===== src/Client.antt =====
-- crates/client/src/client.rs: the client of the key-value and the transaction service. The stubs
-- that tonic generates from the protocol, and its transport, are the parameter `Stubs`.
pub mod Loopback
pub mod Cli
pub mod Batch
mod Tests
use distributed_acid_kv_stor.Common.{
  ℕ, Bool, Option, none, some, List, [], map, Result, Exec, pure, lift, wrap, ◌>>=◌, if◌then◌else◌,
}
use distributed_acid_kv_stor.Common.Bytes.{Bytes}
use distributed_acid_kv_stor.Node.{MutationMessage}
use distributed_acid_kv_stor.Node.Kv.{GetResponse, AskSplitResponse}
use distributed_acid_kv_stor.Node.TxnService.{PrewriteRequest, CommitRequest, HeartBeatResponse}

pub record ScanRequest : Type 0 where
  pub start_key : Bytes
  pub end_key : Bytes
  pub limit : ℕ
  pub version : ℕ

-- A call of a stub takes what lies behind the channels from one state to the next.
pub record Stubs : Type 1 where
  pub World : Type 0
  pub Endpoint : Type 0
  pub Channel : Type 0
  pub Status : Type 0
  pub TransportError : Type 0
  pub InvalidUri : Type 0
  pub Text : Type 0
  pub from_shared : Text → Result InvalidUri Endpoint
  pub connect : Endpoint → Exec World TransportError Channel
  pub get : Channel → Bytes → ℕ → Exec World Status GetResponse
  pub scan : Channel → ScanRequest → Exec World Status (List (Bytes × Bytes))
  pub batch_prewrite : Channel → PrewriteRequest → Exec World Status (Unit {0})
  pub batch_commit : Channel → CommitRequest → Exec World Status (Unit {0})
  pub ask_split : Channel → ℕ → Bytes → Exec World Status AskSplitResponse
  pub prewrite : Channel → PrewriteRequest → Exec World Status (Unit {0})
  pub commit : Channel → CommitRequest → Exec World Status (Unit {0})
  pub rollback : Channel → ℕ → List Bytes → Exec World Status (Unit {0})
  pub heart_beat : Channel → Bytes → ℕ → ℕ → Exec World Status (HeartBeatResponse Text)

-- `res.found`, `res.value` as an option.
unfoldable pub value_of : GetResponse → Option Bytes
value_of res = if res.found then some res.value else none

-- The operations are those of the protocol: 0 is a put, 1 is a delete.
unfoldable pub proto_mutation : Bytes × Option Bytes → MutationMessage
proto_mutation (key, some val) = record { op = 0; key = key; value = val }
proto_mutation (key, none) = record { op = 1; key = key; value = [] }

module _ (rpc : Stubs) where
  pub data ClientError : Type 0 where
    tonic : rpc.TransportError → ClientError
    invalid_uri : rpc.InvalidUri → ClientError
    status : rpc.Status → ClientError
    not_found : ClientError
    channel_closed : ClientError
    split_error : rpc.Text → ClientError

  pub record KvClient : Type 0 where
    pub kv_inner : rpc.Channel
    pub txn_inner : rpc.Channel

  abbrev pub Call : Type 0 → Type 0
  Call A = Exec rpc.World ClientError A

  unfoldable pub connect : rpc.Text → Call KvClient
  connect endpoint = do
    valid ← wrap invalid_uri (lift (rpc.from_shared endpoint))
    channel ← wrap tonic (rpc.connect valid)
    pure (record { kv_inner = channel; txn_inner = channel })

  unfoldable pub get : KvClient → Bytes → Call (Option Bytes)
  get client key = do res ← wrap status (rpc.get client.kv_inner key 0); pure (value_of res)

  unfoldable pub scan : KvClient → Bytes → Bytes → ℕ → Call (List (Bytes × Bytes))
  scan client start_key end_key limit = wrap status (
      rpc.scan client.kv_inner
        (record { start_key = start_key; end_key = end_key; limit = limit; version = 0 }))

  unfoldable pub txn_get : KvClient → Bytes → ℕ → Call (Option Bytes)
  txn_get client key start_ts = do
    res ← wrap status (rpc.get client.kv_inner key start_ts)
    pure (value_of res)

  -- `txn_prewrite`, `batch_prewrite` and the calls after them give `()` for any response.
  unfoldable pub txn_prewrite :
      KvClient → ℕ → List (Bytes × Option Bytes) → Bytes → ℕ → Call (Unit {0})
  txn_prewrite client start_ts mutations primary_key lock_ttl = wrap status (
      rpc.prewrite client.txn_inner (record {
        mutations = map proto_mutation mutations;
        primary_lock = primary_key;
        start_ts = start_ts;
        lock_ttl = lock_ttl;
      }))

  unfoldable pub txn_commit : KvClient → ℕ → ℕ → List Bytes → Call (Unit {0})
  txn_commit client start_ts commit_ts keys = wrap status (
      rpc.commit client.txn_inner
        (record { keys = keys; start_ts = start_ts; commit_ts = commit_ts }))

  unfoldable pub batch_prewrite :
      KvClient → ℕ → List (Bytes × Option Bytes) → Bytes → ℕ → Call (Unit {0})
  batch_prewrite client start_ts mutations primary_key lock_ttl = wrap status (
      rpc.batch_prewrite client.kv_inner (record {
        mutations = map proto_mutation mutations;
        primary_lock = primary_key;
        start_ts = start_ts;
        lock_ttl = lock_ttl;
      }))

  unfoldable pub batch_commit : KvClient → ℕ → ℕ → List Bytes → Call (Unit {0})
  batch_commit client start_ts commit_ts keys = wrap status (
      rpc.batch_commit client.kv_inner
        (record { keys = keys; start_ts = start_ts; commit_ts = commit_ts }))

  unfoldable pub ask_split : KvClient → ℕ → Bytes → Call AskSplitResponse
  ask_split client region_id split_key =
      wrap status (rpc.ask_split client.kv_inner region_id split_key)

  unfoldable pub txn_rollback : KvClient → ℕ → List Bytes → Call (Unit {0})
  txn_rollback client start_ts keys = wrap status (rpc.rollback client.txn_inner start_ts keys)

  unfoldable pub txn_heartbeat : KvClient → ℕ → Bytes → ℕ → Call Bool
  txn_heartbeat client start_ts primary_key ttl = do
    res ← wrap status (rpc.heart_beat client.txn_inner primary_key start_ts ttl)
    pure res.success
