-- ===== src/Raft/Node/Ready.antt =====
-- What crates/raft-engine/src/node.rs has written when it hands out messages.
use distributed_acid_kv_stor.Common.{
  ℕ, ◌+◌, ◌<◌, ◌≤◌, ◌≡◌, refl, ◌∙◌, true, Option, none, some, List, ◌∷◌, length, ltb, ok,
  if◌then◌else◌,
}
use distributed_acid_kv_stor.Storage.Fjall.{Fjall}
use distributed_acid_kv_stor.Raft.Store.{Eraftpb, RaftStorage, append, set_hard_state, term}
use distributed_acid_kv_stor.Raft.Store.Log.{IsLog, term_from, term-append}
use distributed_acid_kv_stor.Raft.Node.{
  Readiness, RawNode, MultiRaftNode, payloads, keep_hard_state, after_append, handle_ready,
  process_ready,
}

module _ (pb : Eraftpb) (db : Fjall) (raw : RawNode pb db) where
  keep_entries :
      (hs : Option pb.HardState) (s : RaftStorage pb db)
      → (keep_hard_state pb db raw hs s).core.entries ≡ s.core.entries
  unfolding keep_hard_state set_hard_state
  keep_entries none s = refl
  keep_entries (some hs) s = refl

  term-keep_hard_state :
      (hs : Option pb.HardState) (s : RaftStorage pb db) (idx : ℕ)
      → term pb db idx (keep_hard_state pb db raw hs s) ≡ term pb db idx s
  unfolding keep_hard_state set_hard_state term
  term-keep_hard_state none s idx = refl
  term-keep_hard_state (some hs) s idx = refl

  handled :
      (ready : Readiness pb db raw.Message) (node : MultiRaftNode pb db raw) (es : List pb.Entry)
      (t : RaftStorage pb db)
      → ready.entries ≡ es
      → append pb db es node.storage ≡ some (ok tt, t)
      → handle_ready pb db raw ready node
        ≡ some (
          ok (ready.messages, payloads pb db raw ready.committed_entries),
          record node {
            storage = keep_hard_state pb db raw ready.hs t;
            raw_node = raw.advance ready (keep_hard_state pb db raw ready.hs t) node.raw_node;
          },
        )
  unfolding handle_ready after_append
  handled ready node es t e done = simp (handle_ready, e, done) refl

  -- Where the raft crate is ready with consecutive entries that begin above the first entry of a log
  -- with consecutive indices, and inside the log or right after it: the messages are handed out with
  -- these entries in the log, so that the term at every index is theirs from their first index on,
  -- with nothing after them, and the old one before it.
  pub term-process_ready :
      (node : MultiRaftNode pb db raw) (state : raw.State) (ready : Readiness pb db raw.Message)
      → (b n : pb.Entry) (bs ns : List pb.Entry) (base first idx : ℕ)
      → raw.has_ready node.storage node.raw_node ≡ true
      → raw.ready node.storage node.raw_node ≡ (ready, state)
      → ready.entries ≡ n ∷ ns
      → node.storage.core.entries ≡ b ∷ bs
      → IsLog pb db base (b ∷ bs)
      → IsLog pb db first (n ∷ ns)
      → base < first
      → first ≤ base + length (b ∷ bs)
      → (after : MultiRaftNode pb db raw) × (process_ready pb db raw node
          ≡ some (ok (ready.messages, payloads pb db raw ready.committed_entries), after))
        × IsLog pb db base after.storage.core.entries
        × (term pb db idx after.storage ≡ (
            if ltb idx first
            then term pb db idx node.storage
            else some (term_from pb db first (n ∷ ns) idx)))
  unfolding process_ready
  term-process_ready node state ready b n bs ns base first idx is_ready handed e old log new lt le =
      let (t, done, kept, terms) =
        term-append pb db node.storage b n bs ns base first idx old log new lt le in
      let s' = keep_hard_state pb db raw ready.hs t in
      (
        record node { storage = s'; raw_node = raw.advance ready s' state },
        rw (process_ready, is_ready, handed)
            (handled ready (record node { raw_node = state }) (n ∷ ns) t e done),
        rw (keep_entries ready.hs t) kept,
        term-keep_hard_state ready.hs t idx ∙ terms,
      )
