-- ===== src/Raft/Example.antt =====
-- A codec of raft messages, for the runs that the tests make.
use distributed_acid_kv_stor.Common.{ℕ, Option, none, some, List, [], ◌∷◌}
use distributed_acid_kv_stor.Common.Bytes.{Bytes}
use distributed_acid_kv_stor.Storage.Fjall.{BatchOp, insert, p_default}
use distributed_acid_kv_stor.Raft.Store.{Eraftpb, entry_key}

abbrev parse_two : Bytes → Option (ℕ × ℕ)
parse_two (i ∷ t ∷ []) = some (i, t)
parse_two bytes = none

abbrev parse_one : Bytes → Option ℕ
parse_one (x ∷ []) = some x
parse_one bytes = none

-- Messages of numbers, written one number to a byte.
abbrev pub pb : Eraftpb
pb = record {
  Entry = ℕ × ℕ;
  HardState = ℕ;
  ConfState = ℕ;
  Snapshot = ℕ × ℕ × ℕ;
  get_index = λ e. e.0;
  get_term = λ e. e.1;
  get_data = λ e. [];
  entry = λ i t. (i, t);
  default_hard_state = 0;
  default_conf_state = 0;
  snapshot_at = λ i t cs. (i, t, cs);
  entry_bytes = λ e. some (e.0 ∷ e.1 ∷ []);
  hard_state_bytes = λ hs. some (hs ∷ []);
  conf_state_bytes = λ cs. some (cs ∷ []);
  parse_entry = parse_two;
  parse_hard_state = parse_one;
  parse_conf_state = parse_one;
}

-- The default partition after an entry with index 1 was appended in region 7.
abbrev pub one_entry : List BatchOp
one_entry = insert p_default (entry_key 7 1) (1 ∷ 1 ∷ []) ∷ []
