-- ===== src/Storage/Open.antt =====
-- How crates/storage/src/engine.rs opens its keyspace, with the settings of src/config.rs.
use distributed_acid_kv_stor.Common.{
  ℕ, ◌*◌, ◌%◌, ◌^◌, max, Option, none, some, Exec, wrap, ◌>>=◌, ◌>>◌, ok,
}
use distributed_acid_kv_stor.Storage.Fjall.{Fjall, Partition, p_default, p_lock, p_write}
use distributed_acid_kv_stor.Storage.Engine.{StorageError, fjall}

pub record StorageConfig : Type 0 where
  pub max_memtable_size_bytes : ℕ
  pub flush_workers : ℕ
  pub compaction_workers : ℕ
  pub async_journal_flush_ms : Option ℕ

-- `StorageConfig::default()`
abbrev pub default_config : StorageConfig
default_config = record {
  max_memtable_size_bytes = 64 * 1024 * 1024;
  flush_workers = 2;
  compaction_workers = 4;
  async_journal_flush_ms = some 10;
}

-- `Config` of the fjall crate, as its builder was called.
pub record KeyspaceConfig (PathBuf : Type 0) : Type 0 where
  pub path : PathBuf
  pub flush_workers : ℕ
  pub compaction_workers : ℕ
  pub max_write_buffer_size : ℕ
  pub max_journaling_size : ℕ
  pub fsync_ms : Option ℕ

-- The calls of the fjall crate that open a keyspace. What they do on the disk, and the keyspace that
-- stands behind a handle after them, are not part of the repository.
pub record Opener (db : Fjall) : Type 1 where
  pub PathBuf : Type 0
  pub Disk : Type 0
  pub Handle : Type 0
  pub open_keyspace : KeyspaceConfig PathBuf → Exec Disk db.Error Handle
  -- with the memtable size of the options
  pub open_partition : Handle → Partition → ℕ → Exec Disk db.Error (Unit {0})
  pub contents : Handle → Disk → db.Keyspace

-- `config.async_journal_flush_ms.map(|ms| ms as u16)`
abbrev pub as_u16 : Option ℕ → Option ℕ
as_u16 none = none
as_u16 (some ms) = some (ms % 2 ^ 16)

unfoldable pub keyspace_config :
    {PathBuf : Type 0} → PathBuf → StorageConfig → KeyspaceConfig PathBuf
keyspace_config path config = record {
  path = path;
  flush_workers = config.flush_workers;
  compaction_workers = config.compaction_workers;
  max_write_buffer_size = (config.max_memtable_size_bytes * 4) % 2 ^ 64;
  max_journaling_size = max ((config.max_memtable_size_bytes * 8) % 2 ^ 64) (24 * 1024 * 1024);
  fsync_ms = as_u16 config.async_journal_flush_ms;
}

module _ {db : Fjall} (opener : Opener db) where
  abbrev stored : opener.Handle → Exec opener.Disk (StorageError db.Error) db.Keyspace
  stored handle disk = (ok (opener.contents handle disk), disk)

  unfoldable pub open_with_config :
      opener.PathBuf → StorageConfig → Exec opener.Disk (StorageError db.Error) db.Keyspace
  open_with_config path config = do
    keyspace ← wrap fjall (opener.open_keyspace (keyspace_config path config))
    wrap fjall (opener.open_partition keyspace p_default config.max_memtable_size_bytes)
    wrap fjall (opener.open_partition keyspace p_lock config.max_memtable_size_bytes)
    wrap fjall (opener.open_partition keyspace p_write config.max_memtable_size_bytes)
    stored keyspace

  unfoldable pub open_default :
      opener.PathBuf → Exec opener.Disk (StorageError db.Error) db.Keyspace
  open_default path = open_with_config path default_config
