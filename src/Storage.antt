-- ===== src/Storage.antt =====
-- crates/storage: byte formats, the key-value engine under them, and snapshot reads.
pub mod Key
pub mod Record
pub mod Lock
pub mod Fjall
pub mod Versions
pub mod View
pub mod Engine
pub mod Open
pub mod Reader
pub mod Example
mod Tests
