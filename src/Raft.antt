-- ===== src/Raft.antt =====
-- crates/raft-engine: the log storage of a raft group and the routing of keys to regions.
pub mod Router
pub mod Store
pub mod Region
pub mod Node
pub mod Example
mod Tests
