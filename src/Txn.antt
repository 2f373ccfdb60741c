-- ===== src/Txn.antt =====
-- crates/txn-coordinator: the clock, lock resolution, and two-phase commit.
pub mod Hlc
pub mod World
pub mod Resolver
pub mod Coordinator
pub mod Example
mod Tests
