-- ===== src/Snapshot.antt =====
-- internal/snapshot: stored snapshots of the index, their diffs and their churn.
pub mod Types
pub mod Diff
pub mod Store
pub mod Churn
pub mod Contracts
pub mod Trail
mod Tests
