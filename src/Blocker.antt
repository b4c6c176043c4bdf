-- ===== src/Blocker.antt =====
-- pkg/blocker: the merge automation.
pub mod Checks
pub mod Pool
pub mod SyncPool
pub mod SyncStatus
pub mod Merge
