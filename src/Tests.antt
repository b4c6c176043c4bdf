-- ===== src/Tests.antt =====
-- Each theorem with hypotheses at a concrete input where they hold.
mod Jobs
mod Structs
mod Scheduler
mod Blocker
mod Text
mod Merge
mod Dispatcher
mod JobGraph
mod Plugins
mod ChatOps
mod Pipeline
mod Generate
mod Periodic
mod Approvals
mod ApprovalRun
mod Config
