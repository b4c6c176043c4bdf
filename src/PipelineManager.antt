-- ===== src/PipelineManager.antt =====
-- pkg/pipelinemanager: the parts that other components rely on.
pub mod Description
pub mod RoundTrip
pub mod InitState
pub mod Reflect
pub mod Report
pub mod Times
pub mod Posted
pub mod Requests
pub mod Envs
pub mod Notify
pub mod HeadRefs
pub mod Checkout
pub mod CustomRuns
pub mod Tasks
pub mod Generate
pub mod Generated
