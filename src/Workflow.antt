-- ===== src/Workflow.antt =====
-- internal/workflow: the data of a workflow, its engine, and what holds of a run.
pub mod Form
pub mod Types
pub mod Seal
pub mod Batch
pub mod Progress
pub mod ToolStep
pub mod BatchStep
pub mod Revalidate
pub mod ConfirmStep
pub mod SealedCalls
pub mod Run
pub mod Contract
pub mod Polling
pub mod Stops
pub mod Failures
mod Examples
