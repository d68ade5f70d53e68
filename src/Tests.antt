-- ===== src/Tests.antt =====
-- Runs of the definitions at concrete inputs, and the theorems applied to them.
mod TlvRuns
mod CommandRuns
mod LifecycleRuns
mod ScpRuns
mod Scp02Runs
mod SessionRuns
mod ResponseRuns
mod WorkflowRuns
mod InventoryRuns
mod ManagedRuns
mod CapRuns
mod LoadRuns
