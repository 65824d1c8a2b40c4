-- ===== src/WfUpdater.antt =====
-- wfupdater/: how the history of an execution becomes the jobs of a workflow.
pub mod Events
pub mod Reason
pub mod Update
pub mod Process
