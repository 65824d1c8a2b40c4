-- ===== src/Resources.antt =====
-- resources/: jobs, workflows, their definitions and the graph of a state machine.
pub mod Status
pub mod Create
pub mod Graph
pub mod Prune
