-- ===== src/Executor.antt =====
-- executor/: the names that the executor gives to what it makes in AWS, and the state machines that
-- it sends there.
pub mod Conventions
pub mod Service
pub mod Arns
pub mod Machines
pub mod Retriers
pub mod Workflows
pub mod Manager
pub mod Summary
pub mod Cache
