-- ===== src/Embedded.antt =====
-- embedded/embedded.go: the workflow manager that runs inside a program.
pub mod Validation
pub mod Resources
pub mod Poll
pub mod Ids
pub mod Client
pub mod Definitions
pub mod New
