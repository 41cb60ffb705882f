-- ===== src/Tasks.antt =====
-- The tasks of one user: app/internal/tasks, less the batch processor and the outbox.
pub mod Domain
pub mod Codes
pub mod Completion
pub mod Tables
pub mod Statements
pub mod Filters
pub mod Repository
pub mod Subtasks
pub mod Admin
pub mod Reads
pub mod Service
pub mod Queries
pub mod Requests
pub mod Tags
pub mod Log
pub mod Update
pub mod Atomicity
pub mod Partial
pub mod Versions
mod Examples
