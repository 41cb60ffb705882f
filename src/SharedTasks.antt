-- ===== src/SharedTasks.antt =====
-- Shared tasks (app/internal/shared_tasks): a task of two users, who negotiate about it.
pub mod Domain
pub mod Tables
pub mod Repository
pub mod Service
pub mod Admin
pub mod Requests
pub mod Atomicity
pub mod Invariant
pub mod Lifecycle
pub mod Validation
pub mod Subtasks
pub mod Negotiation
pub mod Proposal
pub mod Assignees
pub mod Deletion
mod Examples
