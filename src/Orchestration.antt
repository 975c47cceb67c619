-- ===== src/Orchestration.antt =====
-- The orchestration: one durable workflow for each document.
pub mod Models
pub mod Client
pub mod Activities
pub mod Runtime
pub mod Workflow
pub mod Starter
pub mod Worker
pub mod Tests
mod CommandTests
mod RequestTests
mod StarterTests
mod ProcessTests
