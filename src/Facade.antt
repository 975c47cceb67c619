-- ===== src/Facade.antt =====
-- The facade in front of docling-serve: facade/*.py.
pub mod Schemas
pub mod Options
pub mod Artifacts
pub mod Backend
pub mod Stores
pub mod Submit
pub mod Wait
pub mod Resolve
pub mod Routes
pub mod Clients
mod ClientsTests
mod Tests
pub mod Delivery
pub mod History
pub mod Sample
mod HistoryTests
