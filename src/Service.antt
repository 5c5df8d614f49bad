-- ===== src/Service.antt =====
-- `JobService` of services/api/src/wde_api/services.py: one module for each phase of a job.
-- A method is a transaction over the tables; `now` stands for its calls of `utcnow`.
pub mod Columns
pub mod Lifecycle
pub mod Creation
pub mod Planning
pub mod Browser
pub mod Inventory
pub mod Discovery
pub mod Extraction
pub mod Validation
pub mod Export
pub mod Recovery
