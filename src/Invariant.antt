-- ===== src/Invariant.antt =====
-- What every transaction keeps: an invariant of the tables and a relation between their versions.
pub mod Job
pub mod Tables
pub mod Rules
pub mod Settle
pub mod Frame
pub mod Columns
pub mod Lifecycle
pub mod Creation
pub mod Planning
pub mod Browser
pub mod Discovery
pub mod Extraction
pub mod Validation
pub mod Export
pub mod Recovery
