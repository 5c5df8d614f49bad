-- ===== src/Behaviour.antt =====
-- What the methods of `JobService` promise one by one.
pub mod Inversion
pub mod Transitions
pub mod Written
pub mod Cancel
pub mod Planning
pub mod Leases
pub mod Insertions
pub mod Accepted
pub mod Idempotency
pub mod Limits
pub mod Recovered
pub mod Completion
pub mod Pages
