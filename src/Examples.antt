-- ===== src/Examples.antt =====
-- Concrete runs, to which the theorems apply.
pub mod Stores
pub mod Claims
pub mod Runs
pub mod FixedPoint
pub mod SignedPoint
pub mod Rewards
pub mod Requests
pub mod Submissions
pub mod Frontend
pub mod Runtimes
