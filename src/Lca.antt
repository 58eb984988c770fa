-- ===== src/Lca.antt =====
-- backend/src/modules/lca: the emissions of a month and the reward for them.
pub mod Kinds
pub mod SpendCategory
pub mod SpendFactors
pub mod SpendIndex
pub mod Numbers
pub mod Orchestrator
pub mod Multiplier
pub mod Rewards
pub mod SpendNames
pub mod Request
pub mod Commitment
