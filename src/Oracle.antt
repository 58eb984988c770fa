-- ===== src/Oracle.antt =====
-- backend/src/modules/oracle: the client of the Solana program.
pub mod Client
pub mod Reward
pub mod Authority
pub mod Commitments
