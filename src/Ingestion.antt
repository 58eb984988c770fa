-- ===== src/Ingestion.antt =====
-- backend/src/modules/ingestion and backend/src/middleware: who may send data.
pub mod AuthService
pub mod Siws
pub mod WalletAuth
pub mod History
pub mod Orchestration
pub mod Submission
