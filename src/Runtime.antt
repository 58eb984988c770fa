-- ===== src/Runtime.antt =====
-- backend/src/config and backend/src/runtime: the configuration, the signers and the worker's loop.
pub mod Env
pub mod Signers
pub mod Worker
