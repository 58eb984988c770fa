-- ===== src/Scripts.antt =====
-- backend/scripts: local tooling.
pub mod SeedHistory
