-- ===== src/Jobs.antt =====
-- backend/src/modules/jobs/runner.ts: the worker's retry runner. `Errors` has the classification
-- of errors and the back-off, `Payloads` the parsing of a stored job, `Runner` the runner.
pub mod Errors
pub mod Payloads
pub mod Runner
