-- ===== src/Http.antt =====
-- backend/src/app/create-app.ts and backend/src/modules/ingestion/decryption-service.ts: the routes, as
-- functions from a request and the state to the response and the state.
pub mod Decryption
pub mod Routes
