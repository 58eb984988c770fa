-- ===== src/Ingestion/Siws.antt =====
-- backend/src/middleware/authenticate-siws.ts.
pub mod Replay
use personal_carbon_footprin.Prelude.{
  ℕ, String, Option, if◌then◌else◌, includes, Outcome, ok, throw, JsError, error, app_error,
  retryable_job_error, terminal_job_error, other, ◌>>=◌,
}
use personal_carbon_footprin.Storage.{ReserveNonceInput}
use personal_carbon_footprin.Db.Tables.{Db}
use personal_carbon_footprin.Db.Store.{reserve_nonce}
use personal_carbon_footprin.Ingestion.AuthService.{
  AuthContext, JwtVerify, verify_bearer_token, extract_bearer_token,
}

abbrev pub reservation : AuthContext → ℕ → ReserveNonceInput
reservation context now_ms = record {
  nonce = context.nonce;
  issuer = context.issuer;
  audience = context.audience;
  subject = context.subject;
  expires_at_ms = context.expires_at_ms;
  reserved_at_ms = now_ms;
}

abbrev message_of : JsError → String
message_of (error message) = message
message_of (app_error code status_code message) = message
message_of (retryable_job_error code message) = message
message_of (terminal_job_error code message) = message
message_of other = ""

abbrev pub replayed_nonce : JsError
replayed_nonce = app_error "replayed_nonce" 409 "JWT nonce has already been used."

-- The `catch` block.
abbrev pub replay_error : JsError → JsError
replay_error e =
    if includes (message_of e) "UNIQUE constraint failed: used_nonces.nonce"
    then replayed_nonce
    else e

unfoldable pub reserve_context : AuthContext → ℕ → Db → Outcome AuthContext × Db
reserve_context context now_ms db =
    let (reserved, after) = reserve_nonce (reservation context now_ms) db in
    (elim reserved [ ok _ ↦ ok context | throw e ↦ throw (replay_error e) ], after)

-- What the handler sets as `authContext`, or passes to `next` as the error.
unfoldable pub authenticate_siws :
    JwtVerify
    → (issuer audience : String) → (authorization : Option String) → ℕ
    → Db
    → Outcome AuthContext × Db
authenticate_siws jwt_verify issuer audience authorization now_ms db =
    elim (extract_bearer_token authorization >>= verify_bearer_token jwt_verify issuer audience) [
      | throw e ↦ (throw (replay_error e), db)
      | ok context ↦ reserve_context context now_ms db
    ]
