-- ===== src/Http/Routes.antt =====
-- backend/src/app/create-app.ts: the routes. A response is its status and its body; what Express does
-- with a body that is no JSON or a path that is not registered is not part of it.
pub mod Ingest
pub mod Accepted
use Prim.Native.Char.{code}
use personal_carbon_footprin.Prelude.{
  ℕ, ◌+◌, ◌-◌, ◌*◌, String, Option, none, some, Bool, List, [], ◌∷◌, if◌then◌else◌, ◌&&◌, leb, ◌==◌,
  codes, or_else, trim, Outcome, ◌>>=◌, ok, throw, JsError, app_error,
}
use personal_carbon_footprin.Storage.{OracleJobKind, OracleJobStatus, OracleJobRecord}
use personal_carbon_footprin.Lca.Numbers.{Numbers}
use personal_carbon_footprin.Db.Tables.{Db}
use personal_carbon_footprin.Db.Store.{find_oracle_job_by_id}
use personal_carbon_footprin.Ingestion.AuthService.{AuthContext, JwtVerify, IssuedDevIngestToken}
use personal_carbon_footprin.Ingestion.Siws.{authenticate_siws}
use personal_carbon_footprin.Ingestion.WalletAuth.{
  WalletAuth, WalletAuthChallenge, Challenges, issue_challenge, verify_challenge,
}
use personal_carbon_footprin.Ingestion.Orchestration.{is_digit}
use personal_carbon_footprin.Ingestion.Submission.{
  DecryptedPayload, FootprintIngestionResult, Clock, Environment, utf16_length,
  invalid_decrypted_payload,
}
use personal_carbon_footprin.Ingestion.Submission.Service.{ingest_decrypted_payload}
use personal_carbon_footprin.Http.Decryption.{
  EncryptedRequest, Cryptography, encrypted_request_ok, decrypt_request,
}

pub record JobView : Type 0 where
  pub id : ℕ
  pub kind : OracleJobKind
  pub status : OracleJobStatus
  pub run_after_ms : ℕ
  pub completed_at_ms : Option ℕ
  pub last_error_code : Option String
  pub last_error_message : Option String

pub data Body (N : Type 0) : Type 0 where
  error_body : (code message : String) → Body N
  health_body : (environment : String) → Body N
  public_key_body : (public_key_pem : String) → Body N
  job_body : JobView → Body N
  challenge_body : WalletAuthChallenge → Body N
  token_body : IssuedDevIngestToken → Body N
  accepted_body : FootprintIngestionResult N → (data_hash : String) → Body N

pub record Response (N : Type 0) : Type 0 where
  pub status : ℕ
  pub body : Body N

-- The error handler: what is no `AppError` is answered as an internal error.
unfoldable pub error_response : {N : Type 0} → JsError → Response N
error_response (app_error code status_code message) = record {
  status = status_code;
  body = error_body code message;
}
error_response _ = record {
  status = 500;
  body = error_body "internal_error" "Internal Server Error";
}

-- A handler that answers with a status, or passes its error on with `next`.
unfoldable pub respond : {A N : Type 0} → ℕ → (A → Body N) → Outcome A → Response N
respond status body (ok a) = record { status = status; body = body a }
respond status body (throw e) = error_response e

unfoldable pub get_health : {N : Type 0} → (environment : String) → Response N
get_health environment = record { status = 200; body = health_body environment }

unfoldable pub get_public_key : {N : Type 0} → Option (Outcome String) → Response N
get_public_key provider =
    respond 200 public_key_body (or_else provider (ok "UNCONFIGURED_PUBLIC_KEY"))

unfoldable pub map_job : OracleJobRecord → JobView
map_job job = record {
  id = job.id;
  kind = job.kind;
  status = job.status;
  run_after_ms = job.run_after_ms;
  completed_at_ms = job.completed_at_ms;
  last_error_code = job.last_error_code;
  last_error_message = job.last_error_message;
}

-- The digits that `Number.parseInt` reads; `none` if there are none.
read_digits : Option ℕ → List ℕ → Option ℕ
read_digits acc [] = acc
read_digits acc (c ∷ text) =
    let longer = read_digits (some (or_else acc 0 * 10 + (c - b'0'))) text in
    if is_digit c then longer else acc

-- `Number.parseInt(text, 10)`, for which a sign may come first; below zero there is no number here.
unfoldable pub parse_int : List ℕ → Option ℕ
unfolding read_digits
parse_int [] = none
parse_int (c ∷ text) = if c == b'+' then read_digits none text else read_digits none (c ∷ text)

abbrev pub invalid_job_id : JsError
invalid_job_id = app_error "invalid_job_id" 400 "Job id must be a positive integer."

abbrev pub job_not_found : JsError
job_not_found = app_error "job_not_found" 404 "Job not found."

abbrev found_job : Option OracleJobRecord → Outcome OracleJobRecord
found_job none = throw job_not_found
found_job (some job) = ok job

-- `GET /v1/jobs/:jobId`. What is not read as a number above zero is refused.
unfoldable pub find_job : (job_id : String) → Db → Outcome OracleJobRecord
find_job job_id db = elim (parse_int (codes (trim job_id))) [
  | none ↦ throw invalid_job_id
  | some n ↦ if n == 0 then throw invalid_job_id else found_job (find_oracle_job_by_id n db)
]

unfoldable pub get_job : {N : Type 0} → (job_id : String) → Db → Response N
get_job job_id db = respond 200 (λ j. job_body (map_job j)) (find_job job_id db)

-- `z.string().trim().min(32).max(64)`.
unfoldable pub wallet_address_ok : String → Bool
wallet_address_ok text = let size = utf16_length (codes (trim text)) in leb 32 size && leb size 64

abbrev pub invalid_wallet_auth_request : JsError
invalid_wallet_auth_request =
    app_error "invalid_wallet_auth_request" 400 "Wallet auth request body is invalid."

abbrev pub invalid_wallet_auth_verify_request : JsError
invalid_wallet_auth_verify_request =
    app_error "invalid_wallet_auth_verify_request" 400
      "Wallet auth verification request body is invalid."

-- `POST /v1/siws/challenge`, with the ids that the service draws and the time that it reads. The body's
-- field is `none` if it is no text.
unfoldable pub post_challenge :
    {N : Type 0}
    → WalletAuth
    → (wallet_address : Option String) → (challenge_id nonce : String) → ℕ
    → Challenges
    → Response N × Challenges
post_challenge service none challenge_id nonce now_ms challenges =
    (error_response invalid_wallet_auth_request, challenges)
post_challenge service (some wallet_address) challenge_id nonce now_ms challenges =
    let (issued, after) =
      issue_challenge service (trim wallet_address) challenge_id nonce now_ms challenges in
    if wallet_address_ok wallet_address
    then (respond 201 challenge_body issued, after)
    else (error_response invalid_wallet_auth_request, challenges)

pub record VerifyRequest : Type 0 where
  pub challenge_id : String
  pub wallet_address : String
  pub signature : String

-- `walletAuthVerifyRequestSchema`, with zod's test for a UUID.
unfoldable pub verify_request_ok : (is_uuid : String → Bool) → VerifyRequest → Bool
verify_request_ok is_uuid r =
    is_uuid r.challenge_id
    && wallet_address_ok r.wallet_address
    && leb 1 (utf16_length (codes (trim r.signature)))

-- `POST /v1/siws/verify`; `meanwhile` is what other requests do while the signature is checked.
unfoldable pub post_verify :
    {N : Type 0}
    → WalletAuth
    → (is_uuid : String → Bool) → Option VerifyRequest
    → (token_nonce : String) → (now_ms later_ms : ℕ) → (meanwhile : Challenges → Challenges)
    → Challenges
    → Response N × Challenges
post_verify service is_uuid none token_nonce now_ms later_ms meanwhile challenges =
    (error_response invalid_wallet_auth_verify_request, challenges)
post_verify service is_uuid (some r) token_nonce now_ms later_ms meanwhile challenges =
    let (issued, after) =
      verify_challenge service r.challenge_id (trim r.wallet_address) (trim r.signature) token_nonce
        now_ms later_ms meanwhile challenges in
    if verify_request_ok is_uuid r
    then (respond 201 token_body issued, after)
    else (error_response invalid_wallet_auth_verify_request, challenges)

-- What the ingestion routes are built with. A service that is not configured is `none`. A body that is
-- JSON, but not of the shape of a payload, is `some none`.
pub record IngestionServices (N S : Type 0) : Type 0 where
  pub jwt_verify : JwtVerify
  pub issuer : String
  pub audience : String
  pub decryption : Cryptography (Option (DecryptedPayload N))
  pub orchestration : Option (Environment N S)

-- A request to `POST /v1/footprints/ingest` or `POST /v1/ingestion/decrypt`, which have the same handlers;
-- the body is `none` if it has not the shape of the contract.
pub record IngestRequest : Type 0 where
  pub authorization : Option String
  pub body : Option EncryptedRequest
  pub request_id : String
  pub authenticated_at_ms : ℕ
  pub clock : Clock

abbrev pub invalid_encrypted_request : JsError
invalid_encrypted_request =
    app_error "invalid_encrypted_request" 400
      "Request body does not match the encrypted payload contract."

abbrev pub ingestion_unavailable : JsError
ingestion_unavailable =
    app_error "ingestion_unavailable" 503 "Encrypted ingestion service is not configured."

unfoldable pub parse_encrypted_request : Option EncryptedRequest → Outcome EncryptedRequest
parse_encrypted_request none = throw invalid_encrypted_request
parse_encrypted_request (some r) =
    if encrypted_request_ok r then ok r else throw invalid_encrypted_request

-- What the handler knows when it calls the orchestration.
pub record Opened (N S : Type 0) : Type 0 where
  pub environment : Environment N S
  pub data_hash : String
  pub payload : Option (DecryptedPayload N)

-- A response, and the store and the metadata storage after it.
abbrev pub Answer : Type 0 → Type 0 → Type 0
Answer N S = Response N × Db × S

module _ {N S : Type 0} (ops : Numbers N) where
  abbrev pub configured : Option (Environment N S) → Outcome (Environment N S)
  configured none = throw ingestion_unavailable
  configured (some env) = ok env

  unfoldable pub open_request :
      IngestionServices N S → Option EncryptedRequest → Outcome (Opened N S)
  open_request services body = do
    r ← parse_encrypted_request body
    env ← configured services.orchestration
    payload ← decrypt_request services.decryption r
    ok (record { environment = env; data_hash = r.data_hash; payload = payload })

  abbrev pub answered :
      (data_hash : String) → Outcome (FootprintIngestionResult N) × Db × S → Answer N S
  answered data_hash (result, db, storage) =
      (respond 202 (λ r. accepted_body r data_hash) result, db, storage)

  abbrev pub ingest_opened : IngestRequest → AuthContext → Opened N S → Db → S → Answer N S
  ingest_opened request context opened db storage = elim opened.payload [
    | none ↦ (error_response invalid_decrypted_payload, db, storage)
    | some payload ↦ answered opened.data_hash (
        ingest_decrypted_payload ops opened.environment payload context request.request_id
          request.clock db storage)
  ]

  abbrev pub after_opening :
      IngestRequest → AuthContext → Db → S → Outcome (Opened N S) → Answer N S
  after_opening request context db storage (throw e) = (error_response e, db, storage)
  after_opening request context db storage (ok opened) =
      ingest_opened request context opened db storage

  -- `ingestEncryptedPayload`, once the context is set.
  unfoldable pub ingest_encrypted_payload :
      IngestionServices N S → IngestRequest → AuthContext → Db → S → Answer N S
  ingest_encrypted_payload services request context db storage =
      after_opening request context db storage (open_request services request.body)

  abbrev pub after_authenticating :
      IngestionServices N S → IngestRequest → S → Outcome AuthContext × Db → Answer N S
  after_authenticating services request storage (throw e, db) = (error_response e, db, storage)
  after_authenticating services request storage (ok context, db) =
      ingest_encrypted_payload services request context db storage

  -- The route: `authenticateSiws`, then the handler.
  unfoldable pub post_ingest : IngestionServices N S → IngestRequest → Db → S → Answer N S
  post_ingest services request db storage = after_authenticating services request storage (
      authenticate_siws services.jwt_verify services.issuer services.audience request.authorization
        request.authenticated_at_ms db)
