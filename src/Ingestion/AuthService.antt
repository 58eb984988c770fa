-- ===== src/Ingestion/AuthService.antt =====
-- backend/src/modules/ingestion/auth-service.ts. What jose does is a parameter: reading and checking
-- a token, and signing one.
use personal_carbon_footprin.Prelude.{
  ℕ, ◌+◌, ◌*◌, ◌/◌, String, Option, some, none, if◌then◌else◌, or_else, not, ◌||◌, str_eq, trim,
  split_space, Outcome, ◌>>=◌, ok, throw, JsError, app_error,
}

pub record AuthContext : Type 0 where
  pub issuer : String
  pub audience : String
  pub subject : String
  pub nonce : String
  pub expires_at_ms : ℕ

-- The claims of a token, each `none` if it is missing or of another type.
pub record JwtPayload : Type 0 where
  pub sub : Option String
  pub nonce : Option String
  pub exp : Option ℕ

-- `jwtVerify` with the issuer, the audience and HS256: it throws if the token is not valid.
abbrev pub JwtVerify : Type 0
JwtVerify = (issuer audience token : String) → Outcome JwtPayload

-- A claim that is a text and not empty.
abbrev required : Option String → JsError → Outcome String
required none e = throw e
required (some text) e = if str_eq text "" then throw e else ok text

abbrev required_number : Option ℕ → JsError → Outcome ℕ
required_number none e = throw e
required_number (some n) e = ok n

-- The `try` block of `verifyBearerToken`.
unfoldable pub read_token : JwtVerify → (issuer audience token : String) → Outcome AuthContext
read_token jwt_verify issuer audience token = do
  payload ← jwt_verify issuer audience token
  subject ← required payload.sub (app_error "invalid_token_subject" 401 "JWT subject is required.")
  nonce ← required payload.nonce (app_error "invalid_token_nonce" 401 "JWT nonce is required.")
  exp ← required_number payload.exp (app_error "invalid_token_exp" 401 "JWT expiry is required.")
  ok (record {
    issuer = issuer;
    audience = audience;
    subject = subject;
    nonce = nonce;
    expires_at_ms = exp * 1000;
  })

-- The `catch` block: an `AppError` is thrown on, anything else becomes one.
abbrev pub as_app_error : JsError → JsError
as_app_error (app_error code status_code message) = app_error code status_code message
as_app_error _ = app_error "invalid_token" 401 "JWT verification failed."

unfoldable pub verify_bearer_token :
    JwtVerify → (issuer audience token : String) → Outcome AuthContext
verify_bearer_token jwt_verify issuer audience token =
    elim (read_token jwt_verify issuer audience token) [
      | ok context ↦ ok context
      | throw e ↦ throw (as_app_error e)
    ]

unfoldable pub extract_bearer_token : Option String → Outcome String
extract_bearer_token none =
    throw (app_error "missing_authorization" 401 "Authorization header is required.")
extract_bearer_token (some header) =
    if str_eq header ""
    then throw (app_error "missing_authorization" 401 "Authorization header is required.")
    else let (scheme, rest) = split_space header in
      let (token, _) = split_space (or_else rest "") in
      if not (str_eq scheme "Bearer") || str_eq token ""
      then throw
          (app_error "invalid_authorization" 401 "Authorization header must be a Bearer token.")
      else ok token

pub record IssuedDevIngestToken : Type 0 where
  pub token : String
  pub issuer : String
  pub audience : String
  pub subject : String
  pub nonce : String
  pub expires_at_ms : ℕ

-- `HmacJwtDevIngestTokenIssuer`. `sign` is jose's `SignJWT` with HS256.
pub record TokenIssuer : Type 0 where
  pub issuer : String
  pub audience : String
  pub ttl_seconds : ℕ
  pub default_subject : Option String
  pub sign : (issuer audience subject nonce : String) → (issued_at expires_at : ℕ) → Outcome String

-- `a || b` on texts.
abbrev or_text : String → String → String
or_text a b = if str_eq a "" then b else a

-- What the constructor makes of `defaultSubject`.
unfoldable pub default_subject_of : TokenIssuer → String
default_subject_of t = or_text (trim (or_else t.default_subject "")) "local-e2e-user"

unfoldable pub issue_token :
    TokenIssuer
    → (nonce : String) → (issued_at_ms : ℕ) → Option String
    → Outcome IssuedDevIngestToken
issue_token t nonce issued_at_ms input_subject =
    let subject = or_text (trim (or_else input_subject "")) (default_subject_of t) in
    let issued_at = issued_at_ms / 1000 in
    let expires_at = issued_at + t.ttl_seconds in
    if str_eq subject ""
    then throw (
        app_error "invalid_dev_auth_subject" 400
          "Subject is required for dev ingest token issuance.")
    else do
      token ← t.sign t.issuer t.audience subject nonce issued_at expires_at
      ok (record {
        token = token;
        issuer = t.issuer;
        audience = t.audience;
        subject = subject;
        nonce = nonce;
        expires_at_ms = expires_at * 1000;
      })
