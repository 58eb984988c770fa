-- ===== src/Runtime/Env.antt =====
-- backend/src/config/env.ts, and `createWalletAuthService` of backend/src/runtime/create-runtime.ts.
use personal_carbon_footprin.Prelude.{
  ℕ, String, Option, none, some, Bool, true, false, if◌then◌else◌, ◌&&◌, ◌||◌, not, leb, str_eq,
  trim, to_lower_case, codes, or_else, Outcome, ◌>>=◌, ok, throw, error, ◌≡◌, arith, Bool-cases,
  is_some, bind-ok, ap,
}
use personal_carbon_footprin.Ingestion.Submission.{utf16_length}

pub data NodeEnv : Type 0 where
  development test production : NodeEnv

pub data LogLevel : Type 0 where
  debug info warn error_level : LogLevel

-- What stands in the environment, with the numbers coerced; a variable that is not set is `none`. A value
-- that is no integer, or none of an enumeration's texts, is refused like one out of range.
pub record ProcessEnv : Type 0 where
  pub node_env : Option NodeEnv
  pub port : Option ℕ
  pub host : Option String
  pub log_level : Option LogLevel
  pub backend_public_base_url : Option String
  pub sqlite_path : Option String
  pub siws_jwt_issuer : Option String
  pub siws_jwt_audience : Option String
  pub siws_jwt_secret : Option String
  pub backend_rsa_private_key_pem : Option String
  pub solana_rpc_url : Option String
  pub green_reputation_program_id : Option String
  pub metadata_base_uri : Option String
  pub local_e2e_mode : Option String
  pub local_e2e_dev_auth_enabled : Option String
  pub local_e2e_dev_auth_token_ttl_seconds : Option ℕ
  pub local_e2e_worker_poll_interval_ms : Option ℕ
  pub local_e2e_worker_max_jobs_per_tick : Option ℕ
  pub solana_verifier_secret_key_json : Option String
  pub solana_metadata_authority_secret_key_json : Option String
  pub solana_admin_secret_key_json : Option String

pub record AppEnv : Type 0 where
  pub node_env : NodeEnv
  pub port : ℕ
  pub host : String
  pub log_level : LogLevel
  pub backend_public_base_url : String
  pub sqlite_path : String
  pub siws_jwt_issuer : String
  pub siws_jwt_audience : String
  pub siws_jwt_secret : String
  pub backend_rsa_private_key_pem : Option String
  pub solana_rpc_url : String
  pub green_reputation_program_id : String
  pub metadata_base_uri : String
  pub local_e2e_mode : Bool
  pub local_e2e_dev_auth_enabled : Bool
  pub local_e2e_dev_auth_token_ttl_seconds : ℕ
  pub local_e2e_worker_poll_interval_ms : ℕ
  pub local_e2e_worker_max_jobs_per_tick : ℕ
  pub solana_verifier_secret_key_json : Option String
  pub solana_metadata_authority_secret_key_json : Option String
  pub solana_admin_secret_key_json : Option String

-- `envBoolean`; `none` if the text is neither.
unfoldable pub env_boolean : String → Option Bool
env_boolean text =
    let normalized = to_lower_case (trim text) in
    if str_eq normalized "true"
    then some true
    else if str_eq normalized "false"
    then some false
    else none

abbrev pub env_flag : Option String → Option Bool
env_flag none = some false
env_flag (some text) = env_boolean text

abbrev is_production : NodeEnv → Bool
is_production production = true
is_production _ = false

-- The two checks of `superRefine`.
unfoldable pub is_refined : AppEnv → Bool
is_refined e =
    not (e.local_e2e_dev_auth_enabled && not e.local_e2e_mode)
    && not (is_production e.node_env && (e.local_e2e_mode || e.local_e2e_dev_auth_enabled))

abbrev has_length : (least : ℕ) → String → Bool
has_length least text = leb least (utf16_length (codes text))

abbrev optional_text : Option String → Bool
optional_text none = true
optional_text (some text) = has_length 1 text

abbrev within : (low high n : ℕ) → Bool
within low high n = leb low n && leb n high

-- The checks of the fields, with zod's test for a URL.
unfoldable pub fields_ok : (is_url : String → Bool) → AppEnv → Bool
fields_ok is_url e =
    within 1 65535 e.port
    && has_length 1 e.host
    && is_url e.backend_public_base_url
    && has_length 1 e.sqlite_path
    && has_length 1 e.siws_jwt_issuer
    && has_length 1 e.siws_jwt_audience
    && has_length 16 e.siws_jwt_secret
    && optional_text e.backend_rsa_private_key_pem
    && is_url e.solana_rpc_url
    && has_length 1 e.green_reputation_program_id
    && is_url e.metadata_base_uri
    && within 60 86400 e.local_e2e_dev_auth_token_ttl_seconds
    && within 25 60000 e.local_e2e_worker_poll_interval_ms
    && within 1 1000 e.local_e2e_worker_max_jobs_per_tick
    && optional_text e.solana_verifier_secret_key_json
    && optional_text e.solana_metadata_authority_secret_key_json
    && optional_text e.solana_admin_secret_key_json

-- The defaults.
abbrev with_defaults : ProcessEnv → (local_e2e_mode dev_auth : Bool) → AppEnv
with_defaults p local_e2e_mode dev_auth = record {
  node_env = or_else p.node_env development;
  port = or_else p.port 3000;
  host = or_else p.host "127.0.0.1";
  log_level = or_else p.log_level info;
  backend_public_base_url = or_else p.backend_public_base_url "http://127.0.0.1:3000";
  sqlite_path = or_else p.sqlite_path "./db/green-reputation.sqlite";
  siws_jwt_issuer = or_else p.siws_jwt_issuer "green-reputation.local";
  siws_jwt_audience = or_else p.siws_jwt_audience "green-reputation.web";
  siws_jwt_secret = or_else p.siws_jwt_secret "dev-siws-secret-not-for-production";
  backend_rsa_private_key_pem = p.backend_rsa_private_key_pem;
  solana_rpc_url = or_else p.solana_rpc_url "http://127.0.0.1:8899";
  green_reputation_program_id =
      or_else p.green_reputation_program_id "CYTYoWKNxj4xP1vUPef2HuRb8x8kgrnzpQXMi665Q6ve";
  metadata_base_uri = or_else p.metadata_base_uri "https://metadata.green-reputation.local";
  local_e2e_mode = local_e2e_mode;
  local_e2e_dev_auth_enabled = dev_auth;
  local_e2e_dev_auth_token_ttl_seconds = or_else p.local_e2e_dev_auth_token_ttl_seconds 900;
  local_e2e_worker_poll_interval_ms = or_else p.local_e2e_worker_poll_interval_ms 250;
  local_e2e_worker_max_jobs_per_tick = or_else p.local_e2e_worker_max_jobs_per_tick 25;
  solana_verifier_secret_key_json = p.solana_verifier_secret_key_json;
  solana_metadata_authority_secret_key_json = p.solana_metadata_authority_secret_key_json;
  solana_admin_secret_key_json = p.solana_admin_secret_key_json;
}

abbrev checked_env : (is_url : String → Bool) → (zod_message : String) → AppEnv → Outcome AppEnv
checked_env is_url zod_message e =
    if fields_ok is_url e && is_refined e then ok e else throw (error zod_message)

abbrev or_refused : (zod_message : String) → Option Bool → Outcome Bool
or_refused zod_message none = throw (error zod_message)
or_refused zod_message (some b) = ok b

-- `loadEnv`; what zod throws is an error with this message.
unfoldable pub load_env :
    (is_url : String → Bool) → (zod_message : String) → ProcessEnv → Outcome AppEnv
load_env is_url zod_message p = do
  local_e2e_mode ← or_refused zod_message (env_flag p.local_e2e_mode)
  dev_auth ← or_refused zod_message (env_flag p.local_e2e_dev_auth_enabled)
  checked_env is_url zod_message (with_defaults p local_e2e_mode dev_auth)

-- The options of the wallet sign-in service, if there is one.
pub record WalletAuthOptions : Type 0 where
  pub issuer : String
  pub audience : String
  pub shared_secret : String
  pub challenge_ttl_seconds : ℕ
  pub token_ttl_seconds : ℕ

unfoldable pub create_wallet_auth_service : AppEnv → Option WalletAuthOptions
create_wallet_auth_service e =
    if not e.local_e2e_mode || not e.local_e2e_dev_auth_enabled
    then none
    else some (record {
      issuer = e.siws_jwt_issuer;
      audience = e.siws_jwt_audience;
      shared_secret = e.siws_jwt_secret;
      challenge_ttl_seconds = 300;
      token_ttl_seconds = e.local_e2e_dev_auth_token_ttl_seconds;
    })

checked_env-ok :
    (is_url : String → Bool) (zod_message : String) (given e : AppEnv)
    → checked_env is_url zod_message given ≡ ok e
    → is_refined e ≡ true
checked_env-ok is_url zod_message given e h = ground (arith, h)

wallet_auth-refined :
    (e : AppEnv)
    → is_refined e ≡ true
    → (is_some (create_wallet_auth_service e) ≡ e.local_e2e_dev_auth_enabled)
      × (is_production e.node_env ≡ true → create_wallet_auth_service e ≡ none)
unfolding create_wallet_auth_service is_refined
wallet_auth-refined e h = (
  ground (arith, h, Bool-cases e.local_e2e_mode, Bool-cases e.local_e2e_dev_auth_enabled),
  λ prod.
      ground (arith, h, prod, Bool-cases e.local_e2e_mode, Bool-cases e.local_e2e_dev_auth_enabled),
)

-- With a configuration that loads, the wallet sign-in service is there exactly if the development sign-in
-- is switched on, and in production it never is.
pub create_wallet_auth_service-load_env :
    (is_url : String → Bool) (zod_message : String) (p : ProcessEnv) (e : AppEnv)
    → load_env is_url zod_message p ≡ ok e
    → (is_some (create_wallet_auth_service e) ≡ e.local_e2e_dev_auth_enabled)
      × (e.node_env ≡ production → create_wallet_auth_service e ≡ none)
unfolding load_env
create_wallet_auth_service-load_env is_url zod_message p e h =
    let (mode, m, h1) = bind-ok (or_refused zod_message (env_flag p.local_e2e_mode)) _ h in
    let (dev, d, h2) =
      bind-ok (or_refused zod_message (env_flag p.local_e2e_dev_auth_enabled)) _ h1 in
    let refined = checked_env-ok is_url zod_message (with_defaults p mode dev) e h2 in
    let (present, absent) = wallet_auth-refined e refined in
    (present, λ prod. absent (ap is_production prod))
