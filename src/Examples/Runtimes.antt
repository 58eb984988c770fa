-- ===== src/Examples/Runtimes.antt =====
-- The theorems on the configuration and the worker's loop, for what the defaults give.
use personal_carbon_footprin.Prelude.{
  List, none, some, true, false, [], ◌∷◌, ◌≡◌, refl, ok, is_some,
}
use personal_carbon_footprin.Runtime.Env.{
  ProcessEnv, AppEnv, production, info, load_env, fields_ok, is_refined, create_wallet_auth_service,
  create_wallet_auth_service-load_env,
}
use personal_carbon_footprin.Runtime.Worker.{
  WorkerEvent, start, fire, settle, run_due_jobs_once, settle_once, stop,
}
use personal_carbon_footprin.Ingestion.Submission.{utf16_length}

abbrev process_env : ProcessEnv
process_env = record {
  node_env = some production;
  port = none;
  host = none;
  log_level = none;
  backend_public_base_url = none;
  sqlite_path = none;
  siws_jwt_issuer = none;
  siws_jwt_audience = none;
  siws_jwt_secret = none;
  backend_rsa_private_key_pem = none;
  solana_rpc_url = none;
  green_reputation_program_id = none;
  metadata_base_uri = none;
  local_e2e_mode = none;
  local_e2e_dev_auth_enabled = none;
  local_e2e_dev_auth_token_ttl_seconds = none;
  local_e2e_worker_poll_interval_ms = none;
  local_e2e_worker_max_jobs_per_tick = none;
  solana_verifier_secret_key_json = none;
  solana_metadata_authority_secret_key_json = none;
  solana_admin_secret_key_json = none;
}

abbrev app_env : AppEnv
app_env = record {
  node_env = production;
  port = 3000;
  host = "127.0.0.1";
  log_level = info;
  backend_public_base_url = "http://127.0.0.1:3000";
  sqlite_path = "./db/green-reputation.sqlite";
  siws_jwt_issuer = "green-reputation.local";
  siws_jwt_audience = "green-reputation.web";
  siws_jwt_secret = "dev-siws-secret-not-for-production";
  backend_rsa_private_key_pem = none;
  solana_rpc_url = "http://127.0.0.1:8899";
  green_reputation_program_id = "CYTYoWKNxj4xP1vUPef2HuRb8x8kgrnzpQXMi665Q6ve";
  metadata_base_uri = "https://metadata.green-reputation.local";
  local_e2e_mode = false;
  local_e2e_dev_auth_enabled = false;
  local_e2e_dev_auth_token_ttl_seconds = 900;
  local_e2e_worker_poll_interval_ms = 250;
  local_e2e_worker_max_jobs_per_tick = 25;
  solana_verifier_secret_key_json = none;
  solana_metadata_authority_secret_key_json = none;
  solana_admin_secret_key_json = none;
}

loaded : load_env (λ url. true) "invalid" process_env ≡ ok app_env
unfolding load_env fields_ok is_refined utf16_length
loaded = refl

create_wallet_auth_service-load_env_example :
    (is_some (create_wallet_auth_service app_env) ≡ false)
    × (production ≡ production → create_wallet_auth_service app_env ≡ none)
create_wallet_auth_service-load_env_example =
    create_wallet_auth_service-load_env (λ url. true) "invalid" process_env app_env loaded

abbrev events : List WorkerEvent
events =
    start
    ∷ run_due_jobs_once (some 2)
    ∷ fire
    ∷ settle (ok [])
    ∷ fire
    ∷ settle_once (ok [])
    ∷ stop
    ∷ []
