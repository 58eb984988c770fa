-- ===== src/Examples/Submissions.antt =====
-- A submission from the request to the stored jobs, with numbers of four digits after the point and packages
-- that accept everything.
use personal_carbon_footprin.Prelude.{
  ◌≤◌, ◌^◌, to_double, find_where, split_space, ℕ, String, ◌+++◌, none, some, true, List, [], ◌∷◌,
  ◌≡◌, refl, ok, pos, arith, if◌then◌else◌, ltb, hex_text, drop, exists_where, le_value,
  select_where, take, includes, number_to_string,
}
use personal_carbon_footprin.Examples.FixedPoint.{fixed_point}
use personal_carbon_footprin.Examples.Rewards.{transport}
use personal_carbon_footprin.Examples.Requests.{context, accept_all}
use personal_carbon_footprin.Lca.Kinds.{electricity, kwh, ocr, manual, hybrid}
use personal_carbon_footprin.Lca.Orchestrator.{
  LcaResult, activity_grams, add_activities, add_activity, add_spends, calculate_activity_emission,
  calculate_dynamic_multiplier, calculate_footprint, clamp, clear_emissions,
  derive_data_source_kind, emission_of, floor_total, overridden_spend_categories, set_emission,
  sum_emissions,
}
use personal_carbon_footprin.Lca.Commitment.{CommitmentPreimageV1, build_commitment_payload}
use personal_carbon_footprin.Lca.SpendCategory.{SpendCategory}
use personal_carbon_footprin.Lca.Request.{
  RawLcaRequest, NormalizedLcaInput, activity_entry_ok, activity_name, insert_text,
  normalize_activity, normalize_input, normalize_spend, origin_name, request_ok, set_add, set_of,
  sort_texts, spend_entry_ok, summarize,
}
use personal_carbon_footprin.Metadata.{
  PublicProfileSnapshot, in_memory_storage, build_metadata_document, publish_metadata,
}
use personal_carbon_footprin.Ingestion.Submission.{
  DecryptedPayload, Clock, Environment, parse_user_pubkey, utf16_length, map_job_summary,
  source_kind_name,
}
use personal_carbon_footprin.Ingestion.Submission.Service.{
  Assessment, assess, parse_submission, conclude, to_grams, to_big_grams, enqueue_jobs,
  ingestion_result, sync_job_input,
}
use personal_carbon_footprin.Ingestion.Orchestration.{
  forest, derive_rank, normalize_queued_period_key, parse_digits, parse_period_digits,
}
use personal_carbon_footprin.Ingestion.History.{
  average_of_entries, day_bucket_start, decode_emission_history, decode_entries, decode_entry,
  derive_historical_data, insert_entry, sort_entries, sum_grams,
}
use personal_carbon_footprin.Lca.SpendFactors.{spend_grams}
use personal_carbon_footprin.Lca.SpendIndex.{spend_index}
use personal_carbon_footprin.Lca.SpendNames.{spend_name}
use personal_carbon_footprin.Oracle.Client.{
  load_protocol_config, load_user_profile, quote_reward_lamports,
}
use personal_carbon_footprin.Storage.{submit_verified_footprint, sync_sbt_state, pending}
use personal_carbon_footprin.Db.Tables.{migrated, map_oracle_job, normalize_oracle_job_input}
use personal_carbon_footprin.Db.Invariant.{migrated-Inv}
use personal_carbon_footprin.Db.Statements.{
  select_nonce, insert_nonce, insert_oracle_job, select_oracle_job_by_id,
}
use personal_carbon_footprin.Db.Store.{find_nonce, enqueue_oracle_job, reserve_nonce}
use personal_carbon_footprin.Db.Trace.{run_calls}
use personal_carbon_footprin.Ingestion.AuthService.{
  AuthContext, extract_bearer_token, verify_bearer_token, read_token,
}
use personal_carbon_footprin.Ingestion.Siws.{authenticate_siws, replayed_nonce, reserve_context}
use personal_carbon_footprin.Ingestion.Submission.Enqueued.{
  IsIngested, ingest_decrypted_payload_lem,
}
use personal_carbon_footprin.Ingestion.Submission.{FootprintIngestionResult}
use personal_carbon_footprin.Ingestion.Submission.Service.{
  submit_job_input, ingest_decrypted_payload,
}
use personal_carbon_footprin.Ingestion.History.{monthly_average}
use personal_carbon_footprin.Ingestion.History.Seeded.{
  seeded_entries, added, decode_emission_history-create_daily_emission_history,
  derive_historical_data-create_daily_emission_history,
}
use personal_carbon_footprin.Scripts.SeedHistory.{create_daily_emission_history}
use personal_carbon_footprin.Http.Routes.{
  IngestionServices, IngestRequest, error_response, post_ingest, ingest_encrypted_payload,
  open_request, parse_encrypted_request, respond,
}
use personal_carbon_footprin.Http.Routes.Ingest.{post_ingest-once}
use personal_carbon_footprin.Http.Routes.Accepted.{IsAccepted, IsEarned, post_ingest-IsEarned}
use personal_carbon_footprin.Http.Decryption.{
  decipher_request, decrypt_request, encrypted_request_ok,
}

abbrev zeros : List ℕ
zeros =
    0 ∷ 0 ∷ 0 ∷ 0 ∷ 0 ∷ 0 ∷ 0 ∷ 0 ∷ 0 ∷ 0 ∷ 0 ∷ 0 ∷ 0 ∷ 0 ∷ 0 ∷ 0 ∷ 0 ∷ 0 ∷ 0 ∷ 0 ∷ 0 ∷ 0 ∷ 0 ∷ 0
    ∷ 0 ∷ 0 ∷ 0 ∷ 0 ∷ 0 ∷ 0 ∷ 0 ∷ 0 ∷ []

abbrev env : Environment ℕ (List (String × String))
env = record {
  new_public_key = λ text. some (record { base58 = text });
  transport = transport;
  provider = in_memory_storage "https://m";
  stringify = λ document. "document";
  stringify_commitment = λ commitment. "commitment";
  sha256 = λ text. zeros;
  zod_message = "invalid";
}

-- Electricity is bought for 20 and used for 30 kilowatt hours.
abbrev request : RawLcaRequest ℕ
request = record {
  period_key = some "2024-05";
  spend_entries = some (
      record {
        spend_id = "s";
        category = SpendCategory.electricity;
        amount = 200000;
        source = none;
        proof_hash = none;
      }
      ∷ []);
  activity_entries = some (
      record {
        activity_id = "a";
        category = electricity;
        value = 300000;
        unit = kwh;
        source = none;
        is_renewable = some true;
        proof_hash = none;
      }
      ∷ []);
  history = none;
}

abbrev payload : DecryptedPayload ℕ
payload = record {
  user_pubkey = "user";
  current_metadata_version = none;
  display_alias = "me";
  country_code = none;
  avatar_uri = none;
  aggregate_state_hint = none;
  lca = request;
}

abbrev clock : Clock
clock = record { at_history_ms = 5000; at_calculation_ms = 6000; at_enqueueing_ms = 7000 }

abbrev normalized : NormalizedLcaInput ℕ
normalized = record {
  period_key = some "2024-05";
  spend_data =
      record {
        source_id = "s";
        category = SpendCategory.electricity;
        amount = 200000;
        origin = ocr;
      }
      ∷ [];
  activity_data =
      record {
        source_id = "a";
        category = electricity;
        value = 300000;
        unit = kwh;
        origin = manual;
        is_renewable = some true;
      }
      ∷ [];
  history = 0;
  data_source_kind = hybrid;
  source_summary = record {
    spend_record_count = 1;
    activity_record_count = 1;
    categories = "Electricity" ∷ [];
    origins = "manual" ∷ "ocr" ∷ [];
    overridden_categories = "Electricity" ∷ [];
  };
}

abbrev footprint : LcaResult ℕ
footprint = record {
  total_emissions = 10000;
  base_reduction = 5340;
  multiplier_applied = 10000;
  final_rewards = 5340;
  timestamp = 6000;
}

abbrev commitment : CommitmentPreimageV1 ℕ
commitment = record {
  period_key = some "2024-05";
  data_source_kind = hybrid;
  total_emissions_kg_co2e = 10000;
  base_reduction_kg_co2e = 5340;
  final_rewards = 5340;
  multiplier_applied = 10000;
  historical_baseline_kg_co2e = 0;
  source_summary = normalized.source_summary;
  timestamp = 6000;
}

abbrev profile : PublicProfileSnapshot
profile = record { display_alias = "me"; country_code = ""; avatar_uri = "" }

abbrev assessed : Assessment ℕ
assessed = record {
  submission = record {
    user_pubkey = "user";
    current_metadata_version = 0;
    public_profile = profile;
    total_emissions_kg_co2e = 0;
    total_reductions_kg_co2e = 0;
    pending_reward_lamports = pos 0;
    lca = request;
  };
  user = record { base58 = "user" };
  normalized = normalized;
  lca_result = footprint;
  commitment = commitment;
  commitment_hash = zeros;
  reward_delta_lamports = 801;
  metadata_version = 1;
  document = record {
    profile = profile;
    aggregate_state = record {
      total_emissions_kg_co2e = 10000;
      total_reductions_kg_co2e = 5340;
      pending_reward_lamports = pos 801;
      rank = forest;
      latest_period_key = some "2024-05";
    };
    latest_commitment = commitment;
  };
}

ingest_decrypted_payload_lem_example :
    IsIngested fixed_point env payload context "r" clock migrated []
      (ingest_decrypted_payload fixed_point env payload context "r" clock migrated [])
ingest_decrypted_payload_lem_example =
    ingest_decrypted_payload_lem fixed_point env payload context "r" clock migrated migrated-Inv []

abbrev a_hash : String
a_hash = "0000000000000000000000000000000000000000000000000000000000000000"

abbrev services : IngestionServices ℕ (List (String × String))
services = record {
  jwt_verify = accept_all;
  issuer = "i";
  audience = "a";
  decryption = record {
    private_decrypt = λ text. some [];
    decipher = λ key iv tag text. some "text";
    sha256_hex = λ text. a_hash;
    json_parse = λ text. some (some payload);
  };
  orchestration = some env;
}

abbrev ingest_request : String → IngestRequest
ingest_request authorization = record {
  authorization = some authorization;
  body = some (record {
    encrypted_session_key = "k";
    encrypted_payload = "p";
    iv = "v";
    auth_tag = "t";
    data_hash = a_hash;
  });
  request_id = "r";
  authenticated_at_ms = 10;
  clock = clock;
}

post_ingest-once_example :
    let later =
      run_calls [] (post_ingest fixed_point services (ingest_request "Bearer t") migrated []).1 in
    post_ingest fixed_point services (ingest_request "Bearer u") later []
    ≡ (error_response replayed_nonce, later, [])
unfolding find_nonce select_nonce find_where extract_bearer_token verify_bearer_token read_token
    split_space
post_ingest-once_example =
    post_ingest-once fixed_point services (ingest_request "Bearer t") (ingest_request "Bearer u")
      context context [] migrated [] [] refl refl refl refl

abbrev answered_result : FootprintIngestionResult ℕ
answered_result = record {
  subject = "user";
  nonce = "n";
  request_id = "r";
  total_emissions_kg_co2e = 10000;
  base_reduction_kg_co2e = 5340;
  final_rewards = 5340;
  multiplier_applied = 10000;
  data_source_kind = hybrid;
  categories = "Electricity" ∷ [];
  uri = "https://m/" +++ hex_text zeros +++ ".json";
  metadata_version = 1;
  jobs =
      record { id = 1; kind = submit_verified_footprint; status = pending }
      ∷ record { id = 2; kind = sync_sbt_state; status = pending }
      ∷ [];
}

-- The request is accepted, and both jobs wait.
request-IsAccepted :
    IsAccepted fixed_point services
      (post_ingest fixed_point services (ingest_request "Bearer t") migrated [])
      answered_result
      a_hash
unfolding IsAccepted post_ingest assess parse_submission average_of_entries day_bucket_start
    decode_emission_history decode_entries decode_entry derive_historical_data insert_entry
    sort_entries sum_grams derive_rank parse_user_pubkey utf16_length conclude to_grams to_big_grams
    build_commitment_payload activity_grams add_activities add_activity add_spends
    calculate_activity_emission calculate_dynamic_multiplier calculate_footprint clamp
    clear_emissions derive_data_source_kind emission_of floor_total overridden_spend_categories
    set_emission sum_emissions activity_entry_ok activity_name insert_text normalize_activity
    normalize_input normalize_spend origin_name request_ok set_add set_of sort_texts spend_entry_ok
    summarize spend_grams spend_index spend_name build_metadata_document load_protocol_config
    load_user_profile quote_reward_lamports drop exists_where le_value select_where take
    insert_nonce insert_oracle_job select_oracle_job_by_id enqueue_oracle_job reserve_nonce
    map_oracle_job normalize_oracle_job_input decipher_request decrypt_request encrypted_request_ok
    ingest_encrypted_payload open_request parse_encrypted_request respond
    normalize_queued_period_key parse_digits parse_period_digits reserve_context map_job_summary
    source_kind_name enqueue_jobs ingestion_result sync_job_input publish_metadata includes
    number_to_string authenticate_siws extract_bearer_token split_space verify_bearer_token
    read_token ingest_decrypted_payload hex_text find_where submit_job_input in_memory_storage
request-IsAccepted = refl

post_ingest-IsEarned_example :
    let auth = authenticate_siws accept_all "i" "a" (some "Bearer t") 10 migrated in
    (context : AuthContext) × (auth.0 ≡ ok context)
    × IsEarned fixed_point services
        (ingest_request "Bearer t")
        []
        answered_result
        a_hash
        context
        auth.1
post_ingest-IsEarned_example =
    post_ingest-IsEarned fixed_point services (ingest_request "Bearer t") [] answered_result a_hash
      migrated request-IsAccepted

decode_emission_history-create_daily_emission_history_example :
    (decode_emission_history (create_daily_emission_history 31 500 1700000000)
      ≡ ok (seeded_entries 31 (to_double 500) (day_bucket_start 1700000000)))
    × (500 ≤ 2 ^ 53 → to_double 500 ≡ 500)
decode_emission_history-create_daily_emission_history_example =
    decode_emission_history-create_daily_emission_history 31 500 1700000000 (omega arith)
      (omega arith) (omega arith)

derive_historical_data-create_daily_emission_history_example :
    derive_historical_data fixed_point
      (some (create_daily_emission_history 31 500 1700000000))
      1700000001
    ≡ ok (
        if ltb 31 30
        then 0
        else monthly_average fixed_point (added fixed_point 30 (to_double 500) 0))
unfolding day_bucket_start
derive_historical_data-create_daily_emission_history_example =
    derive_historical_data-create_daily_emission_history fixed_point 31 500 1700000000 1700000001
      (omega arith) (omega arith) (omega arith) refl
