-- ===== src/Ingestion/Submission/Service.antt =====
-- backend/src/modules/ingestion/footprint-orchestration.ts: `ingestDecryptedPayload`, in the order of the
-- source. `Number` of a bigint is the nearest double.
use personal_carbon_footprin.Prelude.{
  ℕ, suc, ℤ, pos, ◌/◌, String, ◌+++◌, Option, none, some, List, [], ◌∷◌, if◌then◌else◌, ◌&&◌, not,
  leb, str_eq, codes, or_else, hex_text, number_to_string, to_double, Outcome, ◌>>=◌, ok, throw,
  error,
}
use personal_carbon_footprin.Lca.Numbers.{Numbers, finite_nonnegative}
use personal_carbon_footprin.Lca.Orchestrator.{LcaResult, calculate_footprint}
use personal_carbon_footprin.Lca.Request.{NormalizedLcaInput, normalize_input}
use personal_carbon_footprin.Lca.Commitment.{CommitmentPreimageV1, build_commitment_payload}
use personal_carbon_footprin.Jobs.Payloads.{PublicKey}
use personal_carbon_footprin.Oracle.Client.{
  load_protocol_config, load_user_profile, find_user_profile_pda, quote_reward_lamports,
}
use personal_carbon_footprin.Storage.{
  OracleJobInput, OracleJobRecord, submit_verified_footprint, sync_sbt_state,
}
use personal_carbon_footprin.Db.Tables.{Db}
use personal_carbon_footprin.Db.Store.{enqueue_oracle_job}
use personal_carbon_footprin.Metadata.{
  MetadataDocumentV1, PublishMetadataResult, build_metadata_document, publish_metadata,
}
use personal_carbon_footprin.Ingestion.AuthService.{AuthContext}
use personal_carbon_footprin.Ingestion.History.{derive_historical_data}
use personal_carbon_footprin.Ingestion.Orchestration.{derive_rank, normalize_queued_period_key}
use personal_carbon_footprin.Ingestion.Submission.{
  AggregateStateHint, DecryptedPayload, DecryptedFootprintSubmission, FootprintIngestionResult,
  Clock, Environment, invalid_decrypted_payload, parse_user_pubkey, map_job_summary,
  source_kind_name, as_of_timestamp, emission_history_of, add_lamports, utf16_length,
}

-- What is known before the metadata is published.
pub record Assessment (N : Type 0) : Type 0 where
  pub submission : DecryptedFootprintSubmission N
  pub user : PublicKey
  pub normalized : NormalizedLcaInput N
  pub lca_result : LcaResult N
  pub commitment : CommitmentPreimageV1 N
  pub commitment_hash : List ℕ
  pub reward_delta_lamports : ℕ
  pub metadata_version : ℕ
  pub document : MetadataDocumentV1 N

module _ {N S : Type 0} (ops : Numbers N) (env : Environment N S) where
  -- `aggregateStateHintSchema`, with its defaults.
  abbrev hint_total : (AggregateStateHint N → Option N) → Option (AggregateStateHint N) → N
  hint_total total none = ops.literal 0 0
  hint_total total (some hint) = or_else (total hint) (ops.literal 0 0)

  abbrev hint_lamports : Option (AggregateStateHint N) → ℤ
  hint_lamports none = pos 0
  hint_lamports (some hint) = or_else hint.pending_reward_lamports (pos 0)

  -- `decryptedFootprintSubmissionSchema`; it takes any value for `lca`.
  unfoldable pub parse_submission : DecryptedPayload N → Outcome (DecryptedFootprintSubmission N)
  parse_submission p =
      let emissions = hint_total (λ h. h.total_emissions_kg_co2e) p.aggregate_state_hint in
      let reductions = hint_total (λ h. h.total_reductions_kg_co2e) p.aggregate_state_hint in
      if not (str_eq p.user_pubkey "")
        && not (str_eq p.display_alias "")
        && leb (utf16_length (codes (or_else p.country_code ""))) 2
        && finite_nonnegative ops emissions
        && finite_nonnegative ops reductions
      then ok (record {
        user_pubkey = p.user_pubkey;
        current_metadata_version = or_else p.current_metadata_version 0;
        public_profile = record {
          display_alias = p.display_alias;
          country_code = or_else p.country_code "";
          avatar_uri = or_else p.avatar_uri "";
        };
        total_emissions_kg_co2e = emissions;
        total_reductions_kg_co2e = reductions;
        pending_reward_lamports = hint_lamports p.aggregate_state_hint;
        lca = p.lca;
      })
      else throw invalid_decrypted_payload

  -- `Math.round(value * 1000)`.
  unfoldable pub to_grams : N → ℕ
  to_grams value_in_kg = ops.round (ops.mul value_in_kg (ops.literal 1000 0))

  -- `BigInt(Math.round(value * 1000))`, which throws a RangeError unless that is finite.
  unfoldable pub to_big_grams : N → Outcome ℕ
  to_big_grams value_in_kg =
      let grams = ops.mul value_in_kg (ops.literal 1000 0) in
      let shown = if ops.le grams grams then "Infinity" else "NaN" in
      if ops.is_finite grams
      then ok (to_grams value_in_kg)
      else throw (
          error (
            ("The number " +++ shown)
            +++ " cannot be converted to a BigInt because it is not an integer"))

  abbrev pub hash_commitment_preimage : CommitmentPreimageV1 N → List ℕ
  hash_commitment_preimage commitment = env.sha256 (env.stringify_commitment commitment)

  -- What is made of the calculation's result and the configuration.
  unfoldable pub conclude :
      DecryptedFootprintSubmission N
      → PublicKey
      → NormalizedLcaInput N
      → LcaResult N
      → (history : N) → Outcome (Assessment N)
  conclude submission user normalized result history = do
    let commitment = build_commitment_payload result (record normalized { history = history })
    config ← load_protocol_config env.transport
    grams ← to_big_grams result.base_reduction
    let reward = quote_reward_lamports config.reward_policy grams
    let reductions = ops.add submission.total_reductions_kg_co2e result.base_reduction
    total_grams ← to_big_grams reductions
    ok (record {
      submission = submission;
      user = user;
      normalized = normalized;
      lca_result = result;
      commitment = commitment;
      commitment_hash = hash_commitment_preimage commitment;
      reward_delta_lamports = reward;
      metadata_version = suc submission.current_metadata_version;
      document =
          build_metadata_document submission.public_profile
            (record {
              total_emissions_kg_co2e =
                  ops.add submission.total_emissions_kg_co2e result.total_emissions;
              total_reductions_kg_co2e = reductions;
              pending_reward_lamports = add_lamports submission.pending_reward_lamports reward;
              rank = derive_rank total_grams config.rank_thresholds;
              latest_period_key = normalized.period_key;
            })
            commitment;
    })

  -- The handler up to the publication.
  unfoldable pub assess : DecryptedPayload N → Clock → Outcome (Assessment N)
  assess payload clock = do
    submission ← parse_submission payload
    user ← parse_user_pubkey env.new_public_key submission.user_pubkey
    normalized ← normalize_input ops env.zod_message submission.lca
    profile ← load_user_profile env.transport user
    history ←
        derive_historical_data ops (emission_history_of profile)
          (as_of_timestamp (clock.at_history_ms / 1000) profile)
    let result =
        calculate_footprint ops normalized.spend_data normalized.activity_data history
          clock.at_calculation_ms
    conclude submission user normalized result history

  unfoldable pub submit_job_input : Assessment N → (period_key now_ms : ℕ) → OracleJobInput
  submit_job_input a period_key now_ms = record {
    kind = submit_verified_footprint;
    idempotency_key =
        (((a.submission.user_pubkey +++ ":") +++ or_else a.normalized.period_key "no-period")
          +++ ":")
        +++ hex_text a.commitment_hash;
    user_pubkey = some a.submission.user_pubkey;
    user_profile_pubkey = some (find_user_profile_pda env.transport a.user).base58;
    period_key = some period_key;
    commitment_hash = some (hex_text a.commitment_hash);
    metadata_uri_hash = none;
    metadata_version = none;
    source_kind = some (source_kind_name a.commitment.data_source_kind);
    emission_delta_grams = some (to_grams a.lca_result.total_emissions);
    reduction_delta_grams = some (to_grams a.lca_result.base_reduction);
    reward_delta_lamports = some (to_double a.reward_delta_lamports);
    amount_lamports = none;
    run_after_ms = now_ms;
    created_at_ms = now_ms;
  }

  unfoldable pub sync_job_input :
      Assessment N → PublishMetadataResult → (now_ms : ℕ) → OracleJobInput
  sync_job_input a metadata now_ms = record {
    kind = sync_sbt_state;
    idempotency_key =
        (((a.submission.user_pubkey +++ ":metadata:") +++ number_to_string a.metadata_version)
          +++ ":")
        +++ hex_text metadata.metadata_uri_hash;
    user_pubkey = some a.submission.user_pubkey;
    user_profile_pubkey = some (find_user_profile_pda env.transport a.user).base58;
    period_key = none;
    commitment_hash = none;
    metadata_uri_hash = some (hex_text metadata.metadata_uri_hash);
    metadata_version = some a.metadata_version;
    source_kind = none;
    emission_delta_grams = none;
    reduction_delta_grams = none;
    reward_delta_lamports = none;
    amount_lamports = none;
    run_after_ms = now_ms;
    created_at_ms = now_ms;
  }

  abbrev pub TwoJobs : Type 0
  TwoJobs = OracleJobRecord × OracleJobRecord

  abbrev pub both_jobs : OracleJobRecord → Outcome OracleJobRecord × Db → Outcome TwoJobs × Db
  both_jobs submitted (throw e, db) = (throw e, db)
  both_jobs submitted (ok synced, db) = (ok (submitted, synced), db)

  abbrev pub then_sync : OracleJobInput → Outcome OracleJobRecord × Db → Outcome TwoJobs × Db
  then_sync sync (throw e, db) = (throw e, db)
  then_sync sync (ok submitted, db) = both_jobs submitted (enqueue_oracle_job sync db)

  -- The two calls of the store, and the period key's check before them.
  unfoldable pub enqueue_jobs :
      Assessment N → PublishMetadataResult → (now_ms : ℕ) → Db → Outcome TwoJobs × Db
  enqueue_jobs a metadata now_ms db = elim (normalize_queued_period_key a.normalized.period_key) [
    | throw e ↦ (throw e, db)
    | ok period_key ↦
        then_sync (sync_job_input a metadata now_ms)
          (enqueue_oracle_job (submit_job_input a period_key now_ms) db)
  ]

  unfoldable pub ingestion_result :
      AuthContext
      → (request_id : String) → Assessment N
      → PublishMetadataResult
      → TwoJobs
      → FootprintIngestionResult N
  ingestion_result context request_id a metadata (submitted, synced) = record {
    subject = context.subject;
    nonce = context.nonce;
    request_id = request_id;
    total_emissions_kg_co2e = a.lca_result.total_emissions;
    base_reduction_kg_co2e = a.lca_result.base_reduction;
    final_rewards = a.lca_result.final_rewards;
    multiplier_applied = a.lca_result.multiplier_applied;
    data_source_kind = a.commitment.data_source_kind;
    categories = a.normalized.source_summary.categories;
    uri = metadata.uri;
    metadata_version = metadata.metadata_version;
    jobs = map_job_summary submitted ∷ map_job_summary synced ∷ [];
  }

  -- The handler's answer, and the store and the metadata storage after it.
  abbrev pub Ingestion : Type 0
  Ingestion = Outcome (FootprintIngestionResult N) × Db × S

  abbrev pub answer :
      AuthContext
      → String
      → Assessment N
      → PublishMetadataResult
      → S
      → Outcome TwoJobs × Db
      → Ingestion
  answer context request_id a metadata storage (jobs, db) =
      ((do both ← jobs; ok (ingestion_result context request_id a metadata both)), db, storage)

  abbrev pub after_publishing :
      AuthContext
      → String
      → Assessment N
      → (now_ms : ℕ) → Db
      → Outcome PublishMetadataResult × S
      → Ingestion
  after_publishing context request_id a now_ms db (throw e, storage) = (throw e, db, storage)
  after_publishing context request_id a now_ms db (ok metadata, storage) =
      answer context request_id a metadata storage (enqueue_jobs a metadata now_ms db)

  abbrev pub after_assessing :
      AuthContext → String → Clock → Db → S → Outcome (Assessment N) → Ingestion
  after_assessing context request_id clock db storage (throw e) = (throw e, db, storage)
  after_assessing context request_id clock db storage (ok a) =
      after_publishing context request_id a clock.at_enqueueing_ms db (
        publish_metadata env.provider env.stringify env.sha256 a.document a.metadata_version
          storage)

  unfoldable pub ingest_decrypted_payload :
      DecryptedPayload N → AuthContext → (request_id : String) → Clock → Db → S → Ingestion
  ingest_decrypted_payload payload context request_id clock db storage =
      after_assessing context request_id clock db storage (assess payload clock)
