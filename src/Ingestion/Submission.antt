-- ===== src/Ingestion/Submission.antt =====
-- backend/src/modules/ingestion/footprint-orchestration.ts: `FootprintOrchestrationService`. The
-- program's own services are called as they are modelled; what the packages do is in `Environment`.
pub mod Service
pub mod Enqueued
pub mod Submitted
use personal_carbon_footprin.Prelude.{
  ℕ, suc, ℤ, pos, negsuc, minus, ◌+◌, max, String, Option, none, some, List, [], ◌∷◌, if◌then◌else◌,
  not, ltb, Outcome, ok, throw, JsError, app_error,
}
use personal_carbon_footprin.Lca.Kinds.{CanonicalDataSourceKind, spend, activity, hybrid}
use personal_carbon_footprin.Lca.Request.{RawLcaRequest}
use personal_carbon_footprin.Lca.Commitment.{CommitmentPreimageV1}
use personal_carbon_footprin.Jobs.Payloads.{PublicKey, NewPublicKey}
use personal_carbon_footprin.Oracle.Client.{UserProfileSnapshot, ProgramTransport}
use personal_carbon_footprin.Storage.{OracleJobKind, OracleJobStatus, OracleJobRecord}
use personal_carbon_footprin.Metadata.{
  PublicProfileSnapshot, MetadataDocumentV1, MetadataStorageProvider,
}

-- A payload of the schema's shape with what is coerced already a number; a field with a default is
-- an `Option`. A payload of another shape is refused as one that fails a check.
pub record AggregateStateHint (N : Type 0) : Type 0 where
  pub total_emissions_kg_co2e : Option N
  pub total_reductions_kg_co2e : Option N
  pub pending_reward_lamports : Option ℤ

pub record DecryptedPayload (N : Type 0) : Type 0 where
  pub user_pubkey : String
  pub current_metadata_version : Option ℕ
  pub display_alias : String
  pub country_code : Option String
  pub avatar_uri : Option String
  pub aggregate_state_hint : Option (AggregateStateHint N)
  pub lca : RawLcaRequest N

-- `DecryptedFootprintSubmission`, with the defaults in place.
pub record DecryptedFootprintSubmission (N : Type 0) : Type 0 where
  pub user_pubkey : String
  pub current_metadata_version : ℕ
  pub public_profile : PublicProfileSnapshot
  pub total_emissions_kg_co2e : N
  pub total_reductions_kg_co2e : N
  pub pending_reward_lamports : ℤ
  pub lca : RawLcaRequest N

pub record JobSummary : Type 0 where
  pub id : ℕ
  pub kind : OracleJobKind
  pub status : OracleJobStatus

pub record FootprintIngestionResult (N : Type 0) : Type 0 where
  pub subject : String
  pub nonce : String
  pub request_id : String
  pub total_emissions_kg_co2e : N
  pub base_reduction_kg_co2e : N
  pub final_rewards : N
  pub multiplier_applied : N
  pub data_source_kind : CanonicalDataSourceKind
  pub categories : List String
  pub uri : String
  pub metadata_version : ℕ
  pub jobs : List JobSummary

-- The length that JavaScript gives: a code point above 65535 counts twice.
unfoldable pub utf16_length : List ℕ → ℕ
utf16_length [] = 0
utf16_length (c ∷ text) = (if ltb c 65536 then 1 else 2) + utf16_length text

abbrev pub invalid_decrypted_payload : JsError
invalid_decrypted_payload =
    app_error "invalid_decrypted_payload" 400
      "Decrypted payload does not match the ingestion contract."

abbrev pub invalid_user_pubkey : JsError
invalid_user_pubkey =
    app_error "invalid_user_pubkey" 400 "Decrypted payload user pubkey is invalid."

unfoldable pub parse_user_pubkey : NewPublicKey → String → Outcome PublicKey
parse_user_pubkey new_public_key value = elim (new_public_key value) [
  | none ↦ throw invalid_user_pubkey
  | some key ↦ ok key
]

unfoldable pub map_job_summary : OracleJobRecord → JobSummary
map_job_summary job = record { id = job.id; kind = job.kind; status = job.status }

unfoldable pub source_kind_name : CanonicalDataSourceKind → String
source_kind_name spend = "spend"
source_kind_name activity = "activity"
source_kind_name hybrid = "hybrid"

-- `Math.max(seconds, lastVerifiedAt ?? 0)`.
abbrev pub as_of_timestamp : ℕ → Option UserProfileSnapshot → ℕ
as_of_timestamp seconds none = seconds
as_of_timestamp seconds (some profile) = elim profile.last_verified_at [
  | pos t ↦ max seconds t
  | negsuc t ↦ seconds
]

abbrev pub emission_history_of : Option UserProfileSnapshot → Option (List ℕ)
emission_history_of none = none
emission_history_of (some profile) = some profile.emission_history

-- A sum of bigints, of which the second is not negative.
abbrev pub add_lamports : ℤ → ℕ → ℤ
add_lamports (pos a) b = pos (a + b)
add_lamports (negsuc a) b = minus b (suc a)

-- The readings of the clock, in the order in which they are taken.
pub record Clock : Type 0 where
  pub at_history_ms : ℕ
  pub at_calculation_ms : ℕ
  pub at_enqueueing_ms : ℕ

-- What the service is built with, and the packages.
pub record Environment (N S : Type 0) : Type 0 where
  pub new_public_key : NewPublicKey
  pub transport : ProgramTransport
  pub provider : MetadataStorageProvider S
  pub stringify : MetadataDocumentV1 N → String
  pub stringify_commitment : CommitmentPreimageV1 N → String
  pub sha256 : String → List ℕ
  pub zod_message : String
