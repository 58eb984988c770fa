-- ===== src/Frontend/Flow.antt =====
-- frontend/src/lib/domain/state.ts: the state of a submission, the snapshot that is stored of it, and the
-- dashboard. The reviewed submission, of type `D`, is not looked into.
pub mod Stages
pub mod Stored
pub mod Shapes
pub mod Snapshots
pub mod Dashboard
use personal_carbon_footprin.Prelude.{
  ℕ, ℤ, pos, String, ◌+++◌, Option, none, some, Bool, false, List, [], ◌∷◌, if◌then◌else◌, ◌&&◌,
  not, ◌==◌, or_else, str_eq,
}
use personal_carbon_footprin.Lca.Numbers.{Numbers}
use personal_carbon_footprin.Metadata.{PublicProfileSnapshot, set_object}
use personal_carbon_footprin.Ingestion.Orchestration.{Rank}
use personal_carbon_footprin.Ingestion.Submission.{FootprintIngestionResult}

pub data SubmissionStage : Type 0 where
  draft review submitting verified failed : SubmissionStage

pub data FeedbackTone : Type 0 where
  bonus neutral penalty : FeedbackTone

pub record UploadedArtifact : Type 0 where
  pub artifact_id : String
  pub file_name : String
  pub mime_type : String

pub record OcrArtifact : Type 0 where
  pub artifact_id : String
  pub raw_text : String

pub record TransientPrivateInputState : Type 0 where
  pub uploaded_artifacts : List UploadedArtifact
  pub raw_ocr_artifacts : List OcrArtifact

pub record VerifiedSubmissionSnapshot (N : Type 0) : Type 0 where
  pub request_id : String
  pub data_hash : String
  pub metadata_uri : String
  pub metadata_version : ℕ
  pub total_emissions_kg_co2e : N
  pub base_reduction_kg_co2e : N
  pub final_rewards : N
  pub multiplier_applied : N
  pub categories : List String
  pub submitted_at_iso : String

pub record SubmissionFlowState (N D : Type 0) : Type 0 where
  pub stage : SubmissionStage
  pub reviewed_submission : Option D
  pub transient_private_state : TransientPrivateInputState
  pub verified_snapshot : Option (VerifiedSubmissionSnapshot N)
  pub last_error : Option String

abbrev pub no_private_state : TransientPrivateInputState
no_private_state = record { uploaded_artifacts = []; raw_ocr_artifacts = [] }

-- The snapshot of a result, which comes with the hash of what was sent.
abbrev pub snapshot_of :
    {N : Type 0}
    → FootprintIngestionResult N
    → (data_hash submitted_at_iso : String) → VerifiedSubmissionSnapshot N
snapshot_of result data_hash submitted_at_iso = record {
  request_id = result.request_id;
  data_hash = data_hash;
  metadata_uri = result.uri;
  metadata_version = result.metadata_version;
  total_emissions_kg_co2e = result.total_emissions_kg_co2e;
  base_reduction_kg_co2e = result.base_reduction_kg_co2e;
  final_rewards = result.final_rewards;
  multiplier_applied = result.multiplier_applied;
  categories = result.categories;
  submitted_at_iso = submitted_at_iso;
}

unfoldable pub create_initial_submission_flow_state : {N D : Type 0} → SubmissionFlowState N D
create_initial_submission_flow_state = record {
  stage = draft;
  reviewed_submission = none;
  transient_private_state = no_private_state;
  verified_snapshot = none;
  last_error = none;
}

module _ {N D : Type 0} where
  unfoldable pub with_reviewed_submission : SubmissionFlowState N D → D → SubmissionFlowState N D
  with_reviewed_submission state submission = record state {
    stage = review;
    reviewed_submission = some submission;
  }

  unfoldable pub with_private_artifacts :
      SubmissionFlowState N D
      → (uploaded : Option (List UploadedArtifact)) → (raw : Option (List OcrArtifact))
      → SubmissionFlowState N D
  with_private_artifacts state uploaded raw = record state {
    transient_private_state = record {
      uploaded_artifacts = or_else uploaded state.transient_private_state.uploaded_artifacts;
      raw_ocr_artifacts = or_else raw state.transient_private_state.raw_ocr_artifacts;
    };
  }

  unfoldable pub mark_submission_started : SubmissionFlowState N D → SubmissionFlowState N D
  mark_submission_started state = record state { stage = submitting; last_error = none }

  unfoldable pub mark_submission_succeeded :
      SubmissionFlowState N D
      → FootprintIngestionResult N
      → (data_hash submitted_at_iso : String) → SubmissionFlowState N D
  mark_submission_succeeded state result data_hash submitted_at_iso = record {
    stage = verified;
    reviewed_submission = state.reviewed_submission;
    transient_private_state = no_private_state;
    verified_snapshot = some (snapshot_of result data_hash submitted_at_iso);
    last_error = none;
  }

  unfoldable pub mark_submission_failed : SubmissionFlowState N D → String → SubmissionFlowState N D
  mark_submission_failed state message = record state { stage = failed; last_error = some message }

unfoldable pub derive_feedback_tone : {N : Type 0} → Numbers N → N → FeedbackTone
derive_feedback_tone ops multiplier =
    if ops.lt (ops.literal 1 0) multiplier
    then bonus
    else if ops.lt multiplier (ops.literal 1 0)
    then penalty
    else neutral

-- `window.localStorage`: a key is there once.
abbrev pub LocalStorage : Type 0
LocalStorage = List (String × String)

unfoldable pub get_item : (key : String) → LocalStorage → Option String
get_item key [] = none
get_item key ((other, value) ∷ items) = if str_eq other key then some value else get_item key items

abbrev pub create_verified_snapshot_storage_key : String → String
create_verified_snapshot_storage_key wallet_address =
    "green-reputation:verified-snapshot:" +++ wallet_address

-- A day of the local calendar.
pub record LocalDay : Type 0 where
  pub year : ℕ
  pub month : ℕ
  pub date : ℕ

-- `day_of` reads a date, `none` if it is invalid.
unfoldable pub has_submitted_today :
    {N : Type 0}
    → (day_of : String → Option LocalDay) → Option (VerifiedSubmissionSnapshot N)
    → (now : LocalDay) → Bool
has_submitted_today day_of none now = false
has_submitted_today day_of (some snapshot) now = elim (day_of snapshot.submitted_at_iso) [
  | none ↦ false
  | some day ↦ day.year == now.year && day.month == now.month && day.date == now.date
]

-- frontend/src/lib/domain/adapters.ts.
pub record WalletProfileSnapshot (N : Type 0) : Type 0 where
  pub wallet_address : String
  pub profile_address : Option String
  pub public_profile : Option PublicProfileSnapshot
  pub rank : Option Rank
  pub metadata_version : Option ℕ
  pub total_emissions_kg_co2e : Option N
  pub total_reductions_kg_co2e : Option N
  pub pending_reward_lamports : Option ℤ
  pub is_registered : Bool
  pub has_minted_sbt : Bool

abbrev pub is_positive : ℤ → Bool
is_positive (pos n) = not (n == 0)
is_positive _ = false

unfoldable pub can_claim_reward : {N : Type 0} → WalletProfileSnapshot N → Bool
can_claim_reward snapshot = is_positive (or_else snapshot.pending_reward_lamports (pos 0))
