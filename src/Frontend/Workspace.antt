-- ===== src/Frontend/Workspace.antt =====
-- frontend/src/features/input/smart-input-model.ts: the entries, rows and artifacts of the input page.
pub mod LocalIds
pub mod Requests
pub mod Transport
use personal_carbon_footprin.Prelude.{
  ℕ, suc, String, ◌+++◌, Option, none, some, Bool, not, List, [], ◌∷◌, ◌++◌, length, or_else,
  str_eq, number_to_string, select_where, update_where,
}
use personal_carbon_footprin.Lca.Kinds.{ActivityCategory, ActivityUnit, InputOrigin, manual, ocr}
use personal_carbon_footprin.Lca.Numbers.{Numbers}
use personal_carbon_footprin.Lca.Request.{ActivityEntry}
use personal_carbon_footprin.Frontend.Ocr.{OcrReviewCandidate}

pub data UploadKind : Type 0 where
  receipt card_screenshot : UploadKind

pub data LocalIdPrefix : Type 0 where
  activity : LocalIdPrefix
  upload : UploadKind → LocalIdPrefix
  review_spend : LocalIdPrefix

pub record UploadedSourceArtifact : Type 0 where
  pub artifact_id : String
  pub kind : UploadKind
  pub file_name : String
  pub mime_type : String

-- The category is a text that is taken for one of the spend categories without a check.
pub record ReviewRow (N : Type 0) : Type 0 where
  pub row_id : String
  pub artifact_id : String
  pub source_kind : UploadKind
  pub label : String
  pub confidence : N
  pub category : String
  pub amount : N
  pub proof_hash : String

pub record RawOcrArtifact : Type 0 where
  pub artifact_id : String
  pub raw_text : String

pub record IdCounters : Type 0 where
  pub activity_count : ℕ
  pub receipt_count : ℕ
  pub card_screenshot_count : ℕ
  pub review_spend_count : ℕ

pub record InputWorkspaceState (N : Type 0) : Type 0 where
  pub activity_entries : List (ActivityEntry N)
  pub review_rows : List (ReviewRow N)
  pub uploaded_artifacts : List UploadedSourceArtifact
  pub raw_ocr_artifacts : List RawOcrArtifact
  pub id_counters : IdCounters

-- frontend/src/lib/domain/contracts.ts: the entries of a request, where a category is a text.
pub record SpendEntry (N : Type 0) : Type 0 where
  pub spend_id : String
  pub category : String
  pub amount : N
  pub source : Option InputOrigin
  pub proof_hash : Option String

pub record RawLcaRequest (N : Type 0) : Type 0 where
  pub period_key : Option String
  pub spend_entries : List (SpendEntry N)
  pub activity_entries : List (ActivityEntry N)
  pub history : N

abbrev pub prefix_name : LocalIdPrefix → String
prefix_name activity = "activity"
prefix_name (upload receipt) = "receipt"
prefix_name (upload card_screenshot) = "card-screenshot"
prefix_name review_spend = "review-spend"

abbrev pub counter_of : LocalIdPrefix → IdCounters → ℕ
counter_of activity c = c.activity_count
counter_of (upload receipt) c = c.receipt_count
counter_of (upload card_screenshot) c = c.card_screenshot_count
counter_of review_spend c = c.review_spend_count

abbrev pub set_counter : LocalIdPrefix → ℕ → IdCounters → IdCounters
set_counter activity n c = record c { activity_count = n }
set_counter (upload receipt) n c = record c { receipt_count = n }
set_counter (upload card_screenshot) n c = record c { card_screenshot_count = n }
set_counter review_spend n c = record c { review_spend_count = n }

abbrev pub local_id : LocalIdPrefix → ℕ → String
local_id prefix n = (prefix_name prefix +++ "-") +++ number_to_string n

unfoldable pub create_scoped_local_id : IdCounters → LocalIdPrefix → String × IdCounters
create_scoped_local_id counters prefix =
    let next_value = suc (counter_of prefix counters) in
    (local_id prefix next_value, set_counter prefix next_value counters)

unfoldable pub create_input_workspace_state : {N : Type 0} → InputWorkspaceState N
create_input_workspace_state = record {
  activity_entries = [];
  review_rows = [];
  uploaded_artifacts = [];
  raw_ocr_artifacts = [];
  id_counters = record {
    activity_count = 0;
    receipt_count = 0;
    card_screenshot_count = 0;
    review_spend_count = 0;
  };
}

module _ {N : Type 0} where
  unfoldable pub add_activity_entry :
      InputWorkspaceState N
      → ActivityCategory
      → N
      → ActivityUnit
      → (is_renewable : Option Bool) → InputWorkspaceState N
  add_activity_entry state category value unit is_renewable =
      let (id, counters) = create_scoped_local_id state.id_counters activity in
      record state {
        activity_entries =
            state.activity_entries
            ++ record {
              activity_id = id;
              category = category;
              value = value;
              unit = unit;
              source = some manual;
              is_renewable = is_renewable;
              proof_hash = none;
            }
              ∷ [];
        id_counters = counters;
      }

  unfoldable pub register_uploaded_artifact :
      InputWorkspaceState N
      → UploadKind
      → (file_name mime_type : String) → InputWorkspaceState N × UploadedSourceArtifact
  register_uploaded_artifact state kind file_name mime_type =
      let (id, counters) = create_scoped_local_id state.id_counters (upload kind) in
      let artifact : UploadedSourceArtifact = record {
        artifact_id = id;
        kind = kind;
        file_name = file_name;
        mime_type = mime_type;
      } in
      (
        record state {
          uploaded_artifacts = state.uploaded_artifacts ++ artifact ∷ [];
          id_counters = counters;
        },
        artifact,
      )

  unfoldable pub update_review_row :
      InputWorkspaceState N
      → (row_id : String) → (label : Option String) → (confidence : Option N)
      → (category : Option String) → (amount : Option N) → InputWorkspaceState N
  update_review_row state row_id label confidence category amount = record state {
    review_rows =
        update_where (λ r. str_eq r.row_id row_id)
          (λ r. record r {
            label = or_else label r.label;
            confidence = or_else confidence r.confidence;
            category = or_else category r.category;
            amount = or_else amount r.amount;
          })
          state.review_rows;
  }

  unfoldable pub remove_review_row :
      InputWorkspaceState N → (row_id : String) → InputWorkspaceState N
  remove_review_row state row_id = record state {
    review_rows = select_where (λ r. not (str_eq r.row_id row_id)) state.review_rows;
  }

module _ {N : Type 0} (ops : Numbers N) where
  abbrev pub proposed_number : OcrReviewCandidate N → N
  proposed_number c = or_else c.proposed_amount (or_else c.proposed_value (ops.literal 0 0))

  unfoldable pub candidate_to_review_row :
      OcrReviewCandidate N → UploadedSourceArtifact → (row_id : String) → ReviewRow N
  candidate_to_review_row candidate artifact row_id = record {
    row_id = row_id;
    artifact_id = artifact.artifact_id;
    source_kind = artifact.kind;
    label = candidate.label;
    confidence = candidate.confidence;
    category = or_else candidate.proposed_category "Vegetables";
    amount = proposed_number candidate;
    proof_hash = "local-proof:" +++ artifact.artifact_id;
  }

  -- `input.candidates.map(…)`, which counts as it goes.
  unfoldable pub review_rows_of :
      UploadedSourceArtifact
      → List (OcrReviewCandidate N)
      → IdCounters
      → List (ReviewRow N) × IdCounters
  review_rows_of artifact [] counters = ([], counters)
  review_rows_of artifact (candidate ∷ candidates) counters =
      let (id, next) = create_scoped_local_id counters review_spend in
      let (rows, last) = review_rows_of artifact candidates next in
      (candidate_to_review_row candidate artifact id ∷ rows, last)

  unfoldable pub attach_ocr_review_rows :
      InputWorkspaceState N
      → UploadedSourceArtifact
      → (raw_text : String) → List (OcrReviewCandidate N)
      → InputWorkspaceState N
  attach_ocr_review_rows state artifact raw_text candidates =
      let (rows, counters) = review_rows_of artifact candidates state.id_counters in
      record state {
        review_rows =
            select_where (λ r. not (str_eq r.artifact_id artifact.artifact_id)) state.review_rows
            ++ rows;
        raw_ocr_artifacts =
            select_where (λ a. not (str_eq a.artifact_id artifact.artifact_id))
              state.raw_ocr_artifacts
            ++ record { artifact_id = artifact.artifact_id; raw_text = raw_text } ∷ [];
        id_counters = counters;
      }

  unfoldable pub spend_entries_of : List (ReviewRow N) → List (SpendEntry N)
  spend_entries_of [] = []
  spend_entries_of (row ∷ rows) =
      record {
        spend_id = row.row_id;
        category = row.category;
        amount = row.amount;
        source = some ocr;
        proof_hash = some row.proof_hash;
      }
      ∷ spend_entries_of rows

  unfoldable pub build_raw_lca_request_from_workspace : InputWorkspaceState N → RawLcaRequest N
  build_raw_lca_request_from_workspace state = record {
    period_key = none;
    spend_entries = spend_entries_of state.review_rows;
    activity_entries = state.activity_entries;
    history = ops.literal 0 0;
  }

  pub record WorkspaceSummary : Type 0 where
    pub activity_entry_count : ℕ
    pub spend_entry_count : ℕ
    pub uploaded_artifact_count : ℕ
    pub review_row_count : ℕ
    pub low_confidence_count : ℕ

  unfoldable pub summarize_workspace : InputWorkspaceState N → WorkspaceSummary
  summarize_workspace state = record {
    activity_entry_count = length state.activity_entries;
    spend_entry_count = length state.review_rows;
    uploaded_artifact_count = length state.uploaded_artifacts;
    review_row_count = length state.review_rows;
    low_confidence_count =
        length (select_where (λ r. ops.lt r.confidence (ops.literal 7 1)) state.review_rows);
  }
