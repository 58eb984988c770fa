-- ===== src/Examples/Frontend.antt =====
-- The theorems on the web client, on a page with a receipt.
use personal_carbon_footprin.Prelude.{
  ℕ, String, Option, ◌+++◌, if◌then◌else◌, none, some, false, List, [], ◌∷◌, map, ◌≡◌, ◌≢◌, refl,
  ◌&&◌, ◌||◌, not, str_eq, str_eq_iff, arith,
}
use personal_carbon_footprin.Examples.FixedPoint.{fixed_point, fixed_point-laws}
use personal_carbon_footprin.Lca.Kinds.{electricity, kwh}
use personal_carbon_footprin.Frontend.Lines.{lower_line}
use personal_carbon_footprin.Frontend.Ocr.{mentions, line_candidate, normalize_ocr_candidates}
use personal_carbon_footprin.Frontend.Workspace.{
  receipt, UploadedSourceArtifact, create_input_workspace_state, candidate_to_review_row,
  build_raw_lca_request_from_workspace,
}
use personal_carbon_footprin.Frontend.Workspace.LocalIds.{
  Action, add, register, attach, update, remove, run_actions, Distinct,
  build_raw_lca_request-Distinct,
}
use personal_carbon_footprin.Frontend.Workspace.Requests.{
  is_spend_category, all_where, row_ok, value_ok, request_ok, request_ok-build_raw_lca_request,
}
use personal_carbon_footprin.Frontend.Workspace.Transport.{is_spend_category-line_candidate}
use personal_carbon_footprin.Frontend.Flow.{
  SubmissionFlowState, VerifiedSubmissionSnapshot, create_initial_submission_flow_state,
  mark_submission_started, mark_submission_failed,
}
use personal_carbon_footprin.Frontend.Flow.Stored.{
  Json, JsonCodec, object, field, no_fields, text, number, get_field, snapshot_fields,
  is_verified_submission_snapshot, read_stored_verified_snapshot, persist_verified_snapshot,
}
use personal_carbon_footprin.Frontend.Flow.Stages.{
  initial, next, started, failed_with, IsPromised, Reachable-IsPromised,
}
use personal_carbon_footprin.Frontend.Flow.Shapes.{IsSnapshot}
use personal_carbon_footprin.Frontend.Flow.Snapshots.{read_stored_verified_snapshot-persist}

abbrev artifact : UploadedSourceArtifact
artifact = record {
  artifact_id = "receipt-1";
  kind = receipt;
  file_name = "r.png";
  mime_type = "image/png";
}

abbrev actions : List (Action fixed_point)
actions =
    register receipt "r.png" "image/png"
    ∷ attach artifact "rice 2" (normalize_ocr_candidates fixed_point "rice 2\ntrain 3" "r.png")
    ∷ add electricity 50000 kwh none
    ∷ update "review-spend-1" none none (some "Rice") none
    ∷ remove "review-spend-2"
    ∷ []

build_raw_lca_request-Distinct_example :
    let request =
      build_raw_lca_request_from_workspace fixed_point
        (run_actions fixed_point actions create_input_workspace_state) in
    Distinct (map (λ e. e.spend_id) request.spend_entries)
    × Distinct (map (λ e. e.activity_id) request.activity_entries)
build_raw_lca_request-Distinct_example = build_raw_lca_request-Distinct fixed_point actions

request_ok-build_raw_lca_request_example :
    let state = run_actions fixed_point actions create_input_workspace_state in
    request_ok fixed_point (build_raw_lca_request_from_workspace fixed_point state) ≡ (
      all_where (row_ok fixed_point fixed_point-laws) state.review_rows
      && all_where (value_ok fixed_point fixed_point-laws) state.activity_entries)
request_ok-build_raw_lca_request_example =
    request_ok-build_raw_lca_request fixed_point fixed_point-laws actions

is_spend_category-line_candidate_example :
    let row =
      candidate_to_review_row fixed_point
        (line_candidate fixed_point "r.png" 0 "Bus 16 km")
        artifact
        "review-spend-1" in
    let lower = lower_line "Bus 16 km" in
    is_spend_category row.category ≡ (
      mentions ("gas" ∷ "fuel" ∷ "petrol" ∷ "diesel" ∷ []) lower
      || mentions ("electric" ∷ "power" ∷ "kwh" ∷ "solar" ∷ []) lower
      || not (
          mentions ("train" ∷ "rail" ∷ []) lower
          || mentions ("bus" ∷ []) lower
          || not (mentions ("taxi" ∷ "cab" ∷ []) lower)
            && mentions ("transport" ∷ "km" ∷ "ride" ∷ "drive" ∷ "car" ∷ []) lower))
is_spend_category-line_candidate_example =
    is_spend_category-line_candidate fixed_point "Bus 16 km" "r.png" "review-spend-1" 0 artifact

abbrev begun : SubmissionFlowState ℕ String
begun = create_initial_submission_flow_state

abbrev failed_flow : SubmissionFlowState ℕ String
failed_flow = mark_submission_failed (mark_submission_started begun) "offline"

Reachable-IsPromised_example : IsPromised failed_flow
Reachable-IsPromised_example =
    Reachable-IsPromised failed_flow
      (next (next initial (started begun)) (failed_with (mark_submission_started begun) "offline"))

abbrev snapshot : VerifiedSubmissionSnapshot ℕ
snapshot = record {
  request_id = "r";
  data_hash = "h";
  metadata_uri = "u";
  metadata_version = 1;
  total_emissions_kg_co2e = 10000;
  base_reduction_kg_co2e = 0;
  final_rewards = 0;
  multiplier_applied = 10000;
  categories = [];
  submitted_at_iso = "2024-05-01";
}

-- It writes an object as the text of its first field, and knows two objects.
abbrev first_text : Json ℕ → String
first_text (object (field name (text s) later)) = "{" +++ s
first_text _ = "null"

abbrev other_snapshot : VerifiedSubmissionSnapshot ℕ
other_snapshot = record snapshot { request_id = "r2"; categories = "rice" ∷ "beef" ∷ [] }

abbrev codec : JsonCodec ℕ
codec = record {
  stringify = first_text;
  parse = λ raw.
      if str_eq raw "{r"
      then some (object (snapshot_fields fixed_point snapshot))
      else if str_eq raw "{r2"
      then some (object (snapshot_fields fixed_point other_snapshot))
      else none;
}

apart : (a b : String) → str_eq a b ≡ false → a ≢ b
apart a b h = λ e. ground (arith, (str_eq_iff a b).1 e, h)

read_stored_verified_snapshot-persist_example :
    let before = persist_verified_snapshot codec fixed_point "other" snapshot [] in
    let after = persist_verified_snapshot codec fixed_point "wallet" other_snapshot before in
    (read_stored_verified_snapshot codec (some "wallet") after
      ≡ some (object (snapshot_fields fixed_point other_snapshot)))
    × (read_stored_verified_snapshot codec (some "other") after
        ≡ read_stored_verified_snapshot codec (some "other") before)
    × ((any : Option String) (read : Json ℕ)
        → read_stored_verified_snapshot codec any after ≡ some read
        → IsSnapshot read)
read_stored_verified_snapshot-persist_example =
    read_stored_verified_snapshot-persist fixed_point codec "wallet" "other" other_snapshot
      (persist_verified_snapshot codec fixed_point "other" snapshot []) refl (apart "{r2" "" refl)
      (apart "wallet" "" refl) (apart "wallet" "other" refl)

-- A value without its hash, or with a number for it, is not taken.
unchecked :
    (is_verified_submission_snapshot {N = ℕ} (object (field "requestId" (text "r") no_fields))
      ≡ false)
    × (is_verified_submission_snapshot
          (object (field "dataHash" (number 1) (snapshot_fields fixed_point snapshot)))
        ≡ false)
unfolding is_verified_submission_snapshot get_field
unchecked = (refl, refl)
