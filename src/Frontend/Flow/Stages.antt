-- ===== src/Frontend/Flow/Stages.antt =====
-- frontend/src/lib/domain/state.ts: what the functions on the flow keep, in whatever order they come.
use personal_carbon_footprin.Prelude.{String, Option, none, true, List, is_some, ◌≡◌, refl}
use personal_carbon_footprin.Ingestion.Submission.{FootprintIngestionResult}
use personal_carbon_footprin.Frontend.Flow.{
  SubmissionStage, draft, review, submitting, verified, failed, UploadedArtifact, OcrArtifact,
  SubmissionFlowState, VerifiedSubmissionSnapshot, create_initial_submission_flow_state,
  with_reviewed_submission, with_private_artifacts, mark_submission_started,
  mark_submission_succeeded, mark_submission_failed,
}

-- What a stage promises of the error and the snapshot.
abbrev pub Promised :
    {N : Type 0} → SubmissionStage → Option String → Option (VerifiedSubmissionSnapshot N) → Type 0
Promised draft error snapshot = (error ≡ none) × (snapshot ≡ none)
Promised review error snapshot = Unit
Promised submitting error snapshot = error ≡ none
Promised verified error snapshot = (error ≡ none) × (is_some snapshot ≡ true)
Promised failed error snapshot = is_some error ≡ true

module _ {N D : Type 0} where
  -- The steps from a state to the next.
  pub data FlowStep : SubmissionFlowState N D → SubmissionFlowState N D → Type 0 where
    reviewed : (s : SubmissionFlowState N D) (d : D) → FlowStep s (with_reviewed_submission s d)
    attached :
        (s : SubmissionFlowState N D) (uploaded : Option (List UploadedArtifact))
        (raw : Option (List OcrArtifact))
        → FlowStep s (with_private_artifacts s uploaded raw)
    started : (s : SubmissionFlowState N D) → FlowStep s (mark_submission_started s)
    succeeded :
        (s : SubmissionFlowState N D) (result : FootprintIngestionResult N) (data_hash at : String)
        → FlowStep s (mark_submission_succeeded s result data_hash at)
    failed_with :
        (s : SubmissionFlowState N D) (message : String)
        → FlowStep s (mark_submission_failed s message)

  pub data Reachable : SubmissionFlowState N D → Type 0 where
    initial : Reachable create_initial_submission_flow_state
    next : {s t : SubmissionFlowState N D} → Reachable s → FlowStep s t → Reachable t

  pub IsPromised : SubmissionFlowState N D → Type 0
  IsPromised s = Promised s.stage s.last_error s.verified_snapshot

  step-IsPromised : (s t : SubmissionFlowState N D) → FlowStep s t → IsPromised s → IsPromised t
  unfolding IsPromised with_reviewed_submission with_private_artifacts mark_submission_started
      mark_submission_succeeded mark_submission_failed
  step-IsPromised s t (reviewed _ d) h = tt
  step-IsPromised s t (attached _ uploaded raw) h = h
  step-IsPromised s t (started _) h = refl
  step-IsPromised s t (succeeded _ result data_hash at) h = (refl, refl)
  step-IsPromised s t (failed_with _ message) h = refl

  -- In each state of the flow that can be reached: a draft has no error and no snapshot, a submission that
  -- runs has no error, a verified one has a snapshot and no error, and a failed one has an error.
  pub Reachable-IsPromised : (s : SubmissionFlowState N D) → Reachable s → IsPromised s
  unfolding IsPromised create_initial_submission_flow_state
  Reachable-IsPromised s initial = (refl, refl)
  Reachable-IsPromised t (next {s = s} before step) =
      step-IsPromised s t step (Reachable-IsPromised s before)
