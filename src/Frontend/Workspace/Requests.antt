-- ===== src/Frontend/Workspace/Requests.antt =====
-- frontend/src/lib/domain/contracts.ts: `rawLcaRequestSchema`, and whether a request of the input page
-- passes it.
use personal_carbon_footprin.Prelude.{
  String, ◌+++◌, Option, none, some, Bool, true, false, not, ◌&&◌, List, [], ◌∷◌, ◌≡◌, refl, ap,
  inl, inr, arith, Bool-cases, str_eq, str_eq_iff, exists_where, select_where, update_where,
  or_else, All, All-append, ℕ, ◌+◌, number_to_string,
}
use Prim.Native.String.{count}
use text.Mathlib.TextLemmas.{length-append, length-eq-zero_iff}
use personal_carbon_footprin.Lca.Kinds.{manual, ocr}
use personal_carbon_footprin.Lca.Numbers.{Numbers, finite_nonnegative, NumberLaws}
use personal_carbon_footprin.Lca.Request.{ActivityEntry, is_spend_source, is_activity_source}
use personal_carbon_footprin.Frontend.SpendCategories.{spend_categories}
use personal_carbon_footprin.Frontend.Ocr.{OcrReviewCandidate}
use personal_carbon_footprin.Frontend.Workspace.LocalIds.{
  Numbered, Action, add, register, attach, update, remove, apply_action, run_actions,
  run_actions-IsNumbered,
}
use personal_carbon_footprin.Frontend.Workspace.{
  UploadedSourceArtifact, ReviewRow, IdCounters, InputWorkspaceState, SpendEntry, RawLcaRequest,
  local_id, spend_entries_of, create_input_workspace_state, add_activity_entry,
  register_uploaded_artifact, update_review_row, remove_review_row, candidate_to_review_row,
  review_rows_of, attach_ocr_review_rows, build_raw_lca_request_from_workspace,
  create_scoped_local_id, LocalIdPrefix, activity, upload, review_spend, receipt, card_screenshot,
}

unfoldable pub is_spend_category : String → Bool
is_spend_category text = exists_where (str_eq text) spend_categories

abbrev optional_text : Option String → Bool
optional_text none = true
optional_text (some text) = not (str_eq text "")

unfoldable pub all_where : {A : Type 0} → (A → Bool) → List A → Bool
all_where test [] = true
all_where test (x ∷ xs) = test x && all_where test xs

module _ {N : Type 0} (ops : Numbers N) where
  unfoldable pub spend_entry_ok : SpendEntry N → Bool
  spend_entry_ok e =
      not (str_eq e.spend_id "")
      && is_spend_category e.category
      && finite_nonnegative ops e.amount
      && is_spend_source (or_else e.source ocr)
      && optional_text e.proof_hash

  unfoldable pub activity_entry_ok : ActivityEntry N → Bool
  activity_entry_ok e =
      not (str_eq e.activity_id "")
      && finite_nonnegative ops e.value
      && is_activity_source (or_else e.source manual)
      && optional_text e.proof_hash

  -- `rawLcaRequestSchema` accepts the request.
  unfoldable pub request_ok : RawLcaRequest N → Bool
  request_ok r =
      optional_text r.period_key
      && all_where spend_entry_ok r.spend_entries
      && all_where activity_entry_ok r.activity_entries
      && finite_nonnegative ops r.history

-- A text that begins with one that is not empty is not empty.
begun-nonempty : (p s : String) → str_eq p "" ≡ false → str_eq (p +++ s) "" ≡ false
begun-nonempty p s h = elim (Bool-cases (str_eq (p +++ s) "")) [
  | inr e ↦ e
  | inl e ↦
      let whole : count (p +++ s) ≡ 0 = ap count ((str_eq_iff (p +++ s) "").0 e) in
      let parts : count (p +++ s) ≡ count p + count s = length-append p s in
      let empty : p ≡ "" = length-eq-zero_iff.0 (omega (arith, whole, parts)) in
      absurd (ground (arith, (str_eq_iff p "").1 empty, h))
]

local_id-nonempty : (p : LocalIdPrefix) (n : ℕ) → str_eq (local_id p n) "" ≡ false
local_id-nonempty activity n = begun-nonempty "activity-" (number_to_string n) refl
local_id-nonempty (upload receipt) n = begun-nonempty "receipt-" (number_to_string n) refl
local_id-nonempty (upload card_screenshot) n =
    begun-nonempty "card-screenshot-" (number_to_string n) refl
local_id-nonempty review_spend n = begun-nonempty "review-spend-" (number_to_string n) refl

proof-nonempty : (id : String) → str_eq ("local-proof:" +++ id) "" ≡ false
proof-nonempty id = begun-nonempty "local-proof:" id refl

module _ {N : Type 0} (ops : Numbers N) (laws : NumberLaws ops) where
  -- What the schema asks of a row, once the page has made it.
  unfoldable pub row_ok : ReviewRow N → Bool
  row_ok r = is_spend_category r.category && finite_nonnegative ops r.amount

  abbrev pub value_ok : ActivityEntry N → Bool
  value_ok e = finite_nonnegative ops e.value

  -- The fields that the page sets itself.
  abbrev IsMade : ReviewRow N → Type 0
  IsMade r = (artifact_id : String) × (r.proof_hash ≡ "local-proof:" +++ artifact_id)

  abbrev IsManual : ActivityEntry N → Type 0
  IsManual e = (e.source ≡ some manual) × (e.proof_hash ≡ none)

  spend_entries-ok :
      (rows : List (ReviewRow N)) (lo hi : ℕ)
      → Numbered review_spend (λ (r : ReviewRow N). r.row_id) lo hi rows
      → All IsMade rows
      → all_where (spend_entry_ok ops) (spend_entries_of ops rows) ≡ all_where row_ok rows
  unfolding all_where spend_entries_of spend_entry_ok row_ok
  spend_entries-ok [] lo hi numbered made = refl
  spend_entries-ok (r ∷ rows) lo hi (n, id, lt, rest) ((artifact_id, hash), made) =
      rw
        (
          id,
          local_id-nonempty review_spend n,
          hash,
          proof-nonempty artifact_id,
          spend_entries-ok rows n hi rest made,
        )
        (ground (
          arith,
          Bool-cases (is_spend_category r.category),
          Bool-cases (finite_nonnegative ops r.amount),
        ))

  activity_entries-ok :
      (entries : List (ActivityEntry N)) (lo hi : ℕ)
      → Numbered activity (λ (e : ActivityEntry N). e.activity_id) lo hi entries
      → All IsManual entries
      → all_where (activity_entry_ok ops) entries ≡ all_where value_ok entries
  unfolding all_where activity_entry_ok
  activity_entries-ok [] lo hi numbered made = refl
  activity_entries-ok (e ∷ entries) lo hi (n, id, lt, rest) ((source, hash), made) =
      rw
        (id, local_id-nonempty activity n, source, hash, activity_entries-ok entries n hi rest made)
        (ground (arith, Bool-cases (finite_nonnegative ops e.value)))

  All-select_where :
      {A : Type 0} (P : A → Type 0) (test : A → Bool) (xs : List A)
      → All P xs
      → All P (select_where test xs)
  unfolding select_where
  All-select_where P test [] h = tt
  All-select_where P test (x ∷ xs) (p, h) =
      let kept = All-select_where P test xs h in
      elim (Bool-cases (test x)) [ inl t ↦ rw t (p, kept) | inr f ↦ rw f kept ]

  All-update_where :
      {A : Type 0} (P : A → Type 0) (test : A → Bool) (change : A → A) (xs : List A)
      → ((x : A) → P x → P (change x))
      → All P xs
      → All P (update_where test change xs)
  unfolding update_where
  All-update_where P test change [] keeps h = tt
  All-update_where P test change (x ∷ xs) keeps (p, h) =
      let kept = All-update_where P test change xs keeps h in
      elim (Bool-cases (test x)) [ inl t ↦ rw t (keeps x p, kept) | inr f ↦ rw f (p, kept) ]

  review_rows_of-IsMade :
      (artifact : UploadedSourceArtifact) (candidates : List (OcrReviewCandidate N))
      (counters : IdCounters)
      → All IsMade (review_rows_of ops artifact candidates counters).0
  unfolding review_rows_of create_scoped_local_id candidate_to_review_row
  review_rows_of-IsMade artifact [] counters = tt
  review_rows_of-IsMade artifact (c ∷ candidates) counters =
      ((artifact.artifact_id, refl), review_rows_of-IsMade artifact candidates _)

  record IsPageMade (state : InputWorkspaceState N) : Type 0 where
    made : All IsMade state.review_rows
    manual_entries : All IsManual state.activity_entries

  apply_action-IsPageMade :
      (action : Action ops) (state : InputWorkspaceState N)
      → IsPageMade state
      → IsPageMade (apply_action ops action state)
  unfolding add_activity_entry register_uploaded_artifact attach_ocr_review_rows update_review_row
      remove_review_row create_scoped_local_id
  apply_action-IsPageMade (add category value unit is_renewable) state inv = record {
    made = inv.made;
    manual_entries =
        All-append IsManual state.activity_entries _ inv.manual_entries ((refl, refl), tt);
  }
  apply_action-IsPageMade (register kind file_name mime_type) state inv = record {
    made = inv.made;
    manual_entries = inv.manual_entries;
  }
  apply_action-IsPageMade (attach artifact raw_text candidates) state inv = record {
    made =
        All-append IsMade _ _ (All-select_where IsMade _ state.review_rows inv.made)
          (review_rows_of-IsMade artifact candidates state.id_counters);
    manual_entries = inv.manual_entries;
  }
  apply_action-IsPageMade (update row_id label confidence category amount) state inv = record {
    made = All-update_where IsMade _ _ state.review_rows (λ r p. p) inv.made;
    manual_entries = inv.manual_entries;
  }
  apply_action-IsPageMade (remove row_id) state inv = record {
    made = All-select_where IsMade _ state.review_rows inv.made;
    manual_entries = inv.manual_entries;
  }

  run_actions-IsPageMade :
      (actions : List (Action ops)) (state : InputWorkspaceState N)
      → IsPageMade state
      → IsPageMade (run_actions ops actions state)
  unfolding run_actions
  run_actions-IsPageMade [] state inv = inv
  run_actions-IsPageMade (action ∷ actions) state inv =
      run_actions-IsPageMade actions (apply_action ops action state)
        (apply_action-IsPageMade action state inv)

  -- A request that is built after any actions on the page passes the contract's schema exactly if the
  -- category of each row is one of the spend categories and each amount and value is finite and not negative; no
  -- id, source, proof or history that the page sets ever fails it.
  pub request_ok-build_raw_lca_request :
      (actions : List (Action ops))
      → let state = run_actions ops actions create_input_workspace_state in
        request_ok ops (build_raw_lca_request_from_workspace ops state)
        ≡ (all_where row_ok state.review_rows && all_where value_ok state.activity_entries)
  unfolding request_ok build_raw_lca_request_from_workspace create_input_workspace_state
  request_ok-build_raw_lca_request actions =
      let start = create_input_workspace_state in
      let state = run_actions ops actions start in
      let inv =
        run_actions-IsNumbered ops actions start
          (record { rows = omega arith; activities = omega arith }) in
      let made = run_actions-IsPageMade actions start (record { made = tt; manual_entries = tt }) in
      rw
        (
          spend_entries-ok state.review_rows 0 _ inv.rows made.made,
          activity_entries-ok state.activity_entries 0 _ inv.activities made.manual_entries,
          laws.literal_nonneg 0 0,
          laws.literal_finite 0 0 (omega arith),
        )
        (ground (arith, Bool-cases (all_where row_ok state.review_rows)))
