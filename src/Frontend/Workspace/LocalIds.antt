-- ===== src/Frontend/Workspace/LocalIds.antt =====
-- frontend/src/features/input/smart-input-model.ts: the local ids of the rows and entries.
use text.Mathlib.TextLemmas.{append_cancel_left}
use personal_carbon_footprin.Prelude.{
  ℕ, suc, ◌≤◌, ◌<◌, String, ◌+++◌, Option, Bool, false, not, List, [], ◌∷◌, ◌++◌, map, ◌≡◌, refl,
  ap, ◌∙◌, inl, inr, arith, Bool-cases, str_eq, str_eq_iff, exists_where, select_where,
  update_where, number_to_string-injective,
}
use personal_carbon_footprin.Lca.Kinds.{ActivityCategory, ActivityUnit}
use personal_carbon_footprin.Lca.Numbers.{Numbers}
use personal_carbon_footprin.Lca.Request.{ActivityEntry}
use personal_carbon_footprin.Frontend.Ocr.{OcrReviewCandidate}
use personal_carbon_footprin.Frontend.Workspace.{
  UploadKind, receipt, card_screenshot, LocalIdPrefix, activity, review_spend,
  UploadedSourceArtifact, ReviewRow, IdCounters, InputWorkspaceState, prefix_name, local_id,
  create_scoped_local_id, create_input_workspace_state, add_activity_entry,
  register_uploaded_artifact, update_review_row, remove_review_row, candidate_to_review_row,
  review_rows_of, attach_ocr_review_rows, spend_entries_of, build_raw_lca_request_from_workspace,
}

local_id-injective : (p : LocalIdPrefix) (a b : ℕ) → local_id p a ≡ local_id p b → a ≡ b
local_id-injective p a b h =
    number_to_string-injective a b (append_cancel_left (prefix_name p +++ "-") _ _ h)

-- No text is there twice.
pub Distinct : List String → Type 0
Distinct [] = Unit
Distinct (t ∷ ts) = (exists_where (str_eq t) ts ≡ false) × Distinct ts

module _ {A : Type 0} (prefix : LocalIdPrefix) (id_of : A → String) where
  -- The ids of `xs` are local ids of growing numbers, above `lo` and up to `hi`.
  abbrev pub Numbered : ℕ → ℕ → List A → Type 0
  Numbered lo hi [] = lo ≤ hi
  Numbered lo hi (x ∷ xs) = (n : ℕ) × (id_of x ≡ local_id prefix n) × (lo < n) × Numbered n hi xs

  Numbered-le : (lo hi : ℕ) (xs : List A) → Numbered lo hi xs → lo ≤ hi
  Numbered-le lo hi [] h = h
  Numbered-le lo hi (x ∷ xs) (n, e, lt, rest) = omega (arith, lt, Numbered-le n hi xs rest)

  Numbered-lower : (lo lo' hi : ℕ) (xs : List A) → lo ≤ lo' → Numbered lo' hi xs → Numbered lo hi xs
  Numbered-lower lo lo' hi [] le h = omega (arith, le, h)
  Numbered-lower lo lo' hi (x ∷ xs) le (n, e, lt, rest) = (n, e, omega (arith, le, lt), rest)

  pub Numbered-select_where :
      (test : A → Bool) (lo hi : ℕ) (xs : List A)
      → Numbered lo hi xs
      → Numbered lo hi (select_where test xs)
  unfolding select_where
  Numbered-select_where test lo hi [] h = h
  Numbered-select_where test lo hi (x ∷ xs) (n, e, lt, rest) =
      let kept = Numbered-select_where test n hi xs rest in
      elim (Bool-cases (test x)) [
        | inl t ↦ rw t (n, e, lt, kept)
        | inr f ↦ rw f (Numbered-lower lo n hi (select_where test xs) (omega (arith, lt)) kept)
      ]

  pub Numbered-update_where :
      (test : A → Bool) (change : A → A) (lo hi : ℕ) (xs : List A)
      → ((x : A) → id_of (change x) ≡ id_of x)
      → Numbered lo hi xs
      → Numbered lo hi (update_where test change xs)
  unfolding update_where
  Numbered-update_where test change lo hi [] keeps h = h
  Numbered-update_where test change lo hi (x ∷ xs) keeps (n, e, lt, rest) =
      let kept = Numbered-update_where test change n hi xs keeps rest in
      elim (Bool-cases (test x)) [
        | inl t ↦ rw t (n, keeps x ∙ e, lt, kept)
        | inr f ↦ rw f (n, e, lt, kept)
      ]

  pub Numbered-append :
      (lo mid hi : ℕ) (xs ys : List A)
      → Numbered lo mid xs
      → Numbered mid hi ys
      → Numbered lo hi (xs ++ ys)
  Numbered-append lo mid hi [] ys h g = Numbered-lower lo mid hi ys h g
  Numbered-append lo mid hi (x ∷ xs) ys (n, e, lt, rest) g =
      (n, e, lt, Numbered-append n mid hi xs ys rest g)

  absent :
      (k lo hi : ℕ) (xs : List A)
      → k ≤ lo
      → Numbered lo hi xs
      → exists_where (str_eq (local_id prefix k)) (map id_of xs) ≡ false
  unfolding exists_where
  absent k lo hi [] le h = refl
  absent k lo hi (x ∷ xs) le (n, e, lt, rest) =
      let later = absent k n hi xs (omega (arith, le, lt)) rest in
      elim (Bool-cases (str_eq (local_id prefix k) (id_of x))) [
        | inr other ↦ rw (other, later) refl
        | inl same ↦ absurd (
            let equal = (str_eq_iff (local_id prefix k) (id_of x)).0 same in
            omega (arith, le, lt, local_id-injective prefix k n (equal ∙ e)))
      ]

  pub Numbered-Distinct : (lo hi : ℕ) (xs : List A) → Numbered lo hi xs → Distinct (map id_of xs)
  unfolding Distinct
  Numbered-Distinct lo hi [] h = tt
  Numbered-Distinct lo hi (x ∷ xs) (n, e, lt, rest) =
      (rw e (absent n n hi xs (omega arith) rest), Numbered-Distinct n hi xs rest)

module _ {N : Type 0} (ops : Numbers N) where
  -- What the page does to its state.
  pub data Action : Type 0 where
    add : ActivityCategory → N → ActivityUnit → Option Bool → Action
    register : UploadKind → (file_name mime_type : String) → Action
    attach : UploadedSourceArtifact → (raw_text : String) → List (OcrReviewCandidate N) → Action
    update : (row_id : String) → Option String → Option N → Option String → Option N → Action
    remove : (row_id : String) → Action

  abbrev pub apply_action : Action → InputWorkspaceState N → InputWorkspaceState N
  apply_action (add category value unit is_renewable) state =
      add_activity_entry state category value unit is_renewable
  apply_action (register kind file_name mime_type) state =
      (register_uploaded_artifact state kind file_name mime_type).0
  apply_action (attach artifact raw_text candidates) state =
      attach_ocr_review_rows ops state artifact raw_text candidates
  apply_action (update row_id label confidence category amount) state =
      update_review_row state row_id label confidence category amount
  apply_action (remove row_id) state = remove_review_row state row_id

  unfoldable pub run_actions : List Action → InputWorkspaceState N → InputWorkspaceState N
  run_actions [] state = state
  run_actions (action ∷ actions) state = run_actions actions (apply_action action state)

  pub record IsNumbered (state : InputWorkspaceState N) : Type 0 where
    pub rows :
        Numbered review_spend
          (λ (r : ReviewRow N). r.row_id)
          0
          state.id_counters.review_spend_count
          state.review_rows
    pub activities :
        Numbered activity
          (λ (e : ActivityEntry N). e.activity_id)
          0
          state.id_counters.activity_count
          state.activity_entries

  abbrev new_rows :
      UploadedSourceArtifact
      → List (OcrReviewCandidate N)
      → IdCounters
      → List (ReviewRow N) × IdCounters
  new_rows = review_rows_of ops

  review_rows_of-Numbered :
      (artifact : UploadedSourceArtifact) (candidates : List (OcrReviewCandidate N))
      (counters : IdCounters)
      → let (rows, last) = new_rows artifact candidates counters in
        (Numbered review_spend
          (λ (r : ReviewRow N). r.row_id)
          counters.review_spend_count
          last.review_spend_count
          rows)
        × (last.activity_count ≡ counters.activity_count)
  unfolding review_rows_of create_scoped_local_id candidate_to_review_row
  review_rows_of-Numbered artifact [] counters = (omega arith, refl)
  review_rows_of-Numbered artifact (c ∷ candidates) counters =
      let (rows, same) =
        review_rows_of-Numbered artifact candidates
          (record counters { review_spend_count = suc counters.review_spend_count }) in
      ((suc counters.review_spend_count, refl, omega arith, rows), same)

  apply_action-IsNumbered :
      (action : Action) (state : InputWorkspaceState N)
      → IsNumbered state
      → IsNumbered (apply_action action state)
  unfolding add_activity_entry register_uploaded_artifact attach_ocr_review_rows update_review_row
      remove_review_row create_scoped_local_id
  apply_action-IsNumbered (add category value unit is_renewable) state inv = record {
    rows = inv.rows;
    activities =
        Numbered-append activity (λ (e : ActivityEntry N). e.activity_id) 0
          state.id_counters.activity_count _ state.activity_entries _ inv.activities
          (suc state.id_counters.activity_count, refl, omega arith, omega arith);
  }
  apply_action-IsNumbered (register receipt file_name mime_type) state inv = record {
    rows = inv.rows;
    activities = inv.activities;
  }
  apply_action-IsNumbered (register card_screenshot file_name mime_type) state inv = record {
    rows = inv.rows;
    activities = inv.activities;
  }
  apply_action-IsNumbered (attach artifact raw_text candidates) state inv =
      let (rows, same) = review_rows_of-Numbered artifact candidates state.id_counters in
      let row_id_of : ReviewRow N → String = λ r. r.row_id in
      let others : ReviewRow N → Bool = λ r. not (str_eq r.artifact_id artifact.artifact_id) in
      record {
        rows =
            Numbered-append review_spend row_id_of 0 state.id_counters.review_spend_count _
              (select_where others state.review_rows) _
              (Numbered-select_where review_spend row_id_of others 0
                state.id_counters.review_spend_count state.review_rows inv.rows)
              rows;
        activities = rw same inv.activities;
      }
  apply_action-IsNumbered (update row_id label confidence category amount) state inv = record {
    rows =
        Numbered-update_where review_spend (λ (r : ReviewRow N). r.row_id) _ _ 0
          state.id_counters.review_spend_count state.review_rows (λ r. refl) inv.rows;
    activities = inv.activities;
  }
  apply_action-IsNumbered (remove row_id) state inv = record {
    rows =
        Numbered-select_where review_spend (λ (r : ReviewRow N). r.row_id) _ 0
          state.id_counters.review_spend_count state.review_rows inv.rows;
    activities = inv.activities;
  }

  pub run_actions-IsNumbered :
      (actions : List Action) (state : InputWorkspaceState N)
      → IsNumbered state
      → IsNumbered (run_actions actions state)
  unfolding run_actions
  run_actions-IsNumbered [] state inv = inv
  run_actions-IsNumbered (action ∷ actions) state inv =
      run_actions-IsNumbered actions (apply_action action state)
        (apply_action-IsNumbered action state inv)

  spend_ids :
      (rows : List (ReviewRow N))
      → map (λ e. e.spend_id) (spend_entries_of ops rows) ≡ map (λ r. r.row_id) rows
  unfolding spend_entries_of
  spend_ids [] = refl
  spend_ids (row ∷ rows) = ap (λ ids. row.row_id ∷ ids) (spend_ids rows)

  -- Whatever is entered, uploaded, recognized, edited and removed, and in whatever order, no two spend
  -- entries of the request that is built have the same id, and no two activity entries have.
  pub build_raw_lca_request-Distinct :
      (actions : List Action)
      → let request =
          build_raw_lca_request_from_workspace ops
            (run_actions actions create_input_workspace_state) in
        Distinct (map (λ e. e.spend_id) request.spend_entries)
        × Distinct (map (λ e. e.activity_id) request.activity_entries)
  unfolding build_raw_lca_request_from_workspace create_input_workspace_state
  build_raw_lca_request-Distinct actions =
      let inv =
        run_actions-IsNumbered actions create_input_workspace_state
          (record { rows = omega arith; activities = omega arith }) in
      let state = run_actions actions create_input_workspace_state in
      (
        rw (spend_ids state.review_rows) (
            Numbered-Distinct review_spend (λ (r : ReviewRow N). r.row_id) 0 _ state.review_rows
              inv.rows),
        Numbered-Distinct activity (λ (e : ActivityEntry N). e.activity_id) 0 _
            state.activity_entries inv.activities,
      )
