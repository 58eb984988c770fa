-- ===== src/Frontend/Ocr.antt =====
-- frontend/src/features/input/ocr-helpers.ts: from a recognized text to the candidates for review.
use personal_carbon_footprin.Prelude.{
  ℕ, suc, String, ◌+++◌, Option, none, some, Bool, List, [], ◌∷◌, if◌then◌else◌, ◌||◌, not, is_some,
  or_else, str_eq, includes, to_lower_case, number_to_string, exists_where, select_where, map,
}
use personal_carbon_footprin.Lca.Numbers.{Numbers}
use personal_carbon_footprin.Frontend.Lines.{
  normalize_whitespace, split_lines, lower_line, first_number,
}

pub data OcrCandidateKind : Type 0 where
  spend activity unknown : OcrCandidateKind

-- frontend/src/lib/domain/adapters.ts.
pub record OcrReviewCandidate (N : Type 0) : Type 0 where
  pub candidate_id : String
  pub kind : OcrCandidateKind
  pub label : String
  pub confidence : N
  pub proposed_category : Option String
  pub proposed_amount : Option N
  pub proposed_value : Option N
  pub proposed_unit : Option String
  pub proof_hash : Option String
  pub raw_text_span : Option String

unfoldable pub build_fallback_ocr_text : String → String
build_fallback_ocr_text file_name =
    let lower = lower_line file_name in
    if includes lower "receipt"
    then "grocery food 24.80\ntrain transport 12.40"
    else if includes lower "card"
    then "gas fuel 48.00\nbus transport 16 km"
    else "electricity renewable 18 kWh\nfood lunch 12.50"

-- One of the words is in the text, as a regular expression of alternatives finds it.
abbrev pub mentions : List String → String → Bool
mentions words text = exists_where (includes text) words

unfoldable pub classify_category : String → String
classify_category line =
    let lower = lower_line line in
    if mentions ("gas" ∷ "fuel" ∷ "petrol" ∷ "diesel" ∷ []) lower
    then "GasSupply"
    else if mentions ("electric" ∷ "power" ∷ "kwh" ∷ "solar" ∷ []) lower
    then "Electricity"
    else if mentions ("train" ∷ "rail" ∷ []) lower
    then "RailwayTransport"
    else if mentions ("bus" ∷ []) lower
    then "BusTransport"
    else if mentions ("taxi" ∷ "cab" ∷ []) lower
    then "HiredCarAndTaxiTransport"
    else if mentions ("transport" ∷ "km" ∷ "ride" ∷ "drive" ∷ "car" ∷ []) lower
    then "SelfTransport"
    else if mentions ("food" ∷ "grocery" ∷ "meal" ∷ "lunch" ∷ "dinner" ∷ "coffee" ∷ []) lower
    then "Vegetables"
    else "Vegetables"

unfoldable pub extract_unit : String → Option String
extract_unit line =
    let lower = lower_line line in
    if includes lower "kwh"
    then some "kWh"
    else if includes lower "liter" || includes lower "litre" || includes lower "l"
    then some "liter"
    else if includes lower "km"
    then some "km"
    else if includes lower "kg"
    then some "kg"
    else none

-- A regular expression with the flag `i` takes the letters of ASCII alone in either case.
unfoldable pub infer_kind : String → Option String → OcrCandidateKind
infer_kind line unit =
    if is_some unit
      || mentions
          ("renewable" ∷ "solar" ∷ "distance" ∷ "usage" ∷ "consumption" ∷ "km" ∷ "kwh" ∷ "kg" ∷ [])
          (to_lower_case line)
    then activity
    else spend

module _ {N : Type 0} (ops : Numbers N) where
  unfoldable pub extract_numeric_value : String → Option N
  extract_numeric_value line = elim (first_number line) [
    | none ↦ none
    | some (mantissa, places) ↦ some (ops.literal mantissa places)
  ]

  abbrev line_confidence : Option N → OcrCandidateKind → N
  line_confidence none kind = ops.literal 55 2
  line_confidence (some amount) activity = ops.literal 72 2
  line_confidence (some amount) _ = ops.literal 84 2

  abbrev if_activity : {A : Type 0} → OcrCandidateKind → A → Option A
  if_activity activity a = some a
  if_activity _ a = none

  abbrev if_spend : {A : Type 0} → OcrCandidateKind → A → Option A
  if_spend activity a = none
  if_spend _ a = some a

  -- The candidate of the line with this index.
  unfoldable pub line_candidate : (file_name : String) → ℕ → String → OcrReviewCandidate N
  line_candidate file_name index line =
      let unit = extract_unit line in
      let kind = infer_kind line unit in
      let amount = extract_numeric_value line in
      let number = or_else amount (ops.literal 0 0) in
      record {
        candidate_id = (file_name +++ "-") +++ number_to_string index;
        kind = kind;
        label = line;
        confidence = line_confidence amount kind;
        proposed_category = some (classify_category line);
        proposed_amount = if_spend kind number;
        proposed_value = if_activity kind number;
        proposed_unit = if_activity kind (or_else unit "km");
        proof_hash = none;
        raw_text_span = if includes (lower_line line) "renewable" then some line else none;
      }

  unfoldable pub line_candidates :
      (file_name : String) → ℕ → List String → List (OcrReviewCandidate N)
  line_candidates file_name index [] = []
  line_candidates file_name index (line ∷ lines) =
      line_candidate file_name index line ∷ line_candidates file_name (suc index) lines

  abbrev fallback_candidate : (file_name : String) → OcrReviewCandidate N
  fallback_candidate file_name = record {
    candidate_id = file_name +++ "-fallback";
    kind = spend;
    label = file_name;
    confidence = ops.literal 3 1;
    proposed_category = some "Vegetables";
    proposed_amount = some (ops.literal 0 0);
    proposed_value = none;
    proposed_unit = none;
    proof_hash = none;
    raw_text_span = none;
  }

  abbrev or_fallback : String → List (OcrReviewCandidate N) → List (OcrReviewCandidate N)
  or_fallback file_name [] = fallback_candidate file_name ∷ []
  or_fallback file_name (c ∷ candidates) = c ∷ candidates

  unfoldable pub normalize_ocr_candidates :
      (raw_text file_name : String) → List (OcrReviewCandidate N)
  normalize_ocr_candidates raw_text file_name = or_fallback file_name (
      line_candidates file_name 0 (
        select_where (λ line. not (str_eq line ""))
          (map normalize_whitespace (split_lines raw_text))))
