-- ===== src/Ingestion/Orchestration.antt =====
-- backend/src/modules/ingestion/footprint-orchestration.ts: the rank of a user and the period key
-- of a job.
pub mod Ranks
pub mod PeriodKeys
use personal_carbon_footprin.Prelude.{
  ℕ, ◌+◌, ◌-◌, ◌*◌, String, Option, none, some, Bool, ◌&&◌, List, [], ◌∷◌, if◌then◌else◌, leb,
  str_eq, codes, select_where, Outcome, ok, throw, JsError, app_error,
}
use personal_carbon_footprin.Oracle.Client.{RankThresholdsSnapshot}

pub data Rank : Type 0 where
  sprout seedling sapling tree forest : Rank

unfoldable pub derive_rank : ℕ → RankThresholdsSnapshot → Rank
derive_rank total_reduction_grams thresholds =
    if leb thresholds.forest_min_reduction_grams total_reduction_grams
    then forest
    else if leb thresholds.tree_min_reduction_grams total_reduction_grams
    then tree
    else if leb thresholds.sapling_min_reduction_grams total_reduction_grams
    then sapling
    else if leb thresholds.seedling_min_reduction_grams total_reduction_grams
    then seedling
    else sprout

abbrev pub is_digit : ℕ → Bool
is_digit c = leb b'0' c && leb c b'9'

-- `Number.parseInt(digits, 10)`, exact up to the largest safe integer and greater above it.
unfoldable pub parse_digits : ℕ → List ℕ → ℕ
parse_digits acc [] = acc
parse_digits acc (c ∷ digits) = parse_digits (acc * 10 + (c - b'0')) digits

-- `Number.MAX_SAFE_INTEGER`.
abbrev pub max_safe_integer : ℕ
max_safe_integer = 9007199254740991

abbrev pub not_digits : JsError
not_digits =
    app_error "invalid_period_key" 400
      "Period key must contain digits only or a YYYY-MM style value."

abbrev pub out_of_range : JsError
out_of_range = app_error "invalid_period_key" 400 "Period key is outside the supported range."

-- What follows the replacement of all that is no digit.
unfoldable pub parse_period_digits : List ℕ → Outcome ℕ
parse_period_digits [] = throw not_digits
parse_period_digits (c ∷ digits) =
    let numeric = parse_digits 0 (c ∷ digits) in
    if leb numeric max_safe_integer then ok numeric else throw out_of_range

unfoldable pub normalize_queued_period_key : Option String → Outcome ℕ
normalize_queued_period_key none = ok 0
normalize_queued_period_key (some period_key) =
    if str_eq period_key ""
    then ok 0
    else parse_period_digits (select_where is_digit (codes period_key))
