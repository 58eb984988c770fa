-- ===== src/Frontend/Workspace/Transport.antt =====
-- frontend/src/features/input/ocr-helpers.ts with lib/domain/contracts.ts: the categories that are proposed
-- for lines on transport.
use personal_carbon_footprin.Prelude.{
  ℕ, String, if◌then◌else◌, ◌||◌, ◌&&◌, not, Bool, true, false, [], ◌∷◌, ◌≡◌, refl, exists_where,
}
use personal_carbon_footprin.Lca.Numbers.{Numbers}
use personal_carbon_footprin.Frontend.SpendCategories.{spend_categories}
use personal_carbon_footprin.Frontend.Lines.{lower_line}
use personal_carbon_footprin.Frontend.Ocr.{mentions, classify_category, line_candidate}
use personal_carbon_footprin.Frontend.Workspace.{UploadedSourceArtifact, candidate_to_review_row}
use personal_carbon_footprin.Frontend.Workspace.Requests.{is_spend_category}

listed :
    (is_spend_category "GasSupply" ≡ true)
    × (is_spend_category "Electricity" ≡ true)
    × (is_spend_category "HiredCarAndTaxiTransport" ≡ true)
    × (is_spend_category "Vegetables" ≡ true)
    × (is_spend_category "RailwayTransport" ≡ false)
    × (is_spend_category "BusTransport" ≡ false)
    × (is_spend_category "SelfTransport" ≡ false)
unfolding is_spend_category exists_where spend_categories
listed = (refl, refl, refl, refl, refl, refl, refl)

-- The category by the groups of words that a line has.
chosen : (fuel power rail bus taxi other food : Bool) → String
chosen fuel power rail bus taxi other food =
    if fuel
    then "GasSupply"
    else if power
    then "Electricity"
    else if rail
    then "RailwayTransport"
    else if bus
    then "BusTransport"
    else if taxi
    then "HiredCarAndTaxiTransport"
    else if other
    then "SelfTransport"
    else if food
    then "Vegetables"
    else "Vegetables"

is_spend_category-chosen :
    (fuel power rail bus taxi other food : Bool)
    → is_spend_category (chosen fuel power rail bus taxi other food)
      ≡ (fuel || power || not (rail || bus || not taxi && other))
unfolding chosen
is_spend_category-chosen true power rail bus taxi other food = listed.0
is_spend_category-chosen false true rail bus taxi other food = listed.1
is_spend_category-chosen false false true bus taxi other food = listed.4
is_spend_category-chosen false false false true taxi other food = listed.5
is_spend_category-chosen false false false false true other food = listed.2
is_spend_category-chosen false false false false false true food = listed.6
is_spend_category-chosen false false false false false false true = listed.3
is_spend_category-chosen false false false false false false false = listed.3

module _ {N : Type 0} (ops : Numbers N) where
  -- The row that is made of a recognized line has a category of the contract exactly if the line has a word
  -- for fuel or power, or none for rail, bus or other transport but a taxi: the categories that are
  -- proposed for a train, a bus and a ride are not spend categories, so their rows fail the schema.
  pub is_spend_category-line_candidate :
      (line file_name row_id : String) (index : ℕ) (artifact : UploadedSourceArtifact)
      → let row =
          candidate_to_review_row ops (line_candidate ops file_name index line) artifact row_id in
        let lower = lower_line line in
        is_spend_category row.category ≡ (
          mentions ("gas" ∷ "fuel" ∷ "petrol" ∷ "diesel" ∷ []) lower
          || mentions ("electric" ∷ "power" ∷ "kwh" ∷ "solar" ∷ []) lower
          || not (
              mentions ("train" ∷ "rail" ∷ []) lower
              || mentions ("bus" ∷ []) lower
              || not (mentions ("taxi" ∷ "cab" ∷ []) lower)
                && mentions ("transport" ∷ "km" ∷ "ride" ∷ "drive" ∷ "car" ∷ []) lower))
  unfolding candidate_to_review_row line_candidate classify_category chosen
  is_spend_category-line_candidate line file_name row_id index artifact =
      let lower = lower_line line in
      is_spend_category-chosen (mentions ("gas" ∷ "fuel" ∷ "petrol" ∷ "diesel" ∷ []) lower)
        (mentions ("electric" ∷ "power" ∷ "kwh" ∷ "solar" ∷ []) lower)
        (mentions ("train" ∷ "rail" ∷ []) lower) (mentions ("bus" ∷ []) lower)
        (mentions ("taxi" ∷ "cab" ∷ []) lower)
        (mentions ("transport" ∷ "km" ∷ "ride" ∷ "drive" ∷ "car" ∷ []) lower)
        (mentions ("food" ∷ "grocery" ∷ "meal" ∷ "lunch" ∷ "dinner" ∷ "coffee" ∷ []) lower)
