-- ===== src/Lca/Orchestrator.antt =====
-- backend/src/modules/lca/orchestrator.ts: `LcaOrchestrator.calculateFootprint` and what it calls.
use personal_carbon_footprin.Prelude.{
  ℕ, String, Option, some, Bool, true, false, List, [], ◌∷◌, if◌then◌else◌, ◌==◌, ltb, ◌&&◌,
}
use personal_carbon_footprin.Lca.Kinds.{
  CanonicalDataSourceKind, spend, activity, hybrid, ActivityCategory, electricity, gas_supply,
  coal_mining_crude_petroleum_and_natural_gas, railway_transport_passengers, bus_transport_service,
  hired_car_and_taxi_transport, self_transport_passengers, ActivityUnit, InputOrigin,
}
use personal_carbon_footprin.Lca.SpendCategory.{SpendCategory}
use personal_carbon_footprin.Lca.SpendFactors.{Decimal, decimal, spend_grams}
use personal_carbon_footprin.Lca.SpendIndex.{spend_index}
use personal_carbon_footprin.Lca.Numbers.{Numbers}

pub record NormalizedSpendRecord (N : Type 0) : Type 0 where
  pub source_id : String
  pub category : SpendCategory
  pub amount : N
  pub origin : InputOrigin

pub record NormalizedActivityRecord (N : Type 0) : Type 0 where
  pub source_id : String
  pub category : ActivityCategory
  pub value : N
  pub unit : ActivityUnit
  pub origin : InputOrigin
  pub is_renewable : Option Bool

pub record LcaResult (N : Type 0) : Type 0 where
  pub total_emissions : N
  pub base_reduction : N
  pub multiplier_applied : N
  pub final_rewards : N
  pub timestamp : ℕ

-- `EMISSION_FACTORS.activity`, in grams for each unit.
unfoldable pub activity_grams : ActivityCategory → Decimal
activity_grams coal_mining_crude_petroleum_and_natural_gas = decimal 232 0
activity_grams electricity = decimal 423 0
activity_grams gas_supply = decimal 216 5
activity_grams railway_transport_passengers = decimal 17 0
activity_grams bus_transport_service = decimal 57 0
activity_grams hired_car_and_taxi_transport = decimal 125 0
activity_grams self_transport_passengers = decimal 125 0

-- `OVERRIDDEN_SPEND_CATEGORIES_BY_ACTIVITY`.
unfoldable pub overridden_spend_categories : ActivityCategory → List SpendCategory
overridden_spend_categories electricity = SpendCategory.electricity ∷ []
overridden_spend_categories coal_mining_crude_petroleum_and_natural_gas =
    SpendCategory.coal_mining_crude_petroleum_and_natural_gas ∷ []
overridden_spend_categories gas_supply = SpendCategory.gas_supply ∷ []
overridden_spend_categories railway_transport_passengers =
    SpendCategory.railway_transport_passengers ∷ []
overridden_spend_categories bus_transport_service = SpendCategory.bus_transport_service ∷ []
overridden_spend_categories hired_car_and_taxi_transport =
    SpendCategory.hired_car_and_taxi_transport ∷ []
overridden_spend_categories self_transport_passengers = SpendCategory.self_transport_passengers ∷ []

unfoldable pub derive_data_source_kind : (spend_count activity_count : ℕ) → CanonicalDataSourceKind
derive_data_source_kind spend_count activity_count =
    if ltb 0 spend_count && ltb 0 activity_count
    then hybrid
    else if ltb 0 activity_count
    then activity
    else spend

module _ {N : Type 0} (ops : Numbers N) where
  abbrev pub number_zero : N
  number_zero = ops.literal 0 0

  abbrev pub number_one : N
  number_one = ops.literal 1 0

  -- A factor times `EMISSION_FACTOR_SCALE`.
  abbrev pub scaled : Decimal → N
  scaled d = ops.mul (ops.literal d.mantissa d.places) (ops.literal 1 3)

  -- `Math.max(min, Math.min(max, value))`, where only the value may be NaN, which is then the result.
  unfoldable pub clamp : N → N → N → N
  clamp value low high =
      let limit = if ops.le value value then high else value in
      let least = if ops.le value high then value else limit in
      if ops.le least low then low else least

  unfoldable pub calculate_dynamic_multiplier : N → N → N
  calculate_dynamic_multiplier current past =
      if ops.le past number_zero
      then number_one
      else let ratio = ops.div (ops.sub past current) past in
        clamp (ops.add number_one (ops.mul ratio (ops.literal 5 1))) (ops.literal 5 1)
          (ops.literal 15 1)

  abbrev is_renewable_electricity : ActivityCategory → Option Bool → Bool
  is_renewable_electricity electricity (some true) = true
  is_renewable_electricity _ _ = false

  unfoldable pub calculate_activity_emission : NormalizedActivityRecord N → N
  calculate_activity_emission a =
      if is_renewable_electricity a.category a.is_renewable
      then number_zero
      else ops.mul a.value (scaled (activity_grams a.category))

  -- `spendEmissionsByCategory`, an object with a key for each category that was assigned.
  abbrev pub Emissions : Type 0
  Emissions = List (SpendCategory × N)

  unfoldable pub emission_of : SpendCategory → Emissions → N
  emission_of category [] = number_zero
  emission_of category ((other, e) ∷ rest) =
      if spend_index other == spend_index category then e else emission_of category rest

  unfoldable pub set_emission : SpendCategory → N → Emissions → Emissions
  set_emission category e [] = (category, e) ∷ []
  set_emission category e ((other, old) ∷ rest) =
      let later = (other, old) ∷ set_emission category e rest in
      if spend_index other == spend_index category then (other, e) ∷ rest else later

  -- The first loop: the emissions by category, and their total.
  unfoldable pub add_spends : List (NormalizedSpendRecord N) → Emissions → N → Emissions × N
  add_spends [] emissions total = (emissions, total)
  add_spends (s ∷ spends) emissions total =
      let emission = ops.mul s.amount (scaled (spend_grams s.category)) in
      add_spends spends
        (set_emission s.category (ops.add (emission_of s.category emissions) emission) emissions)
        (ops.add total emission)

  unfoldable pub sum_emissions : List SpendCategory → Emissions → N → N
  sum_emissions [] emissions total = total
  sum_emissions (c ∷ categories) emissions total =
      sum_emissions categories emissions (ops.add total (emission_of c emissions))

  unfoldable pub clear_emissions : List SpendCategory → Emissions → Emissions
  clear_emissions [] emissions = emissions
  clear_emissions (c ∷ categories) emissions =
      clear_emissions categories (set_emission c number_zero emissions)

  -- The variables of the second loop.
  pub record Totals : Type 0 where
    pub emissions : List (SpendCategory × N)
    pub final_total_emissions : N
    pub base_reduction : N

  -- One turn of the second loop.
  unfoldable pub add_activity : NormalizedActivityRecord N → Totals → Totals
  add_activity a t =
      let activity_emission = calculate_activity_emission a in
      let overridden = overridden_spend_categories a.category in
      let overwritten = sum_emissions overridden t.emissions number_zero in
      let difference = ops.sub overwritten activity_emission in
      if ops.lt number_zero overwritten
      then record {
        emissions = clear_emissions overridden t.emissions;
        final_total_emissions =
            ops.add (ops.sub t.final_total_emissions overwritten) activity_emission;
        base_reduction =
            if ops.lt number_zero difference
            then ops.add t.base_reduction difference
            else t.base_reduction;
      }
      else record t { final_total_emissions = ops.add t.final_total_emissions activity_emission }

  unfoldable pub add_activities : List (NormalizedActivityRecord N) → Totals → Totals
  add_activities [] t = t
  add_activities (a ∷ activities) t = add_activities activities (add_activity a t)

  unfoldable pub floor_total : N → N
  floor_total total = if ops.le total number_zero then number_one else total

  -- `calculateFootprint`, at the time `now`.
  unfoldable pub calculate_footprint :
      List (NormalizedSpendRecord N) → List (NormalizedActivityRecord N) → N → ℕ → LcaResult N
  calculate_footprint spends activities past now =
      let (emissions, baseline) = add_spends spends [] number_zero in
      let totals = add_activities activities (record {
        emissions = emissions;
        final_total_emissions = baseline;
        base_reduction = number_zero;
      }) in
      let total = floor_total totals.final_total_emissions in
      let multiplier = calculate_dynamic_multiplier total past in
      record {
        total_emissions = ops.round_to total 2;
        base_reduction = ops.round_to totals.base_reduction 2;
        multiplier_applied = ops.round_to multiplier 4;
        final_rewards = ops.round_to (ops.mul totals.base_reduction multiplier) 2;
        timestamp = now;
      }
