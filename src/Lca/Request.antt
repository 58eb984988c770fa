-- ===== src/Lca/Request.antt =====
-- backend/src/modules/lca/types.ts and orchestrator.ts: the request as it is sent, its schema with the
-- defaults, and `normalizeInput`. A value of the schema's shape is a record here; one of another shape
-- is refused in the same way, and is not represented.
use personal_carbon_footprin.Prelude.{
  ℕ, String, Option, none, some, Bool, true, false, List, [], ◌∷◌, ◌++◌, length, if◌then◌else◌,
  ◌&&◌, not, or_else, str_eq, str_lt, exists_where, Outcome, ok, throw, error,
}
use personal_carbon_footprin.Lca.Kinds.{
  CanonicalDataSourceKind, ActivityCategory, ActivityUnit, InputOrigin, manual, ocr, open_banking,
  api_activity, electricity, gas_supply, coal_mining_crude_petroleum_and_natural_gas,
  railway_transport_passengers, bus_transport_service, hired_car_and_taxi_transport,
  self_transport_passengers,
}
use personal_carbon_footprin.Lca.SpendCategory.{SpendCategory}
use personal_carbon_footprin.Lca.SpendNames.{spend_name}
use personal_carbon_footprin.Lca.Numbers.{Numbers, finite_nonnegative}
use personal_carbon_footprin.Lca.Orchestrator.{
  NormalizedSpendRecord, NormalizedActivityRecord, derive_data_source_kind,
}

unfoldable pub activity_name : ActivityCategory → String
activity_name coal_mining_crude_petroleum_and_natural_gas = "CoalMiningCrudePetroleumAndNaturalGas"
activity_name electricity = "Electricity"
activity_name gas_supply = "GasSupply"
activity_name railway_transport_passengers = "RailwayTransportPassengers"
activity_name bus_transport_service = "BusTransportService"
activity_name hired_car_and_taxi_transport = "HiredCarAndTaxiTransport"
activity_name self_transport_passengers = "SelfTransportPassengers"

unfoldable pub origin_name : InputOrigin → String
origin_name manual = "manual"
origin_name ocr = "ocr"
origin_name open_banking = "open_banking"
origin_name api_activity = "api_activity"

-- `spendEntrySources` and `activityEntrySources`.
abbrev pub is_spend_source : InputOrigin → Bool
is_spend_source api_activity = false
is_spend_source _ = true

abbrev pub is_activity_source : InputOrigin → Bool
is_activity_source manual = true
is_activity_source api_activity = true
is_activity_source _ = false

pub record SpendEntry (N : Type 0) : Type 0 where
  pub spend_id : String
  pub category : SpendCategory
  pub amount : N
  pub source : Option InputOrigin
  pub proof_hash : Option String

pub record ActivityEntry (N : Type 0) : Type 0 where
  pub activity_id : String
  pub category : ActivityCategory
  pub value : N
  pub unit : ActivityUnit
  pub source : Option InputOrigin
  pub is_renewable : Option Bool
  pub proof_hash : Option String

-- `HistoricalData` is its one number.
pub record RawLcaRequest (N : Type 0) : Type 0 where
  pub period_key : Option String
  pub spend_entries : Option (List (SpendEntry N))
  pub activity_entries : Option (List (ActivityEntry N))
  pub history : Option N

pub record SourceSummary : Type 0 where
  pub spend_record_count : ℕ
  pub activity_record_count : ℕ
  pub categories : List String
  pub origins : List String
  pub overridden_categories : List String

pub record NormalizedLcaInput (N : Type 0) : Type 0 where
  pub period_key : Option String
  pub spend_data : List (NormalizedSpendRecord N)
  pub activity_data : List (NormalizedActivityRecord N)
  pub history : N
  pub data_source_kind : CanonicalDataSourceKind
  pub source_summary : SourceSummary

-- `Set.add`, in the order of insertion.
unfoldable pub set_add : String → List String → List String
set_add text texts = if exists_where (str_eq text) texts then texts else texts ++ text ∷ []

unfoldable pub set_of : List String → List String → List String
set_of [] known = known
set_of (text ∷ texts) known = set_of texts (set_add text known)

-- `sort()`, by insertion.
unfoldable pub insert_text : String → List String → List String
insert_text text [] = text ∷ []
insert_text text (other ∷ texts) =
    let later = other ∷ insert_text text texts in
    if str_lt other text then later else text ∷ other ∷ texts

unfoldable pub sort_texts : List String → List String
sort_texts [] = []
sort_texts (text ∷ texts) = insert_text text (sort_texts texts)

abbrev pub sorted_set : List String → List String
sorted_set texts = sort_texts (set_of texts [])

module _ {N : Type 0} (ops : Numbers N) where
  -- The checks of `spendEntrySchema` and `activityEntrySchema`.
  abbrev optional_text : Option String → Bool
  optional_text none = true
  optional_text (some text) = not (str_eq text "")

  unfoldable pub spend_entry_ok : SpendEntry N → Bool
  spend_entry_ok e =
      not (str_eq e.spend_id "")
      && finite_nonnegative ops e.amount
      && is_spend_source (or_else e.source ocr)
      && optional_text e.proof_hash

  unfoldable pub activity_entry_ok : ActivityEntry N → Bool
  activity_entry_ok e =
      not (str_eq e.activity_id "")
      && finite_nonnegative ops e.value
      && is_activity_source (or_else e.source manual)
      && optional_text e.proof_hash

  abbrev all_ok : {A : Type 0} → (A → Bool) → List A → Bool
  all_ok test [] = true
  all_ok test (x ∷ xs) = test x && all_ok test xs

  -- `rawLcaRequestSchema` accepts the request.
  unfoldable pub request_ok : RawLcaRequest N → Bool
  request_ok r =
      optional_text r.period_key
      && all_ok spend_entry_ok (or_else r.spend_entries [])
      && all_ok activity_entry_ok (or_else r.activity_entries [])
      && finite_nonnegative ops (or_else r.history (ops.literal 0 0))

  unfoldable pub normalize_spend : SpendEntry N → NormalizedSpendRecord N
  normalize_spend e = record {
    source_id = e.spend_id;
    category = e.category;
    amount = e.amount;
    origin = or_else e.source ocr;
  }

  unfoldable pub normalize_activity : ActivityEntry N → NormalizedActivityRecord N
  normalize_activity e = record {
    source_id = e.activity_id;
    category = e.category;
    value = e.value;
    unit = e.unit;
    origin = or_else e.source manual;
    is_renewable = e.is_renewable;
  }

  -- The first loop over the entries collects these, the second goes on with them.
  abbrev pub spend_texts :
      (NormalizedSpendRecord N → String) → List (NormalizedSpendRecord N) → List String
  spend_texts text [] = []
  spend_texts text (s ∷ spends) = text s ∷ spend_texts text spends

  abbrev pub activity_texts :
      (NormalizedActivityRecord N → String) → List (NormalizedActivityRecord N) → List String
  activity_texts text [] = []
  activity_texts text (a ∷ activities) = text a ∷ activity_texts text activities

  abbrev normalize_spends : List (SpendEntry N) → List (NormalizedSpendRecord N)
  normalize_spends [] = []
  normalize_spends (e ∷ entries) = normalize_spend e ∷ normalize_spends entries

  abbrev normalize_activities : List (ActivityEntry N) → List (NormalizedActivityRecord N)
  normalize_activities [] = []
  normalize_activities (e ∷ entries) = normalize_activity e ∷ normalize_activities entries

  unfoldable pub summarize :
      List (NormalizedSpendRecord N) → List (NormalizedActivityRecord N) → SourceSummary
  summarize spends activities =
      let activity_names = activity_texts (λ a. activity_name a.category) activities in
      record {
        spend_record_count = length spends;
        activity_record_count = length activities;
        categories = sorted_set (spend_texts (λ s. spend_name s.category) spends ++ activity_names);
        origins = sorted_set (
            spend_texts (λ s. origin_name s.origin) spends
            ++ activity_texts (λ a. origin_name a.origin) activities);
        overridden_categories = sorted_set activity_names;
      }

  -- `normalizeInput`. What zod throws is an `Error` with this message.
  unfoldable pub normalize_input :
      (zod_message : String) → RawLcaRequest N → Outcome (NormalizedLcaInput N)
  normalize_input zod_message r =
      let spends = normalize_spends (or_else r.spend_entries []) in
      let activities = normalize_activities (or_else r.activity_entries []) in
      if request_ok r
      then ok (record {
        period_key = r.period_key;
        spend_data = spends;
        activity_data = activities;
        history = or_else r.history (ops.literal 0 0);
        data_source_kind = derive_data_source_kind (length spends) (length activities);
        source_summary = summarize spends activities;
      })
      else throw (error zod_message)
