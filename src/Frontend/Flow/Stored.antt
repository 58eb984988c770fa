-- ===== src/Frontend/Flow/Stored.antt =====
-- frontend/src/lib/domain/state.ts: the snapshot that is stored of a wallet, as JSON text in
-- `window.localStorage`. `JSON.stringify` and `JSON.parse` are parameters, the value in between is not.
use personal_carbon_footprin.Prelude.{
  String, Option, none, some, Bool, true, false, List, [], ◌∷◌, if◌then◌else◌, ◌&&◌, str_eq,
}
use personal_carbon_footprin.Lca.Numbers.{Numbers}
use personal_carbon_footprin.Metadata.{set_object}
use personal_carbon_footprin.Frontend.Flow.{
  VerifiedSubmissionSnapshot, LocalStorage, get_item, create_verified_snapshot_storage_key,
}

-- A value that JSON has; a key of an object is there once.
mutual
  pub data Json (N : Type 0) : Type 0 where
    null : Json N
    boolean : Bool → Json N
    number : N → Json N
    text : String → Json N
    array : JsonItems N → Json N
    object : JsonFields N → Json N

  pub data JsonItems (N : Type 0) : Type 0 where
    no_items : JsonItems N
    item : Json N → JsonItems N → JsonItems N

  pub data JsonFields (N : Type 0) : Type 0 where
    no_fields : JsonFields N
    field : String → Json N → JsonFields N → JsonFields N

-- `JSON.stringify`, and `JSON.parse`, which is `none` where it throws.
pub record JsonCodec (N : Type 0) : Type 0 where
  pub stringify : Json N → String
  pub parse : String → Option (Json N)

module _ {N : Type 0} where
  -- `candidate[name]`; a field that is missing is undefined, which `null` stands for.
  unfoldable pub get_field : String → JsonFields N → Json N
  get_field name no_fields = null
  get_field name (field other value fields) =
      let rest = get_field name fields in if str_eq other name then value else rest

  abbrev pub is_text : Json N → Bool
  is_text (text s) = true
  is_text _ = false

  abbrev pub is_number : Json N → Bool
  is_number (number n) = true
  is_number _ = false

  abbrev pub all_texts : JsonItems N → Bool
  all_texts no_items = true
  all_texts (item value items) = is_text value && all_texts items

  abbrev pub is_text_array : Json N → Bool
  is_text_array (array items) = all_texts items
  is_text_array _ = false

  -- `isVerifiedSubmissionSnapshot`. An array is an object too, but has none of the fields.
  unfoldable pub is_verified_submission_snapshot : Json N → Bool
  is_verified_submission_snapshot (object candidate) =
      is_text (get_field "requestId" candidate)
      && is_text (get_field "dataHash" candidate)
      && is_text (get_field "metadataUri" candidate)
      && is_number (get_field "metadataVersion" candidate)
      && is_number (get_field "totalEmissionsKgCo2e" candidate)
      && is_number (get_field "baseReductionKgCo2e" candidate)
      && is_number (get_field "finalRewards" candidate)
      && is_number (get_field "multiplierApplied" candidate)
      && is_text_array (get_field "categories" candidate)
      && is_text (get_field "submittedAtIso" candidate)
  is_verified_submission_snapshot _ = false

  abbrev pub text_items : List String → JsonItems N
  text_items [] = no_items
  text_items (s ∷ texts) = item (text s) (text_items texts)

  -- The object that a snapshot is.
  abbrev pub snapshot_fields : Numbers N → VerifiedSubmissionSnapshot N → JsonFields N
  snapshot_fields ops s = field "requestId" (text s.request_id) (
      field "dataHash" (text s.data_hash) (
        field "metadataUri" (text s.metadata_uri) (
          field "metadataVersion" (number (ops.literal s.metadata_version 0)) (
            field "totalEmissionsKgCo2e" (number s.total_emissions_kg_co2e) (
              field "baseReductionKgCo2e" (number s.base_reduction_kg_co2e) (
                field "finalRewards" (number s.final_rewards) (
                  field "multiplierApplied" (number s.multiplier_applied) (
                    field "categories" (array (text_items s.categories))
                      (field "submittedAtIso" (text s.submitted_at_iso) no_fields)))))))))

module _ {N : Type 0} (codec : JsonCodec N) where
  abbrev pub checked_value : Option (Json N) → Option (Json N)
  checked_value none = none
  checked_value (some value) = if is_verified_submission_snapshot value then some value else none

  abbrev pub parse_item : Option String → Option (Json N)
  parse_item none = none
  parse_item (some raw) = if str_eq raw "" then none else checked_value (codec.parse raw)

  -- In a browser, where there is a window. The value is what `JSON.parse` gives.
  unfoldable pub read_stored_verified_snapshot : Option String → LocalStorage → Option (Json N)
  read_stored_verified_snapshot none storage = none
  read_stored_verified_snapshot (some wallet_address) storage =
      if str_eq wallet_address ""
      then none
      else parse_item (get_item (create_verified_snapshot_storage_key wallet_address) storage)

  unfoldable pub persist_verified_snapshot :
      Numbers N
      → (wallet_address : String) → VerifiedSubmissionSnapshot N
      → LocalStorage
      → LocalStorage
  persist_verified_snapshot ops wallet_address snapshot storage =
      set_object (create_verified_snapshot_storage_key wallet_address)
        (codec.stringify (object (snapshot_fields ops snapshot))) storage
