-- ===== src/Frontend/Flow/Shapes.antt =====
-- frontend/src/lib/domain/state.ts: what a value is that passes `isVerifiedSubmissionSnapshot`.
use personal_carbon_footprin.Prelude.{
  String, Option, none, some, true, List, [], ◌∷◌, ◌≡◌, refl, ap, arith, Bool-cases, inl, inr,
  str_eq,
}
use mathlib.Core.Path.{subst}
use personal_carbon_footprin.Frontend.Flow.{
  LocalStorage, get_item, create_verified_snapshot_storage_key,
}
use personal_carbon_footprin.Frontend.Flow.Stored.{
  Json, null, boolean, number, text, array, object, JsonItems, no_items, item, JsonFields,
  JsonCodec, get_field, is_text, is_number, all_texts, is_text_array, text_items,
  is_verified_submission_snapshot, checked_value, parse_item, read_stored_verified_snapshot,
}

module _ {N : Type 0} where
  abbrev pub HasText : String → JsonFields N → Type 0
  HasText name fields = (s : String) × (get_field name fields ≡ text s)

  abbrev pub HasNumber : String → JsonFields N → Type 0
  HasNumber name fields = (n : N) × (get_field name fields ≡ number n)

  abbrev pub HasTexts : String → JsonFields N → Type 0
  HasTexts name fields = (texts : List String) × (get_field name fields ≡ array (text_items texts))

  -- An object with the fields of a snapshot, each of its type.
  pub record IsSnapshot (value : Json N) : Type 0 where
    pub candidate : JsonFields N
    pub is_object : value ≡ object candidate
    pub request_id : HasText "requestId" candidate
    pub data_hash : HasText "dataHash" candidate
    pub metadata_uri : HasText "metadataUri" candidate
    pub metadata_version : HasNumber "metadataVersion" candidate
    pub total_emissions_kg_co2e : HasNumber "totalEmissionsKgCo2e" candidate
    pub base_reduction_kg_co2e : HasNumber "baseReductionKgCo2e" candidate
    pub final_rewards : HasNumber "finalRewards" candidate
    pub multiplier_applied : HasNumber "multiplierApplied" candidate
    pub categories : HasTexts "categories" candidate
    pub submitted_at_iso : HasText "submittedAtIso" candidate

  text_of : (v : Json N) → is_text v ≡ true → (s : String) × (v ≡ text s)
  text_of (text s) h = (s, refl)
  text_of null h = cc
  text_of (boolean b) h = cc
  text_of (number n) h = cc
  text_of (array xs) h = cc
  text_of (object xs) h = cc

  number_of : (v : Json N) → is_number v ≡ true → (n : N) × (v ≡ number n)
  number_of (number n) h = (n, refl)
  number_of null h = cc
  number_of (boolean b) h = cc
  number_of (text s) h = cc
  number_of (array xs) h = cc
  number_of (object xs) h = cc

  items_of :
      (xs : JsonItems N) → all_texts xs ≡ true → (texts : List String) × (xs ≡ text_items texts)
  items_of no_items h = ([], refl)
  items_of (item (text s) xs) h =
      let (texts, same) = items_of xs h in (s ∷ texts, ap (item (text s)) same)
  items_of (item null xs) h = cc
  items_of (item (boolean b) xs) h = cc
  items_of (item (number n) xs) h = cc
  items_of (item (array ys) xs) h = cc
  items_of (item (object ys) xs) h = cc

  texts_of :
      (v : Json N) → is_text_array v ≡ true → (texts : List String) × (v ≡ array (text_items texts))
  texts_of (array xs) h = let (texts, same) = items_of xs h in (texts, ap array same)
  texts_of null h = cc
  texts_of (boolean b) h = cc
  texts_of (number n) h = cc
  texts_of (text s) h = cc
  texts_of (object xs) h = cc

  pub is_verified-IsSnapshot :
      (v : Json N) → is_verified_submission_snapshot v ≡ true → IsSnapshot v
  unfolding is_verified_submission_snapshot
  is_verified-IsSnapshot (object candidate) h = record {
    candidate = candidate;
    is_object = refl;
    request_id = text_of _ (ground (arith, h));
    data_hash = text_of _ (ground (arith, h));
    metadata_uri = text_of _ (ground (arith, h));
    metadata_version = number_of _ (ground (arith, h));
    total_emissions_kg_co2e = number_of _ (ground (arith, h));
    base_reduction_kg_co2e = number_of _ (ground (arith, h));
    final_rewards = number_of _ (ground (arith, h));
    multiplier_applied = number_of _ (ground (arith, h));
    categories = texts_of _ (ground (arith, h));
    submitted_at_iso = text_of _ (ground (arith, h));
  }
  is_verified-IsSnapshot null h = cc
  is_verified-IsSnapshot (boolean b) h = cc
  is_verified-IsSnapshot (number n) h = cc
  is_verified-IsSnapshot (text s) h = cc
  is_verified-IsSnapshot (array xs) h = cc

module _ {N : Type 0} (codec : JsonCodec N) where
  checked_value-IsSnapshot :
      (parsed : Option (Json N)) (value : Json N)
      → checked_value codec parsed ≡ some value
      → IsSnapshot value
  checked_value-IsSnapshot none value h = cc
  checked_value-IsSnapshot (some other) value h =
      elim (Bool-cases (is_verified_submission_snapshot other)) [
        | inl e ↦
            let same : other ≡ value = ground (arith, e, h) in
            subst IsSnapshot same (is_verified-IsSnapshot other e)
        | inr e ↦ absurd (ground (arith, e, h))
      ]

  parse_item-IsSnapshot :
      (raw : Option String) (value : Json N) → parse_item codec raw ≡ some value → IsSnapshot value
  parse_item-IsSnapshot none value h = cc
  parse_item-IsSnapshot (some raw) value h = elim (Bool-cases (str_eq raw "")) [
    | inl e ↦ absurd (ground (arith, e, h))
    | inr e ↦ checked_value-IsSnapshot (codec.parse raw) value (rw e at h)
  ]

  -- Whatever is stored, what is read is an object with the fields of a snapshot.
  pub read_stored_verified_snapshot-IsSnapshot :
      (wallet : Option String) (storage : LocalStorage) (value : Json N)
      → read_stored_verified_snapshot codec wallet storage ≡ some value
      → IsSnapshot value
  unfolding read_stored_verified_snapshot
  read_stored_verified_snapshot-IsSnapshot none storage value h = cc
  read_stored_verified_snapshot-IsSnapshot (some wallet) storage value h =
      elim (Bool-cases (str_eq wallet "")) [
        | inl e ↦ absurd (ground (arith, e, h))
        | inr e ↦
            parse_item-IsSnapshot (get_item (create_verified_snapshot_storage_key wallet) storage)
              value (rw e at h)
      ]
