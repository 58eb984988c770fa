-- ===== src/Metadata.antt =====
-- backend/src/modules/metadata/publisher.ts: the document on a user, and where it is published.
use personal_carbon_footprin.Prelude.{
  ℕ, ℤ, String, ◌+++◌, Option, List, [], ◌∷◌, hex_text, str_eq, if◌then◌else◌, Outcome, ok, throw,
}
use personal_carbon_footprin.Lca.Commitment.{CommitmentPreimageV1}
use personal_carbon_footprin.Ingestion.Orchestration.{Rank}

pub record PublicProfileSnapshot : Type 0 where
  pub display_alias : String
  pub country_code : String
  pub avatar_uri : String

pub record AggregateStateSnapshot (N : Type 0) : Type 0 where
  pub total_emissions_kg_co2e : N
  pub total_reductions_kg_co2e : N
  pub pending_reward_lamports : ℤ
  pub rank : Rank
  pub latest_period_key : Option String

-- The schema version is the constant 'green-reputation-metadata@v1'. The pending reward is written in
-- decimals, which is left to the serializer here.
pub record MetadataDocumentV1 (N : Type 0) : Type 0 where
  pub profile : PublicProfileSnapshot
  pub aggregate_state : AggregateStateSnapshot N
  pub latest_commitment : CommitmentPreimageV1 N

pub record PublishMetadataResult : Type 0 where
  pub uri : String
  pub metadata_version : ℕ
  pub metadata_uri_hash : List ℕ

-- `MetadataStorageProvider`, on a storage `S`: the address of the object that was put.
pub record MetadataStorageProvider (S : Type 0) : Type 0 where
  pub put_object : (key body : String) → S → Outcome String × S

unfoldable pub build_metadata_document :
    {N : Type 0}
    → PublicProfileSnapshot
    → AggregateStateSnapshot N
    → CommitmentPreimageV1 N
    → MetadataDocumentV1 N
build_metadata_document profile aggregate_state latest_commitment = record {
  profile = profile;
  aggregate_state = aggregate_state;
  latest_commitment = latest_commitment;
}

-- What follows the upload.
abbrev pub published :
    {S : Type 0} → (String → List ℕ) → ℕ → Outcome String × S → Outcome PublishMetadataResult × S
published sha256 metadata_version (throw e, storage) = (throw e, storage)
published sha256 metadata_version (ok uri, storage) = (
  ok (record { uri = uri; metadata_version = metadata_version; metadata_uri_hash = sha256 uri }),
  storage,
)

-- `publishMetadata`, with `JSON.stringify` and the SHA-256 digest of a text.
unfoldable pub publish_metadata :
    {N S : Type 0}
    → MetadataStorageProvider S
    → (stringify : MetadataDocumentV1 N → String) → (sha256 : String → List ℕ)
    → MetadataDocumentV1 N
    → (metadata_version : ℕ) → S
    → Outcome PublishMetadataResult × S
publish_metadata provider stringify sha256 document metadata_version storage =
    let body = stringify document in
    published sha256 metadata_version
      (provider.put_object (hex_text (sha256 body) +++ ".json") body storage)

-- `InMemoryMetadataStorageProvider`: a map from keys to bodies, with a key once.
unfoldable pub set_object : (key body : String) → List (String × String) → List (String × String)
set_object key body [] = (key, body) ∷ []
set_object key body ((other, old) ∷ objects) =
    let later = (other, old) ∷ set_object key body objects in
    if str_eq other key then (other, body) ∷ objects else later

-- `base_uri` is without the slash that its end may have.
unfoldable pub in_memory_storage :
    (base_uri : String) → MetadataStorageProvider (List (String × String))
in_memory_storage base_uri = record {
  put_object = λ key body objects. (ok ((base_uri +++ "/") +++ key), set_object key body objects);
}
