-- ===== src/Jobs/Payloads.antt =====
-- backend/src/modules/jobs/runner.ts: the functions that read the stored fields of a job.
pub mod Hashes
use personal_carbon_footprin.Prelude.{
  ℕ, ◌+◌, ◌-◌, ◌*◌, String, ◌+++◌, ◌&&◌, Option, none, some, List, [], ◌∷◌, if◌then◌else◌, leb,
  ◌==◌, str_eq, codes, length, JsError, terminal_job_error, Outcome, ◌>>=◌, ok, throw,
}
use personal_carbon_footprin.Lca.Kinds.{CanonicalDataSourceKind, spend, activity, hybrid}
use personal_carbon_footprin.Storage.{OracleJobRecord}

-- A key of @solana/web3.js, by its base58 text.
pub record PublicKey : Type 0 where
  pub base58 : String

abbrev pub invalid_job_payload : String → JsError
invalid_job_payload message = terminal_job_error "invalid_job_payload" message

-- `new PublicKey(value)`, which is not the program's; `none` where it throws.
abbrev pub NewPublicKey : Type 0
NewPublicKey = String → Option PublicKey

unfoldable pub parse_public_key : NewPublicKey → Option String → String → Outcome PublicKey
parse_public_key new_public_key none label =
    throw (invalid_job_payload (("Missing " +++ label) +++ "."))
parse_public_key new_public_key (some value) label =
    if str_eq value ""
    then throw (invalid_job_payload (("Missing " +++ label) +++ "."))
    else elim (new_public_key value) [
      | none ↦ throw (invalid_job_payload (("Invalid " +++ label) +++ "."))
      | some key ↦ ok key
    ]

-- The value of a hexadecimal digit, in either case.
unfoldable pub hex_value : ℕ → Option ℕ
hex_value c =
    if leb b'0' c && leb c b'9'
    then some (c - b'0')
    else if leb b'a' c && leb c b'f'
    then some (c - b'a' + 10)
    else if leb b'A' c && leb c b'F'
    then some (c - b'A' + 10)
    else none

-- `/^[a-f0-9]*$/i.test(text)` with `Buffer.from(text, 'hex')`, for a text of even length.
unfoldable pub hex_bytes : List ℕ → Option (List ℕ)
hex_bytes [] = some []
hex_bytes (high ∷ []) = none
hex_bytes (high ∷ low ∷ rest) =
    let bytes = hex_bytes rest in
    elim (hex_value high) [
      | none ↦ none
      | some a ↦ elim (hex_value low) [
        | none ↦ none
        | some b ↦ elim bytes [ none ↦ none | some bs ↦ some ((a * 16 + b) ∷ bs) ]
      ]
    ]

-- `value.startsWith('0x') ? value.slice(2) : value`.
unfoldable pub strip_0x : List ℕ → List ℕ
strip_0x (c ∷ d ∷ rest) = if c == b'0' && d == b'x' then rest else c ∷ d ∷ rest
strip_0x text = text

unfoldable pub parse_hash_text : List ℕ → Outcome (List ℕ)
parse_hash_text text =
    let normalized = strip_0x text in
    elim (hex_bytes normalized) [
      | none ↦ throw (invalid_job_payload "Hash payload must be a 32-byte hex string.")
      | some bytes ↦
          if length normalized == 64
          then ok bytes
          else throw (invalid_job_payload "Hash payload must be a 32-byte hex string.")
    ]

unfoldable pub parse_metadata_uri_hash : Option String → Outcome (List ℕ)
parse_metadata_uri_hash none = throw (invalid_job_payload "Missing 32-byte hash payload.")
parse_metadata_uri_hash (some value) =
    if str_eq value ""
    then throw (invalid_job_payload "Missing 32-byte hash payload.")
    else parse_hash_text (codes value)

unfoldable pub parse_source_kind : String → Outcome CanonicalDataSourceKind
parse_source_kind value =
    if str_eq value "spend"
    then ok spend
    else if str_eq value "activity"
    then ok activity
    else if str_eq value "hybrid"
    then ok hybrid
    else throw (invalid_job_payload ("Unsupported source kind: " +++ value))

-- backend/src/modules/oracle/client.ts: the payloads of the oracle client.
pub record SubmitVerifiedFootprintJobPayload : Type 0 where
  pub user : PublicKey
  pub period_key : ℕ
  pub commitment_hash : List ℕ
  pub source_kind : CanonicalDataSourceKind
  pub emission_delta_grams : ℕ
  pub reduction_delta_grams : ℕ
  pub reward_delta_lamports : ℕ

pub record SyncSbtStatePayload : Type 0 where
  pub user : PublicKey
  pub metadata_version : ℕ
  pub metadata_uri_hash : List ℕ

-- The fields that `parseSubmitVerifiedFootprintJob` requires.
pub record SubmitFields : Type 0 where
  pub period_key : ℕ
  pub commitment_hash : String
  pub source_kind : String
  pub emission_delta_grams : ℕ
  pub reduction_delta_grams : ℕ
  pub reward_delta_lamports : ℕ

require_fields :
    Option ℕ → Option String → Option String → Option ℕ → Option ℕ → Option ℕ → Outcome SubmitFields
require_fields (some p) (some h) (some k) (some e) (some d) (some l) = ok (record {
  period_key = p;
  commitment_hash = h;
  source_kind = k;
  emission_delta_grams = e;
  reduction_delta_grams = d;
  reward_delta_lamports = l;
})
require_fields _ _ _ _ _ _ =
    throw (invalid_job_payload "Missing required payload fields for submit_verified_footprint job.")

unfoldable pub parse_submit_verified_footprint_job :
    NewPublicKey → OracleJobRecord → Outcome SubmitVerifiedFootprintJobPayload
unfolding require_fields
parse_submit_verified_footprint_job new_public_key job = do
  fields ←
      require_fields job.period_key job.commitment_hash job.source_kind job.emission_delta_grams
        job.reduction_delta_grams job.reward_delta_lamports
  user ←
      parse_public_key new_public_key job.user_pubkey
        "user pubkey for submit_verified_footprint job"
  hash ← parse_metadata_uri_hash (some fields.commitment_hash)
  kind ← parse_source_kind fields.source_kind
  ok (record {
    user = user;
    period_key = fields.period_key;
    commitment_hash = hash;
    source_kind = kind;
    emission_delta_grams = fields.emission_delta_grams;
    reduction_delta_grams = fields.reduction_delta_grams;
    reward_delta_lamports = fields.reward_delta_lamports;
  })
