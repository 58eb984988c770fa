-- ===== src/Oracle/Client.antt =====
-- backend/src/modules/oracle/client.ts: `GreenReputationOracleClient`. The transport to the chain
-- and the addresses that @solana/web3.js derives are parameters.
use personal_carbon_footprin.Prelude.{
  ℕ, ℤ, ◌*◌, ◌/◌, String, Option, Bool, List, [], ◌∷◌, if◌then◌else◌, ltb, ◌||◌, str_eq, Outcome,
  ok, throw, error,
}
use personal_carbon_footprin.Lca.Kinds.{CanonicalDataSourceKind}
use personal_carbon_footprin.Jobs.Payloads.{
  PublicKey, SubmitVerifiedFootprintJobPayload, SyncSbtStatePayload,
}

pub record RewardPolicySnapshot : Type 0 where
  pub lamports_per_kg_reduced : ℕ
  pub minimum_reduction_grams : ℕ
  pub max_lamports_per_period : ℕ
  pub max_pending_lamports : ℕ

pub record RankThresholdsSnapshot : Type 0 where
  pub seedling_min_reduction_grams : ℕ
  pub sapling_min_reduction_grams : ℕ
  pub tree_min_reduction_grams : ℕ
  pub forest_min_reduction_grams : ℕ

pub record ProtocolConfigSnapshot : Type 0 where
  pub admin : PublicKey
  pub verifier : PublicKey
  pub metadata_update_authority : PublicKey
  pub treasury_authority : PublicKey
  pub reward_policy : RewardPolicySnapshot
  pub rank_thresholds : RankThresholdsSnapshot

pub record UserProfileSnapshot : Type 0 where
  pub user : PublicKey
  pub last_verified_at : ℤ
  pub metadata_version : ℕ
  pub emission_history : List ℕ

-- What the client derives addresses from.
pub data Seed : Type 0 where
  text : String → Seed
  key : PublicKey → Seed
  u64_le : ℕ → Seed
  bytes : List ℕ → Seed

pub record SubmitArgs : Type 0 where
  pub period_key : ℕ
  pub commitment_hash : List ℕ
  pub source_kind : CanonicalDataSourceKind
  pub emission_delta_grams : ℕ
  pub reduction_delta_grams : ℕ
  pub reward_delta_lamports : ℕ

-- The transactions that the transport is asked to send, each with its accounts.
pub data Transaction : Type 0 where
  submit :
      (protocol_config verifier user user_profile reward_treasury footprint_commitment : PublicKey)
      → SubmitArgs
      → Transaction
  sync :
      (protocol_config authority user_profile : PublicKey)
      → (metadata_version : ℕ) → (metadata_uri_hash : List ℕ) → Transaction
  fund :
      (protocol_config admin reward_treasury treasury_vault : PublicKey)
      → (amount_lamports : ℕ) → Transaction

-- `ProgramTransport`, with `PublicKey.findProgramAddressSync`.
pub record ProgramTransport : Type 0 where
  pub program_id : PublicKey
  pub signer_public_key : PublicKey
  pub find_program_address : List Seed → PublicKey → PublicKey
  pub fetch_protocol_config : PublicKey → Outcome ProtocolConfigSnapshot
  pub fetch_user_profile : PublicKey → Outcome (Option UserProfileSnapshot)
  pub send : Transaction → Outcome String

pub record OracleSubmissionResult : Type 0 where
  pub signature : String
  pub footprint_commitment : PublicKey

abbrev pub key_eq : PublicKey → PublicKey → Bool
key_eq a b = str_eq a.base58 b.base58

unfoldable pub quote_reward_lamports : RewardPolicySnapshot → ℕ → ℕ
quote_reward_lamports policy reduction_grams =
    let raw = (reduction_grams * policy.lamports_per_kg_reduced) / 1000 in
    if ltb reduction_grams policy.minimum_reduction_grams
    then 0
    else if ltb policy.max_lamports_per_period raw
    then policy.max_lamports_per_period
    else raw

abbrev pub find_protocol_config_pda : ProgramTransport → PublicKey
find_protocol_config_pda t = t.find_program_address (text "protocol-config" ∷ []) t.program_id

abbrev pub find_user_profile_pda : ProgramTransport → PublicKey → PublicKey
find_user_profile_pda t user =
    t.find_program_address (text "user-profile" ∷ key user ∷ []) t.program_id

abbrev pub find_footprint_commitment_pda : ProgramTransport → PublicKey → ℕ → List ℕ → PublicKey
find_footprint_commitment_pda t user period_key commitment_hash =
    t.find_program_address
      (text "footprint-commitment" ∷ key user ∷ u64_le period_key ∷ bytes commitment_hash ∷ [])
      t.program_id

abbrev pub find_reward_treasury_pda : ProgramTransport → PublicKey
find_reward_treasury_pda t = t.find_program_address (text "reward-treasury" ∷ []) t.program_id

abbrev pub find_treasury_vault_pda : ProgramTransport → PublicKey
find_treasury_vault_pda t = t.find_program_address (text "reward-treasury-vault" ∷ []) t.program_id

unfoldable pub load_protocol_config : ProgramTransport → Outcome ProtocolConfigSnapshot
load_protocol_config t = t.fetch_protocol_config (find_protocol_config_pda t)

unfoldable pub load_user_profile :
    ProgramTransport → PublicKey → Outcome (Option UserProfileSnapshot)
load_user_profile t user = t.fetch_user_profile (find_user_profile_pda t user)

-- A call's result, with the transactions that it asked the transport to send.
abbrev pub Sending : Type 0 → Type 0
Sending A = Outcome A × List Transaction

abbrev pub signed : {A : Type 0} → ProgramTransport → Transaction → (String → A) → Sending A
signed t transaction result = (
  elim (t.send transaction) [ throw e ↦ throw e | ok signature ↦ ok (result signature) ],
  transaction ∷ [],
)

-- The transaction of `submitVerifiedFootprintJob`.
abbrev pub submission :
    ProgramTransport → ProtocolConfigSnapshot → SubmitVerifiedFootprintJobPayload → Transaction
submission t config payload =
    submit (find_protocol_config_pda t) config.verifier payload.user
      (find_user_profile_pda t payload.user) (find_reward_treasury_pda t)
      (find_footprint_commitment_pda t payload.user payload.period_key payload.commitment_hash)
      (record {
        period_key = payload.period_key;
        commitment_hash = payload.commitment_hash;
        source_kind = payload.source_kind;
        emission_delta_grams = payload.emission_delta_grams;
        reduction_delta_grams = payload.reduction_delta_grams;
        reward_delta_lamports = payload.reward_delta_lamports;
      })

unfoldable pub submit_verified_footprint_job :
    ProgramTransport → SubmitVerifiedFootprintJobPayload → Sending OracleSubmissionResult
submit_verified_footprint_job t payload = elim (load_protocol_config t) [
  | throw e ↦ (throw e, [])
  | ok config ↦
      if key_eq t.signer_public_key config.verifier
      then if ltb (quote_reward_lamports config.reward_policy payload.reduction_delta_grams)
          payload.reward_delta_lamports
        then (throw (error "Reward delta exceeds on-chain reward policy cap."), [])
        else signed t (submission t config payload) (λ signature. record {
          signature = signature;
          footprint_commitment =
              find_footprint_commitment_pda t payload.user payload.period_key
                payload.commitment_hash;
        })
      else (throw (error "Configured signer is not the authorized verifier."), [])
]

abbrev pub can_sync_metadata : PublicKey → ProtocolConfigSnapshot → Bool
can_sync_metadata signer config =
    key_eq signer config.admin
    || key_eq signer config.verifier
    || key_eq signer config.metadata_update_authority

abbrev pub syncing : ProgramTransport → SyncSbtStatePayload → Transaction
syncing t payload =
    sync (find_protocol_config_pda t) t.signer_public_key (find_user_profile_pda t payload.user)
      payload.metadata_version payload.metadata_uri_hash

abbrev pub funding : ProgramTransport → ProtocolConfigSnapshot → ℕ → Transaction
funding t config amount_lamports =
    fund (find_protocol_config_pda t) config.admin (find_reward_treasury_pda t)
      (find_treasury_vault_pda t) amount_lamports

unfoldable pub sync_sbt_state : ProgramTransport → SyncSbtStatePayload → Sending String
sync_sbt_state t payload = elim (load_protocol_config t) [
  | throw e ↦ (throw e, [])
  | ok config ↦
      if can_sync_metadata t.signer_public_key config
      then signed t (syncing t payload) (λ signature. signature)
      else (throw (error "Configured signer is not authorized to sync metadata."), [])
]

unfoldable pub fund_treasury : ProgramTransport → ℕ → Sending String
fund_treasury t amount_lamports = elim (load_protocol_config t) [
  | throw e ↦ (throw e, [])
  | ok config ↦
      if key_eq t.signer_public_key config.admin
      then signed t (funding t config amount_lamports) (λ signature. signature)
      else (throw (error "Configured signer is not the protocol admin."), [])
]
