-- ===== src/Ingestion/Submission/Submitted.antt =====
-- backend/src/modules/ingestion/footprint-orchestration.ts with jobs/runner.ts and oracle/client.ts: what
-- is made of the first job that a submission enqueues.
use personal_carbon_footprin.Prelude.{
  ℕ, some, List, [], false, ◌≡◌, length, All, IsByte, str_eq, ok, throw, error, to_double,
}
use personal_carbon_footprin.Lca.Numbers.{Numbers}
use personal_carbon_footprin.Jobs.Payloads.{SubmitVerifiedFootprintJobPayload}
use personal_carbon_footprin.Oracle.Client.{
  ProtocolConfigSnapshot, load_protocol_config, quote_reward_lamports, submission, Sending,
  OracleSubmissionResult, signed, find_footprint_commitment_pda,
}
use personal_carbon_footprin.Db.Tables.{Db}
use personal_carbon_footprin.Ingestion.Submission.{Environment}
use personal_carbon_footprin.Ingestion.Submission.Service.{
  Assessment, to_grams, hash_commitment_preimage,
}

-- A hash is 32 bytes.
abbrev pub IsHash : List ℕ → Type 0
IsHash bytes = (length bytes ≡ 32) × All IsByte bytes

module _ {N S : Type 0} (ops : Numbers N) (env : Environment N S) where
  -- What the first job's fields come from.
  pub record IsSound (a : Assessment N) : Type 0 where
    pub user_named : str_eq a.submission.user_pubkey "" ≡ false
    pub user_parsed : env.new_public_key a.submission.user_pubkey ≡ some a.user
    pub hashed : a.commitment_hash ≡ hash_commitment_preimage ops env a.commitment
    pub config : ProtocolConfigSnapshot
    pub loaded : load_protocol_config env.transport ≡ ok config
    pub quoted :
        a.reward_delta_lamports
        ≡ quote_reward_lamports config.reward_policy (to_grams ops env a.lca_result.base_reduction)

  -- What the first job of a submission asks the chain for.
  abbrev pub assessed_payload : Assessment N → ℕ → SubmitVerifiedFootprintJobPayload
  assessed_payload a period_key = record {
    user = a.user;
    period_key = period_key;
    commitment_hash = a.commitment_hash;
    source_kind = a.commitment.data_source_kind;
    emission_delta_grams = to_grams ops env a.lca_result.total_emissions;
    reduction_delta_grams = to_grams ops env a.lca_result.base_reduction;
    reward_delta_lamports = to_double a.reward_delta_lamports;
  }

  -- What the client does with a payload that it accepts.
  abbrev pub accepted :
      ProtocolConfigSnapshot → SubmitVerifiedFootprintJobPayload → Sending OracleSubmissionResult
  accepted config payload =
      signed env.transport (submission env.transport config payload) (λ signature. record {
        signature = signature;
        footprint_commitment =
            find_footprint_commitment_pda env.transport payload.user payload.period_key
              payload.commitment_hash;
      })

  -- What the client does with a payload whose reward is above the quote.
  abbrev pub refused : Sending OracleSubmissionResult
  refused = (throw (error "Reward delta exceeds on-chain reward policy cap."), [])
