-- ===== src/Lca/Commitment.antt =====
-- backend/src/modules/lca/orchestrator.ts: `buildCommitmentPayload`. The schema version is the
-- constant 'commitment-preimage@v1'.
use personal_carbon_footprin.Prelude.{ℕ, String, Option}
use personal_carbon_footprin.Lca.Kinds.{CanonicalDataSourceKind}
use personal_carbon_footprin.Lca.Orchestrator.{LcaResult}
use personal_carbon_footprin.Lca.Request.{SourceSummary, NormalizedLcaInput}

pub record CommitmentPreimageV1 (N : Type 0) : Type 0 where
  pub period_key : Option String
  pub data_source_kind : CanonicalDataSourceKind
  pub total_emissions_kg_co2e : N
  pub base_reduction_kg_co2e : N
  pub final_rewards : N
  pub multiplier_applied : N
  pub historical_baseline_kg_co2e : N
  pub source_summary : SourceSummary
  pub timestamp : ℕ

unfoldable pub build_commitment_payload :
    {N : Type 0} → LcaResult N → NormalizedLcaInput N → CommitmentPreimageV1 N
build_commitment_payload result input = record {
  period_key = input.period_key;
  data_source_kind = input.data_source_kind;
  total_emissions_kg_co2e = result.total_emissions;
  base_reduction_kg_co2e = result.base_reduction;
  final_rewards = result.final_rewards;
  multiplier_applied = result.multiplier_applied;
  historical_baseline_kg_co2e = input.history;
  source_summary = input.source_summary;
  timestamp = result.timestamp;
}
