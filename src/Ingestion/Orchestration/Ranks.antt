-- ===== src/Ingestion/Orchestration/Ranks.antt =====
-- backend/src/modules/ingestion/footprint-orchestration.ts: `deriveRank`.
use personal_carbon_footprin.Prelude.{ℕ, ◌≤◌, arith}
use personal_carbon_footprin.Oracle.Client.{RankThresholdsSnapshot}
use personal_carbon_footprin.Ingestion.Orchestration.{
  Rank, sprout, seedling, sapling, tree, forest, derive_rank,
}

abbrev pub rank_index : Rank → ℕ
rank_index sprout = 0
rank_index seedling = 1
rank_index sapling = 2
rank_index tree = 3
rank_index forest = 4

-- Who has reduced more never has a lower rank, whatever the thresholds are.
pub derive_rank_mono :
    (less more : ℕ) (thresholds : RankThresholdsSnapshot)
    → less ≤ more
    → rank_index (derive_rank less thresholds) ≤ rank_index (derive_rank more thresholds)
unfolding derive_rank
derive_rank_mono less more thresholds h = ground arith
