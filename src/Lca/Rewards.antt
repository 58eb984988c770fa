-- ===== src/Lca/Rewards.antt =====
-- backend/src/modules/lca/orchestrator.ts: what `calculateFootprint` gives.
use personal_carbon_footprin.Prelude.{◌≡◌, true}
use personal_carbon_footprin.Lca.Numbers.{Numbers, NumberLaws}
use personal_carbon_footprin.Lca.Orchestrator.{number_zero}

module _ {N : Type 0} (ops : Numbers N) (laws : NumberLaws ops) where
  abbrev IsNonneg : N → Type 0
  IsNonneg a = ops.le (number_zero ops) a ≡ true
