-- ===== src/Examples/Rewards.antt =====
-- The theorems on emissions, rewards and the oracle client, at a month of one household.
use personal_carbon_footprin.Prelude.{
  none, ℤ, pos, leb_ℤ, ◌*◌, ◌+◌, ◌≤◌, ◌<◌, ◌≡◌, ◌⊎◌, refl, true, some, List, [], ◌∷◌, JsError, ok,
  throw,
}
use personal_carbon_footprin.Lca.Kinds.{electricity, manual, kwh, spend}
use personal_carbon_footprin.Lca.SpendCategory.{SpendCategory}
use personal_carbon_footprin.Lca.Orchestrator.{
  NormalizedSpendRecord, NormalizedActivityRecord, calculate_dynamic_multiplier,
  calculate_footprint, LcaResult,
}
use personal_carbon_footprin.Lca.Multiplier.{calculate_dynamic_multiplier-antitone}
use personal_carbon_footprin.Jobs.Payloads.{
  PublicKey, SubmitVerifiedFootprintJobPayload, SyncSbtStatePayload,
}
use personal_carbon_footprin.Oracle.Client.{
  RewardPolicySnapshot, ProtocolConfigSnapshot, ProgramTransport, quote_reward_lamports,
  load_protocol_config, submission, syncing, submit_verified_footprint_job, sync_sbt_state,
}
use personal_carbon_footprin.Oracle.Reward.{quote_reward_lamports_lem}
use personal_carbon_footprin.Oracle.Authority.{
  IsMetadataSigner, submit_verified_footprint_job_lem, sync_sbt_state_lem,
}
use personal_carbon_footprin.Examples.SignedPoint.{signed_point, signed_point-laws}

calculate_dynamic_multiplier-antitone_example :
    leb_ℤ
      (calculate_dynamic_multiplier signed_point (pos 9000000) (pos 5000000))
      (calculate_dynamic_multiplier signed_point (pos 6000000) (pos 5000000))
    ≡ true
calculate_dynamic_multiplier-antitone_example =
    calculate_dynamic_multiplier-antitone signed_point signed_point-laws (pos 6000000) (pos 9000000)
      (pos 5000000) refl refl

abbrev spends : List (NormalizedSpendRecord ℤ)
spends =
    (record {
      source_id = "s1";
      category = SpendCategory.electricity;
      amount = pos 80000000;
      origin = manual;
    })
    ∷ []

abbrev activities : List (NormalizedActivityRecord ℤ)
activities =
    (record {
      source_id = "a1";
      category = electricity;
      value = pos 1000000;
      unit = kwh;
      origin = manual;
      is_renewable = some true;
    })
    ∷ (record {
      source_id = "a2";
      category = electricity;
      value = pos 2000000;
      unit = kwh;
      origin = manual;
      is_renewable = none;
    })
    ∷ []

abbrev footprint : LcaResult ℤ
footprint = calculate_footprint signed_point spends activities (pos 5000000) 0

abbrev policy : RewardPolicySnapshot
policy = record {
  lamports_per_kg_reduced = 1500;
  minimum_reduction_grams = 100;
  max_lamports_per_period = 4000;
  max_pending_lamports = 9000;
}

quote_reward_lamports_lem_example :
    (quote_reward_lamports policy 1234 ≤ 4000)
    × (1000 * quote_reward_lamports policy 1234 ≤ 1234 * 1500)
    × (1234 < 100 → quote_reward_lamports policy 1234 ≡ 0)
    × (100 ≤ 1234
        → quote_reward_lamports policy 1234 < 4000
        → 1234 * 1500 < 1000 * quote_reward_lamports policy 1234 + 1000)
quote_reward_lamports_lem_example = quote_reward_lamports_lem policy 1234

abbrev pub oracle : PublicKey
oracle = record { base58 = "oracle" }

abbrev pub transport : ProgramTransport
transport = record {
  program_id = record { base58 = "program" };
  signer_public_key = oracle;
  find_program_address = λ seeds program. program;
  fetch_user_profile = λ address. ok none;
  fetch_protocol_config = λ address. ok (record {
    admin = record { base58 = "admin" };
    verifier = oracle;
    metadata_update_authority = record { base58 = "metadata" };
    treasury_authority = record { base58 = "treasury" };
    reward_policy = policy;
    rank_thresholds = record {
      seedling_min_reduction_grams = 1;
      sapling_min_reduction_grams = 2;
      tree_min_reduction_grams = 3;
      forest_min_reduction_grams = 4;
    };
  });
  send = λ transaction. ok "signature";
}

abbrev payload : SubmitVerifiedFootprintJobPayload
payload = record {
  user = record { base58 = "user" };
  period_key = 202401;
  commitment_hash = [];
  source_kind = spend;
  emission_delta_grams = 90000;
  reduction_delta_grams = 1234;
  reward_delta_lamports = 1800;
}

abbrev sync_payload : SyncSbtStatePayload
sync_payload = record {
  user = record { base58 = "user" };
  metadata_version = 2;
  metadata_uri_hash = [];
}

submit_verified_footprint_job_lem_example :
    let (result, sent) = submit_verified_footprint_job transport payload in
    ((config : ProtocolConfigSnapshot) × (load_protocol_config transport ≡ ok config)
      × (transport.signer_public_key.base58 ≡ config.verifier.base58)
      × (payload.reward_delta_lamports
          ≤ quote_reward_lamports config.reward_policy payload.reduction_delta_grams)
      × (sent ≡ submission transport config payload ∷ []))
    ⊎ ((sent ≡ []) × (e : JsError) × (result ≡ throw e))
submit_verified_footprint_job_lem_example = submit_verified_footprint_job_lem transport payload

sync_sbt_state_lem_example :
    let (result, sent) = sync_sbt_state transport sync_payload in
    ((config : ProtocolConfigSnapshot) × (load_protocol_config transport ≡ ok config)
      × IsMetadataSigner transport.signer_public_key config
      × (sent ≡ syncing transport sync_payload ∷ []))
    ⊎ (((config : ProtocolConfigSnapshot)
          → load_protocol_config transport ≡ ok config
          → ¬ IsMetadataSigner transport.signer_public_key config)
        × (sent ≡ [])
        × (e : JsError) × (result ≡ throw e))
sync_sbt_state_lem_example = sync_sbt_state_lem transport sync_payload
