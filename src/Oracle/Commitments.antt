-- ===== src/Oracle/Commitments.antt =====
-- backend/src/modules/oracle/client.ts: `submitVerifiedFootprint`, which submits a commitment that is not
-- hashed yet. `stringify` is `JSON.stringify`, `sha256` the digest of a text.
use personal_carbon_footprin.Prelude.{
  ℕ, String, List, [], ◌∷◌, ◌≡◌, ◌≤◌, refl, true, false, ltb, ok, arith, Outcome, ◌>>=◌, throw,
  error, if◌then◌else◌, ◌+++◌,
}
use personal_carbon_footprin.Lca.Numbers.{Numbers}
use personal_carbon_footprin.Lca.Commitment.{CommitmentPreimageV1}
use personal_carbon_footprin.Jobs.Payloads.{PublicKey, SubmitVerifiedFootprintJobPayload}
use personal_carbon_footprin.Oracle.Client.{
  ProgramTransport, ProtocolConfigSnapshot, OracleSubmissionResult, Sending, key_eq,
  load_protocol_config, quote_reward_lamports, submission, submit_verified_footprint_job,
}

record SubmitVerifiedFootprintPayload (N : Type 0) : Type 0 where
  pub user : PublicKey
  pub period_key : ℕ
  pub commitment_preimage : CommitmentPreimageV1 N
  pub reward_delta_lamports : ℕ

-- The verifier's call sends the one transaction for its payload, if the reward is at most what the policy
-- quotes for the reduction.
submit_verified_footprint_job-sent :
    (t : ProgramTransport) (config : ProtocolConfigSnapshot)
    (payload : SubmitVerifiedFootprintJobPayload)
    → load_protocol_config t ≡ ok config
    → key_eq t.signer_public_key config.verifier ≡ true
    → payload.reward_delta_lamports
      ≤ quote_reward_lamports config.reward_policy payload.reduction_delta_grams
    → (submit_verified_footprint_job t payload).1 ≡ submission t config payload ∷ []
unfolding submit_verified_footprint_job
submit_verified_footprint_job-sent t config payload loaded signer paid =
    let quote = quote_reward_lamports config.reward_policy payload.reduction_delta_grams in
    let within : ltb quote payload.reward_delta_lamports ≡ false = ground (arith, paid) in
    rw (loaded, submit_verified_footprint_job) (rw (signer, within) refl)

module _ {N : Type 0} (ops : Numbers N) where
  -- `BigInt(Math.round(value * 1000))`, which throws a RangeError unless that is finite.
  unfoldable to_grams : N → Outcome ℕ
  to_grams value_in_kg =
      let grams = ops.mul value_in_kg (ops.literal 1000 0) in
      let shown = if ops.le grams grams then "Infinity" else "NaN" in
      if ops.is_finite grams
      then ok (ops.round grams)
      else throw (
          error (
            ("The number " +++ shown)
            +++ " cannot be converted to a BigInt because it is not an integer"))

  module _ (stringify : CommitmentPreimageV1 N → String) (sha256 : String → List ℕ) where
    abbrev job_payload :
        SubmitVerifiedFootprintPayload N → Outcome SubmitVerifiedFootprintJobPayload
    job_payload payload = do
      emission ← to_grams payload.commitment_preimage.total_emissions_kg_co2e
      reduction ← to_grams payload.commitment_preimage.base_reduction_kg_co2e
      ok (record {
        user = payload.user;
        period_key = payload.period_key;
        commitment_hash = sha256 (stringify payload.commitment_preimage);
        source_kind = payload.commitment_preimage.data_source_kind;
        emission_delta_grams = emission;
        reduction_delta_grams = reduction;
        reward_delta_lamports = payload.reward_delta_lamports;
      })

    unfoldable submit_verified_footprint :
        ProgramTransport → SubmitVerifiedFootprintPayload N → Sending OracleSubmissionResult
    submit_verified_footprint t payload = elim (job_payload payload) [
      | throw e ↦ (throw e, [])
      | ok job ↦ submit_verified_footprint_job t job
    ]

    -- The verifier's call sends the one transaction for the commitment, with its hash and its amounts in
    -- grams, if these are finite and the reward is at most what the policy quotes for the reduction.
    submit_verified_footprint-sent :
        (t : ProgramTransport) (config : ProtocolConfigSnapshot)
        (payload : SubmitVerifiedFootprintPayload N) (job : SubmitVerifiedFootprintJobPayload)
        → job_payload payload ≡ ok job
        → load_protocol_config t ≡ ok config
        → key_eq t.signer_public_key config.verifier ≡ true
        → job.reward_delta_lamports
          ≤ quote_reward_lamports config.reward_policy job.reduction_delta_grams
        → (submit_verified_footprint t payload).1 ≡ submission t config job ∷ []
    unfolding submit_verified_footprint
    submit_verified_footprint-sent t config payload job made loaded signer paid =
        rw (made, submit_verified_footprint)
          (submit_verified_footprint_job-sent t config job loaded signer paid)
