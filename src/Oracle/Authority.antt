-- ===== src/Oracle/Authority.antt =====
-- backend/src/modules/oracle/client.ts: who may send which transaction.
use mathlib.Core.Path.{subst}
use personal_carbon_footprin.Prelude.{
  sym, ℕ, ◌≡◌, refl, ◌⊎◌, inl, inr, ◌≤◌, arith, true, ltb, [], ◌∷◌, Bool-cases, Outcome-cases, ok,
  throw, JsError, str_eq_iff,
}
use personal_carbon_footprin.Jobs.Payloads.{
  PublicKey, SubmitVerifiedFootprintJobPayload, SyncSbtStatePayload,
}
use personal_carbon_footprin.Oracle.Client.{
  ProgramTransport, ProtocolConfigSnapshot, load_protocol_config, submission, quote_reward_lamports,
  submit_verified_footprint_job, sync_sbt_state, fund_treasury, syncing, funding, key_eq,
  can_sync_metadata,
}

-- A transaction is sent only by the verifier, and only for a reward that the policy pays for the
-- reduction: the call sends the one transaction for its payload then, and else sends none and throws.
pub submit_verified_footprint_job_lem :
    (t : ProgramTransport) (payload : SubmitVerifiedFootprintJobPayload)
    → let (result, sent) = submit_verified_footprint_job t payload in
      ((config : ProtocolConfigSnapshot) × (load_protocol_config t ≡ ok config)
        × (t.signer_public_key.base58 ≡ config.verifier.base58)
        × (payload.reward_delta_lamports
            ≤ quote_reward_lamports config.reward_policy payload.reduction_delta_grams)
        × (sent ≡ submission t config payload ∷ []))
      ⊎ ((sent ≡ []) × (e : JsError) × (result ≡ throw e))
unfolding submit_verified_footprint_job
submit_verified_footprint_job_lem t payload = elim (Outcome-cases (load_protocol_config t)) [
  | inr (e, h) ↦ rw (h, submit_verified_footprint_job) (inr (refl, e, refl))
  | inl (config, h) ↦
      rw (h, submit_verified_footprint_job)
        (elim (Bool-cases (key_eq t.signer_public_key config.verifier)) [
          | inr k ↦ rw k (inr (refl, _, refl))
          | inl k ↦
              let quote =
                quote_reward_lamports config.reward_policy payload.reduction_delta_grams in
              elim (Bool-cases (ltb quote payload.reward_delta_lamports)) [
                | inl l ↦ rw (k, l) (inr (refl, _, refl))
                | inr l ↦
                    rw (k, l)
                      (inl (
                        config,
                        refl,
                        ground (
                          arith,
                          k,
                          str_eq_iff t.signer_public_key.base58 config.verifier.base58,
                        ),
                        ground (arith, l),
                        refl,
                      ))
              ]
        ])
]

-- The treasury is funded only by the admin: the call sends the transaction then, and else sends
-- none and throws.
pub fund_treasury_lem :
    (t : ProgramTransport) (amount_lamports : ℕ)
    → let (result, sent) = fund_treasury t amount_lamports in
      ((config : ProtocolConfigSnapshot) × (load_protocol_config t ≡ ok config)
        × (t.signer_public_key.base58 ≡ config.admin.base58)
        × (sent ≡ funding t config amount_lamports ∷ []))
      ⊎ ((sent ≡ []) × (e : JsError) × (result ≡ throw e))
unfolding fund_treasury
fund_treasury_lem t amount_lamports = elim (Outcome-cases (load_protocol_config t)) [
  | inr (e, h) ↦ rw (h, fund_treasury) (inr (refl, e, refl))
  | inl (config, h) ↦
      rw (h, fund_treasury)
        (elim (Bool-cases (key_eq t.signer_public_key config.admin)) [
          | inr k ↦ rw k (inr (refl, _, refl))
          | inl k ↦ rw k (
              inl (
                config,
                refl,
                ground (arith, k, str_eq_iff t.signer_public_key.base58 config.admin.base58),
                refl,
              ))
        ])
]

-- The key is that of the admin, of the verifier or of the metadata authority.
abbrev pub IsMetadataSigner : PublicKey → ProtocolConfigSnapshot → Type 0
IsMetadataSigner signer config =
    (signer.base58 ≡ config.admin.base58)
    ⊎ (signer.base58 ≡ config.verifier.base58)
    ⊎ (signer.base58 ≡ config.metadata_update_authority.base58)

can_sync_metadata-IsMetadataSigner :
    (signer : PublicKey) (config : ProtocolConfigSnapshot)
    → can_sync_metadata signer config ≡ true
    → IsMetadataSigner signer config
can_sync_metadata-IsMetadataSigner signer config h =
    elim (Bool-cases (key_eq signer config.admin)) [
      | inl a ↦ inl ((str_eq_iff _ _).0 a)
      | inr a ↦ elim (Bool-cases (key_eq signer config.verifier)) [
        | inl v ↦ inr (inl ((str_eq_iff _ _).0 v))
        | inr v ↦ inr (
            inr (
              (str_eq_iff signer.base58 config.metadata_update_authority.base58).0
                (ground (arith, a, v, h))))
      ]
    ]

IsMetadataSigner-can_sync_metadata :
    (signer : PublicKey) (config : ProtocolConfigSnapshot)
    → IsMetadataSigner signer config
    → can_sync_metadata signer config ≡ true
IsMetadataSigner-can_sync_metadata signer config (inl a) =
    rw ((str_eq_iff signer.base58 config.admin.base58).1 a) refl
IsMetadataSigner-can_sync_metadata signer config (inr (inl v)) =
    ground (arith, (str_eq_iff signer.base58 config.verifier.base58).1 v)
IsMetadataSigner-can_sync_metadata signer config (inr (inr m)) =
    ground (arith, (str_eq_iff signer.base58 config.metadata_update_authority.base58).1 m)

-- Metadata is synchronised by the admin, the verifier and the metadata authority, and by nobody else: the
-- call sends the transaction if the signer is one of them by the configuration that it loads, and if
-- there is no configuration or the signer is none of them it sends none and throws.
pub sync_sbt_state_lem :
    (t : ProgramTransport) (payload : SyncSbtStatePayload)
    → let (result, sent) = sync_sbt_state t payload in
      ((config : ProtocolConfigSnapshot) × (load_protocol_config t ≡ ok config)
        × IsMetadataSigner t.signer_public_key config
        × (sent ≡ syncing t payload ∷ []))
      ⊎ (((config : ProtocolConfigSnapshot)
            → load_protocol_config t ≡ ok config
            → ¬ IsMetadataSigner t.signer_public_key config)
          × (sent ≡ [])
          × (e : JsError) × (result ≡ throw e))
unfolding sync_sbt_state
sync_sbt_state_lem t payload = elim (Outcome-cases (load_protocol_config t)) [
  | inr (e, h) ↦
      rw (h, sync_sbt_state) (inr (λ config loaded. absurd (ground (arith, loaded)), refl, e, refl))
  | inl (config, h) ↦
      rw (h, sync_sbt_state)
        (elim (Bool-cases (can_sync_metadata t.signer_public_key config)) [
          | inr k ↦ rw k (
              inr (
                λ other loaded signs.
                    let same : config ≡ other = ground (arith, loaded) in
                    let admitted =
                      IsMetadataSigner-can_sync_metadata t.signer_public_key config
                        (subst (IsMetadataSigner t.signer_public_key) (sym same) signs) in
                    absurd (ground (arith, k, admitted)),
                refl,
                _,
                refl,
              ))
          | inl k ↦ rw k (
              inl (
                config,
                refl,
                can_sync_metadata-IsMetadataSigner t.signer_public_key config k,
                refl,
              ))
        ])
]
