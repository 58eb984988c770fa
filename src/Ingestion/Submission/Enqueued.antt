-- ===== src/Ingestion/Submission/Enqueued.antt =====
-- backend/src/modules/ingestion/footprint-orchestration.ts: what `ingestDecryptedPayload` stores.
use personal_carbon_footprin.Prelude.{
  ℕ, String, ◌≡◌, refl, sym, ◌⊎◌, inl, inr, Outcome, ok, throw, JsError, Outcome-cases, is_some,
  none, true, ◌>>=◌,
}
use mathlib.Core.Path.{subst}
use personal_carbon_footprin.Lca.Numbers.{Numbers}
use personal_carbon_footprin.Storage.{OracleJobInput}
use personal_carbon_footprin.Db.Tables.{Db}
use personal_carbon_footprin.Db.Statements.{idempotency_key_taken}
use personal_carbon_footprin.Db.Store.{enqueue_oracle_job, find_oracle_job_by_idempotency_key}
use personal_carbon_footprin.Db.Invariant.{Inv}
use personal_carbon_footprin.Db.Keeps.{inserted_job, Inv-inserted_job}
use personal_carbon_footprin.Db.Enqueueing.{new_job, enqueue_oracle_job_lem}
use personal_carbon_footprin.Metadata.{PublishMetadataResult, publish_metadata}
use personal_carbon_footprin.Ingestion.AuthService.{AuthContext}
use personal_carbon_footprin.Ingestion.Orchestration.{normalize_queued_period_key}
use personal_carbon_footprin.Ingestion.Submission.{DecryptedPayload, Clock, Environment}
use personal_carbon_footprin.Ingestion.Submission.Service.{
  Assessment, assess, submit_job_input, sync_job_input, TwoJobs, enqueue_jobs, ingestion_result,
  Ingestion, answer, after_publishing, after_assessing, ingest_decrypted_payload,
}

-- The key of an input is that of a stored job, or of none.
abbrev pub IsTaken : OracleJobInput → Db → Type 0
IsTaken input db = is_some (find_oracle_job_by_idempotency_key input.idempotency_key db) ≡ true

abbrev pub IsFree : OracleJobInput → Db → Type 0
IsFree input db = find_oracle_job_by_idempotency_key input.idempotency_key db ≡ none

enqueue-cases :
    (input : OracleJobInput) (db : Db)
    → Inv db
    → IsTaken input db × (enqueue_oracle_job input db ≡ (throw idempotency_key_taken, db))
      ⊎ IsFree input db
        × (enqueue_oracle_job input db ≡ (ok (new_job input db), inserted_job input db))
enqueue-cases input db inv = elim (enqueue_oracle_job_lem input db inv) [
  | inl (taken, e) ↦ inl (taken, e)
  | inr (free, e, by_id, by_key) ↦ inr (free, e)
]

module _ {N S : Type 0} (ops : Numbers N) (env : Environment N S) where
  -- What the two calls of the store come to.
  pub IsEnqueued :
      Assessment N → PublishMetadataResult → ℕ → Db → Outcome (TwoJobs ops env) × Db → Type 0
  IsEnqueued a metadata now_ms db done =
      ((e : JsError) × (normalize_queued_period_key a.normalized.period_key ≡ throw e)
        × (done ≡ (throw e, db)))
      ⊎ ((key : ℕ) × (normalize_queued_period_key a.normalized.period_key ≡ ok key)
          × (let submit = submit_job_input ops env a key now_ms in
              let sync = sync_job_input ops env a metadata now_ms in
              let db' = inserted_job submit db in
              IsTaken submit db × (done ≡ (throw idempotency_key_taken, db))
              ⊎ IsFree submit db × IsTaken sync db' × (done ≡ (throw idempotency_key_taken, db'))
              ⊎ IsFree submit db
                × IsFree sync db'
                × (done ≡ (ok (new_job submit db, new_job sync db'), inserted_job sync db'))))

  enqueue_jobs-IsEnqueued :
      (a : Assessment N) (metadata : PublishMetadataResult) (now_ms : ℕ) (db : Db)
      → Inv db
      → IsEnqueued a metadata now_ms db (enqueue_jobs ops env a metadata now_ms db)
  unfolding IsEnqueued enqueue_jobs
  enqueue_jobs-IsEnqueued a metadata now_ms db inv =
      elim (Outcome-cases (normalize_queued_period_key a.normalized.period_key)) [
        | inr (e, h) ↦ inl (e, h, rw (enqueue_jobs, h) refl)
        | inl (key, h) ↦
            let submit = submit_job_input ops env a key now_ms in
            let sync = sync_job_input ops env a metadata now_ms in
            let db' = inserted_job submit db in
            elim (enqueue-cases submit db inv) [
              | inl (taken, e) ↦ inr (key, h, inl (taken, rw (enqueue_jobs, h, e) refl))
              | inr (free, e) ↦ elim (enqueue-cases sync db' (Inv-inserted_job submit db inv)) [
                | inl (taken, f) ↦
                    inr (key, h, inr (inl (free, taken, rw (enqueue_jobs, h, e, f) refl)))
                | inr (also_free, f) ↦
                    inr (key, h, inr (inr (free, also_free, rw (enqueue_jobs, h, e, f) refl)))
              ]
            ]
      ]

  -- The publication of what was assessed.
  abbrev pub publication : Assessment N → S → Outcome PublishMetadataResult × S
  publication a storage =
      publish_metadata env.provider env.stringify env.sha256 a.document a.metadata_version storage

  -- What an answer, a store and a metadata storage are once what was assessed is published: the two calls of
  -- the store decide on the first two, and the storage is what the publication left.
  pub IsStored :
      Assessment N
      → PublishMetadataResult
      → AuthContext
      → String
      → ℕ
      → Db
      → S
      → Ingestion ops env
      → Type 0
  IsStored a metadata context request_id now_ms db published done =
      (jobs : Outcome (TwoJobs ops env) × Db) × IsEnqueued a metadata now_ms db jobs
      × (done.0
          ≡ jobs.0 >>= (λ both. ok (ingestion_result ops env context request_id a metadata both)))
      × (done.1 ≡ jobs.1)
      × (done.2 ≡ published)

  -- What a handler comes to that is given this payload: the assessment fails, and the store and the
  -- metadata storage stay what they were; or the publication fails, and the store stays what it was; or the
  -- two calls of the store decide. The storage is what the publication leaves, if it comes to that.
  pub IsIngested :
      DecryptedPayload N → AuthContext → String → Clock → Db → S → Ingestion ops env → Type 0
  IsIngested payload context request_id clock db storage done =
      ((e : JsError) × (assess ops env payload clock ≡ throw e)
        × (done.0 ≡ throw e)
        × (done.1 ≡ db)
        × (done.2 ≡ storage))
      ⊎ ((a : Assessment N) × (assess ops env payload clock ≡ ok a)
          × (((e : JsError) × ((publication a storage).0 ≡ throw e)
                × (done.0 ≡ throw e)
                × (done.1 ≡ db)
                × (done.2 ≡ (publication a storage).1))
              ⊎ ((metadata : PublishMetadataResult) × ((publication a storage).0 ≡ ok metadata)
                  × IsStored a metadata context request_id clock.at_enqueueing_ms db
                      (publication a storage).1 done)))

  module _ (payload : DecryptedPayload N) (context : AuthContext) (request_id : String)
      (clock : Clock) (db : Db) (inv : Inv db) where
    answer-IsStored :
        (a : Assessment N) (metadata : PublishMetadataResult) (storage : S)
        → IsStored a metadata context request_id clock.at_enqueueing_ms db storage (
            answer ops env context request_id a metadata storage
              (enqueue_jobs ops env a metadata clock.at_enqueueing_ms db))
    unfolding IsStored
    answer-IsStored a metadata storage = (
      enqueue_jobs ops env a metadata clock.at_enqueueing_ms db,
      enqueue_jobs-IsEnqueued a metadata clock.at_enqueueing_ms db inv,
      refl,
      refl,
      refl,
    )

    -- What the publication `p` leads to.
    IsPublished : Assessment N → Outcome PublishMetadataResult × S → Type 0
    IsPublished a p =
        let done = after_publishing ops env context request_id a clock.at_enqueueing_ms db p in
        ((e : JsError) × (p.0 ≡ throw e) × (done.0 ≡ throw e) × (done.1 ≡ db) × (done.2 ≡ p.1))
        ⊎ ((metadata : PublishMetadataResult) × (p.0 ≡ ok metadata)
            × IsStored a metadata context request_id clock.at_enqueueing_ms db p.1 done)

    after_publishing-IsPublished :
        (a : Assessment N) (p : Outcome PublishMetadataResult × S) → IsPublished a p
    unfolding IsPublished
    after_publishing-IsPublished a (throw e, storage) = inl (e, refl, refl, refl, refl)
    after_publishing-IsPublished a (ok metadata, storage) =
        inr (metadata, refl, answer-IsStored a metadata storage)

    -- Each outcome of a submission to a consistent store. If the assessment throws, the handler throws that,
    -- and the store and the metadata storage stay what they were. Else the storage is what the publication
    -- leaves, in each case that follows. If the publication or the period key throws, or the key of the first
    -- job is taken, the handler throws that and stores no job; if the key of the second job alone is
    -- taken, it throws and the first job stays stored; and else it stores both jobs as pending ones,
    -- of what was assessed and published, and answers with them.
    pub ingest_decrypted_payload_lem :
        (storage : S)
        → IsIngested payload context request_id clock db storage
            (ingest_decrypted_payload ops env payload context request_id clock db storage)
    unfolding ingest_decrypted_payload IsPublished IsIngested
    ingest_decrypted_payload_lem storage = elim (Outcome-cases (assess ops env payload clock)) [
      | inr (e, h) ↦ inl (
        e,
        h,
        rw (ingest_decrypted_payload, h) refl,
        rw (ingest_decrypted_payload, h) refl,
        rw (ingest_decrypted_payload, h) refl,
      )
      | inl (a, h) ↦
          subst
            (λ o.
              IsIngested payload context request_id clock db storage
                (after_assessing ops env context request_id clock db storage o))
            (sym h) (inr (a, h, after_publishing-IsPublished a (publication a storage)))
    ]
