-- ===== src/Http/Routes/Ingest.antt =====
-- backend/src/app/create-app.ts: the ingestion routes, from the token to the stored jobs.
use mathlib.Core.Path.{subst}
use personal_carbon_footprin.Prelude.{
  ℕ, String, none, List, [], ◌∷◌, ◌++◌, ◌≡◌, refl, sym, ap, ◌∙◌, inl, inr, Outcome, ok, throw,
  Outcome-cases, Option-cases,
}
use personal_carbon_footprin.Lca.Numbers.{Numbers}
use personal_carbon_footprin.Storage.{OracleJobRecord, OracleJobInput}
use personal_carbon_footprin.Db.Tables.{Db}
use personal_carbon_footprin.Db.Store.{enqueue_oracle_job, find_nonce}
use personal_carbon_footprin.Db.Trace.{StoreCall, enqueue, apply, run_calls}
use personal_carbon_footprin.Metadata.{PublishMetadataResult, publish_metadata}
use personal_carbon_footprin.Ingestion.AuthService.{AuthContext}
use personal_carbon_footprin.Ingestion.Siws.{authenticate_siws, replayed_nonce}
use personal_carbon_footprin.Ingestion.Siws.Replay.{verified, authenticate_siws-once}
use personal_carbon_footprin.Ingestion.Orchestration.{normalize_queued_period_key}
use personal_carbon_footprin.Ingestion.Submission.{
  DecryptedPayload, FootprintIngestionResult, Clock, Environment,
}
use personal_carbon_footprin.Ingestion.Submission.Service.{
  Assessment, assess, submit_job_input, sync_job_input, both_jobs, then_sync, enqueue_jobs,
  after_publishing, after_assessing, ingest_decrypted_payload,
}
use personal_carbon_footprin.Http.Routes.{
  error_response, IngestionServices, IngestRequest, Opened, open_request, answered, ingest_opened,
  ingest_encrypted_payload, after_authenticating, post_ingest,
}

run_calls-append :
    (first second : List StoreCall) (db : Db)
    → run_calls (first ++ second) db ≡ run_calls second (run_calls first db)
unfolding run_calls
run_calls-append [] second db = refl
run_calls-append (call ∷ first) second db = run_calls-append first second (apply call db)

-- What is done to the store is some sequence of its calls.
abbrev IsTraced : Db → Db → Type 0
IsTraced before after = (calls : List StoreCall) × (after ≡ run_calls calls before)

untouched : (db : Db) → IsTraced db db
unfolding run_calls
untouched db = ([], refl)

module _ {N S : Type 0} (ops : Numbers N) (env : Environment N S) where
  both_jobs-keeps :
      (first : OracleJobRecord) (p : Outcome OracleJobRecord × Db)
      → (both_jobs ops env first p).1 ≡ p.1
  both_jobs-keeps first (throw e, db) = refl
  both_jobs-keeps first (ok second, db) = refl

  then_sync-IsTraced :
      (sync : OracleJobInput) (p : Outcome OracleJobRecord × Db)
      → IsTraced p.1 (then_sync ops env sync p).1
  unfolding run_calls apply
  then_sync-IsTraced sync (throw e, db) = untouched db
  then_sync-IsTraced sync (ok first, db) =
      (enqueue sync ∷ [], both_jobs-keeps first (enqueue_oracle_job sync db))

  enqueue_jobs-IsTraced :
      (a : Assessment N) (metadata : PublishMetadataResult) (now_ms : ℕ) (db : Db)
      → IsTraced db (enqueue_jobs ops env a metadata now_ms db).1
  unfolding enqueue_jobs run_calls apply
  enqueue_jobs-IsTraced a metadata now_ms db =
      elim (Outcome-cases (normalize_queued_period_key a.normalized.period_key)) [
        | inr (e, h) ↦ rw (enqueue_jobs, h) (untouched db)
        | inl (key, h) ↦
            let submit = submit_job_input ops env a key now_ms in
            let (calls, e) =
              then_sync-IsTraced (sync_job_input ops env a metadata now_ms)
                (enqueue_oracle_job submit db) in
            (enqueue submit ∷ calls, rw (enqueue_jobs, h) e)
      ]

  module _ (context : AuthContext) (request_id : String) (db : Db) where
    after_publishing-IsTraced :
        (a : Assessment N) (now_ms : ℕ) (p : Outcome PublishMetadataResult × S)
        → IsTraced db (after_publishing ops env context request_id a now_ms db p).1
    after_publishing-IsTraced a now_ms (throw e, storage) = untouched db
    after_publishing-IsTraced a now_ms (ok metadata, storage) =
        enqueue_jobs-IsTraced a metadata now_ms db

    after_assessing-IsTraced :
        (clock : Clock) (storage : S) (o : Outcome (Assessment N))
        → IsTraced db (after_assessing ops env context request_id clock db storage o).1
    after_assessing-IsTraced clock storage (throw e) = untouched db
    after_assessing-IsTraced clock storage (ok a) =
        after_publishing-IsTraced a clock.at_enqueueing_ms (
          publish_metadata env.provider env.stringify env.sha256 a.document a.metadata_version
            storage)

    ingest_decrypted_payload-IsTraced :
        (payload : DecryptedPayload N) (clock : Clock) (storage : S)
        → IsTraced db
            (ingest_decrypted_payload ops env payload context request_id clock db storage).1
    unfolding ingest_decrypted_payload
    ingest_decrypted_payload-IsTraced payload clock storage =
        after_assessing-IsTraced clock storage (assess ops env payload clock)

module _ {N S : Type 0} (ops : Numbers N) (services : IngestionServices N S) where
  answered-keeps :
      (data_hash : String) (done : Outcome (FootprintIngestionResult N) × Db × S)
      → (answered ops data_hash done).1 ≡ done.1
  answered-keeps data_hash (result, db, storage) = refl

  ingest_opened-IsTraced :
      (request : IngestRequest) (context : AuthContext) (opened : Opened N S) (db : Db)
      (storage : S)
      → IsTraced db (ingest_opened ops request context opened db storage).1
  ingest_opened-IsTraced request context opened db storage = elim (Option-cases opened.payload) [
    | inl e ↦ rw e (untouched db)
    | inr (payload, e) ↦ rw e (
        ingest_decrypted_payload-IsTraced ops opened.environment context request.request_id db
          payload request.clock storage)
  ]

  after_authenticating-IsTraced :
      (request : IngestRequest) (storage : S) (p : Outcome AuthContext × Db)
      → IsTraced p.1 (after_authenticating ops services request storage p).1
  unfolding ingest_encrypted_payload
  after_authenticating-IsTraced request storage (throw e, db) = untouched db
  after_authenticating-IsTraced request storage (ok context, db) =
      elim (Outcome-cases (open_request ops services request.body)) [
        | inr (e, h) ↦ rw (ingest_encrypted_payload, h) (untouched db)
        | inl (opened, h) ↦
            rw (ingest_encrypted_payload, h)
              (ingest_opened-IsTraced request context opened db storage)
      ]

  -- Once a request with a valid token of a new nonce has been handled, whatever came of it and whatever
  -- calls of the store came since, each request with a token of that nonce is answered with the
  -- status 409 and the code of a replay, and changes neither the store nor the metadata storage.
  pub post_ingest-once :
      (first again : IngestRequest) (context context' : AuthContext) (calls : List StoreCall)
      (db : Db) (storage storage' : S)
      → verified services.jwt_verify services.issuer services.audience first.authorization
        ≡ ok context
      → verified services.jwt_verify services.issuer services.audience again.authorization
        ≡ ok context'
      → context'.nonce ≡ context.nonce
      → find_nonce context.nonce db ≡ none
      → let later = run_calls calls (post_ingest ops services first db storage).1 in
        post_ingest ops services again later storage'
        ≡ (error_response replayed_nonce, later, storage')
  unfolding post_ingest
  post_ingest-once first again context context' calls db storage storage' good good' same fresh =
      let auth =
        authenticate_siws services.jwt_verify services.issuer services.audience first.authorization
          first.authenticated_at_ms db in
      let (before, e) = after_authenticating-IsTraced first storage auth in
      let all = before ++ calls in
      let joined = run_calls-append before calls auth.1 in
      let (accepted, refused) =
        authenticate_siws-once services.jwt_verify services.issuer services.audience
          first.authorization again.authorization context context' first.authenticated_at_ms
          again.authenticated_at_ms all db good good' same fresh in
      let reached = ap (run_calls calls) e ∙ sym joined in
      subst
        (λ d.
          post_ingest ops services again d storage' ≡ (error_response replayed_nonce, d, storage'))
        (sym reached) (ap (after_authenticating ops services again storage') refused)
