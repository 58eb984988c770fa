-- ===== src/Http/Routes/Accepted.antt =====
-- backend/src/app/create-app.ts: what an accepted request to the ingestion routes has gone through.
use mathlib.Core.Path.{subst}
use personal_carbon_footprin.Prelude.{
  String, Option, none, some, ◌≡◌, refl, ap, ◌∙◌, inl, inr, Outcome, ok, throw, Outcome-cases,
  Option-cases, JsError, error, app_error, retryable_job_error, terminal_job_error, other, bind-ok,
  ok-injective, Bool-cases, arith,
}
use personal_carbon_footprin.Lca.Numbers.{Numbers}
use personal_carbon_footprin.Db.Tables.{Db}
use personal_carbon_footprin.Ingestion.AuthService.{AuthContext}
use personal_carbon_footprin.Ingestion.Siws.{authenticate_siws}
use personal_carbon_footprin.Ingestion.Submission.{
  DecryptedPayload, FootprintIngestionResult, Environment,
}
use personal_carbon_footprin.Ingestion.Submission.Service.{answer, ingest_decrypted_payload}
use personal_carbon_footprin.Http.Decryption.{
  EncryptedRequest, encrypted_request_ok, decrypt_request, decipher_request, decrypt_request-ok,
}
use personal_carbon_footprin.Http.Routes.{
  accepted_body, parse_encrypted_request, configured, error_response, respond, IngestionServices,
  IngestRequest, Opened, open_request, Answer, answered, ingest_opened, after_opening,
  ingest_encrypted_payload, after_authenticating, post_ingest,
}

module _ {N S : Type 0} (ops : Numbers N) (services : IngestionServices N S) where
  -- A response has the body of an accepted request.
  unfoldable pub IsAccepted : Answer N S → FootprintIngestionResult N → String → Type 0
  IsAccepted answer result data_hash = answer.0.body ≡ accepted_body result data_hash

  refused-IsAccepted :
      (e : JsError) (db : Db) (storage : S) (result : FootprintIngestionResult N)
      (data_hash : String)
      → IsAccepted (error_response e, db, storage) result data_hash
      → ⊥
  unfolding IsAccepted error_response
  refused-IsAccepted (error message) db storage result data_hash h = cc
  refused-IsAccepted (app_error code status message) db storage result data_hash h = cc
  refused-IsAccepted (retryable_job_error code message) db storage result data_hash h = cc
  refused-IsAccepted (terminal_job_error code message) db storage result data_hash h = cc
  refused-IsAccepted other db storage result data_hash h = cc

  answered-IsAccepted :
      (given : String) (done : Outcome (FootprintIngestionResult N) × Db × S)
      (result : FootprintIngestionResult N) (data_hash : String)
      → IsAccepted (answered ops given done) result data_hash
      → (done.0 ≡ ok result) × (given ≡ data_hash)
  unfolding IsAccepted respond
  answered-IsAccepted given (ok r, db, storage) result data_hash h = (cc, cc)
  answered-IsAccepted given (throw e, db, storage) result data_hash h =
      absurd (refused-IsAccepted e db storage result data_hash h)

  parse_encrypted_request-ok :
      (body : Option EncryptedRequest) (r : EncryptedRequest)
      → parse_encrypted_request body ≡ ok r
      → body ≡ some r
  unfolding parse_encrypted_request
  parse_encrypted_request-ok none r h = cc
  parse_encrypted_request-ok (some given) r h = elim (Bool-cases (encrypted_request_ok given)) [
    | inl good ↦ ground (arith, good, h)
    | inr bad ↦ absurd (ground (arith, bad, h))
  ]

  configured-ok :
      (o : Option (Environment N S)) (env : Environment N S)
      → configured ops o ≡ ok env
      → o ≡ some env
  configured-ok none env h = cc
  configured-ok (some given) env h = cc

  -- The body is a request that was decrypted with the services into what was opened.
  IsOpened : Option EncryptedRequest → Opened N S → Type 0
  IsOpened body opened =
      (r : EncryptedRequest) × (body ≡ some r)
      × (services.orchestration ≡ some opened.environment)
      × (decrypt_request services.decryption r ≡ ok opened.payload)
      × (r.data_hash ≡ opened.data_hash)

  open_request-IsOpened :
      (body : Option EncryptedRequest) (opened : Opened N S)
      → open_request ops services body ≡ ok opened
      → IsOpened body opened
  unfolding open_request IsOpened
  open_request-IsOpened body opened h =
      let (r, parsed, h1) = bind-ok (parse_encrypted_request body) _ h in
      let (env, there, h2) = bind-ok (configured ops services.orchestration) _ h1 in
      let (payload, decrypted, h3) = bind-ok (decrypt_request services.decryption r) _ h2 in
      subst (IsOpened body) (ok-injective h3) (
        r,
        parse_encrypted_request-ok body r parsed,
        configured-ok services.orchestration env there,
        decrypted,
        refl,
      )

  module _ (request : IngestRequest) (storage : S) (result : FootprintIngestionResult N)
      (data_hash : String) where
    -- What stands behind an accepted request that found this store once it was authenticated.
    pub IsEarned : AuthContext → Db → Type 0
    IsEarned context db =
        (r : EncryptedRequest) × (text : String) × (payload : DecryptedPayload N)
        × (env : Environment N S) × (request.body ≡ some r)
        × (decipher_request services.decryption r ≡ some text)
        × (services.decryption.sha256_hex text ≡ data_hash)
        × (services.decryption.json_parse text ≡ some (some payload))
        × (services.orchestration ≡ some env)
        × ((ingest_decrypted_payload ops env payload context request.request_id request.clock db
              storage).0
            ≡ ok result)

    ingest_opened-IsEarned :
        (context : AuthContext) (db : Db) (opened : Opened N S)
        → IsOpened request.body opened
        → IsAccepted (ingest_opened ops request context opened db storage) result data_hash
        → IsEarned context db
    unfolding IsOpened IsEarned
    ingest_opened-IsEarned context db opened (r, body, env, decrypted, same_hash) h =
        elim (Option-cases opened.payload) [
          | inl e ↦ absurd (
              refused-IsAccepted _ db storage result data_hash (
                subst
                  (λ o.
                    IsAccepted
                      (ingest_opened ops request context (record opened { payload = o }) db storage)
                      result data_hash)
                  e h))
          | inr (payload, e) ↦
              let (text, deciphered, hashed, parsed) =
                decrypt_request-ok services.decryption r opened.payload decrypted in
              let (done, given) = answered-IsAccepted opened.data_hash _ result data_hash (
                subst
                  (λ o.
                    IsAccepted
                      (ingest_opened ops request context (record opened { payload = o }) db storage)
                      result data_hash)
                  e h) in
              (
                r,
                text,
                payload,
                opened.environment,
                body,
                deciphered,
                hashed ∙ same_hash ∙ given,
                parsed ∙ ap some e,
                env,
                done,
              )
        ]

    ingest_encrypted_payload-IsEarned :
        (context : AuthContext) (db : Db)
        → IsAccepted
            (ingest_encrypted_payload ops services request context db storage)
            result
            data_hash
        → IsEarned context db
    unfolding ingest_encrypted_payload
    ingest_encrypted_payload-IsEarned context db h =
        elim (Outcome-cases (open_request ops services request.body)) [
          | inr (e, o) ↦ absurd (
              refused-IsAccepted e db storage result data_hash (
                subst
                  (λ x.
                    IsAccepted (after_opening ops request context db storage x) result data_hash)
                  o h))
          | inl (opened, o) ↦
              ingest_opened-IsEarned context db opened (open_request-IsOpened request.body opened o)
                (subst
                  (λ x.
                    IsAccepted (after_opening ops request context db storage x) result data_hash)
                  o h)
        ]

    after_authenticating-IsEarned :
        (auth : Outcome AuthContext × Db)
        → IsAccepted (after_authenticating ops services request storage auth) result data_hash
        → (context : AuthContext) × (auth.0 ≡ ok context) × IsEarned context auth.1
    after_authenticating-IsEarned (throw e, db) h =
        absurd (refused-IsAccepted e db storage result data_hash h)
    after_authenticating-IsEarned (ok context, db) h =
        (context, refl, ingest_encrypted_payload-IsEarned context db h)

    -- A request is answered as accepted only if its token was accepted by the middleware, its body is a
    -- request that was decrypted into a text with the hash that the answer repeats, and this text is a
    -- payload that the orchestration took in, with the result that is answered.
    pub post_ingest-IsEarned :
        (db : Db)
        → IsAccepted (post_ingest ops services request db storage) result data_hash
        → let auth =
            authenticate_siws services.jwt_verify services.issuer services.audience
              request.authorization request.authenticated_at_ms db in
          (context : AuthContext) × (auth.0 ≡ ok context) × IsEarned context auth.1
    unfolding post_ingest
    post_ingest-IsEarned db h = after_authenticating-IsEarned _ h
