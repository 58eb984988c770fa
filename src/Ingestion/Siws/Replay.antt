-- ===== src/Ingestion/Siws/Replay.antt =====
-- backend/src/middleware/authenticate-siws.ts: a token is accepted once.
use mathlib.Core.Path.{subst}
use personal_carbon_footprin.Prelude.{
  ℕ, String, Option, none, ◌≡◌, refl, sym, ◌∙◌, inl, inr, arith, List, Outcome, ok, throw, ◌>>=◌,
  includes,
}
use personal_carbon_footprin.Db.Tables.{Db}
use personal_carbon_footprin.Db.Statements.{nonce_taken}
use personal_carbon_footprin.Db.Store.{find_nonce, reserve_nonce}
use personal_carbon_footprin.Db.Trace.{StoreCall, run_calls}
use personal_carbon_footprin.Db.Trace.Nonces.{reserve_nonce_lem, reserve_nonce_once}
use personal_carbon_footprin.Ingestion.AuthService.{
  AuthContext, JwtVerify, verify_bearer_token, extract_bearer_token,
}
use personal_carbon_footprin.Ingestion.Siws.{
  reservation, reserve_context, authenticate_siws, replayed_nonce,
}

-- What the header of a request proves, before its nonce is looked at.
abbrev pub verified : JwtVerify → (issuer audience : String) → Option String → Outcome AuthContext
verified jwt_verify issuer audience authorization =
    extract_bearer_token authorization >>= verify_bearer_token jwt_verify issuer audience

reserve_context-fresh :
    (context : AuthContext) (now_ms : ℕ) (db : Db)
    → find_nonce context.nonce db ≡ none
    → (reserve_context context now_ms db).0 ≡ ok context
unfolding reserve_context
reserve_context-fresh context now_ms db fresh =
    elim (reserve_nonce_lem (reservation context now_ms) db "") [
      | inl (_, e, _) ↦ rw (e, reserve_context) refl
      | inr (known, _) ↦ absurd (ground (arith, known, fresh))
    ]

reserve_context-taken :
    (context : AuthContext) (now_ms : ℕ) (db : Db)
    → reserve_nonce (reservation context now_ms) db ≡ (throw nonce_taken, db)
    → reserve_context context now_ms db ≡ (throw replayed_nonce, db)
unfolding reserve_context includes
reserve_context-taken context now_ms db h = rw (h, reserve_context) refl

reserve_context-stores :
    (context : AuthContext) (now_ms : ℕ) (db : Db)
    → (reserve_nonce (reservation context now_ms) db).1 ≡ (reserve_context context now_ms db).1
unfolding reserve_context
reserve_context-stores context now_ms db = refl

authenticate_siws-verified :
    (jwt_verify : JwtVerify) (issuer audience : String) (authorization : Option String)
    (context : AuthContext) (now_ms : ℕ) (db : Db)
    → verified jwt_verify issuer audience authorization ≡ ok context
    → authenticate_siws jwt_verify issuer audience authorization now_ms db
      ≡ reserve_context context now_ms db
unfolding authenticate_siws
authenticate_siws-verified jwt_verify issuer audience authorization context now_ms db good =
    rw (good, authenticate_siws) refl

-- A valid token whose nonce is new is accepted. From then on, whatever calls of the store come in
-- between, each request with a token of that nonce is refused as replayed, and changes nothing.
pub authenticate_siws-once :
    (jwt_verify : JwtVerify) (issuer audience : String) (first again : Option String)
    (context other : AuthContext) (now_ms later_ms : ℕ) (calls : List StoreCall) (db : Db)
    → verified jwt_verify issuer audience first ≡ ok context
    → verified jwt_verify issuer audience again ≡ ok other
    → other.nonce ≡ context.nonce
    → find_nonce context.nonce db ≡ none
    → let accepted = authenticate_siws jwt_verify issuer audience first now_ms db in
      let later = run_calls calls accepted.1 in
      (accepted.0 ≡ ok context)
      × (authenticate_siws jwt_verify issuer audience again later_ms later
          ≡ (throw replayed_nonce, later))
authenticate_siws-once jwt_verify issuer audience first again context other now_ms later_ms calls db
      good good' same fresh =
    let twice =
      reserve_nonce_once (reservation context now_ms) (reservation other later_ms) calls db fresh
        same in
    subst Accepted
      (sym (authenticate_siws-verified jwt_verify issuer audience first context now_ms db good))
      (
        reserve_context-fresh context now_ms db fresh,
        authenticate_siws-verified jwt_verify issuer audience again other later_ms _ good'
            ∙ reserve_context-taken other later_ms _ (
                subst
                  (λ d.
                    reserve_nonce (reservation other later_ms) (run_calls calls d)
                    ≡ (throw nonce_taken, run_calls calls d))
                  (reserve_context-stores context now_ms db) twice.0),
      )
  where
    Accepted : Outcome AuthContext × Db → Type 0
    Accepted p =
        (p.0 ≡ ok context)
        × (authenticate_siws jwt_verify issuer audience again later_ms (run_calls calls p.1)
            ≡ (throw replayed_nonce, run_calls calls p.1))
