-- ===== src/Db/Trace/Nonces.antt =====
-- backend/src/db/index.ts: nonces are never forgotten, whatever is called.
use mathlib.Core.Option
use mathlib.Core.Path.{subst}
use personal_carbon_footprin.Prelude.{
  ℕ, String, some, none, ◌≡◌, refl, ap, ◌∙◌, ◌⊎◌, inl, inr, Bool, true, false, arith, List, [], ◌∷◌,
  ◌++◌, Bool-cases, Option-cases, if◌then◌else◌, is_some, find_where, exists_where,
  exists_where-find_where, find_where-append, str_eq, str_eq_refl, str_eq_iff, ok, throw,
}
use personal_carbon_footprin.Storage.{ReserveNonceInput, UsedNonceRecord}
use personal_carbon_footprin.Db.Tables.{Db, OracleJobRow, map_nonce}
use personal_carbon_footprin.Db.Statements.{
  has_nonce, nonce_taken, insert_nonce, select_nonce, insert_oracle_job, update_claimed_job,
  insert_lock, delete_lock, delete_expired_lock, insert_attempt, update_attempt,
  update_job_completed, update_job_failed, select_claimable_job, select_claimable_job_by_id,
}
use personal_carbon_footprin.Db.Store.{
  nonce_row, reserve_nonce, find_nonce, enqueue_oracle_job, claim_row, claim_pending_job,
  claim_oracle_job_by_id, commit_job, complete_oracle_job, fail_oracle_job, acquire_service_lock,
  release_lock, start_job_attempt,
}
use personal_carbon_footprin.Db.Trace.{
  StoreCall, reserve, enqueue, claim, claim_by_id, start, complete, fail, acquire, release, apply,
  run_calls,
}

-- The table with one more nonce.
abbrev with_nonce : ReserveNonceInput → Db → Db
with_nonce input db = record db { used_nonces = db.used_nonces ++ nonce_row input ∷ [] }

find_nonce-with_same :
    (input : ReserveNonceInput) (db : Db)
    → exists_where (has_nonce input.nonce) db.used_nonces ≡ false
    → find_nonce input.nonce (with_nonce input db) ≡ some input
unfolding find_nonce select_nonce map_nonce find_where
find_nonce-with_same input db e =
    rw (find_where-append (has_nonce input.nonce) db.used_nonces (nonce_row input ∷ []), e)
      (rw (str_eq_refl input.nonce) refl)

find_nonce-with_other :
    (input : ReserveNonceInput) (db : Db) (other : String)
    → str_eq input.nonce other ≡ false
    → find_nonce other (with_nonce input db) ≡ find_nonce other db
unfolding find_nonce select_nonce map_nonce find_where
find_nonce-with_other input db other k = ap (Option.map map_nonce) (
    ground (
      arith,
      find_where-append (has_nonce other) db.used_nonces (nonce_row input ∷ []),
      exists_where-find_where (has_nonce other) db.used_nonces,
      k,
    ))

find_nonce-with :
    (input : ReserveNonceInput) (db : Db) (other : String)
    → exists_where (has_nonce input.nonce) db.used_nonces ≡ false
    → find_nonce other (with_nonce input db)
      ≡ (if str_eq input.nonce other then some input else find_nonce other db)
find_nonce-with input db other e = elim (Bool-cases (str_eq input.nonce other)) [
  | inl k ↦ rw k (
      subst (λ n. find_nonce n (with_nonce input db) ≡ some input)
        ((str_eq_iff input.nonce other).0 k) (find_nonce-with_same input db e))
  | inr k ↦ rw k (find_nonce-with_other input db other k)
]

-- A fresh nonce is stored with its record, and is found; one that is stored makes the call throw
-- SQLite's UNIQUE error, and nothing changes. Other nonces are found as before.
pub reserve_nonce_lem :
    (input : ReserveNonceInput) (db : Db) (other : String)
    → (find_nonce input.nonce db ≡ none)
        × ((reserve_nonce input db).0 ≡ ok input)
        × (find_nonce other (reserve_nonce input db).1
            ≡ (if str_eq input.nonce other then some input else find_nonce other db))
      ⊎ (is_some (find_nonce input.nonce db) ≡ true)
        × (reserve_nonce input db ≡ (throw nonce_taken, db))
unfolding reserve_nonce insert_nonce find_nonce select_nonce map_nonce
reserve_nonce_lem input db other =
    let seen = exists_where-find_where (has_nonce input.nonce) db.used_nonces in
    elim (Bool-cases (exists_where (has_nonce input.nonce) db.used_nonces)) [
      | inl e ↦ inr (ground (arith, e, seen), rw (e, reserve_nonce) refl)
      | inr e ↦ inl (
        ground (arith, e, seen),
        rw (e, reserve_nonce) refl,
        rw (e, reserve_nonce) (find_nonce-with input db other e),
      )
    ]

used_nonces-claim_row :
    (row : OracleJobRow) (worker_id : String) (now_ms lock_duration_ms : ℕ) (db : Db)
    → (claim_row row worker_id now_ms lock_duration_ms db).1.used_nonces ≡ db.used_nonces
unfolding claim_row insert_lock delete_expired_lock update_claimed_job
used_nonces-claim_row row worker_id now_ms lock_duration_ms db = ground arith

used_nonces-claim_pending_job :
    (worker_id : String) (now_ms lock_duration_ms : ℕ) (db : Db)
    → (claim_pending_job worker_id now_ms lock_duration_ms db).1.used_nonces ≡ db.used_nonces
unfolding claim_pending_job
used_nonces-claim_pending_job worker_id now_ms lock_duration_ms db =
    elim (Option-cases (select_claimable_job now_ms db)) [
      | inl e ↦ rw (e, claim_pending_job) refl
      | inr (row, e) ↦
          rw (e, claim_pending_job) (used_nonces-claim_row row worker_id now_ms lock_duration_ms db)
    ]

used_nonces-claim_oracle_job_by_id :
    (job_id : ℕ) (worker_id : String) (now_ms lock_duration_ms : ℕ) (db : Db)
    → (claim_oracle_job_by_id job_id worker_id now_ms lock_duration_ms db).1.used_nonces
      ≡ db.used_nonces
unfolding claim_oracle_job_by_id
used_nonces-claim_oracle_job_by_id job_id worker_id now_ms lock_duration_ms db =
    elim (Option-cases (select_claimable_job_by_id job_id now_ms db)) [
      | inl e ↦ rw (e, claim_oracle_job_by_id) refl
      | inr (row, e) ↦
          rw (e, claim_oracle_job_by_id)
            (used_nonces-claim_row row worker_id now_ms lock_duration_ms db)
    ]

-- Only `reserveNonce` writes the nonces.
abbrev reserves : StoreCall → Bool
reserves (reserve input) = true
reserves _ = false

used_nonces-apply :
    (call : StoreCall) (db : Db)
    → reserves call ≡ false
    → (apply call db).used_nonces ≡ db.used_nonces
unfolding apply
used_nonces-apply (reserve input) db h = cc
used_nonces-apply (enqueue input) db h = unfold enqueue_oracle_job insert_oracle_job in ground arith
used_nonces-apply (claim worker_id now_ms lock_duration_ms) db h =
    used_nonces-claim_pending_job worker_id now_ms lock_duration_ms db
used_nonces-apply (claim_by_id job_id worker_id now_ms lock_duration_ms) db h =
    used_nonces-claim_oracle_job_by_id job_id worker_id now_ms lock_duration_ms db
used_nonces-apply (start input) db h = unfold start_job_attempt insert_attempt in ground arith
used_nonces-apply (complete input) db h =
    unfold complete_oracle_job commit_job update_attempt update_job_completed delete_lock in
    ground arith
used_nonces-apply (fail input) db h =
    unfold fail_oracle_job commit_job update_attempt update_job_failed delete_lock in ground arith
used_nonces-apply (acquire input) db h =
    unfold acquire_service_lock insert_lock delete_expired_lock in ground arith
used_nonces-apply (release lock_key) db h = unfold release_lock delete_lock in refl

find_nonce-reserve_nonce :
    (nonce : String) (input : ReserveNonceInput) (db : Db) (r : UsedNonceRecord)
    → find_nonce nonce db ≡ some r
    → find_nonce nonce (reserve_nonce input db).1 ≡ some r
find_nonce-reserve_nonce nonce input db r found = elim (reserve_nonce_lem input db nonce) [
  | inl (fresh, _, e) ↦ elim (Bool-cases (str_eq input.nonce nonce)) [
    | inl k ↦
        let same : input.nonce ≡ nonce = (str_eq_iff input.nonce nonce).0 k in
        let clash : find_nonce nonce db ≡ none = subst (λ n. find_nonce n db ≡ none) same fresh in
        cc
    | inr k ↦ rw e (rw k found)
  ]
  | inr (_, e) ↦ rw e found
]

find_nonce-apply :
    (nonce : String) (call : StoreCall) (db : Db) (r : UsedNonceRecord)
    → find_nonce nonce db ≡ some r
    → find_nonce nonce (apply call db) ≡ some r
unfolding apply find_nonce select_nonce
find_nonce-apply nonce (reserve input) db r found = find_nonce-reserve_nonce nonce input db r found
find_nonce-apply nonce call db r found =
    ap (λ rows. Option.map map_nonce (find_where (has_nonce nonce) rows))
      (used_nonces-apply call db refl)
    ∙ found

find_nonce-run_calls :
    (nonce : String) (calls : List StoreCall) (db : Db) (r : UsedNonceRecord)
    → find_nonce nonce db ≡ some r
    → find_nonce nonce (run_calls calls db) ≡ some r
unfolding run_calls
find_nonce-run_calls nonce [] db r found = found
find_nonce-run_calls nonce (call ∷ calls) db r found =
    find_nonce-run_calls nonce calls (apply call db) r (find_nonce-apply nonce call db r found)

find_nonce-reserved :
    (input : ReserveNonceInput) (db : Db)
    → find_nonce input.nonce db ≡ none
    → find_nonce input.nonce (reserve_nonce input db).1 ≡ some input
find_nonce-reserved input db fresh = elim (reserve_nonce_lem input db input.nonce) [
  | inl (_, _, e) ↦ rw e (rw (str_eq_refl input.nonce) refl)
  | inr (known, _) ↦ absurd (ground (arith, known, fresh))
]

-- Once a nonce is reserved, every later reservation of it throws SQLite's UNIQUE error, after any
-- calls of the store at all, and its record stays the first one.
pub reserve_nonce_once :
    (first again : ReserveNonceInput) (calls : List StoreCall) (db : Db)
    → find_nonce first.nonce db ≡ none
    → again.nonce ≡ first.nonce
    → let later = run_calls calls (reserve_nonce first db).1 in
      (reserve_nonce again later ≡ (throw nonce_taken, later))
      × (find_nonce first.nonce later ≡ some first)
reserve_nonce_once first again calls db fresh same =
    let later = run_calls calls (reserve_nonce first db).1 in
    let kept =
      find_nonce-run_calls first.nonce calls _ first (find_nonce-reserved first db fresh) in
    let known : find_nonce again.nonce later ≡ some first =
      ap (λ n. find_nonce n later) same ∙ kept in
    (
      elim (reserve_nonce_lem again later "") [
        | inl (unknown, _, _) ↦ absurd (ground (arith, known, unknown))
        | inr (_, e) ↦ e
      ],
      kept,
    )
