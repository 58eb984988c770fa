-- ===== src/Db/Trace/Step/Locks.antt =====
-- backend/src/db/index.ts: the calls that leave every job's status as it is.
use personal_carbon_footprin.Prelude.{
  ℕ, suc, String, none, ◌≡◌, refl, ◌≢◌, inl, inr, arith, [], ◌∷◌, ◌++◌, Bool-cases, exists_where,
  str_eq_iff, Ids-append,
}
use personal_carbon_footprin.Storage.{
  ReserveNonceInput, JobAttemptStartInput, AcquireServiceLockInput,
}
use personal_carbon_footprin.Db.Tables.{Db, new_lock, job_lock_key}
use personal_carbon_footprin.Db.Statements.{
  has_nonce, has_lock_key, has_id, is_attempt, insert_nonce, insert_lock, delete_lock,
  delete_expired_lock, select_oracle_job_by_id,
}
use personal_carbon_footprin.Db.Store.{
  reserve_nonce, start_job_attempt, acquire_service_lock, release_lock,
}
use personal_carbon_footprin.Db.Views.{
  status_of, is_locked, is_locked-insert, is_locked-delete_other, is_locked-delete_expired_other,
}
use personal_carbon_footprin.Db.Invariant.{Inv, attempt_id}
use personal_carbon_footprin.Db.Keeps.{Inv-used_nonces, Inv-locks, Inv-attempts}
use personal_carbon_footprin.Db.Attempts.{start_job_attempt_lem}
use personal_carbon_footprin.Db.Trace.Step.Edges.{stay, Goes, Goes-stay}

-- The calls that leave the jobs alone.
pub reserve-Goes :
    (input : ReserveNonceInput) (db : Db) → Inv db → Goes none db (reserve_nonce input db).1
unfolding reserve_nonce insert_nonce status_of select_oracle_job_by_id
reserve-Goes input db inv =
    elim (Bool-cases (exists_where (has_nonce input.nonce) db.used_nonces)) [
      | inl e ↦ rw (e, reserve_nonce) (Goes-stay inv)
      | inr e ↦
          rw (e, reserve_nonce)
            (record { inv = Inv-used_nonces db _ inv; step = λ id. stay; keeps = λ id f r. r })
    ]

pub start-Goes :
    (input : JobAttemptStartInput) (db : Db) → Inv db → Goes none db (start_job_attempt input db).1
unfolding status_of select_oracle_job_by_id
start-Goes input db inv =
    rw (start_job_attempt_lem input db inv)
      (elim (Bool-cases
        (exists_where (is_attempt input.job_id input.attempt_number) db.job_attempts)) [
          | inl e ↦ rw e (Goes-stay inv)
          | inr e ↦ elim (Bool-cases (exists_where (has_id input.job_id) db.oracle_jobs)) [
            | inr k ↦ rw (e, k) (Goes-stay inv)
            | inl k ↦
                rw (e, k)
                  (record {
                    inv =
                        Inv-attempts db _ (suc db.attempt_sequence)
                          (Ids-append attempt_id 0 db.attempt_sequence db.job_attempts _
                            inv.attempt_ids refl)
                          inv;
                    step = λ id. stay;
                    keeps = λ id f r. r;
                  })
          ]
        ])

pub release-Goes :
    (lock_key : String) (db : Db)
    → Inv db
    → ((id : ℕ) → job_lock_key id ≢ lock_key)
    → Goes none db (release_lock lock_key db)
unfolding release_lock delete_lock status_of select_oracle_job_by_id
release-Goes lock_key db inv apart = record {
  inv = Inv-locks db _ (λ id. is_locked-delete_other (job_lock_key id) lock_key db (apart id)) inv;
  step = λ id. stay;
  keeps = λ id f r. r;
}

pub is_locked-other_key :
    (id : ℕ) (input : AcquireServiceLockInput) (db : Db)
    → job_lock_key id ≢ input.lock_key
    → let cleared = delete_expired_lock input.lock_key input.acquired_at_ms db in
      let lock = new_lock input.lock_key input.owner_id input.acquired_at_ms input.expires_at_ms in
      is_locked (job_lock_key id) (record db { service_locks = cleared.service_locks ++ lock ∷ [] })
      ≡ is_locked (job_lock_key id) db
unfolding is_locked
is_locked-other_key id input db apart =
    let cleared = delete_expired_lock input.lock_key input.acquired_at_ms db in
    let lock = new_lock input.lock_key input.owner_id input.acquired_at_ms input.expires_at_ms in
    ground (
      arith,
      is_locked-insert (job_lock_key id) lock cleared,
      is_locked-delete_expired_other (job_lock_key id) input.lock_key input.acquired_at_ms db apart,
      str_eq_iff input.lock_key (job_lock_key id),
    )

pub acquire-Goes :
    (input : AcquireServiceLockInput) (db : Db)
    → Inv db
    → ((id : ℕ) → job_lock_key id ≢ input.lock_key)
    → Goes none db (acquire_service_lock input db).1
unfolding acquire_service_lock insert_lock status_of select_oracle_job_by_id delete_expired_lock
acquire-Goes input db inv apart =
    let cleared = delete_expired_lock input.lock_key input.acquired_at_ms db in
    let lock = new_lock input.lock_key input.owner_id input.acquired_at_ms input.expires_at_ms in
    let less = λ (id : ℕ).
      is_locked-delete_expired_other (job_lock_key id) input.lock_key input.acquired_at_ms db
        (apart id) in
    elim (Bool-cases (exists_where (has_lock_key input.lock_key) cleared.service_locks)) [
      | inl e ↦
          rw (e, acquire_service_lock)
            (record {
              inv = Inv-locks db cleared.service_locks less inv;
              step = λ id. stay;
              keeps = λ id f r. r;
            })
      | inr e ↦
          rw (e, acquire_service_lock)
            (record {
              inv =
                  Inv-locks db (cleared.service_locks ++ lock ∷ [])
                    (λ id. is_locked-other_key id input db (apart id)) inv;
              step = λ id. stay;
              keeps = λ id f r. r;
            })
    ]
