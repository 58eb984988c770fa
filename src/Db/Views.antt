-- ===== src/Db/Views.antt =====
-- backend/src/db/index.ts: the store as its callers see it: the row and status of each job, the
-- nonces and the locks that are taken; what each statement does to these views.
use mathlib.Core.Option
use personal_carbon_footprin.Prelude.{
  ℕ, String, Bool, true, false, Option, some, [], ◌∷◌, ◌++◌, ◌≡◌, ap, ◌≢◌, inl, inr, arith, ◌==◌,
  str_eq, str_eq_iff, leb, ◌&&◌, if◌then◌else◌, Bool-cases, Option-cases, exists_where,
  exists_where-append, find_where-update_self, find_where-update_other, exists_where-delete_other,
  exists_where-delete, and-left, ok, throw, exists_where-delete_self, number_to_string-injective,
}
use text.Mathlib.TextLemmas.{append_cancel_left}
use personal_carbon_footprin.Storage.{OracleJobStatus}
use personal_carbon_footprin.Db.Tables.{OracleJobRow, LockRow, Db, job_lock_prefix, job_lock_key}
use personal_carbon_footprin.Db.Statements.{
  has_id, has_lock_key, select_oracle_job_by_id, update_job, insert_lock, lock_key_taken,
  delete_lock, delete_expired_lock,
}

-- The status of a job, `none` if there is no such job.
unfoldable pub status_of : ℕ → Db → Option OracleJobStatus
status_of id db = Option.map (λ (row : OracleJobRow). row.status) (select_oracle_job_by_id id db)

abbrev pub is_running_status : Option OracleJobStatus → Bool
is_running_status (some OracleJobStatus.running) = true
is_running_status _ = false

abbrev pub is_running : ℕ → Db → Bool
is_running id db = is_running_status (status_of id db)

unfoldable pub is_locked : String → Db → Bool
is_locked key db = exists_where (has_lock_key key) db.service_locks

-- Two jobs never share a lock key.
pub job_lock_key-injective : (a b : ℕ) → job_lock_key a ≡ job_lock_key b → a ≡ b
unfolding job_lock_key
job_lock_key-injective a b h =
    number_to_string-injective a b (append_cancel_left job_lock_prefix _ _ h)

pub job_lock_key-eq : (a b : ℕ) → str_eq (job_lock_key a) (job_lock_key b) ≡ (a == b)
job_lock_key-eq a b = ground (
  arith,
  str_eq_iff (job_lock_key a) (job_lock_key b),
  job_lock_key-injective a b,
  ap job_lock_key {x = a} {y = b},
)

-- Locks: inserting, deleting and clearing one key.
pub insert_lock-taken :
    (row : LockRow) (db : Db)
    → is_locked row.lock_key db ≡ true
    → insert_lock row db ≡ throw lock_key_taken
unfolding insert_lock is_locked
insert_lock-taken row db h = rw h

pub insert_lock-free :
    (row : LockRow) (db : Db)
    → is_locked row.lock_key db ≡ false
    → insert_lock row db ≡ ok (record db { service_locks = db.service_locks ++ row ∷ [] })
unfolding insert_lock is_locked
insert_lock-free row db h = rw h

pub is_locked-insert :
    (key : String) (row : LockRow) (db : Db)
    → is_locked key (record db { service_locks = db.service_locks ++ row ∷ [] })
      ≡ (if str_eq row.lock_key key then true else is_locked key db)
unfolding is_locked exists_where
is_locked-insert key row db =
    ground (arith, exists_where-append (has_lock_key key) db.service_locks (row ∷ []))

apart_keys :
    (key other : String)
    → key ≢ other
    → (row : LockRow) → has_lock_key other row ≡ true
    → has_lock_key key row ≡ false
apart_keys key other ne row h =
    ground (arith, str_eq_iff row.lock_key other, str_eq_iff row.lock_key key)

pub is_locked-delete_other :
    (key other : String) (db : Db)
    → key ≢ other
    → is_locked key (delete_lock other db) ≡ is_locked key db
unfolding is_locked delete_lock
is_locked-delete_other key other db ne =
    exists_where-delete_other (has_lock_key key) (has_lock_key other) (apart_keys key other ne)
      db.service_locks

pub is_locked-delete_self : (key : String) (db : Db) → is_locked key (delete_lock key db) ≡ false
unfolding is_locked delete_lock
is_locked-delete_self key db = exists_where-delete_self (has_lock_key key) db.service_locks

pub is_locked-delete_expired_other :
    (key other : String) (now_ms : ℕ) (db : Db)
    → key ≢ other
    → is_locked key (delete_expired_lock other now_ms db) ≡ is_locked key db
unfolding is_locked delete_expired_lock
is_locked-delete_expired_other key other now_ms db ne =
    exists_where-delete_other (has_lock_key key)
      (λ row. has_lock_key other row && leb row.expires_at_ms now_ms)
      (λ row h. apart_keys key other ne row (and-left _ _ h)) db.service_locks

pub is_locked-delete_expired_free :
    (key other : String) (now_ms : ℕ) (db : Db)
    → is_locked key db ≡ false
    → is_locked key (delete_expired_lock other now_ms db) ≡ false
unfolding is_locked delete_expired_lock
is_locked-delete_expired_free key other now_ms db h =
    exists_where-delete (has_lock_key key) _ db.service_locks h

pub ruleset lock_laws = (
  is_locked-insert, is_locked-delete_other, is_locked-delete_self, is_locked-delete_expired_other,
  is_locked-delete_expired_free,
)

-- Jobs: a change of one row, which keeps its id, shows at that id alone.
pub select-update :
    (change : OracleJobRow → OracleJobRow) (id k : ℕ) (db : Db)
    → ((row : OracleJobRow) → (change row).id ≡ row.id)
    → select_oracle_job_by_id id (update_job k change db) ≡ (
        if k == id
        then Option.map change (select_oracle_job_by_id id db)
        else select_oracle_job_by_id id db)
unfolding select_oracle_job_by_id
select-update change id k db keeps = elim (Bool-cases (k == id)) [
  | inl e ↦
      let same : id ≡ k = ground arith in
      rw (e, same)
        (find_where-update_self (has_id k) change (λ row. ap (λ n. n == k) (keeps row))
          db.oracle_jobs)
  | inr e ↦ rw e (
      find_where-update_other (has_id id) (has_id k) change (λ row. ap (λ n. n == id) (keeps row))
        (λ row h. ground arith) db.oracle_jobs)
]

-- A change that sets the status.
pub status_of-update :
    (change : OracleJobRow → OracleJobRow) (status : OracleJobStatus) (id k : ℕ) (db : Db)
    → ((row : OracleJobRow) → (change row).id ≡ row.id)
    → ((row : OracleJobRow) → (change row).status ≡ status)
    → status_of id (update_job k change db)
      ≡ (if k == id then Option.map (λ _. status) (status_of id db) else status_of id db)
unfolding status_of
status_of-update change status id k db keeps sets =
    elim (Option-cases (select_oracle_job_by_id id db)) [
      | inl e ↦ ground (arith, select-update change id k db keeps, e)
      | inr (row, e) ↦ ground (arith, select-update change id k db keeps, e, sets row)
    ]
