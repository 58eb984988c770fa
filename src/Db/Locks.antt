-- ===== src/Db/Locks.antt =====
-- backend/src/db/index.ts: `acquireServiceLock` and `releaseLock`, as the runner's lock uses them.
use personal_carbon_footprin.Prelude.{
  some, none, ◌≡◌, refl, ap, ◌∙◌, inl, inr, true, false, ◌&&◌, arith, [], ◌∷◌, ◌++◌, Bool-cases,
  leb, if◌then◌else◌, find_where, exists_where, delete_where, exists_where-append,
  exists_where-delete, find_where-append, delete_where-append, str_eq_refl,
}
use personal_carbon_footprin.Storage.{AcquireServiceLockInput, ServiceLockRecord}
use personal_carbon_footprin.Db.Tables.{Db, LockRow, new_lock, map_lock}
use personal_carbon_footprin.Db.Statements.{
  has_lock_key, delete_expired_lock, delete_lock, select_lock,
}
use personal_carbon_footprin.Db.Store.{acquire_service_lock, release_lock}
use personal_carbon_footprin.Db.Views.{
  is_locked, insert_lock-taken, insert_lock-free, is_locked-delete_expired_free,
  is_locked-delete_self,
}

abbrev pub lock_of : AcquireServiceLockInput → LockRow
lock_of input = new_lock input.lock_key input.owner_id input.acquired_at_ms input.expires_at_ms

abbrev pub locked_db : AcquireServiceLockInput → Db → Db
locked_db input db = record db { service_locks = db.service_locks ++ lock_of input ∷ [] }

abbrev pub lock_record : AcquireServiceLockInput → ServiceLockRecord
lock_record input = record {
  lock_key = input.lock_key;
  owner_id = input.owner_id;
  acquired_at_ms = input.acquired_at_ms;
  expires_at_ms = input.expires_at_ms;
}

abbrev pub cleared : AcquireServiceLockInput → Db → Db
cleared input db = delete_expired_lock input.lock_key input.acquired_at_ms db

select_lock-locked_db :
    (input : AcquireServiceLockInput) (db : Db)
    → is_locked input.lock_key db ≡ false
    → select_lock input.lock_key (locked_db input db) ≡ some (lock_of input)
unfolding select_lock is_locked find_where
select_lock-locked_db input db free =
    rw (find_where-append (has_lock_key input.lock_key) db.service_locks (lock_of input ∷ []), free)
      (rw (str_eq_refl input.lock_key) refl)

-- What acquiring gives, by whether a lock is left once the expired one is cleared.
pub acquire_service_lock-free :
    (input : AcquireServiceLockInput) (db : Db)
    → is_locked input.lock_key (cleared input db) ≡ false
    → acquire_service_lock input db ≡ (some (lock_record input), locked_db input (cleared input db))
unfolding acquire_service_lock
acquire_service_lock-free input db free =
    rw (insert_lock-free (lock_of input) (cleared input db) free, acquire_service_lock)
      (rw (select_lock-locked_db input (cleared input db) free) (unfold map_lock in refl))

pub acquire_service_lock-taken :
    (input : AcquireServiceLockInput) (db : Db)
    → is_locked input.lock_key (cleared input db) ≡ true
    → acquire_service_lock input db ≡ (none, cleared input db)
unfolding acquire_service_lock
acquire_service_lock-taken input db taken =
    rw (insert_lock-taken (lock_of input) (cleared input db) taken, acquire_service_lock) refl

-- Once the first lock is there, it alone decides what is left for the second.
is_locked-second :
    (first second : AcquireServiceLockInput) (db : Db)
    → is_locked first.lock_key db ≡ false
    → second.lock_key ≡ first.lock_key
    → is_locked second.lock_key (cleared second (locked_db first db))
      ≡ (if leb first.expires_at_ms second.acquired_at_ms then false else true)
unfolding is_locked delete_expired_lock exists_where delete_where
is_locked-second first second db free same =
    let test = λ (row : LockRow).
      has_lock_key first.lock_key row && leb row.expires_at_ms second.acquired_at_ms in
    rw same (
      rw
        (
          delete_where-append test db.service_locks (lock_of first ∷ []),
          exists_where-append (has_lock_key first.lock_key) (delete_where test db.service_locks) _,
          exists_where-delete (has_lock_key first.lock_key) test db.service_locks free,
        )
        (ground (arith, str_eq_refl first.lock_key)))

-- While a lock that was acquired is not expired, nobody acquires it again; from its expiry on,
-- everybody does.
pub acquire_excludes :
    (first second : AcquireServiceLockInput) (db : Db) {r : ServiceLockRecord}
    → (acquire_service_lock first db).0 ≡ some r
    → second.lock_key ≡ first.lock_key
    → (acquire_service_lock second (acquire_service_lock first db).1).0
      ≡ (if leb first.expires_at_ms second.acquired_at_ms then some (lock_record second) else none)
acquire_excludes first second db got same =
    elim (Bool-cases (is_locked first.lock_key (cleared first db))) [
      | inl e ↦ absurd (ground (arith, acquire_service_lock-taken first db e, got))
      | inr e ↦
          let held = locked_db first (cleared first db) in
          let left = is_locked-second first second (cleared first db) e same in
          rw (acquire_service_lock-free first db e)
            (elim (Bool-cases (leb first.expires_at_ms second.acquired_at_ms)) [
              | inl expired ↦
                  rw expired (rw (acquire_service_lock-free second held (rw expired at left)) refl)
              | inr current ↦
                  rw current (rw (acquire_service_lock-taken second held (rw current at left)) refl)
            ])
    ]

-- `releaseLock` asks for no owner: once it is called for a key, whoever acquired the lock before,
-- and whenever that expires, the next to ask for it acquires it.
pub release_lock_unowned :
    (first third : AcquireServiceLockInput) (db : Db)
    → third.lock_key ≡ first.lock_key
    → (acquire_service_lock third (release_lock first.lock_key (acquire_service_lock first db).1)).0
      ≡ some (lock_record third)
unfolding release_lock
release_lock_unowned first third db same =
    let after = (acquire_service_lock first db).1 in
    let gone = is_locked-delete_self first.lock_key after in
    let free : is_locked third.lock_key (delete_lock first.lock_key after) ≡ false =
      ap (λ k. is_locked k (delete_lock first.lock_key after)) same ∙ gone in
    rw
      (acquire_service_lock-free third (delete_lock first.lock_key after) (
        is_locked-delete_expired_free third.lock_key third.lock_key third.acquired_at_ms
          (delete_lock first.lock_key after) free))
      refl
