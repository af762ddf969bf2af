-- ===== src/Processing/Outcomes.antt =====
-- Who may take, renew, use and finish a lease, and what each call leaves.
use egyptian_arabic_annotati.Base.{
  ℕ, ◌+◌, ◌<◌, ◌≡◌, ◌≢◌, refl, ◌⊎◌, inl, inr, Bool, true, false, Bool-cases, Option, none, some,
  if◌then◌else◌, arith, ok, err,
}
use egyptian_arabic_annotati.Processing.{
  conflict_error, RawToken, uuid, Task, Tasks, put, lease_active, holds, mismatch, Lease,
  acquire_processing_lease, renew_processing_lease, require_processing_token, complete_processing,
  clear_lease, try_release_processing_lease,
}

abbrev pub active : Task → ℕ → Bool
active row now = lease_active row.processing_token row.processing_lease_until now

abbrev pub granted : (fresh ttl_seconds now : ℕ) → Task → Task
granted fresh ttl_seconds now row = record {
  processing_token = some fresh;
  processing_lease_until = some (now + ttl_seconds);
  processing_version = row.processing_version + 1;
  updated_at = now;
}

abbrev pub renewed : (ttl_seconds now : ℕ) → Task → Task
renewed ttl_seconds now row = record row {
  processing_lease_until = some (now + ttl_seconds);
  updated_at = now;
}

pub put_same : (tasks : Tasks) (k : ℕ) (row : Task) → put tasks k row k ≡ some row
unfolding put
put_same tasks k row = ground arith

pub put_other :
    (tasks : Tasks) (k other : ℕ) (row : Task) → other ≢ k → put tasks k row other ≡ tasks other
unfolding put
put_other tasks k other row differs = ground arith

pub not_holder : (row : Task) (t now : ℕ) → row.processing_token ≢ some t → holds row t now ≡ false
unfolding holds
not_holder row t now differs = ground arith

expired-holds : (row : Task) (t now : ℕ) → active row now ≡ false → holds row t now ≡ false
unfolding holds
expired-holds row t now free = ground arith

granted-holds :
    (fresh ttl_seconds now : ℕ) (row : Task) (later : ℕ)
    → later < now + ttl_seconds
    → holds (granted fresh ttl_seconds now row) fresh later ≡ true
unfolding holds lease_active
granted-holds fresh ttl_seconds now row later before = ground arith

module _ (task_id ttl_seconds now : ℕ) (tasks : Tasks) {row : Task}
    (e : tasks task_id ≡ some row) where
  pub acquire_ok :
      (fresh : ℕ) (expected : Option ℕ)
      → active row now ≡ false
      → mismatch expected row.processing_version ≡ false
      → acquire_processing_lease task_id ttl_seconds expected fresh now tasks
        ≡ ok (
          record { token = fresh; processing_version = row.processing_version + 1 },
          put tasks task_id (granted fresh ttl_seconds now row),
        )
  unfolding acquire_processing_lease
  acquire_ok fresh expected free m = rw (e, m, free) refl

  pub acquire_busy :
      (fresh : ℕ) (expected : Option ℕ)
      → active row now ≡ true
      → acquire_processing_lease task_id ttl_seconds expected fresh now tasks ≡ err conflict_error
  unfolding acquire_processing_lease
  acquire_busy fresh expected busy = elim (Bool-cases (mismatch expected row.processing_version)) [
    | inl m ↦ rw (e, m) refl
    | inr m ↦ rw (e, m, busy) refl
  ]

  pub acquire_result :
      (fresh : ℕ) (expected : Option ℕ) {lease : Lease} {tasks' : Tasks}
      → acquire_processing_lease task_id ttl_seconds expected fresh now tasks ≡ ok (lease, tasks')
      → tasks' ≡ put tasks task_id (granted fresh ttl_seconds now row)
  unfolding acquire_processing_lease
  acquire_result fresh expected h = ground (arith, e)

  pub renew_result :
      (token : RawToken) {tasks' : Tasks}
      → renew_processing_lease task_id token ttl_seconds now tasks ≡ ok tasks'
      → tasks' ≡ put tasks task_id (renewed ttl_seconds now row)
  unfolding renew_processing_lease
  renew_result token h = ground (arith, e)

  pub complete_result :
      (token : Option RawToken) {tasks' : Tasks}
      → complete_processing task_id token now tasks ≡ ok tasks'
      → (tasks' ≡ tasks) ⊎ (tasks' ≡ put tasks task_id (clear_lease row now))
  unfolding complete_processing
  complete_result token h = ground (arith, e)

  pub require_result :
      (t : ℕ)
      → require_processing_token task_id (some (uuid t)) now tasks
        ≡ (if holds row t now then ok row.processing_version else err conflict_error)
  unfolding require_processing_token
  require_result t = ground (arith, e)

-- While a lease on the task is active, every other worker is refused with a conflict and nothing is
-- written: a new lease cannot be taken, another token can neither renew, use nor finish it, and a
-- call with no token can neither use nor finish it. Releasing with another token returns false.
pub active_lease-excludes :
    (task_id ttl_seconds now : ℕ) (tasks : Tasks) {row : Task}
    → tasks task_id ≡ some row
    → active row now ≡ true
    → (other : ℕ) → row.processing_token ≢ some other
    → ((fresh : ℕ) (expected : Option ℕ)
        → acquire_processing_lease task_id ttl_seconds expected fresh now tasks
          ≡ err conflict_error)
      × (renew_processing_lease task_id (uuid other) ttl_seconds now tasks ≡ err conflict_error)
      × (require_processing_token task_id (some (uuid other)) now tasks ≡ err conflict_error)
      × (complete_processing task_id (some (uuid other)) now tasks ≡ err conflict_error)
      × (require_processing_token task_id none now tasks ≡ err conflict_error)
      × (complete_processing task_id none now tasks ≡ err conflict_error)
      × (try_release_processing_lease task_id (some (uuid other)) now tasks ≡ ok (false, tasks))
unfolding renew_processing_lease require_processing_token complete_processing
    try_release_processing_lease
active_lease-excludes task_id ttl_seconds now tasks {row} e busy other differs =
    let h = not_holder row other now differs in
    (
      λ fresh expected. acquire_busy task_id ttl_seconds now tasks e fresh expected busy,
      rw (e, h) refl,
      rw (e, h) refl,
      rw (e, h) refl,
      rw (e, busy) refl,
      rw (e, busy) refl,
      rw (e, h) refl,
    )

-- A worker that takes a lease may use, renew and finish it until the lease runs out: requiring its
-- token returns the version it was given, renewing moves the deadline, and finishing clears the
-- lease. The rows of other tasks stay as they are.
pub acquired_lease-usable :
    (task_id ttl_seconds now fresh : ℕ) (expected : Option ℕ) (tasks : Tasks) {row : Task}
    → tasks task_id ≡ some row
    → active row now ≡ false
    → mismatch expected row.processing_version ≡ false
    → (tasks' : Tasks) × (acquire_processing_lease task_id ttl_seconds expected fresh now tasks
        ≡ ok (record { token = fresh; processing_version = row.processing_version + 1 }, tasks'))
      × ((later : ℕ)
          → later < now + ttl_seconds
          → (require_processing_token task_id (some (uuid fresh)) later tasks'
              ≡ ok (row.processing_version + 1))
            × (renew_processing_lease task_id (uuid fresh) ttl_seconds later tasks'
                ≡ ok (
                    put tasks' task_id
                      (renewed ttl_seconds later (granted fresh ttl_seconds now row))))
            × (complete_processing task_id (some (uuid fresh)) later tasks'
                ≡ ok (put tasks' task_id (clear_lease (granted fresh ttl_seconds now row) later))))
      × ((k : ℕ) → k ≢ task_id → tasks' k ≡ tasks k)
unfolding renew_processing_lease require_processing_token complete_processing
acquired_lease-usable task_id ttl_seconds now fresh expected tasks {row} e free m = (
  put tasks task_id (granted fresh ttl_seconds now row),
  acquire_ok task_id ttl_seconds now tasks e fresh expected free m,
  λ later before.
      let p = put_same tasks task_id (granted fresh ttl_seconds now row) in
      let h = granted-holds fresh ttl_seconds now row later before in
      (rw (p, h) refl, rw (p, h) refl, rw (p, h) refl),
  λ k differs. put_other tasks task_id k _ differs,
)

-- When no lease is active, a caller with no token may use the task, and finishing with no token
-- changes nothing. A token, also one whose lease has run out, is refused.
pub no_active_lease :
    (task_id now : ℕ) (tasks : Tasks) {row : Task}
    → tasks task_id ≡ some row
    → active row now ≡ false
    → (require_processing_token task_id none now tasks ≡ ok row.processing_version)
      × (complete_processing task_id none now tasks ≡ ok tasks)
      × ((t : ℕ)
          → (require_processing_token task_id (some (uuid t)) now tasks ≡ err conflict_error)
            × (complete_processing task_id (some (uuid t)) now tasks ≡ err conflict_error)
            × (try_release_processing_lease task_id (some (uuid t)) now tasks ≡ ok (false, tasks)))
unfolding require_processing_token complete_processing try_release_processing_lease
no_active_lease task_id now tasks {row} e free = (
  rw (e, free) refl,
  rw (e, free) refl,
  λ t. let h = expired-holds row t now free in (rw (e, h) refl, rw (e, h) refl, rw (e, h) refl),
)
