-- ===== src/Processing/Fencing.antt =====
-- The lease as a step relation: any sequence of calls by any workers, at any times, on one task and
-- on others. `issued` is the list of tokens handed out on the task, the newest first.
use egyptian_arabic_annotati.Base.{
  ℕ, ◌+◌, ◌≡◌, ◌≢◌, refl, ◌∙◌, ap, inl, inr, Bool, true, false, not, ◌&&◌, Option, none, some, List,
  [], ◌∷◌, ◌==◌, arith, ok, err, length, any,
}
use egyptian_arabic_annotati.Processing.{
  conflict_error, RawToken, uuid, Task, Tasks, Lease, clear_lease, acquire_processing_lease,
  renew_processing_lease, require_processing_token, complete_processing,
  try_release_processing_lease,
}
use egyptian_arabic_annotati.Processing.Outcomes.{
  granted, renewed, acquire_result, renew_result, complete_result, not_holder, put_same,
}

pub record World : Type 0 where
  pub tasks : Tasks
  pub issued : List ℕ

-- One committed call. A new token is one that was never issued on the task, as `uuid4` promises.
pub data Step (task_id : ℕ) : World → World → Type 0 where
  acquired :
      {w : World} (ttl_seconds fresh now : ℕ) (expected : Option ℕ) {lease : Lease} {after : Tasks}
      → any (λ t. fresh == t) w.issued ≡ false
      → acquire_processing_lease task_id ttl_seconds expected fresh now w.tasks ≡ ok (lease, after)
      → Step task_id w (record { tasks = after; issued = fresh ∷ w.issued })
  extended :
      {w : World} (token : RawToken) (ttl_seconds now : ℕ) {after : Tasks}
      → renew_processing_lease task_id token ttl_seconds now w.tasks ≡ ok after
      → Step task_id w (record { tasks = after; issued = w.issued })
  completed :
      {w : World} (token : Option RawToken) (now : ℕ) {after : Tasks}
      → complete_processing task_id token now w.tasks ≡ ok after
      → Step task_id w (record { tasks = after; issued = w.issued })
  elsewhere :
      {w : World} {after : Tasks}
      → after task_id ≡ w.tasks task_id
      → Step task_id w (record { tasks = after; issued = w.issued })

pub data Reachable (task_id : ℕ) (start : World) : World → Type 0 where
  started : Reachable task_id start start
  then_step :
      {v w : World} → Reachable task_id start v → Step task_id v w → Reachable task_id start w

-- The token on the row, if any, is the newest one issued.
unfoldable pub newest : Option ℕ → List ℕ → Bool
newest none issued = true
newest (some t) [] = false
newest (some t) (u ∷ issued) = t == u

unfoldable pub distinct : List ℕ → Bool
distinct [] = true
distinct (t ∷ ts) = not (any (λ u. t == u) ts) && distinct ts

abbrev pub Fits : ℕ → ℕ → World → Type 0
Fits task_id version w =
    (row : Task) × (w.tasks task_id ≡ some row)
    × (row.processing_version ≡ version + length w.issued)
    × (newest row.processing_token w.issued ≡ true)
    × (distinct w.issued ≡ true)

pub Step-Fits :
    (task_id version : ℕ) {v w : World}
    → Step task_id v w
    → Fits task_id version v
    → Fits task_id version w
unfolding newest distinct clear_lease
Step-Fits task_id version (acquired {w = v} ttl fresh now expected new h)
      (row, e, count, top, differ) =
    let p = acquire_result task_id ttl now v.tasks e fresh expected h in
    (
      granted fresh ttl now row,
      ap (λ f. f task_id) p ∙ put_same v.tasks task_id _,
      omega arith,
      ground arith,
      rw (new, differ) refl,
    )
Step-Fits task_id version (extended {w = v} token ttl now h) (row, e, count, top, differ) =
    let p = renew_result task_id ttl now v.tasks e token h in
    (renewed ttl now row, ap (λ f. f task_id) p ∙ put_same v.tasks task_id _, count, top, differ)
Step-Fits task_id version (completed {w = v} token now h) (row, e, count, top, differ) =
    elim (complete_result task_id 0 now v.tasks e token h) [
      | inl p ↦ (row, ap (λ f. f task_id) p ∙ e, count, top, differ)
      | inr p ↦ (
        clear_lease row now,
        ap (λ f. f task_id) p ∙ put_same v.tasks task_id _,
        count,
        refl,
        differ,
      )
    ]
Step-Fits task_id version (elsewhere same) (row, e, count, top, differ) =
    (row, same ∙ e, count, top, differ)

pub Reachable-Fits :
    {task_id : ℕ} (version : ℕ) {start w : World}
    → Fits task_id version start
    → Reachable task_id start w
    → Fits task_id version w
Reachable-Fits version h started = h
Reachable-Fits version h (then_step past step) =
    Step-Fits _ version step (Reachable-Fits version h past)

start-Fits :
    (task_id : ℕ) (start : Tasks) (row : Task)
    → start task_id ≡ some row
    → row.processing_token ≡ none
    → Fits task_id row.processing_version (record { tasks = start; issued = [] })
unfolding newest distinct
start-Fits task_id start row e clear = (row, e, omega arith, rw clear refl, refl)

not_newest :
    (token : Option ℕ) (t u : ℕ) (older : List ℕ)
    → newest token (t ∷ older) ≡ true
    → distinct (t ∷ older) ≡ true
    → any (λ x. u == x) older ≡ true
    → token ≢ some u
unfolding newest distinct
not_newest token t u older top differ among = ground arith

-- A worker whose lease was taken over can never write again. From a task with no lease and no
-- token issued, after any calls by any workers, a token that was issued before the newest one is
-- refused with a conflict by renewal, by the check of a fenced write and by completion, and its
-- release returns false and changes nothing. This holds at any time, also after the successor has
-- finished.
pub superseded_token-fenced :
    {task_id : ℕ} {start : Tasks} {row : Task} {w : World} {newest_token : ℕ} {older : List ℕ}
    → start task_id ≡ some row
    → row.processing_token ≡ none
    → Reachable task_id (record { tasks = start; issued = [] }) w
    → w.issued ≡ newest_token ∷ older
    → (old now ttl_seconds : ℕ) → any (λ t. old == t) older ≡ true
    → (renew_processing_lease task_id (uuid old) ttl_seconds now w.tasks ≡ err conflict_error)
      × (require_processing_token task_id (some (uuid old)) now w.tasks ≡ err conflict_error)
      × (complete_processing task_id (some (uuid old)) now w.tasks ≡ err conflict_error)
      × (try_release_processing_lease task_id (some (uuid old)) now w.tasks ≡ ok (false, w.tasks))
unfolding renew_processing_lease require_processing_token complete_processing
    try_release_processing_lease
superseded_token-fenced {task_id} {start} {row} {w} e clear past tokens old now ttl_seconds among =
    let (now_row, held, count, top, differ) =
      Reachable-Fits row.processing_version (start-Fits task_id start row e clear) past in
    let h =
      not_holder now_row old now
        (not_newest _ _ old _ (rw tokens at top) (rw tokens at differ) among) in
    (rw (held, h) refl, rw (held, h) refl, rw (held, h) refl, rw (held, h) refl)

-- The version of a task counts the leases that were taken on it: it grows by one with each
-- acquisition and no other call changes it.
pub version_counts_leases :
    {task_id : ℕ} {start : Tasks} {row : Task} {w : World}
    → start task_id ≡ some row
    → row.processing_token ≡ none
    → Reachable task_id (record { tasks = start; issued = [] }) w
    → (row' : Task) × (w.tasks task_id ≡ some row')
      × (row'.processing_version ≡ row.processing_version + length w.issued)
version_counts_leases {task_id} {start} {row} e clear past =
    let (now_row, held, count, top, differ) =
      Reachable-Fits row.processing_version (start-Fits task_id start row e clear) past in
    (now_row, held, count)
