-- ===== src/Drafts/Release.antt =====
-- What giving a task back leaves.
use egyptian_arabic_annotati.Base.{
  ℕ, ◌+◌, ◌≡◌, ◌≢◌, refl, sym, ap, subst, ◌∙◌, inl, inr, true, false, Bool-cases, Option,
  Option-cases, none, some, ◌==◌, arith, Result, ok, bind-ok,
}
use egyptian_arabic_annotati.Sessions.State.{
  SessionPolicy, SessionFence, uuid, validate_uuid, lock_active_annotator,
}
use egyptian_arabic_annotati.Sessions.Fence.{require_session_fence}
use egyptian_arabic_annotati.Drafts.State.{
  Fault, session, passing, Assignment, annotation, revision, cross_check, Version, draft, Round,
  cancelled, Store, put, abandon_route, Response, store_operation, lock_assignment, open_round,
  touch, other_lease,
}
use egyptian_arabic_annotati.Drafts.Abandon.{
  abandon_version, discard_draft, cancel_in_progress_cross_check, release_draft, delete_assignment,
  abandon_new, abandon,
}
use egyptian_arabic_annotati.Drafts.Conflicts.{new_operation, lock_assignment-found}

-- A version before and after: its text is kept, and one that is no draft is kept whole.
abbrev pub Kept : Version → Option Version → Type 0
Kept version after =
    (version' : Version) × (after ≡ some version')
    × (version'.segments ≡ version.segments)
    × (version'.revision ≡ version.revision)
    × (version.lifecycle ≢ draft → version' ≡ version)

abandon_version-Kept : (version : Version) → Kept version (some (abandon_version version))
unfolding abandon_version
abandon_version-Kept version =
    (abandon_version version, refl, ground arith, ground arith, λ differs. ground arith)

discard_draft-Kept :
    (version_id : ℕ) (store : Store) (k : ℕ) {version : Version}
    → store.versions k ≡ some version
    → Kept version ((discard_draft version_id store).versions k)
unfolding discard_draft put
discard_draft-Kept version_id store k {version} there = elim (Bool-cases (k == version_id)) [
  | inl same ↦
      let e : k ≡ version_id = ground arith in
      let here = subst (λ j. store.versions j ≡ some version) e there in
      let after : (discard_draft version_id store).versions k ≡ some (abandon_version version) =
        ground (arith, here) in
      subst (λ o. Kept version o) (sym after) (abandon_version-Kept version)
  | inr differs ↦
      let after : (discard_draft version_id store).versions k ≡ some version =
        elim (Option-cases (store.versions version_id)) [
          | inl gone ↦ rw (gone, discard_draft) there
          | inr (other, here) ↦ rw (here, discard_draft, differs) there
        ] in
      (version, after, refl, refl, λ n. refl)
]

discard_draft-assignments :
    (version_id : ℕ) (store : Store)
    → (discard_draft version_id store).assignments ≡ store.assignments
unfolding discard_draft
discard_draft-assignments version_id store = elim (Option-cases (store.versions version_id)) [
  | inl gone ↦ rw (gone, discard_draft) refl
  | inr (version, there) ↦ rw (there, discard_draft) refl
]

abbrev cancelled_round : ℕ → Round → Store → Store
cancelled_round round_id round store = record store {
  rounds =
      put store.rounds round_id
        (some (record round { revision = round.revision + 1; state = cancelled }));
}

-- What `release_draft` leaves, whatever the mode.
abbrev Released : Store → Store → Type 0
Released store released =
    (released.assignments ≡ store.assignments)
    × ((k : ℕ) (version : Version)
        → store.versions k ≡ some version
        → Kept version (released.versions k))

discard-Released :
    (version_id : ℕ) (store : Store) → Released store (discard_draft version_id store)
discard-Released version_id store = (
  discard_draft-assignments version_id store,
  λ k version there. discard_draft-Kept version_id store k there,
)

store_eq : {a b : Store} → ◌≡◌ {A = Result Fault Store} (ok a) (ok b) → a ≡ b
store_eq e = cc

cancel-Released :
    (round_id : Option ℕ) (task_id version_id : ℕ) (store : Store) {released : Store}
    → cancel_in_progress_cross_check round_id task_id version_id store ≡ ok released
    → Released store released
unfolding cancel_in_progress_cross_check
cancel-Released round_id task_id version_id store e =
    let ((found_id, round), opened, e1) = bind-ok (open_round round_id task_id store) e in
    subst (Released store) (store_eq e1)
      (discard-Released version_id (cancelled_round found_id round store))

release_draft-Released :
    (assignment : Assignment) (store : Store) {released : Store}
    → release_draft assignment store ≡ ok released
    → Released store released
unfolding release_draft cancel_in_progress_cross_check
release_draft-Released assignment store {released} e =
    elim assignment.mode
        as (λ mode.
          ◌≡◌ {A = Result Fault Store}
            (elim mode [
              | cross_check ↦
                  cancel_in_progress_cross_check assignment.cross_check_round_id assignment.task_id
                    assignment.working_version_id store
              | revision ↦ ok (discard_draft assignment.working_version_id store)
              | annotation ↦ ok store
            ])
            (ok released)
          → Released store released) [
            | annotation ↦ λ h.
                subst (Released store) (store_eq h)
                  (refl, λ k version there. (version, there, refl, refl, λ n. refl))
            | revision ↦ λ h.
                subst (Released store) (store_eq h)
                  (discard-Released assignment.working_version_id store)
            | cross_check ↦ λ h.
                cancel-Released assignment.cross_check_round_id assignment.task_id
                  assignment.working_version_id store h
          ]
      e

out_eq : {a b : Response × Store} → ◌≡◌ {A = Result Fault (Response × Store)} (ok a) (ok b) → a ≡ b
out_eq e = cc

lease_same :
    (token : ℕ) (assignment : Assignment)
    → other_lease (some token) assignment ≡ false
    → assignment.lease_token ≡ token
lease_same token assignment e = ground arith

put-none : (table : ℕ → Option Assignment) (key : ℕ) → put table key none key ≡ none
unfolding put
put-none table key = ground arith

put_elsewhere :
    (table : ℕ → Option Assignment) (key k : ℕ) (row : Option Assignment)
    → k ≢ key
    → put table key row k ≡ table k
unfolding put
put_elsewhere table key k row differs = ground arith

abandon_new-releases :
    (request_hash : ℕ → ℕ) (fence : SessionFence) (policy : SessionPolicy)
    (now lease_token operation_id : ℕ) (store : Store) {response : Response} {after : Store}
    → abandon_new request_hash fence policy now lease_token operation_id store
      ≡ ok (response, after)
    → (assignment : Assignment) × (store.assignments fence.user_id ≡ some assignment)
      × (assignment.lease_token ≡ lease_token)
      × (after.assignments fence.user_id ≡ none)
      × ((user_id : ℕ)
          → user_id ≢ fence.user_id
          → after.assignments user_id ≡ store.assignments user_id)
      × ((k : ℕ) (version : Version)
          → store.versions k ≡ some version
          → Kept version (after.versions k))
unfolding abandon_new delete_assignment store_operation touch
abandon_new-releases request_hash fence policy now lease_token operation_id store {response} {after}
      e =
    let (work, locked, e1) = bind-ok (lock_assignment fence.user_id (some lease_token) store) e in
    let (released, run, e2) = bind-ok (release_draft work.assignment store) e1 in
    let (assignments, versions) = release_draft-Released work.assignment store run in
    let out = out_eq e2 in
    let (there, same) = lock_assignment-found fence.user_id (some lease_token) store work locked in
    let rows : after.assignments ≡ put released.assignments fence.user_id none =
      ap (λ o. o.1.assignments) (sym out) in
    let texts : after.versions ≡ released.versions = ap (λ o. o.1.versions) (sym out) in
    (
      work.assignment,
      there,
      lease_same lease_token work.assignment same,
      ap (λ r. r fence.user_id) rows ∙ put-none released.assignments fence.user_id,
      λ user_id differs.
          ap (λ r. r user_id) rows
          ∙ put_elsewhere released.assignments fence.user_id user_id none differs
          ∙ ap (λ r. r user_id) assignments,
      λ k version held. subst (λ t. Kept version (t k)) (sym texts) (versions k version held),
    )

-- A task that is given back leaves the user: the lease of the request was that of the assignment, the
-- assignment is gone, and the other users keep theirs. No text is lost: every version keeps its
-- segments and its revision, and one that is no draft, such as the published one, stays as it was.
pub abandon-releases :
    (request_hash : ℕ → ℕ) (fence : SessionFence) (policy : SessionPolicy)
    (now lease_token operation_id : ℕ) (store : Store) {response : Response} {after : Store}
    → store.operations operation_id ≡ none
    → abandon request_hash fence policy now lease_token (uuid operation_id) true store
      ≡ ok (response, after)
    → (assignment : Assignment) × (store.assignments fence.user_id ≡ some assignment)
      × (assignment.lease_token ≡ lease_token)
      × (after.assignments fence.user_id ≡ none)
      × ((user_id : ℕ)
          → user_id ≢ fence.user_id
          → after.assignments user_id ≡ store.assignments user_id)
      × ((k : ℕ) (version : Version)
          → store.versions k ≡ some version
          → Kept version (after.versions k))
unfolding abandon validate_uuid passing
abandon-releases request_hash fence policy now lease_token operation_id store new e =
    let (user, locked, e1) =
      bind-ok (passing session (lock_active_annotator fence.user_id store.accounts)) e in
    let (opened, passed, e2) =
      bind-ok (passing session (require_session_fence fence now store.accounts)) e1 in
    let replay =
      new_operation operation_id fence.user_id abandon_route (request_hash lease_token) store new in
    abandon_new-releases request_hash fence policy now lease_token operation_id store
      (rw replay at e2)
