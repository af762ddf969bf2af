-- ===== src/Drafts/Conflicts.antt =====
-- What a save leaves, and that two edits of one revision cannot both be saved.
use egyptian_arabic_annotati.Base.{
  ℕ, ◌+◌, ◌≡◌, ◌≢◌, refl, ap, subst, ◌∙◌, true, false, Option, none, some, List, ◌==◌, arith,
  Result, ok, err, or_raise, bind-ok, raise_if-ok, or_raise-ok,
}
use egyptian_arabic_annotati.Sessions.State.{
  Annotator, SessionPolicy, SessionFence, uuid, validate_uuid, lock_active_annotator,
}
use egyptian_arabic_annotati.Sessions.Fence.{require_session_fence}
use egyptian_arabic_annotati.Segments.{Segment, RawSegment, apply_dirty_segments}
use egyptian_arabic_annotati.Drafts.State.{
  Fault, session, no_active_assignment, lease_mismatch, revision_conflict, passing, Assignment,
  Version, Route, save_draft_route, Response, saved, Store, put, operation_replay, store_operation,
  Work, lock_assignment, require_round, open_round, touch, other_lease,
}
use egyptian_arabic_annotati.Drafts.Save.{write_save, saved_version, save_new, save_draft}
use egyptian_arabic_annotati.Drafts.Once.{Saved, save_new-Saved, save_draft-guards, passing-ok}

pub new_operation :
    (operation_id user_id : ℕ) (route : Route) (request_hash : ℕ) (store : Store)
    → store.operations operation_id ≡ none
    → operation_replay operation_id user_id route request_hash store ≡ ok none
unfolding operation_replay
new_operation operation_id user_id route request_hash store e = ground (arith, e)

work_eq : {a b : Work} → ◌≡◌ {A = Result Fault Work} (ok a) (ok b) → a ≡ b
work_eq e = cc

pub lock_assignment-found :
    (user_id : ℕ) (lease_token : Option ℕ) (store : Store) (work : Work)
    → lock_assignment user_id lease_token store ≡ ok work
    → (store.assignments user_id ≡ some work.assignment)
      × (other_lease lease_token work.assignment ≡ false)
unfolding lock_assignment
lock_assignment-found user_id lease_token store work e =
    let (row, found, e1) = bind-ok (or_raise (store.assignments user_id) no_active_assignment) e in
    let (status, known, e2) =
      bind-ok (or_raise (store.tasks row.task_id) no_active_assignment) e1 in
    let (same, e3) = raise_if-ok (other_lease lease_token row) lease_mismatch e2 in
    let out = work_eq e3 in
    (
      or_raise-ok (store.assignments user_id) no_active_assignment found
          ∙ ap some (ap (λ w. w.assignment) out),
      subst (λ a. other_lease lease_token a ≡ false) (ap (λ w. w.assignment) out) same,
    )

-- The reply of a save, its version, the other versions, the assignments and the rounds.
write_save-fields :
    (fence : SessionFence) (policy : SessionPolicy) (now operation_id request_hash version_id : ℕ)
    (version : Version) (segments : List Segment) (store : Store)
    → let out =
        write_save fence policy now operation_id request_hash version_id version segments store in
      (out.0 ≡ saved (version.revision + 1) version.review)
      × (out.1.versions version_id ≡ some (saved_version fence.user_id segments version))
      × ((k : ℕ) → k ≢ version_id → out.1.versions k ≡ store.versions k)
      × ((user_id : ℕ) (lease : Option ℕ)
          → lock_assignment user_id lease out.1 ≡ lock_assignment user_id lease store)
      × ((assignment : Assignment)
          → require_round assignment out.1 ≡ require_round assignment store)
unfolding write_save store_operation touch put lock_assignment require_round open_round
write_save-fields fence policy now operation_id request_hash version_id version segments store = (
  refl,
  ground arith,
  λ k differs. ground arith,
  λ user_id lease. refl,
  λ assignment. ground arith,
)

saved_version-revision :
    (user_id : ℕ) (segments : List Segment) (version : Version)
    → (saved_version user_id segments version).revision ≡ version.revision + 1
unfolding saved_version
saved_version-revision user_id segments version = refl

save_new-stale :
    (fence : SessionFence) (policy : SessionPolicy) (now : ℕ) (lease_token : Option ℕ)
    (expected_revision : ℕ) (dirty : List RawSegment) (operation_id request_hash : ℕ)
    (store : Store) (work : Work) (version : Version)
    → lock_assignment fence.user_id lease_token store ≡ ok work
    → require_round work.assignment store ≡ ok tt
    → store.versions work.assignment.working_version_id ≡ some version
    → version.revision ≡ expected_revision + 1
    → save_new fence policy now lease_token expected_revision dirty operation_id request_hash store
      ≡ err (revision_conflict (expected_revision + 1))
unfolding save_new
save_new-stale fence policy now lease_token expected_revision dirty operation_id request_hash store
      work version locked round found current =
    let stale : version.revision == expected_revision ≡ false = ground arith in
    rw (locked, round, found, stale, current) refl

module _ (fence : SessionFence) (policy : SessionPolicy) (now : ℕ) (lease_token : Option ℕ)
    (expected_revision : ℕ) (dirty : List RawSegment) (operation_id request_hash : ℕ)
    (store : Store) where
  save_draft-Saved :
      {out : Response × Store}
      → store.operations operation_id ≡ none
      → save_draft fence policy now lease_token expected_revision dirty
          (uuid operation_id)
          request_hash
          store
        ≡ ok out
      → (require_session_fence fence now store.accounts ≡ ok tt)
        × Saved fence policy now lease_token expected_revision dirty operation_id request_hash store
            out
  unfolding save_draft validate_uuid passing
  save_draft-Saved new e =
      let (user, locked, e1) =
        bind-ok (passing session (lock_active_annotator fence.user_id store.accounts)) e in
      let (opened, passed, e2) =
        bind-ok (passing session (require_session_fence fence now store.accounts)) e1 in
      let replay =
        new_operation operation_id fence.user_id save_draft_route request_hash store new in
      (
        passing-ok session _ passed,
        save_new-Saved fence policy now lease_token expected_revision dirty operation_id
            request_hash store (rw replay at e2),
      )

  -- A save of a new operation that returns was made under a session that passes, with the lease of
  -- the user's assignment and the revision that the draft had. It leaves the draft with the edited
  -- segments and the next revision, which is the one in the reply, marked as the user's, all its other
  -- columns as they were, and every other version as it was.
  pub save_draft-effect :
      {response : Response} {after : Store}
      → store.operations operation_id ≡ none
      → save_draft fence policy now lease_token expected_revision dirty
          (uuid operation_id)
          request_hash
          store
        ≡ ok (response, after)
      → (work : Work) × (version : Version) × (segments : List Segment) × (require_session_fence
            fence now store.accounts
          ≡ ok tt)
        × (store.assignments fence.user_id ≡ some work.assignment)
        × (other_lease lease_token work.assignment ≡ false)
        × (store.versions work.assignment.working_version_id ≡ some version)
        × (version.revision ≡ expected_revision)
        × (apply_dirty_segments dirty version.segments ≡ ok segments)
        × (response ≡ saved (expected_revision + 1) version.review)
        × (after.versions work.assignment.working_version_id
            ≡ some (record version {
              revision = expected_revision + 1;
              human_modified = true;
              modified_by_user_id = some fence.user_id;
              segments = segments;
            }))
        × ((k : ℕ) → k ≢ work.assignment.working_version_id → after.versions k ≡ store.versions k)
  unfolding saved_version
  save_draft-effect new e =
      let (passed, (work, version, segments, locked, round, found, same, applied, out)) =
        save_draft-Saved new e in
      let vid = work.assignment.working_version_id in
      let written =
        write_save-fields fence policy now operation_id request_hash vid version segments store in
      (
        work,
        version,
        segments,
        passed,
        (lock_assignment-found fence.user_id lease_token store work locked).0,
        (lock_assignment-found fence.user_id lease_token store work locked).1,
        found,
        same,
        applied,
        ap (λ o. o.0) out ∙ written.0 ∙ ap (λ r. saved (r + 1) version.review) same,
        ap (λ o. o.1.versions vid) out
            ∙ written.1
            ∙ ap
                (λ r. some (record version {
                  revision = r + 1;
                  human_modified = true;
                  modified_by_user_id = some fence.user_id;
                  segments = segments;
                }))
                same,
        λ k differs. ap (λ o. o.1.versions k) out ∙ written.2 k differs,
      )

  -- Of two edits of the same revision the second is refused: after a save, another one that expects
  -- the revision that the first expected fails with a conflict that tells the current one. So no save
  -- overwrites what its author has not seen.
  pub save_draft-stale :
      {response : Response} {after : Store} {user : Annotator} (again : SessionFence) (later : ℕ)
      (dirty' : List RawSegment) (operation_id' request_hash' : ℕ)
      → store.operations operation_id ≡ none
      → save_draft fence policy now lease_token expected_revision dirty
          (uuid operation_id)
          request_hash
          store
        ≡ ok (response, after)
      → again.user_id ≡ fence.user_id
      → lock_active_annotator again.user_id after.accounts ≡ ok user
      → require_session_fence again later after.accounts ≡ ok tt
      → after.operations operation_id' ≡ none
      → save_draft again policy later lease_token expected_revision dirty'
          (uuid operation_id')
          request_hash'
          after
        ≡ err (revision_conflict (expected_revision + 1))
  save_draft-stale {response} {after} again later dirty' operation_id' request_hash' new e user_same
        locked passed new' =
      let (passed1, (work, version, segments, locked1, round, found, same, applied, out)) =
        save_draft-Saved new e in
      let vid = work.assignment.working_version_id in
      let written =
        write_save-fields fence policy now operation_id request_hash vid version segments store in
      let stored : after.versions vid ≡ some (saved_version fence.user_id segments version) =
        ap (λ o. o.1.versions vid) out ∙ written.1 in
      let lease : lock_assignment again.user_id lease_token after ≡ ok work =
        ap (λ o. lock_assignment again.user_id lease_token o.1) out
        ∙ written.3 again.user_id lease_token
        ∙ ap (λ u. lock_assignment u lease_token store) user_same
        ∙ locked1 in
      let opened : require_round work.assignment after ≡ ok tt =
        ap (λ o. require_round work.assignment o.1) out ∙ written.4 work.assignment ∙ round in
      save_draft-guards again policy later lease_token expected_revision dirty' operation_id'
        request_hash' after locked passed
      ∙ rw (new_operation operation_id' again.user_id save_draft_route request_hash' after new') (
          save_new-stale again policy later lease_token expected_revision dirty' operation_id'
            request_hash' after work (saved_version fence.user_id segments version) lease opened
            stored (saved_version-revision fence.user_id segments version ∙ ap (λ r. r + 1) same))
