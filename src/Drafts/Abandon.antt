-- ===== src/Drafts/Abandon.antt =====
-- `abandon`. `request_hash` stands for the SHA-256 of the request, which is not code of this
-- repository.
use egyptian_arabic_annotati.Base.{
  ℕ, ◌+◌, Bool, false, not, Option, none, some, ◌∷◌, Result, ok, ◌>>=◌, ◌>>◌, raise_if,
}
use egyptian_arabic_annotati.Sessions.State.{
  SessionPolicy, SessionFence, RawUuid, validate_uuid, lock_active_annotator,
}
use egyptian_arabic_annotati.Sessions.Fence.{require_session_fence}
use egyptian_arabic_annotati.Drafts.State.{
  Fault, session, unconfirmed, passing, Assignment, annotation, revision, cross_check, Version,
  draft, abandoned, cancelled, Store, put, abandon_route, Response, gave_up, replayed, Event,
  EventKind, cross_check_cancelled, abandoned_event, operation_replay, store_operation,
  lock_assignment, open_round, touch,
}

-- `SET lifecycle = 'abandoned' WHERE id = … AND lifecycle = 'draft'`
unfoldable pub abandon_version : Version → Version
abandon_version version = elim version.lifecycle [
  | draft ↦ record version { lifecycle = abandoned }
  | _ ↦ version
]

unfoldable pub discard_draft : (version_id : ℕ) → Store → Store
unfolding put abandon_version
discard_draft version_id store = elim (store.versions version_id) [
  | none ↦ store
  | some version ↦ record store {
    versions = put store.versions version_id (some (abandon_version version));
  }
]

-- `_cancel_in_progress_cross_check`
unfoldable pub cancel_in_progress_cross_check :
    Option ℕ → (task_id version_id : ℕ) → Store → Result Fault Store
unfolding open_round put discard_draft
cancel_in_progress_cross_check round_id task_id version_id store = do
  (found_id, round) ← open_round round_id task_id store
  ok (
      discard_draft version_id (record store {
        rounds =
            put store.rounds found_id
              (some (record round { revision = round.revision + 1; state = cancelled }));
      }))

-- What becomes of the draft, by the mode.
unfoldable pub release_draft : Assignment → Store → Result Fault Store
unfolding cancel_in_progress_cross_check discard_draft
release_draft assignment store = elim assignment.mode [
  | cross_check ↦
      cancel_in_progress_cross_check assignment.cross_check_round_id assignment.task_id
        assignment.working_version_id store
  | revision ↦ ok (discard_draft assignment.working_version_id store)
  | annotation ↦ ok store
]

-- `DELETE FROM assignments WHERE user_id = …`; the time of the last activity goes with the row.
unfoldable pub delete_assignment : (user_id : ℕ) → Store → Store
unfolding put
delete_assignment user_id store = record store {
  assignments = put store.assignments user_id none;
  accounts = record store.accounts { activity = put store.accounts.activity user_id none };
}

abbrev pub event_kind : Assignment → EventKind
event_kind assignment = elim assignment.mode [
  | cross_check ↦ cross_check_cancelled
  | _ ↦ abandoned_event
]

abbrev pub record_event : Event → Store → Store
record_event event store = record store { events = event ∷ store.events }

module _ (request_hash : ℕ → ℕ) (fence : SessionFence) (policy : SessionPolicy) (now : ℕ) where
  unfoldable pub abandon_new :
      (lease_token : ℕ) → (operation_id : ℕ) → Store → Result Fault (Response × Store)
  unfolding lock_assignment release_draft delete_assignment store_operation touch
  abandon_new lease_token operation_id store = do
    work ← lock_assignment fence.user_id (some lease_token) store
    released ← release_draft work.assignment store
    let deleted = delete_assignment fence.user_id released
    let logged =
        store_operation operation_id fence.user_id abandon_route (request_hash lease_token) gave_up
          deleted
    let recorded =
        record_event
          (record {
            operation_id = some operation_id;
            user_id = some fence.user_id;
            admin_action_id = none;
            task_id = work.assignment.task_id;
            version_id = work.assignment.working_version_id;
            kind = event_kind work.assignment;
            from_status = work.task_status;
          })
          logged
    ok (gave_up, touch fence policy false now recorded)

  unfoldable pub abandon :
      (lease_token : ℕ)
      → (operation_id : RawUuid) → (confirm : Bool) → Store
      → Result Fault (Response × Store)
  unfolding passing validate_uuid lock_active_annotator require_session_fence operation_replay
      abandon_new
  abandon lease_token operation_id confirm store = do
    raise_if (not confirm) unconfirmed
    op_uuid ← passing session (validate_uuid operation_id)
    user ← passing session (lock_active_annotator fence.user_id store.accounts)
    passed ← passing session (require_session_fence fence now store.accounts)
    prior ← operation_replay op_uuid fence.user_id abandon_route (request_hash lease_token) store
    elim prior [
      | some response ↦ ok (replayed response, store)
      | none ↦ abandon_new lease_token op_uuid store
    ]
