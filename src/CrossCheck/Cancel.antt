-- ===== src/CrossCheck/Cancel.antt =====
-- `cancel_cross_check`, and `invalidate_open_cross_check_for_task` of annotation_quality/repository.py,
-- which the administration calls when the published version of a task goes away.

use egyptian_arabic_annotati.Base.{
  ℕ, ◌+◌, Bool, true, false, not, Option, none, some, List, [], ◌∷◌, ◌==◌, if◌then◌else◌, Result,
  ok, ◌>>=◌, ◌>>◌, raise_if, or_raise, ◌&&◌,
}
use egyptian_arabic_annotati.Sessions.State.{RawUuid, validate_uuid}
use egyptian_arabic_annotati.Drafts.State.{
  Fault, session, task_gone, round_not_found, not_in_progress, stale_revision, assignment_changed,
  passing, Task, TaskStatus, Round, RoundState, in_progress, cancelled, invalidated, Store, put,
  cross_check_cancelled, invalidated_event, is_open,
}
use egyptian_arabic_annotati.Drafts.Abandon.{
  discard_draft, cancel_in_progress_cross_check, record_event,
}
use egyptian_arabic_annotati.CrossCheck.Admin.{
  World, Summary, round_summary, AdminAction, replay, begun, cancel_cross_check_action,
  begin_admin_action, finish_admin_action, insert_admin_action_item,
}
use egyptian_arabic_annotati.CrossCheck.Rounds.{find_assignee, delete_assignments_of}
use egyptian_arabic_annotati.CrossCheck.Decide.{lock_users_stable, people_of}

-- `CrossCheckCancelCommand`
pub record CancelCommand : Type 0 where
  pub operation_id : RawUuid
  pub expected_revision : ℕ
  pub reason : ℕ

unfoldable pub is_in_progress : Round → Bool
is_in_progress round = elim round.state [ in_progress ↦ true | _ ↦ false ]

-- `assignment and assignment[0] != hint[7]`
abbrev pub other_assignee : Option ℕ → ℕ → Bool
other_assignee none user_id = false
other_assignee (some assignee) user_id = not (assignee == user_id)

-- The guards of `_cancel_locked`.
unfoldable pub check_cancel : (round_id : ℕ) → CancelCommand → World → Result Fault (Round × Task)
unfolding is_in_progress find_assignee lock_users_stable
check_cancel round_id command world = do
  let store = world.store
  round ← or_raise (store.rounds round_id) round_not_found
  raise_if (not (is_in_progress round)) not_in_progress
  let assignee = find_assignee round.task_id store.accounts.annotators store
  locked ← lock_users_stable (people_of round assignee) store.accounts.annotators
  raise_if (other_assignee assignee round.secondary_annotator_id) assignment_changed
  task ← or_raise (store.tasks round.task_id) task_gone
  raise_if (not (round.revision == command.expected_revision)) stale_revision
  ok (round, task)

unfoldable pub write_cancel :
    (round_id : ℕ)
    → AdminAction
    → Round
    → Task
    → (cancelled_store : Store) → World
    → Summary × World
unfolding delete_assignments_of finish_admin_action
write_cancel round_id action round task cancelled_store world =
    let summary = round_summary round_id cancelled none none in
    let recorded =
      record_event
        (record {
          operation_id = none;
          user_id = some round.secondary_annotator_id;
          admin_action_id = some action.id;
          task_id = round.task_id;
          version_id = round.secondary_version_id;
          kind = cross_check_cancelled;
          from_status = task.status;
        })
        (delete_assignments_of round.task_id cancelled_store) in
    let listed =
      insert_admin_action_item
        (record {
          admin_action_id = action.id;
          task_id = round.task_id;
          annotator_id = round.secondary_annotator_id;
          expected_version_id = none;
          before_version_id = some round.secondary_version_id;
          after_version_id = task.current_published_version_id;
          result = cancelled;
        })
        (record world { store = recorded }) in
    (summary, finish_admin_action action summary listed)

-- `_cancel_locked`
unfoldable pub cancel_locked :
    (round_id : ℕ) → CancelCommand → AdminAction → World → Result Fault (Summary × World)
unfolding check_cancel cancel_in_progress_cross_check write_cancel
cancel_locked round_id command action world = do
  (round, task) ← check_cancel round_id command world
  cancelled_store ←
      cancel_in_progress_cross_check (some round_id) round.task_id round.secondary_version_id
        world.store
  ok (write_cancel round_id action round task cancelled_store world)

unfoldable pub cancel_cross_check :
    (action_id now : ℕ)
    → (admin_session_id round_id : RawUuid) → (request_hash : ℕ) → CancelCommand
    → World
    → Result Fault (Summary × World)
unfolding passing validate_uuid begin_admin_action cancel_locked
cancel_cross_check action_id now admin_session_id round_id request_hash command world = do
  rid ← passing session (validate_uuid round_id)
  action ←
      begin_admin_action action_id now admin_session_id command.operation_id
        cancel_cross_check_action command.reason request_hash world
  elim action [
    | replay prior_id summary ↦ ok (summary, world)
    | begun row ↦ cancel_locked rid command row world
  ]

-- `lock_open_round_for_task`, among the keys of the rounds: a task has at most one open round.
abbrev pub is_open_for : ℕ → Option Round → Bool
is_open_for task_id none = false
is_open_for task_id (some round) = round.task_id == task_id && is_open round.state

unfoldable pub find_open_round : (task_id : ℕ) → (round_ids : List ℕ) → Store → Option ℕ
find_open_round task_id [] store = none
find_open_round task_id (k ∷ ks) store =
    if is_open_for task_id (store.rounds k) then some k else find_open_round task_id ks store

-- What becomes of the draft and its assignment: a frozen version is kept.
unfoldable pub release_open : RoundState → Round → Store → Store
unfolding discard_draft delete_assignments_of
release_open in_progress round store =
    delete_assignments_of round.task_id (discard_draft round.secondary_version_id store)
release_open state round store = store

unfoldable pub invalidate_round : (round_id action_id : ℕ) → TaskStatus → Round → Store → Store
unfolding put release_open
invalidate_round round_id action_id from_status round store =
    let released = release_open round.state round store in
    record_event
      (record {
        operation_id = none;
        user_id = some round.secondary_annotator_id;
        admin_action_id = some action_id;
        task_id = round.task_id;
        version_id = round.secondary_version_id;
        kind = invalidated_event;
        from_status = from_status;
      })
      (record released {
        rounds =
            put released.rounds round_id
              (some (record round { revision = round.revision + 1; state = invalidated }));
      })

-- `invalidate_open_cross_check_for_task`
unfoldable pub invalidate_open_cross_check_for_task :
    (task_id action_id : ℕ) → TaskStatus → (round_ids : List ℕ) → Store → Store
unfolding find_open_round invalidate_round
invalidate_open_cross_check_for_task task_id action_id from_status round_ids store =
    elim (find_open_round task_id round_ids store) [
      | none ↦ store
      | some round_id ↦ elim (store.rounds round_id) [
        | none ↦ store
        | some round ↦ invalidate_round round_id action_id from_status round store
      ]
    ]
