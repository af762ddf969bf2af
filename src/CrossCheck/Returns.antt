-- ===== src/CrossCheck/Returns.antt =====
-- A round in progress can be cancelled.
use egyptian_arabic_annotati.Base.{
  ℕ, ◌+◌, ◌≡◌, inl, inr, refl, ap, ◌∙◌, Bool-cases, true, false, ◌&&◌, Option, none, some, ltb,
  ◌==◌, arith, Result, ok, err,
}
use egyptian_arabic_annotati.Sessions.State.{RawUuid, uuid, validate_uuid}
use egyptian_arabic_annotati.Drafts.State.{
  Fault, passing, round_closed, Task, Round, RoundState, in_progress, cancelled, Store, put,
  open_round,
}
use egyptian_arabic_annotati.Drafts.Abandon.{cancel_in_progress_cross_check, discard_draft}
use egyptian_arabic_annotati.CrossCheck.Admin.{
  World, Summary, AdminAction, AdminSession, begun, cancel_cross_check_action, begin_admin_action,
  is_none, unfinished, ActionType,
}
use egyptian_arabic_annotati.CrossCheck.Admin.Begun.{InForce}
use egyptian_arabic_annotati.CrossCheck.Rounds.{find_assignee, works_on, delete_assignments_of}
use egyptian_arabic_annotati.CrossCheck.Decide.{lock_users_stable, people_of}
use egyptian_arabic_annotati.CrossCheck.Cancel.{
  CancelCommand, is_in_progress, other_assignee, check_cancel, write_cancel, cancel_locked,
  cancel_cross_check,
}
use egyptian_arabic_annotati.CrossCheck.Commit.Current.{put_same}
use egyptian_arabic_annotati.CrossCheck.Lifecycle.Open.{discard_draft-rounds}

self_eq : (n : ℕ) → n == n ≡ true
self_eq n = ground arith

open_round-running :
    (round_id : ℕ) (store : Store) (round : Round)
    → store.rounds round_id ≡ some round
    → round.state ≡ in_progress
    → open_round (some round_id) round.task_id store ≡ ok (round_id, round)
unfolding open_round
open_round-running round_id store round there running =
    rw (there, self_eq round.task_id) (running_ok round.state running)
  where
    running_ok :
        (state : RoundState)
        → state ≡ in_progress
        → ◌≡◌ {A = Result Fault (ℕ × Round)}
            (elim state [ in_progress ↦ ok (round_id, round) | _ ↦ err round_closed ])
            (ok (round_id, round))
    running_ok state e = rw e refl

module _ (action_id now : ℕ) (admin_session_id : RawUuid) (operation_id : ℕ)
    (action_type : ActionType) (reason request_hash : ℕ) (world : World) where
  -- A new action under a session that is in force begins.
  pub begin-returns :
      (session_id : ℕ) (admin : AdminSession)
      → world.admin_actions operation_id ≡ none
      → validate_uuid admin_session_id ≡ ok session_id
      → world.admin_sessions session_id ≡ some admin
      → InForce now admin
      → (row : AdminAction) × (begin_admin_action action_id now admin_session_id
            (uuid operation_id)
            action_type
            reason
            request_hash
            world
          ≡ ok (begun row))
  unfolding begin_admin_action validate_uuid passing
  begin-returns session_id admin new named there (kept, idle, absolute) =
      let valid : is_none admin.revoked_at
            && (ltb now admin.idle_expires_at && ltb now admin.absolute_expires_at)
          ≡ true =
        ground arith in
      (
        record {
          id = action_id;
          operation_id = operation_id;
          admin_session_id = session_id;
          admin_key_id = admin.key_id;
          action_type = action_type;
          reason = reason;
          request_hash = request_hash;
          summary = unfinished;
        },
        rw (named, new, there, valid) refl,
      )

-- What a cancellation needs of the tables.
pub record Cancellable (round_id expected_revision : ℕ) (world : World) (round : Round)
    : Type 0 where
  pub round_row : world.store.rounds round_id ≡ some round
  pub running : round.state ≡ in_progress
  pub current_revision : round.revision ≡ expected_revision
  pub task : Task
  pub task_row : world.store.tasks round.task_id ≡ some task
  pub assignee : Option ℕ
  pub found_assignee :
      find_assignee round.task_id world.store.accounts.annotators world.store ≡ assignee
  pub own_assignee : other_assignee assignee round.secondary_annotator_id ≡ false
  pub people : lock_users_stable (people_of round assignee) world.store.accounts.annotators ≡ ok tt

check_cancel-returns :
    (round_id : ℕ) (command : CancelCommand) (world : World) (round : Round)
    (can : Cancellable round_id command.expected_revision world round)
    → check_cancel round_id command world ≡ ok (round, can.task)
unfolding check_cancel is_in_progress
check_cancel-returns round_id command world round can =
    let current : round.revision == command.expected_revision ≡ true =
      ground (arith, can.current_revision) in
    let running : is_in_progress round ≡ true = ground (arith, can.running) in
    rw
      (
        can.round_row, running, can.found_assignee, can.people, can.own_assignee, can.task_row,
        current,
      )
      refl

abbrev pub cancelled_round : Round → Round
cancelled_round round = record round { revision = round.revision + 1; state = cancelled }

cancel_in_progress-returns :
    (round_id version_id : ℕ) (store : Store) (round : Round)
    → store.rounds round_id ≡ some round
    → round.state ≡ in_progress
    → (after : Store) × (cancel_in_progress_cross_check
          (some round_id)
          round.task_id
          version_id
          store
        ≡ ok after)
      × (after.rounds round_id ≡ some (cancelled_round round))
unfolding cancel_in_progress_cross_check
cancel_in_progress-returns round_id version_id store round there running =
    let written : Store = record store {
      rounds = put store.rounds round_id (some (cancelled_round round));
    } in
    (
      discard_draft version_id written,
      rw (open_round-running round_id store round there running) refl,
      ap (λ rows. rows round_id) (discard_draft-rounds version_id written)
          ∙ put_same store.rounds round_id (some (cancelled_round round)),
    )

write_cancel-left :
    (round_id : ℕ) (action : AdminAction) (round : Round) (task : Task) (ended : Store)
    (world : World)
    → let after = (write_cancel round_id action round task ended world).1.store in
      (after.rounds ≡ ended.rounds)
      × ((k : ℕ) → works_on round.task_id (after.assignments k) ≡ false)
unfolding write_cancel delete_assignments_of
write_cancel-left round_id action round task ended world = (
  refl,
  λ k. elim (Bool-cases (works_on round.task_id (ended.assignments k))) [
    | inl works ↦ rw works refl
    | inr free ↦ rw free free
  ],
)

-- A round in progress can always be cancelled: an administrator whose session is in force, and who
-- knows the round's revision, ends it, if the people it names exist and the task is assigned to
-- nobody else. The cancellation returns; the round is then cancelled, at the next revision, and nobody
-- works on its task.
pub cancel_cross_check-returns :
    (action_id now operation_id request_hash session_id round_id : ℕ) (admin_session_id : RawUuid)
    (admin : AdminSession) (command : CancelCommand) (world : World) (round : Round)
    → command.operation_id ≡ uuid operation_id
    → world.admin_actions operation_id ≡ none
    → validate_uuid admin_session_id ≡ ok session_id
    → world.admin_sessions session_id ≡ some admin
    → InForce now admin
    → Cancellable round_id command.expected_revision world round
    → (summary : Summary) × (after : World) × (cancel_cross_check action_id now admin_session_id
          (uuid round_id)
          request_hash
          command
          world
        ≡ ok (summary, after))
      × (after.store.rounds round_id ≡ some (cancelled_round round))
      × ((k : ℕ) → works_on round.task_id (after.store.assignments k) ≡ false)
unfolding cancel_cross_check cancel_locked validate_uuid passing
cancel_cross_check-returns action_id now operation_id request_hash session_id round_id
      admin_session_id admin command world round op new named there valid can =
    let (row, begins) =
      begin-returns action_id now admin_session_id operation_id cancel_cross_check_action
        command.reason request_hash world session_id admin new named there valid in
    let (ended, run, closed) =
      cancel_in_progress-returns round_id round.secondary_version_id world.store round can.round_row
        can.running in
    let (rounds, free) = write_cancel-left round_id row round can.task ended world in
    (
      (write_cancel round_id row round can.task ended world).0,
      (write_cancel round_id row round can.task ended world).1,
      rw (op, begins, check_cancel-returns round_id command world round can, run) refl,
      ap (λ rows. rows round_id) rounds ∙ closed,
      free,
    )
