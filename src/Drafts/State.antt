-- ===== src/Drafts/State.antt =====
-- The tables of the assigned work, the log of operations and the guards on an assignment. The tables
-- of the sessions are those of Sessions, with the time of the assignment's last activity.
use egyptian_arabic_annotati.Base.{
  ℕ, Bool, true, false, not, ◌&&◌, Option, none, some, List, ◌==◌, if◌then◌else◌, Result, ok, err,
  ◌>>=◌, ◌>>◌, raise_if, or_raise,
}
use egyptian_arabic_annotati.Sessions.State.{
  Database, Fault as SessionFault, SessionPolicy, SessionFence,
}
use egyptian_arabic_annotati.Sessions.Fence.{touch_real_activity}
use egyptian_arabic_annotati.Comparison.Compare.{ComparisonResult}
use egyptian_arabic_annotati.Segments.{Segment, Fault as SegmentFault}

pub data Fault : Type 0 where
  session : SessionFault → Fault
  segment : SegmentFault → Fault
  no_active_assignment lease_mismatch version_gone operation_reused : Fault
  missing_round round_closed unconfirmed : Fault
  bad_target_status no_skip_reason invalid_skip_reason no_unsubmitted_draft : Fault
  empty_segments : List ℕ → Fault
  revision_conflict : ℕ → Fault
  not_cross_check assignment_changed round_mismatch round_versions_changed : Fault
  task_gone original_changed original_gone not_editable inputs_changed : Fault
  admin_session_invalid admin_operation_reused round_not_found annotator_gone : Fault
  not_awaiting_review not_in_progress cross_check_active open_draft stale_revision : Fault
  version_changed not_frozen not_publishable edit_ids_differ settings_missing : Fault
  outside_scope no_task_available task_pool_busy : Fault

-- An error of a callee, passed on.
unfoldable pub passing {ℓ} : {E : Type 0} {A : Type ℓ} → (E → Fault) → Result E A → Result Fault A
passing wrap (ok a) = ok a
passing wrap (err e) = err (wrap e)

pub data AssignmentMode : Type 0 where
  annotation revision cross_check : AssignmentMode

-- A row of `assignments`; its key is the user.
pub record Assignment : Type 0 where
  pub task_id : ℕ
  pub working_version_id : ℕ
  pub mode : AssignmentMode
  pub lease_token : ℕ
  pub cross_check_round_id : Option ℕ

pub data Lifecycle : Type 0 where
  baseline draft published superseded abandoned revoked cross_check_submitted : Lifecycle

pub data TargetStatus : Type 0 where
  annotated skipped : TargetStatus

pub data SkipReason : Type 0 where
  noisy not_egyptian poor_quality : SkipReason
  other_reason : ℕ → SkipReason

pub data Purpose : Type 0 where
  annotation_purpose cross_check_purpose adjudication_purpose : Purpose

pub data DurationBasis : Type 0 where
  legacy_audio_v1 trainable_segments_v1 : DurationBasis

-- A row of `annotation_versions` with its segments; `review` is the latest scene review of it. Times
-- are whole microseconds.
pub record Version : Type 0 where
  pub task_id : ℕ
  pub purpose : Purpose
  pub base_version_id : Option ℕ
  pub revision : ℕ
  pub lifecycle : Lifecycle
  pub human_modified : Bool
  pub modified_by_user_id : Option ℕ
  pub credited_annotator_id : Option ℕ
  pub submitted_by_user_id : Option ℕ
  pub target_status : Option TargetStatus
  pub skip_reasons : List SkipReason
  pub annotation_duration : Option ℕ
  pub duration_basis : Option DurationBasis
  pub segments : List Segment
  pub review : Option ℕ
  pub published_by_admin_action_id : Option ℕ

pub data RoundState : Type 0 where
  in_progress awaiting_review passed adjudicated cancelled invalidated : RoundState

-- `decision`, with the version it chose.
pub data Decision : Type 0 where
  original secondary edited : (final_version_id : ℕ) → Decision

-- What the submission stores of the comparison: its result and the revisions of its two inputs.
pub record Evidence : Type 0 where
  pub comparison : ComparisonResult
  pub original_input_revision : ℕ
  pub secondary_input_revision : ℕ

-- A row of `cross_check_rounds`.
pub record Round : Type 0 where
  pub task_id : ℕ
  pub revision : ℕ
  pub state : RoundState
  pub original_version_id : ℕ
  pub original_annotator_id : Option ℕ
  pub secondary_version_id : ℕ
  pub secondary_annotator_id : ℕ
  pub threshold_bps : ℕ
  pub evidence : Option Evidence
  pub decision : Option Decision
  pub decided_by_admin_action_id : Option ℕ

-- The status of a task: `pending`, or that of its published version.
pub data TaskStatus : Type 0 where
  pending : TaskStatus
  finished : TargetStatus → TaskStatus

pub record Task : Type 0 where
  pub status : TaskStatus
  pub current_published_version_id : Option ℕ
  pub reserved_for_user_id : Option ℕ
  pub duration : ℕ

pub data Route : Type 0 where
  save_draft_route abandon_route complete_route : Route

pub data Response : Type 0 where
  saved : (revision : ℕ) → (scene_review : Option ℕ) → Response
  gave_up : Response
  completed :
      (task_id : ℕ)
      → TargetStatus
      → (skip_reasons : List SkipReason) → (scene_review : Option ℕ) → Response
  submitted :
      (task_id : ℕ)
      → TargetStatus
      → (skip_reasons : List SkipReason) → (round_id : ℕ) → RoundState
      → Response
  replayed : Response → Response

-- A row of `operations`; its key is the operation's id.
pub record Operation : Type 0 where
  pub user_id : ℕ
  pub route : Route
  pub request_hash : ℕ
  pub response : Response

pub data EventKind : Type 0 where
  cross_check_cancelled abandoned_event completed_event : EventKind
  submitted_event passed_event adjudicated_event invalidated_event claimed_event : EventKind

pub record Event : Type 0 where
  pub operation_id : Option ℕ
  pub user_id : Option ℕ
  pub admin_action_id : Option ℕ
  pub task_id : ℕ
  pub version_id : ℕ
  pub kind : EventKind
  pub from_status : TaskStatus

pub record Store : Type 0 where
  pub accounts : Database
  pub assignments : ℕ → Option Assignment
  pub versions : ℕ → Option Version
  pub tasks : ℕ → Option Task
  pub rounds : ℕ → Option Round
  pub operations : ℕ → Option Operation
  pub events : List Event

-- `OPEN_ROUND_STATES`
abbrev pub is_open : RoundState → Bool
is_open in_progress = true
is_open awaiting_review = true
is_open _ = false

unfoldable pub put {ℓ} : {A : Type ℓ} → (ℕ → Option A) → ℕ → Option A → ℕ → Option A
put table key row k = if k == key then row else table k

unfoldable pub route_eq : Route → Route → Bool
route_eq save_draft_route save_draft_route = true
route_eq abandon_route abandon_route = true
route_eq complete_route complete_route = true
route_eq _ _ = false

-- `_operation_replay`
unfoldable pub operation_replay :
    (operation_id user_id : ℕ) → Route → (request_hash : ℕ) → Store → Result Fault (Option Response)
unfolding route_eq
operation_replay operation_id user_id route request_hash store =
    elim (store.operations operation_id) [
      | none ↦ ok none
      | some row ↦ do
        raise_if
            (not (
              row.user_id == user_id
              && (route_eq row.route route && row.request_hash == request_hash)))
            operation_reused
        ok (some row.response)
    ]

-- `_store_operation`
unfoldable pub store_operation :
    (operation_id user_id : ℕ) → Route → (request_hash : ℕ) → Response → Store → Store
unfolding put
store_operation operation_id user_id route request_hash response store = record store {
  operations = put store.operations operation_id (
      some (record {
        user_id = user_id;
        route = route;
        request_hash = request_hash;
        response = response;
      }));
}

-- What `_lock_assignment` returns.
pub record Work : Type 0 where
  pub assignment : Assignment
  pub task_status : TaskStatus

abbrev pub other_lease : Option ℕ → Assignment → Bool
other_lease none row = false
other_lease (some token) row = not (row.lease_token == token)

unfoldable pub lock_assignment : (user_id : ℕ) → Option ℕ → Store → Result Fault Work
lock_assignment user_id lease_token store = do
  row ← or_raise (store.assignments user_id) no_active_assignment
  task ← or_raise (store.tasks row.task_id) no_active_assignment
  raise_if (other_lease lease_token row) lease_mismatch
  ok (record { assignment = row; task_status = task.status })

-- `not row or row[0] != "in_progress"`
unfoldable pub open_round : Option ℕ → (task_id : ℕ) → Store → Result Fault (ℕ × Round)
open_round none task_id store = err missing_round
open_round (some round_id) task_id store = do
  row ← or_raise (store.rounds round_id) round_closed
  raise_if (not (row.task_id == task_id)) round_closed
  elim row.state [ in_progress ↦ ok (round_id, row) | _ ↦ err round_closed ]

-- `_require_open_cross_check_round`, for an assignment in that mode.
unfoldable pub require_round : Assignment → Store → Result Fault (Unit {0})
unfolding open_round
require_round assignment store = elim assignment.mode [
  | cross_check ↦ do
    round ← open_round assignment.cross_check_round_id assignment.task_id store
    ok tt
  | _ ↦ ok tt
]

-- `_touch_real_activity`
unfoldable pub touch :
    SessionFence → SessionPolicy → (assignment : Bool) → (now : ℕ) → Store → Store
unfolding touch_real_activity
touch fence policy assignment now store = record store {
  accounts = touch_real_activity fence policy assignment now store.accounts;
}
