-- ===== src/CrossCheck/Submit.antt =====
-- `submit_cross_check`, for a request that brings no scene review: three transactions with the
-- comparison between the second and the third. Other requests may run between any two of them, so
-- each is a function of the store that it finds.
use egyptian_arabic_annotati.Base.{
  ℕ, ◌+◌, Bool, true, false, not, ◌&&◌, Option, none, some, List, ◌==◌, if◌then◌else◌, Result, ok,
  ◌>>=◌, ◌>>◌, raise_if, or_raise,
}
use egyptian_arabic_annotati.Sessions.State.{SessionFence, lock_active_annotator}
use egyptian_arabic_annotati.Sessions.Fence.{require_session_fence}
use egyptian_arabic_annotati.Comparison.Compare.{ComparisonResult}
use egyptian_arabic_annotati.Segments.{
  Segment, RawSegment, merge_dirty_segments, validate_segment_timeline,
}
use egyptian_arabic_annotati.Drafts.State.{
  Fault, session, segment, version_gone, revision_conflict, not_cross_check, assignment_changed,
  round_mismatch, round_versions_changed, task_gone, original_changed, original_gone, not_editable,
  inputs_changed, passing, cross_check, Assignment, TargetStatus, SkipReason, Version, draft,
  cross_check_submitted, cross_check_purpose, Task, Round, RoundState, in_progress, awaiting_review,
  passed, Store, complete_route, Response, replayed, operation_replay, Work, lock_assignment,
  open_round,
}
use egyptian_arabic_annotati.CrossCheck.Inputs.{Payload, digest_payload, SubmitSnapshot}

-- `asg["mode"] != "cross_check"`
abbrev pub other_mode : Assignment → Bool
other_mode assignment = elim assignment.mode [ cross_check ↦ false | _ ↦ true ]

abbrev pub names : Option ℕ → ℕ → Bool
names none id = false
names (some id') id = id' == id

-- `working[1] == "draft" and working[2] == "cross_check"`
abbrev pub is_editable : Version → Bool
is_editable version = elim version.lifecycle [
  | draft ↦ elim version.purpose [ cross_check_purpose ↦ true | _ ↦ false ]
  | _ ↦ false
]

-- What the second transaction returns.
pub data Loaded : Type 0 where
  answered : Response → Loaded
  loaded : SubmitSnapshot → Loaded

-- What the third one locks, with the edits merged.
pub record Inputs : Type 0 where
  pub work : Work
  pub task : Task
  pub round : Round
  pub working : Version
  pub original : Version
  pub merged : List Segment

-- `freeze_cross_check_version`: none where the update finds no row.
unfoldable pub freeze_cross_check_version :
    (user_id : ℕ) → TargetStatus → List SkipReason → Version → Option Version
freeze_cross_check_version user_id target_status reasons version =
    if is_editable version
    then some (record version {
      lifecycle = cross_check_submitted;
      target_status = some target_status;
      skip_reasons = reasons;
      revision = version.revision + 1;
      human_modified = true;
      modified_by_user_id = some user_id;
      submitted_by_user_id = some user_id;
      credited_annotator_id = some user_id;
    })
    else none

-- `store_round_submission`
unfoldable pub store_round_submission :
    RoundState
    → ComparisonResult
    → (original_input_revision secondary_input_revision : ℕ) → Round
    → Option Round
store_round_submission state comparison original_revision secondary_revision round =
    elim round.state [
      | in_progress ↦ some (record round {
        revision = round.revision + 1;
        state = state;
        evidence = some (record {
          comparison = comparison;
          original_input_revision = original_revision;
          secondary_input_revision = secondary_revision;
        });
      })
      | _ ↦ none
    ]

abbrev pub verdict_state : ComparisonResult → RoundState
verdict_state comparison = if comparison.needs_review then awaiting_review else passed

module _ (digest : Payload → ℕ) (fence : SessionFence) (now : ℕ) where
  -- The snapshot that the second transaction returns.
  unfoldable pub snapshot_of :
      Assignment
      → (round_id : ℕ) → Round
      → (original working : Version) → (merged : List Segment) → SubmitSnapshot
  unfolding digest_payload
  snapshot_of assignment round_id round original working merged = record {
    task_id = assignment.task_id;
    version_id = assignment.working_version_id;
    round_id = round_id;
    original_version_id = round.original_version_id;
    original_revision = original.revision;
    secondary_revision = working.revision;
    original_status = original.target_status;
    threshold_bps = round.threshold_bps;
    original_digest = digest (
        digest_payload original.segments original.target_status round.original_version_id
          original.revision);
    secondary_digest =
        digest (digest_payload merged none assignment.working_version_id working.revision);
    original_segments = original.segments;
    merged_segments = merged;
  }

  -- What `_load_submit_snapshot` reads for a new operation.
  unfoldable pub read_snapshot :
      (lease_token : Option ℕ)
      → (expected_revision : ℕ) → List RawSegment
      → Store
      → Result Fault SubmitSnapshot
  unfolding lock_assignment open_round passing merge_dirty_segments validate_segment_timeline
      snapshot_of
  read_snapshot lease_token expected_revision dirty_segments store = do
    work ← lock_assignment fence.user_id lease_token store
    let assignment = work.assignment
    raise_if (other_mode assignment) not_cross_check
    (round_id, round) ← open_round assignment.cross_check_round_id assignment.task_id store
    raise_if (not (round.secondary_version_id == assignment.working_version_id)) round_mismatch
    task ← or_raise (store.tasks assignment.task_id) task_gone
    raise_if (not (names task.current_published_version_id round.original_version_id))
        original_changed
    original ← or_raise (store.versions round.original_version_id) original_gone
    working ← or_raise (store.versions assignment.working_version_id) version_gone
    raise_if (not (working.revision == expected_revision)) (revision_conflict working.revision)
    raise_if (not (is_editable working)) not_editable
    merged ← passing segment (merge_dirty_segments working.segments dirty_segments)
    valid ← passing segment (validate_segment_timeline merged task.duration)
    ok (snapshot_of assignment round_id round original working merged)

  -- `_load_submit_snapshot`
  unfoldable pub load_submit_snapshot :
      (lease_token : Option ℕ)
      → (expected_revision : ℕ) → List RawSegment
      → (operation_id request_hash : ℕ) → Store
      → Result Fault Loaded
  unfolding passing lock_active_annotator require_session_fence operation_replay read_snapshot
  load_submit_snapshot lease_token expected_revision dirty_segments operation_id request_hash
        store =
      do
        user ← passing session (lock_active_annotator fence.user_id store.accounts)
        opened ← passing session (require_session_fence fence now store.accounts)
        prior ← operation_replay operation_id fence.user_id complete_route request_hash store
        elim prior [
          | some response ↦ ok (answered (replayed response))
          | none ↦ do
            snapshot ← read_snapshot lease_token expected_revision dirty_segments store
            ok (loaded snapshot)
        ]

  -- The guards of `_commit_cross_check_submit`, for a new operation.
  unfoldable pub lock_inputs :
      (lease_token : Option ℕ)
      → (expected_revision : ℕ) → List RawSegment
      → SubmitSnapshot
      → Store
      → Result Fault Inputs
  unfolding lock_assignment open_round passing merge_dirty_segments digest_payload
  lock_inputs lease_token expected_revision dirty_segments snapshot store = do
    work ← lock_assignment fence.user_id lease_token store
    let assignment = work.assignment
    raise_if (other_mode assignment) not_cross_check
    raise_if (not (assignment.task_id == snapshot.task_id)) assignment_changed
    raise_if (not (assignment.working_version_id == snapshot.version_id)) assignment_changed
    raise_if (not (names assignment.cross_check_round_id snapshot.round_id)) round_mismatch
    task ← or_raise (store.tasks assignment.task_id) task_gone
    (round_id, round) ← open_round (some snapshot.round_id) assignment.task_id store
    raise_if
        (not (
          round.original_version_id == snapshot.original_version_id
          && round.secondary_version_id == snapshot.version_id))
        round_versions_changed
    original ← or_raise (store.versions snapshot.original_version_id) version_gone
    working ← or_raise (store.versions snapshot.version_id) version_gone
    raise_if (not (working.revision == expected_revision)) (revision_conflict working.revision)
    raise_if (not (is_editable working)) not_editable
    raise_if (not (names task.current_published_version_id snapshot.original_version_id))
        original_changed
    merged ← passing segment (merge_dirty_segments working.segments dirty_segments)
    raise_if
        (not (
          digest (
              digest_payload original.segments original.target_status snapshot.original_version_id
                original.revision)
            == snapshot.original_digest
          && digest (digest_payload merged none snapshot.version_id working.revision)
            == snapshot.secondary_digest))
        inputs_changed
    ok (record {
      work = work;
      task = task;
      round = round;
      working = working;
      original = original;
      merged = merged;
    })
