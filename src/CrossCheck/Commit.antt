-- ===== src/CrossCheck/Commit.antt =====
-- The last transaction of `submit_cross_check`, `_commit_cross_check_submit`, and the whole of it.
pub mod Found
pub mod Left
pub mod Frozen
pub mod Current
use egyptian_arabic_annotati.Base.{
  ℕ, Bool, true, false, Option, none, some, List, Result, ok, err, ◌>>=◌, ◌>>◌, or_raise,
}
use egyptian_arabic_annotati.Sessions.State.{
  SessionPolicy, SessionFence, RawUuid, validate_uuid, lock_active_annotator,
}
use egyptian_arabic_annotati.Sessions.Fence.{require_session_fence}
use egyptian_arabic_annotati.Comparison.Unicode.{Unicode}
use egyptian_arabic_annotati.Comparison.Compare.{ComparisonResult}
use egyptian_arabic_annotati.Segments.{
  Segment, RawSegment, apply_dirty_segments, validate_version_segments,
}
use egyptian_arabic_annotati.Drafts.State.{
  Fault, session, segment, round_closed, not_editable, passing, cross_check, TargetStatus,
  SkipReason, Version, Round, RoundState, passed, Store, put, complete_route, Response, submitted,
  replayed, Event, submitted_event, passed_event, operation_replay, store_operation, touch,
}
use egyptian_arabic_annotati.Drafts.Abandon.{delete_assignment, record_event}
use egyptian_arabic_annotati.Drafts.Complete.{snapshot_annotation_duration}
use egyptian_arabic_annotati.CrossCheck.Inputs.{Payload, SubmitSnapshot, run_comparison}
use egyptian_arabic_annotati.CrossCheck.Submit.{
  Loaded, answered, loaded, Inputs, lock_inputs, freeze_cross_check_version, store_round_submission,
  verdict_state, load_submit_snapshot,
}

-- The companion event has no operation id, which is unique among the events.
abbrev pub record_passed : RoundState → Event → Store → Store
record_passed passed event store =
    record_event (record event { operation_id = none; kind = passed_event }) store
record_passed _ event store = store

module _ (digest : Payload → ℕ) (fence : SessionFence) (policy : SessionPolicy) (now : ℕ)
    (target_status : TargetStatus) (skip_reasons : List SkipReason)
    (operation_id request_hash : ℕ) where
  -- What the transaction writes.
  unfoldable pub write_submission :
      SubmitSnapshot → Inputs → RoundState → Version → Round → Store → Response × Store
  unfolding put store_operation delete_assignment touch
  write_submission snapshot inputs state frozen round store =
      let response =
        submitted snapshot.task_id target_status skip_reasons snapshot.round_id state in
      let written = record store {
        versions = put store.versions snapshot.version_id (some frozen);
        rounds = put store.rounds snapshot.round_id (some round);
      } in
      let logged =
        store_operation operation_id fence.user_id complete_route request_hash response written in
      let event : Event = record {
        operation_id = some operation_id;
        user_id = some fence.user_id;
        admin_action_id = none;
        task_id = snapshot.task_id;
        version_id = snapshot.version_id;
        kind = submitted_event;
        from_status = inputs.work.task_status;
      } in
      let recorded = record_passed state event (record_event event logged) in
      (response, touch fence policy false now (delete_assignment fence.user_id recorded))

  -- The edits, the duration, the version and the round.
  unfoldable pub freeze_submission :
      (dirty_segments : List RawSegment)
      → SubmitSnapshot
      → ComparisonResult
      → Inputs
      → Store
      → Result Fault (Response × Store)
  unfolding passing apply_dirty_segments validate_version_segments snapshot_annotation_duration
      freeze_cross_check_version store_round_submission write_submission
  freeze_submission dirty_segments snapshot comparison inputs store = do
    rows ← passing segment (apply_dirty_segments dirty_segments inputs.working.segments)
    valid ← passing segment (validate_version_segments rows inputs.task.duration)
    credited ←
        snapshot_annotation_duration fence.user_id cross_check target_status rows
          (record inputs.working { segments = rows }) store
    frozen ←
        or_raise (freeze_cross_check_version fence.user_id target_status skip_reasons credited)
          not_editable
    let state = verdict_state comparison
    round ←
        or_raise
          (store_round_submission state comparison snapshot.original_revision
            snapshot.secondary_revision inputs.round)
          round_closed
    ok (write_submission snapshot inputs state frozen round store)

  -- `_commit_cross_check_submit`
  unfoldable pub commit_cross_check_submit :
      (lease_token : Option ℕ)
      → (expected_revision : ℕ) → (dirty_segments : List RawSegment) → SubmitSnapshot
      → ComparisonResult
      → Store
      → Result Fault (Response × Store)
  unfolding passing lock_active_annotator require_session_fence operation_replay lock_inputs
      freeze_submission
  commit_cross_check_submit lease_token expected_revision dirty_segments snapshot comparison store =
      do
        user ← passing session (lock_active_annotator fence.user_id store.accounts)
        opened ← passing session (require_session_fence fence now store.accounts)
        prior ← operation_replay operation_id fence.user_id complete_route request_hash store
        elim prior [
          | some response ↦ ok (replayed response, store)
          | none ↦ do
            inputs ←
                lock_inputs digest fence now lease_token expected_revision dirty_segments snapshot
                  store
            freeze_submission dirty_segments snapshot comparison inputs store
        ]

-- The whole: `at_peek`, `at_load` and `at_commit` are the stores that the transactions find.
unfoldable pub submit_cross_check :
    (u : Unicode) (memory : ℕ → Bool) (digest : Payload → ℕ)
    → SessionFence
    → SessionPolicy
    → (loaded_at now : ℕ) → Option ℕ
    → (expected_revision : ℕ) → TargetStatus
    → List SkipReason
    → List RawSegment
    → (operation_id : RawUuid) → (request_hash : ℕ) → (at_peek at_load at_commit : Store)
    → Result Fault (Response × Store)
unfolding passing validate_uuid operation_replay load_submit_snapshot run_comparison
    commit_cross_check_submit
submit_cross_check u memory digest fence policy loaded_at now lease_token expected_revision
      target_status skip_reasons dirty_segments operation_id request_hash at_peek at_load
      at_commit =
    do
      op_uuid ← passing session (validate_uuid operation_id)
      prior ← operation_replay op_uuid fence.user_id complete_route request_hash at_peek
      elim prior [
        | some response ↦ ok (replayed response, at_commit)
        | none ↦ do
          first ←
              load_submit_snapshot digest fence loaded_at lease_token expected_revision
                dirty_segments op_uuid request_hash at_load
          elim first [
            | answered response ↦ ok (response, at_commit)
            | loaded snapshot ↦
                commit_cross_check_submit digest fence policy now target_status skip_reasons op_uuid
                  request_hash lease_token expected_revision dirty_segments snapshot
                  (run_comparison u memory snapshot target_status) at_commit
          ]
      ]
