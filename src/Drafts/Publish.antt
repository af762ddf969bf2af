-- ===== src/Drafts/Publish.antt =====
-- The transaction of `complete` and `_complete_published_assignment`.
use egyptian_arabic_annotati.Base.{
  ℕ, false, not, Option, none, some, List, ◌==◌, Result, ok, ◌>>=◌, ◌>>◌, raise_if, or_raise,
}
use egyptian_arabic_annotati.Sessions.State.{
  SessionPolicy, SessionFence, RawUuid, validate_uuid, lock_active_annotator,
}
use egyptian_arabic_annotati.Sessions.Fence.{require_session_fence}
use egyptian_arabic_annotati.Segments.{RawSegment, apply_dirty_segments, validate_version_segments}
use egyptian_arabic_annotati.Drafts.State.{
  Fault, session, segment, version_gone, revision_conflict, no_active_assignment, passing,
  TargetStatus, SkipReason, cross_check, Version, Task, finished, Store, put, complete_route,
  Response, completed, replayed, completed_event, operation_replay, store_operation, Work,
  lock_assignment, touch,
}
use egyptian_arabic_annotati.Drafts.Abandon.{delete_assignment, record_event}
use egyptian_arabic_annotati.Drafts.Complete.{
  RawStatus, parse_status, checked_reasons, require_texts, snapshot_annotation_duration,
  published_version, publish_versions,
}

-- What the caller gets: the reply, or the call of `submit_cross_check` that is left to do.
pub data Next : Type 0 where
  replied : Response → Next
  submit_cross_check : Next

module _ (fence : SessionFence) (policy : SessionPolicy) (now : ℕ) where
  -- What the publication writes.
  unfoldable pub write_published :
      (operation_id request_hash : ℕ)
      → Work
      → Task
      → TargetStatus
      → List SkipReason
      → Version
      → Store
      → Next × Store
  unfolding publish_versions put store_operation delete_assignment touch
  write_published operation_id request_hash work task target_status reasons version store =
      let task_id = work.assignment.task_id in
      let version_id = work.assignment.working_version_id in
      let response = completed task_id target_status reasons version.review in
      let written = record store {
        versions = publish_versions task_id version_id version store.versions;
        tasks = put store.tasks task_id (
            some (record task {
              status = finished target_status;
              current_published_version_id = some version_id;
              reserved_for_user_id = none;
            }));
      } in
      let logged =
        store_operation operation_id fence.user_id complete_route request_hash response written in
      let recorded =
        record_event
          (record {
            operation_id = some operation_id;
            user_id = some fence.user_id;
            admin_action_id = none;
            task_id = task_id;
            version_id = version_id;
            kind = completed_event;
            from_status = work.task_status;
          })
          logged in
      (replied response, touch fence policy false now (delete_assignment fence.user_id recorded))

  -- `_complete_published_assignment`
  unfoldable pub complete_published_assignment :
      Work
      → (expected_revision : ℕ) → TargetStatus
      → List SkipReason
      → List RawSegment
      → (operation_id request_hash : ℕ) → Store
      → Result Fault (Next × Store)
  unfolding passing apply_dirty_segments validate_version_segments require_texts
      snapshot_annotation_duration published_version write_published
  complete_published_assignment work expected_revision target_status reasons dirty_segments
        operation_id request_hash store =
      do
        version ← or_raise (store.versions work.assignment.working_version_id) version_gone
        raise_if (not (version.revision == expected_revision)) (revision_conflict version.revision)
        rows ← passing segment (apply_dirty_segments dirty_segments version.segments)
        task ← or_raise (store.tasks work.assignment.task_id) no_active_assignment
        valid ← passing segment (validate_version_segments rows task.duration)
        texted ← require_texts target_status rows
        frozen ←
            snapshot_annotation_duration fence.user_id work.assignment.mode target_status rows
              version store
        ok (
            write_published operation_id request_hash work task target_status reasons
              (published_version fence.user_id target_status reasons rows frozen) store)

  -- The branch on the mode.
  unfoldable pub complete_new :
      (lease_token : Option ℕ)
      → (expected_revision : ℕ) → TargetStatus
      → List SkipReason
      → List RawSegment
      → (operation_id request_hash : ℕ) → Store
      → Result Fault (Next × Store)
  unfolding lock_assignment complete_published_assignment
  complete_new lease_token expected_revision target_status reasons dirty_segments operation_id
        request_hash store =
      do
        work ← lock_assignment fence.user_id lease_token store
        elim work.assignment.mode [
          | cross_check ↦ ok (submit_cross_check, store)
          | _ ↦
              complete_published_assignment work expected_revision target_status reasons
                dirty_segments operation_id request_hash store
        ]

  unfoldable pub complete :
      (lease_token : Option ℕ)
      → (expected_revision : ℕ) → RawStatus
      → List SkipReason
      → List RawSegment
      → (operation_id : RawUuid) → (request_hash : ℕ) → Store
      → Result Fault (Next × Store)
  unfolding parse_status checked_reasons passing validate_uuid lock_active_annotator
      require_session_fence operation_replay complete_new
  complete lease_token expected_revision target_status skip_reasons dirty_segments operation_id
        request_hash store =
      do
        target ← parse_status target_status
        reasons ← checked_reasons target skip_reasons
        op_uuid ← passing session (validate_uuid operation_id)
        user ← passing session (lock_active_annotator fence.user_id store.accounts)
        passed ← passing session (require_session_fence fence now store.accounts)
        prior ← operation_replay op_uuid fence.user_id complete_route request_hash store
        elim prior [
          | some response ↦ ok (replied (replayed response), store)
          | none ↦
              complete_new lease_token expected_revision target reasons dirty_segments op_uuid
                request_hash store
        ]
