-- ===== src/Drafts/Save.antt =====
-- `save_draft`, for a request that brings no scene review: then the review stays as it is.
use egyptian_arabic_annotati.Base.{
  ℕ, ◌+◌, true, not, Option, none, some, List, ◌==◌, Result, ok, ◌>>=◌, ◌>>◌, raise_if, or_raise,
}
use egyptian_arabic_annotati.Sessions.State.{
  SessionPolicy, SessionFence, RawUuid, validate_uuid, lock_active_annotator,
}
use egyptian_arabic_annotati.Sessions.Fence.{require_session_fence}
use egyptian_arabic_annotati.Segments.{Segment, RawSegment, apply_dirty_segments}
use egyptian_arabic_annotati.Drafts.State.{
  Fault, session, segment, version_gone, revision_conflict, passing, Version, Store, put,
  save_draft_route, Response, saved, operation_replay, store_operation, lock_assignment,
  require_round, touch,
}

-- The columns that the update sets, and the segments.
unfoldable pub saved_version : (user_id : ℕ) → List Segment → Version → Version
saved_version user_id segments version = record version {
  revision = version.revision + 1;
  human_modified = true;
  modified_by_user_id = some user_id;
  segments = segments;
}

abbrev pub store_version : ℕ → Version → Store → Store
store_version version_id version store = record store {
  versions = put store.versions version_id (some version);
}

module _ (fence : SessionFence) (policy : SessionPolicy) (now : ℕ) where
  -- The reply and what the transaction writes.
  unfoldable pub write_save :
      (operation_id request_hash version_id : ℕ) → Version → List Segment → Store → Response × Store
  unfolding saved_version store_operation touch put
  write_save operation_id request_hash version_id version segments store =
      let response = saved (version.revision + 1) version.review in
      let written = store_version version_id (saved_version fence.user_id segments version) store in
      (
        response,
        touch fence policy true now (
            store_operation operation_id fence.user_id save_draft_route request_hash response
              written),
      )

  -- What the transaction does for a new operation.
  unfoldable pub save_new :
      (lease_token : Option ℕ)
      → (expected_revision : ℕ) → List RawSegment
      → (operation_id request_hash : ℕ) → Store
      → Result Fault (Response × Store)
  unfolding passing lock_assignment require_round apply_dirty_segments write_save
  save_new lease_token expected_revision dirty_segments operation_id request_hash store = do
    work ← lock_assignment fence.user_id lease_token store
    opened ← require_round work.assignment store
    let version_id = work.assignment.working_version_id
    version ← or_raise (store.versions version_id) version_gone
    raise_if (not (version.revision == expected_revision)) (revision_conflict version.revision)
    segments ← passing segment (apply_dirty_segments dirty_segments version.segments)
    ok (write_save operation_id request_hash version_id version segments store)

  unfoldable pub save_draft :
      (lease_token : Option ℕ)
      → (expected_revision : ℕ) → List RawSegment
      → (operation_id : RawUuid) → (request_hash : ℕ) → Store
      → Result Fault (Response × Store)
  unfolding passing validate_uuid lock_active_annotator require_session_fence operation_replay
      save_new
  save_draft lease_token expected_revision dirty_segments operation_id request_hash store = do
    op_uuid ← passing session (validate_uuid operation_id)
    user ← passing session (lock_active_annotator fence.user_id store.accounts)
    passed ← passing session (require_session_fence fence now store.accounts)
    prior ← operation_replay op_uuid fence.user_id save_draft_route request_hash store
    elim prior [
      | some response ↦ ok (response, store)
      | none ↦ save_new lease_token expected_revision dirty_segments op_uuid request_hash store
    ]
