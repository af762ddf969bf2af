-- ===== src/CrossCheck/Commit/Frozen.antt =====
-- A submission freezes the second version, and compares what it freezes.
use egyptian_arabic_annotati.Base.{
  ℕ, ◌≡◌, refl, subst, true, not, Option, none, List, ◌==◌, arith, ℕ_discrete, ok, or_raise,
  bind-ok, raise_if-ok,
}
use egyptian_arabic_annotati.Sessions.State.{SessionPolicy, SessionFence, lock_active_annotator}
use egyptian_arabic_annotati.Sessions.Fence.{require_session_fence}
use egyptian_arabic_annotati.Comparison.Compare.{ComparisonResult}
use egyptian_arabic_annotati.Segments.{
  Segment, RawSegment, merge_dirty_segments, validate_segment_timeline,
}
use egyptian_arabic_annotati.Drafts.State.{
  session, segment, passing, version_gone, revision_conflict, not_cross_check, round_mismatch,
  task_gone, original_changed, original_gone, not_editable, Assignment, Round, TargetStatus,
  SkipReason, Version, draft, complete_route, Store, Response, lock_assignment, open_round,
}
use egyptian_arabic_annotati.Drafts.Conflicts.{new_operation}
use egyptian_arabic_annotati.CrossCheck.Inputs.{Payload, digest_payload, SubmitSnapshot}
use egyptian_arabic_annotati.CrossCheck.Submit.{
  other_mode, names, is_editable, Inputs, snapshot_of, read_snapshot, lock_inputs,
}
use egyptian_arabic_annotati.CrossCheck.Commit.{commit_cross_check_submit}
use egyptian_arabic_annotati.CrossCheck.Commit.Found.{Found, lock_inputs-Found}
use egyptian_arabic_annotati.CrossCheck.Commit.Left.{Left, freeze_submission-Left}
use egyptian_arabic_annotati.CrossCheck.Lifecycle.Open.{out_eq}

-- What a digest is taken of can be compared.
pub Payload-discrete : Discrete Payload
Payload-discrete = hlevel (ℕ_discrete)

pub is_editable-draft : (version : Version) → is_editable version ≡ true → version.lifecycle ≡ draft
is_editable-draft version e = ground arith

module _ (digest : Payload → ℕ) (fence : SessionFence) (now : ℕ) (lease_token : Option ℕ)
    (expected_revision : ℕ) (dirty : List RawSegment) where
  abbrev HasDigests : SubmitSnapshot → Type 0
  HasDigests s =
      (s.original_digest
        ≡ digest (
            digest_payload s.original_segments s.original_status s.original_version_id
              s.original_revision))
      × (s.secondary_digest
          ≡ digest (digest_payload s.merged_segments none s.version_id s.secondary_revision))

  snapshot_of-digests :
      (assignment : Assignment) (round_id : ℕ) (round : Round) (first working : Version)
      (merged : List Segment)
      → HasDigests (snapshot_of digest fence now assignment round_id round first working merged)
  unfolding snapshot_of
  snapshot_of-digests assignment round_id round first working merged = (refl, refl)

  -- The digests of a snapshot are those of its segments.
  pub read_snapshot-digests :
      (store : Store) {snapshot : SubmitSnapshot}
      → read_snapshot digest fence now lease_token expected_revision dirty store ≡ ok snapshot
      → HasDigests snapshot
  unfolding read_snapshot
  read_snapshot-digests store {snapshot} e =
      let (work, locked, e1) = bind-ok (lock_assignment fence.user_id lease_token store) e in
      let a = work.assignment in
      let (mode, e2) = raise_if-ok (other_mode a) not_cross_check e1 in
      let ((round_id, round), opened, e3) =
        bind-ok (open_round a.cross_check_round_id a.task_id store) e2 in
      let (same, e4) =
        raise_if-ok (not (round.secondary_version_id == a.working_version_id)) round_mismatch e3 in
      let (task, task_found, e5) = bind-ok (or_raise (store.tasks a.task_id) task_gone) e4 in
      let (named, e6) =
        raise_if-ok (not (names task.current_published_version_id round.original_version_id))
          original_changed e5 in
      let (first, first_found, e7) =
        bind-ok (or_raise (store.versions round.original_version_id) original_gone) e6 in
      let (working, working_found, e8) =
        bind-ok (or_raise (store.versions a.working_version_id) version_gone) e7 in
      let (current, e9) =
        raise_if-ok (not (working.revision == expected_revision))
          (revision_conflict working.revision) e8 in
      let (edit, e10) = raise_if-ok (not (is_editable working)) not_editable e9 in
      let (merged, merge, e11) =
        bind-ok (passing segment (merge_dirty_segments working.segments dirty)) e10 in
      let (valid, in_order, e12) =
        bind-ok (passing segment (validate_segment_timeline merged task.duration)) e11 in
      subst HasDigests (out_eq e12) (snapshot_of-digests a round_id round first working merged)

module _ (digest : Payload → ℕ) (fence : SessionFence) (policy : SessionPolicy) (now : ℕ)
    (target_status : TargetStatus) (skip_reasons : List SkipReason) (operation_id request_hash : ℕ)
    (lease_token : Option ℕ) (expected_revision : ℕ) (dirty : List RawSegment)
    (snapshot : SubmitSnapshot) (comparison : ComparisonResult) (store : Store) where
  -- What a submission that was committed found and left.
  abbrev pub Committed : Response → Store → Type 0
  Committed response after =
      (inputs : Inputs) × Found digest fence now lease_token expected_revision dirty snapshot store
        inputs
      × Left fence policy now target_status skip_reasons operation_id request_hash dirty snapshot
          comparison inputs store response after

  pub commit-Committed :
      {response : Response} {after : Store}
      → store.operations operation_id ≡ none
      → commit_cross_check_submit digest fence policy now target_status skip_reasons operation_id
          request_hash lease_token expected_revision dirty snapshot comparison store
        ≡ ok (response, after)
      → Committed response after
  unfolding commit_cross_check_submit
  commit-Committed new e =
      let (user, locked, e1) =
        bind-ok (passing session (lock_active_annotator fence.user_id store.accounts)) e in
      let (opened, fenced, e2) =
        bind-ok (passing session (require_session_fence fence now store.accounts)) e1 in
      let replay = new_operation operation_id fence.user_id complete_route request_hash store new in
      let (inputs, found, e3) =
        bind-ok (lock_inputs digest fence now lease_token expected_revision dirty snapshot store)
          (rw replay at e2) in
      (
        inputs,
        lock_inputs-Found digest fence now lease_token expected_revision dirty snapshot store found,
        freeze_submission-Left fence policy now target_status skip_reasons operation_id request_hash
            dirty snapshot comparison inputs store digest e3,
      )
