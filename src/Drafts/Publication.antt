-- ===== src/Drafts/Publication.antt =====
-- A completed task has one published version.
use egyptian_arabic_annotati.Base.{
  ℕ, ◌≡◌, sym, subst, ◌∙◌, false, not, Option, none, List, ◌==◌, arith, Result, ok, or_raise,
  bind-ok, raise_if-ok, or_raise-ok,
}
use egyptian_arabic_annotati.Sessions.State.{SessionPolicy, SessionFence}
use egyptian_arabic_annotati.Segments.{
  Segment, RawSegment, apply_dirty_segments, validate_version_segments,
}
use egyptian_arabic_annotati.Segments.Timeline.{version_segments_agree}
use egyptian_arabic_annotati.Drafts.State.{
  Fault, session, segment, version_gone, revision_conflict, no_active_assignment, passing,
  TargetStatus, SkipReason, AssignmentMode, annotation, revision, cross_check, Version, Task, Store,
  complete_route, Response, Work, lock_assignment,
}
use egyptian_arabic_annotati.Drafts.Complete.{require_texts, snapshot_annotation_duration}
use egyptian_arabic_annotati.Drafts.Publish.{Next, replied, complete_published_assignment}
use egyptian_arabic_annotati.Drafts.Once.{passing-ok}
use egyptian_arabic_annotati.Drafts.Published.{
  Publishable, IsLeft, require_texts-annotated, snapshot-draft, write_published-IsLeft,
}
use egyptian_arabic_annotati.Sessions.State.{uuid, validate_uuid, lock_active_annotator}
use egyptian_arabic_annotati.Sessions.Fence.{require_session_fence}
use egyptian_arabic_annotati.Drafts.Complete.{known, parse_status, checked_reasons}
use egyptian_arabic_annotati.Drafts.Publish.{submit_cross_check, complete_new, complete}
use egyptian_arabic_annotati.Drafts.Conflicts.{new_operation}

out_eq : {a b : Next × Store} → ◌≡◌ {A = Result Fault (Next × Store)} (ok a) (ok b) → a ≡ b
out_eq e = cc

expected : (current wanted : ℕ) → not (current == wanted) ≡ false → current ≡ wanted
expected current wanted e = ground arith

module _ (fence : SessionFence) (policy : SessionPolicy) (now expected_revision : ℕ)
    (target_status : TargetStatus) (dirty : List RawSegment) (operation_id request_hash : ℕ)
    (store : Store) where
  -- What a completion that was done found and left.
  abbrev pub Done : Work → Store → Type 0
  Done work after =
      (version : Version) × (rows : List Segment) × (task : Task) × Publishable work
        expected_revision target_status dirty store version rows task
      × IsLeft fence.user_id work.assignment expected_revision target_status rows after

  complete_published-Done :
      (work : Work) (reasons : List SkipReason) {out : Next × Store}
      → complete_published_assignment fence policy now work expected_revision target_status reasons
          dirty operation_id request_hash store
        ≡ ok out
      → Done work out.1
  unfolding complete_published_assignment
  complete_published-Done work reasons e =
      let (version, found, e1) =
        bind-ok (or_raise (store.versions work.assignment.working_version_id) version_gone) e in
      let (same, e2) =
        raise_if-ok (not (version.revision == expected_revision))
          (revision_conflict version.revision) e1 in
      let (rows, applied, e3) =
        bind-ok (passing segment (apply_dirty_segments dirty version.segments)) e2 in
      let (task, known_task, e4) =
        bind-ok (or_raise (store.tasks work.assignment.task_id) no_active_assignment) e3 in
      let (unit1, valid, e5) =
        bind-ok (passing segment (validate_version_segments rows task.duration)) e4 in
      let (unit2, texted, e6) = bind-ok (require_texts target_status rows) e5 in
      let (frozen, snapped, e7) =
        bind-ok
          (snapshot_annotation_duration fence.user_id work.assignment.mode target_status rows
            version store)
          e6 in
      let current = expected version.revision expected_revision same in
      let (is_draft, kept_revision) =
        snapshot-draft fence.user_id work.assignment.mode target_status rows version store
          snapped in
      (
        version,
        rows,
        task,
        (
          or_raise-ok (store.versions work.assignment.working_version_id) version_gone found,
          current,
          is_draft,
          passing-ok segment (apply_dirty_segments dirty version.segments) applied,
          or_raise-ok (store.tasks work.assignment.task_id) no_active_assignment known_task,
          sym (version_segments_agree rows task.duration)
              ∙ passing-ok segment (validate_version_segments rows task.duration) valid,
          require_texts-annotated target_status rows texted,
        ),
        subst (λ o. IsLeft fence.user_id work.assignment expected_revision target_status rows o.1)
            (out_eq e7)
            (write_published-IsLeft fence policy now operation_id request_hash work task
              target_status reasons rows frozen store expected_revision (kept_revision ∙ current)),
      )

  complete_mode-Done :
      (work : Work) (reasons : List SkipReason) {response : Response} {after : Store}
      (mode : AssignmentMode)
      → ◌≡◌ {A = Result Fault (Next × Store)}
          (elim mode [
            | cross_check ↦ ok (submit_cross_check, store)
            | _ ↦
                complete_published_assignment fence policy now work expected_revision target_status
                  reasons dirty operation_id request_hash store
          ])
          (ok (replied response, after))
      → Done work after
  complete_mode-Done work reasons annotation e = complete_published-Done work reasons e
  complete_mode-Done work reasons revision e = complete_published-Done work reasons e
  complete_mode-Done work reasons cross_check e = absurd (cc e)

  -- A completion of a new operation that replies was made under a session that passes, with the lease
  -- and the revision of the draft, and edits that apply to a valid timeline, with no segment left
  -- without text if it is annotated. It leaves exactly one published version of the task, the draft
  -- with its edits, which the task names as current, and the user has no assignment any more.
  pub complete-publishes :
      (lease_token : Option ℕ) (skip_reasons : List SkipReason) {response : Response}
      {after : Store}
      → store.operations operation_id ≡ none
      → complete fence policy now lease_token expected_revision
          (known target_status)
          skip_reasons
          dirty
          (uuid operation_id)
          request_hash
          store
        ≡ ok (replied response, after)
      → (work : Work) × (require_session_fence fence now store.accounts ≡ ok tt)
        × (lock_assignment fence.user_id lease_token store ≡ ok work)
        × Done work after
  unfolding complete validate_uuid passing parse_status complete_new
  complete-publishes lease_token skip_reasons new e =
      let (reasons, checked, e1) = bind-ok (checked_reasons target_status skip_reasons) e in
      let (user, locked, e2) =
        bind-ok (passing session (lock_active_annotator fence.user_id store.accounts)) e1 in
      let (opened, passed, e3) =
        bind-ok (passing session (require_session_fence fence now store.accounts)) e2 in
      let replay = new_operation operation_id fence.user_id complete_route request_hash store new in
      let (work, held, e4) =
        bind-ok (lock_assignment fence.user_id lease_token store) (rw replay at e3) in
      (
        work,
        passing-ok session (require_session_fence fence now store.accounts) passed,
        held,
        complete_mode-Done work reasons work.assignment.mode e4,
      )
