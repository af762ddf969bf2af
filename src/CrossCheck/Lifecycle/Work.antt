-- ===== src/CrossCheck/Lifecycle/Work.antt =====
-- What the transactions of an annotator do to the rounds.
use egyptian_arabic_annotati.Base.{
  ℕ, ◌≡◌, sym, ap, subst, ◌⊎◌, inl, inr, Bool, not, Option, none, some, List, ◌==◌, Result, ok,
  or_raise, bind-ok, raise_if-ok,
}
use egyptian_arabic_annotati.Sessions.State.{
  SessionPolicy, SessionFence, RawUuid, validate_uuid, lock_active_annotator,
}
use egyptian_arabic_annotati.Sessions.Fence.{require_session_fence}
use egyptian_arabic_annotati.Segments.{RawSegment, apply_dirty_segments, validate_version_segments}
use egyptian_arabic_annotati.Drafts.State.{
  Fault, session, segment, passing, version_gone, revision_conflict, no_active_assignment,
  unconfirmed, AssignmentMode, annotation, revision, cross_check, TargetStatus, SkipReason, Work,
  Store, Response, replayed, save_draft_route, abandon_route, complete_route, operation_replay,
  lock_assignment, require_round, store_operation, touch,
}
use egyptian_arabic_annotati.Drafts.Save.{write_save, save_new, save_draft}
use egyptian_arabic_annotati.Drafts.Abandon.{release_draft, delete_assignment, abandon_new, abandon}
use egyptian_arabic_annotati.Drafts.Complete.{
  RawStatus, parse_status, checked_reasons, require_texts, snapshot_annotation_duration,
}
use egyptian_arabic_annotati.Drafts.Publish.{
  Next, replied, submit_cross_check, write_published, complete_published_assignment, complete_new,
  complete,
}
use egyptian_arabic_annotati.CrossCheck.Lifecycle.{RoundMove, Follows, same-Follows}
use egyptian_arabic_annotati.CrossCheck.Lifecycle.Open.{out_eq, release-Follows}

-- A request is answered from the log, and then nothing is written, or is new.
pub replay-or-new :
    {A : Type 0} (reply : Response → A) (prior : Option Response) (new : Result Fault (A × Store))
    (store : Store) {out : A} {after : Store}
    → ◌≡◌ {A = Result Fault (A × Store)}
        (elim prior [ some response ↦ ok (reply response, store) | none ↦ new ])
        (ok (out, after))
    → (after ≡ store) ⊎ (new ≡ ok (out, after))
replay-or-new reply none new store e = inr e
replay-or-new reply (some response) new store e = inl (ap (λ o. o.1) (sym (out_eq e)))

pub unchanged-Follows : (store after : Store) → after ≡ store → Follows store after
unchanged-Follows store after same = same-Follows store after (ap (λ s. s.rounds) same)

module _ (fence : SessionFence) (policy : SessionPolicy) (now : ℕ) (store : Store)
    {after : Store} where
  save_new-rounds :
      (lease_token : Option ℕ) (expected_revision : ℕ) (dirty : List RawSegment)
      (operation_id request_hash : ℕ) {out : Response}
      → save_new fence policy now lease_token expected_revision dirty operation_id request_hash
          store
        ≡ ok (out, after)
      → after.rounds ≡ store.rounds
  unfolding save_new write_save store_operation touch
  save_new-rounds lease_token expected_revision dirty operation_id request_hash e =
      let (work, locked, e1) = bind-ok (lock_assignment fence.user_id lease_token store) e in
      let (opened, running, e2) = bind-ok (require_round work.assignment store) e1 in
      let vid = work.assignment.working_version_id in
      let (version, found, e3) = bind-ok (or_raise (store.versions vid) version_gone) e2 in
      let (same, e4) =
        raise_if-ok (not (version.revision == expected_revision))
          (revision_conflict version.revision) e3 in
      let (rows, applied, e5) =
        bind-ok (passing segment (apply_dirty_segments dirty version.segments)) e4 in
      ap (λ o. o.1.rounds) (sym (out_eq e5))

  pub save_draft-Follows :
      (lease_token : Option ℕ) (expected_revision : ℕ) (dirty : List RawSegment)
      (operation_id : RawUuid) (request_hash : ℕ) {out : Response}
      → save_draft fence policy now lease_token expected_revision dirty operation_id request_hash
          store
        ≡ ok (out, after)
      → Follows store after
  unfolding save_draft
  save_draft-Follows lease_token expected_revision dirty operation_id request_hash e =
      let (op_uuid, valid, e1) = bind-ok (passing session (validate_uuid operation_id)) e in
      let (user, locked, e2) =
        bind-ok (passing session (lock_active_annotator fence.user_id store.accounts)) e1 in
      let (opened, fenced, e3) =
        bind-ok (passing session (require_session_fence fence now store.accounts)) e2 in
      let (prior, replayed_as, e4) =
        bind-ok (operation_replay op_uuid fence.user_id save_draft_route request_hash store) e3 in
      elim (replay-or-new (λ r. r) prior _ store e4) [
        | inl same ↦ unchanged-Follows store after same
        | inr new ↦
            same-Follows store after
              (save_new-rounds lease_token expected_revision dirty op_uuid request_hash new)
      ]

  complete_published-rounds :
      (work : Work) (expected_revision : ℕ) (target_status : TargetStatus)
      (reasons : List SkipReason) (dirty : List RawSegment) (operation_id request_hash : ℕ)
      {out : Next}
      → complete_published_assignment fence policy now work expected_revision target_status reasons
          dirty operation_id request_hash store
        ≡ ok (out, after)
      → after.rounds ≡ store.rounds
  unfolding complete_published_assignment write_published store_operation delete_assignment touch
  complete_published-rounds work expected_revision target_status reasons dirty operation_id
        request_hash e =
      let (version, found, e1) =
        bind-ok (or_raise (store.versions work.assignment.working_version_id) version_gone) e in
      let (same, e2) =
        raise_if-ok (not (version.revision == expected_revision))
          (revision_conflict version.revision) e1 in
      let (rows, applied, e3) =
        bind-ok (passing segment (apply_dirty_segments dirty version.segments)) e2 in
      let (task, known_task, e4) =
        bind-ok (or_raise (store.tasks work.assignment.task_id) no_active_assignment) e3 in
      let (unit1, valid, e5) =
        bind-ok (passing segment (validate_version_segments rows task.duration)) e4 in
      let (unit2, texted, e6) = bind-ok (require_texts target_status rows) e5 in
      let (frozen, snapped, e7) =
        bind-ok
          (snapshot_annotation_duration fence.user_id work.assignment.mode target_status rows
            version store)
          e6 in
      ap (λ o. o.1.rounds) (sym (out_eq e7))

  complete_mode-rounds :
      (work : Work) (expected_revision : ℕ) (target_status : TargetStatus)
      (reasons : List SkipReason) (dirty : List RawSegment) (operation_id request_hash : ℕ)
      {out : Next} (mode : AssignmentMode)
      → ◌≡◌ {A = Result Fault (Next × Store)}
          (elim mode [
            | cross_check ↦ ok (submit_cross_check, store)
            | _ ↦
                complete_published_assignment fence policy now work expected_revision target_status
                  reasons dirty operation_id request_hash store
          ])
          (ok (out, after))
      → after.rounds ≡ store.rounds
  complete_mode-rounds work expected target reasons dirty op hash annotation e =
      complete_published-rounds work expected target reasons dirty op hash e
  complete_mode-rounds work expected target reasons dirty op hash revision e =
      complete_published-rounds work expected target reasons dirty op hash e
  complete_mode-rounds work expected target reasons dirty op hash cross_check e =
      ap (λ o. o.1.rounds) (sym (out_eq e))

  pub complete-Follows :
      (lease_token : Option ℕ) (expected_revision : ℕ) (target_status : RawStatus)
      (skip_reasons : List SkipReason) (dirty : List RawSegment) (operation_id : RawUuid)
      (request_hash : ℕ) {out : Next}
      → complete fence policy now lease_token expected_revision target_status skip_reasons dirty
          operation_id request_hash store
        ≡ ok (out, after)
      → Follows store after
  unfolding complete complete_new
  complete-Follows lease_token expected_revision target_status skip_reasons dirty operation_id
        request_hash e =
      let (target, parsed, e0) = bind-ok (parse_status target_status) e in
      let (reasons, checked, e1) = bind-ok (checked_reasons target skip_reasons) e0 in
      let (op_uuid, valid, e2) = bind-ok (passing session (validate_uuid operation_id)) e1 in
      let (user, locked, e3) =
        bind-ok (passing session (lock_active_annotator fence.user_id store.accounts)) e2 in
      let (opened, fenced, e4) =
        bind-ok (passing session (require_session_fence fence now store.accounts)) e3 in
      let (prior, replayed_as, e5) =
        bind-ok (operation_replay op_uuid fence.user_id complete_route request_hash store) e4 in
      elim (replay-or-new (λ r. replied (replayed r)) prior _ store e5) [
        | inl same ↦ unchanged-Follows store after same
        | inr new ↦
            let (work, held, e6) = bind-ok (lock_assignment fence.user_id lease_token store) new in
            same-Follows store after (
              complete_mode-rounds work expected_revision target reasons dirty op_uuid request_hash
                work.assignment.mode e6)
      ]

  pub abandon-Follows :
      (request_hash : ℕ → ℕ) (lease_token : ℕ) (operation_id : RawUuid) (confirm : Bool)
      {out : Response}
      → abandon request_hash fence policy now lease_token operation_id confirm store
        ≡ ok (out, after)
      → Follows store after
  unfolding abandon abandon_new delete_assignment store_operation touch
  abandon-Follows request_hash lease_token operation_id confirm e =
      let (confirmed, e0) = raise_if-ok (not confirm) unconfirmed e in
      let (op_uuid, valid, e1) = bind-ok (passing session (validate_uuid operation_id)) e0 in
      let (user, locked, e2) =
        bind-ok (passing session (lock_active_annotator fence.user_id store.accounts)) e1 in
      let (opened, fenced, e3) =
        bind-ok (passing session (require_session_fence fence now store.accounts)) e2 in
      let (prior, replayed_as, e4) =
        bind-ok
          (operation_replay op_uuid fence.user_id abandon_route (request_hash lease_token) store)
          e3 in
      elim (replay-or-new replayed prior _ store e4) [
        | inl same ↦ unchanged-Follows store after same
        | inr new ↦
            let (work, held, e5) =
              bind-ok (lock_assignment fence.user_id (some lease_token) store) new in
            let (released, run, e6) = bind-ok (release_draft work.assignment store) e5 in
            let rounds : after.rounds ≡ released.rounds = ap (λ o. o.1.rounds) (sym (out_eq e6)) in
            λ k.
              subst (λ rows. RoundMove (store.rounds k) (rows k)) (sym rounds)
                (release-Follows work.assignment store run k)
      ]
