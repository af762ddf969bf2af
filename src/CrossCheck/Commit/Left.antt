-- ===== src/CrossCheck/Commit/Left.antt =====
-- What a submission writes.
use egyptian_arabic_annotati.Base.{
  ℕ, ◌+◌, ◌≡◌, refl, sym, ap, ◌∙◌, inl, inr, Option, Option-cases, none, some, List, arith, ok,
  or_raise, bind-ok, or_raise-ok,
}
use egyptian_arabic_annotati.Sessions.State.{SessionPolicy, SessionFence}
use egyptian_arabic_annotati.Comparison.Compare.{ComparisonResult}
use egyptian_arabic_annotati.Segments.{
  Segment, RawSegment, apply_dirty_segments, validate_version_segments,
}
use egyptian_arabic_annotati.Drafts.State.{
  segment, passing, round_closed, not_editable, cross_check, AssignmentMode, TargetStatus,
  SkipReason, Version, cross_check_submitted, Round, RoundState, in_progress, awaiting_review,
  passed, adjudicated, cancelled, invalidated, Store, put, Response, submitted, store_operation,
  touch, Event,
}
use egyptian_arabic_annotati.Drafts.Abandon.{delete_assignment}
use egyptian_arabic_annotati.Drafts.Complete.{snapshot_annotation_duration, legacy_seconds}
use egyptian_arabic_annotati.Drafts.Once.{passing-ok}
use egyptian_arabic_annotati.CrossCheck.Inputs.{Payload, SubmitSnapshot}
use egyptian_arabic_annotati.CrossCheck.Submit.{
  Inputs, freeze_cross_check_version, store_round_submission, verdict_state,
}
use egyptian_arabic_annotati.CrossCheck.Commit.{write_submission, freeze_submission, record_passed}
use egyptian_arabic_annotati.CrossCheck.Lifecycle.Open.{out_eq}

-- The snapshot of the duration leaves the text, the task and the revision.
pub snapshot-keeps :
    (user_id : ℕ) (mode : AssignmentMode) (target_status : TargetStatus) (rows : List Segment)
    (version : Version) (store : Store) {credited : Version}
    → snapshot_annotation_duration user_id mode target_status rows version store ≡ ok credited
    → (credited.segments ≡ version.segments)
      × (credited.task_id ≡ version.task_id)
      × (credited.revision ≡ version.revision)
unfolding snapshot_annotation_duration
snapshot-keeps user_id mode target_status rows version store e =
    elim (Option-cases (legacy_seconds user_id mode version store)) [
      | inl fresh ↦ (ground (arith, fresh), ground (arith, fresh), ground (arith, fresh))
      | inr (seconds, legacy) ↦
          (ground (arith, legacy), ground (arith, legacy), ground (arith, legacy))
    ]

-- A version that was frozen: the draft with a submission's columns.
pub record IsFrozen (user_id : ℕ) (target_status : TargetStatus) (version frozen : Version)
    : Type 0 where
  pub submitted_state : frozen.lifecycle ≡ cross_check_submitted
  pub same_segments : frozen.segments ≡ version.segments
  pub same_task : frozen.task_id ≡ version.task_id
  pub next_revision : frozen.revision ≡ version.revision + 1
  pub author : frozen.submitted_by_user_id ≡ some user_id
  pub status : frozen.target_status ≡ some target_status

freeze-IsFrozen :
    (user_id : ℕ) (target_status : TargetStatus) (reasons : List SkipReason) (version : Version)
    {frozen : Version}
    → freeze_cross_check_version user_id target_status reasons version ≡ some frozen
    → IsFrozen user_id target_status version frozen
unfolding freeze_cross_check_version
freeze-IsFrozen user_id target_status reasons version e = record {
  submitted_state = ground arith;
  same_segments = ground arith;
  same_task = ground arith;
  next_revision = ground arith;
  author = ground arith;
  status = ground arith;
}

-- The round with a submission's columns.
abbrev pub submitted_round : SubmitSnapshot → ComparisonResult → Round → Round
submitted_round snapshot comparison round = record round {
  revision = round.revision + 1;
  state = verdict_state comparison;
  evidence = some (record {
    comparison = comparison;
    original_input_revision = snapshot.original_revision;
    secondary_input_revision = snapshot.secondary_revision;
  });
}

store_round-some :
    (snapshot : SubmitSnapshot) (comparison : ComparisonResult) (round : Round) {round' : Round}
    → store_round_submission
        (verdict_state comparison)
        comparison
        snapshot.original_revision
        snapshot.secondary_revision
        round
      ≡ some round'
    → (round.state ≡ in_progress) × (round' ≡ submitted_round snapshot comparison round)
unfolding store_round_submission
store_round-some snapshot comparison round {round'} e =
    elim round.state
        as (λ state.
          ◌≡◌ {A = Option Round}
            (elim state [
              | in_progress ↦ some (submitted_round snapshot comparison round)
              | _ ↦ none
            ])
            (some round')
          → (state ≡ in_progress) × (round' ≡ submitted_round snapshot comparison round)) [
            | in_progress ↦ λ h. (refl, cc)
            | awaiting_review ↦ λ h. absurd (cc h)
            | passed ↦ λ h. absurd (cc h)
            | adjudicated ↦ λ h. absurd (cc h)
            | cancelled ↦ λ h. absurd (cc h)
            | invalidated ↦ λ h. absurd (cc h)
          ]
      e

record_passed-tables :
    (state : RoundState) (event : Event) (store : Store)
    → ((record_passed state event store).versions ≡ store.versions)
      × ((record_passed state event store).rounds ≡ store.rounds)
      × ((record_passed state event store).tasks ≡ store.tasks)
      × ((record_passed state event store).assignments ≡ store.assignments)
      × ((record_passed state event store).operations ≡ store.operations)
record_passed-tables in_progress event store = (refl, refl, refl, refl, refl)
record_passed-tables awaiting_review event store = (refl, refl, refl, refl, refl)
record_passed-tables passed event store = (refl, refl, refl, refl, refl)
record_passed-tables adjudicated event store = (refl, refl, refl, refl, refl)
record_passed-tables cancelled event store = (refl, refl, refl, refl, refl)
record_passed-tables invalidated event store = (refl, refl, refl, refl, refl)

module _ (fence : SessionFence) (policy : SessionPolicy) (now : ℕ) (target_status : TargetStatus)
    (skip_reasons : List SkipReason) (operation_id request_hash : ℕ) (dirty : List RawSegment)
    (snapshot : SubmitSnapshot) (comparison : ComparisonResult) (inputs : Inputs)
    (store : Store) where
  -- What the transaction leaves in the tables.
  pub record Left (response : Response) (after : Store) : Type 0 where
    pub rows : List Segment
    pub applied : apply_dirty_segments dirty inputs.working.segments ≡ ok rows
    pub frozen : Version
    pub is_frozen :
        IsFrozen fence.user_id target_status (record inputs.working { segments = rows }) frozen
    pub running : inputs.round.state ≡ in_progress
    pub replied :
        response
        ≡ submitted snapshot.task_id target_status skip_reasons snapshot.round_id
            (verdict_state comparison)
    pub versions_left : after.versions ≡ put store.versions snapshot.version_id (some frozen)
    pub rounds_left :
        after.rounds
        ≡ put store.rounds snapshot.round_id
            (some (submitted_round snapshot comparison inputs.round))
    pub tasks_left : after.tasks ≡ store.tasks
    pub assignments_left : after.assignments ≡ put store.assignments fence.user_id none

  write-tables :
      (digest : Payload → ℕ) (state : RoundState) (frozen : Version) (round : Round)
      → let out =
          write_submission digest fence policy now target_status skip_reasons operation_id
            request_hash snapshot inputs state frozen round store in
        (out.0 ≡ submitted snapshot.task_id target_status skip_reasons snapshot.round_id state)
        × (out.1.versions ≡ put store.versions snapshot.version_id (some frozen))
        × (out.1.rounds ≡ put store.rounds snapshot.round_id (some round))
        × (out.1.tasks ≡ store.tasks)
        × (out.1.assignments ≡ put store.assignments fence.user_id none)
  unfolding write_submission delete_assignment store_operation touch
  write-tables digest state frozen round =
      let (v, r, t, a, o) = record_passed-tables state _ _ in
      (refl, v, r, t, ap (λ rows. put rows fence.user_id none) a)

  pub freeze_submission-Left :
      (digest : Payload → ℕ) {response : Response} {after : Store}
      → freeze_submission digest fence policy now target_status skip_reasons operation_id
          request_hash dirty snapshot comparison inputs store
        ≡ ok (response, after)
      → Left response after
  unfolding freeze_submission
  freeze_submission-Left digest {response} {after} e =
      let (rows, applied, e1) =
        bind-ok (passing segment (apply_dirty_segments dirty inputs.working.segments)) e in
      let (valid, in_order, e2) =
        bind-ok (passing segment (validate_version_segments rows inputs.task.duration)) e1 in
      let edited : Version = record inputs.working { segments = rows } in
      let (credited, snapped, e3) =
        bind-ok
          (snapshot_annotation_duration fence.user_id cross_check target_status rows edited store)
          e2 in
      let (frozen, froze, e4) =
        bind-ok
          (or_raise (freeze_cross_check_version fence.user_id target_status skip_reasons credited)
            not_editable)
          e3 in
      let (round, stored, e5) =
        bind-ok
          (or_raise
            (store_round_submission (verdict_state comparison) comparison snapshot.original_revision
              snapshot.secondary_revision inputs.round)
            round_closed)
          e4 in
      let keeps =
        snapshot-keeps fence.user_id cross_check target_status rows edited store snapped in
      let is_frozen =
        freeze-IsFrozen fence.user_id target_status skip_reasons credited
          (or_raise-ok _ not_editable froze) in
      let (running, same_round) =
        store_round-some snapshot comparison inputs.round (or_raise-ok _ round_closed stored) in
      let (replied, v, r, t, a) = write-tables digest (verdict_state comparison) frozen round in
      let out = sym (out_eq e5) in
      record {
        rows = rows;
        applied = passing-ok segment (apply_dirty_segments dirty inputs.working.segments) applied;
        frozen = frozen;
        is_frozen = record {
          submitted_state = is_frozen.submitted_state;
          same_segments = is_frozen.same_segments ∙ keeps.0;
          same_task = is_frozen.same_task ∙ keeps.1;
          next_revision = is_frozen.next_revision ∙ ap (λ n. n + 1) keeps.2;
          author = is_frozen.author;
          status = is_frozen.status;
        };
        running = running;
        replied = ap (λ o. o.0) out ∙ replied;
        versions_left = ap (λ o. o.1.versions) out ∙ v;
        rounds_left =
            ap (λ o. o.1.rounds) out
            ∙ r
            ∙ ap (λ row. put store.rounds snapshot.round_id (some row)) same_round;
        tasks_left = ap (λ o. o.1.tasks) out ∙ t;
        assignments_left = ap (λ o. o.1.assignments) out ∙ a;
      }
