-- ===== src/CrossCheck/Decide.antt =====
-- `decide_cross_check`, for a command that brings no scene review. `action_id` and `draft_id` stand
-- for the UUIDs that the transaction makes.
pub mod Guards
pub mod Chosen
use egyptian_arabic_annotati.Base.{
  ℕ, Bool, true, false, not, ◌&&◌, Option, none, some, List, [], ◌∷◌, ◌++◌, map, any, ◌==◌,
  if◌then◌else◌, Result, ok, err, ◌>>=◌, ◌>>◌, raise_if, or_raise,
}
use egyptian_arabic_annotati.Sessions.State.{RawUuid, validate_uuid, Annotator, find_id}
use egyptian_arabic_annotati.Segments.{
  Segment, RawSegment, parse_id, apply_dirty_segments, validate_version_segments,
}
use egyptian_arabic_annotati.Drafts.State.{
  Fault, session, segment, no_skip_reason, task_gone, round_not_found, annotator_gone,
  not_awaiting_review, cross_check_active, open_draft, stale_revision, version_changed, not_frozen,
  not_publishable, edit_ids_differ, passing, annotation, TargetStatus, SkipReason, Version, Task,
  TaskStatus, Round, RoundState, awaiting_review, adjudicated, Decision, original, secondary,
  edited, Store, put, adjudicated_event,
}
use egyptian_arabic_annotati.Drafts.Abandon.{record_event}
use egyptian_arabic_annotati.Drafts.Complete.{
  checked_reasons, require_texts, snapshot_annotation_duration,
}
use egyptian_arabic_annotati.CrossCheck.Admin.{
  World, Summary, round_summary, AdminAction, replay, begun, cross_check_decision,
  begin_admin_action, finish_admin_action, insert_admin_action_item, is_none,
}
use egyptian_arabic_annotati.CrossCheck.Rounds.{
  mark_round_adjudicated, supersede_published_version, publish_secondary_version,
  adjudication_draft, publish_adjudication_version, set_task_published, find_draft, find_assignee,
}
use egyptian_arabic_annotati.CrossCheck.Submit.{names}

pub data EditBase : Type 0 where
  original_base secondary_base : EditBase

pub data Choice : Type 0 where
  keep_original publish_secondary : Choice
  publish_edited :
      EditBase → List RawSegment → TargetStatus → (skip_reasons : List SkipReason) → Choice

-- `CrossCheckDecisionCommand`
pub record DecisionCommand : Type 0 where
  pub operation_id : RawUuid
  pub expected_revision : ℕ
  pub expected_original_version_id : RawUuid
  pub expected_secondary_version_id : RawUuid
  pub choice : Choice
  pub reason : ℕ

-- What the guards of `_decide_locked` find.
pub record Checked : Type 0 where
  pub task : Task
  pub round : Round
  pub original : Version
  pub secondary : Version

abbrev pub optional_user : Option ℕ → List ℕ
optional_user none = []
optional_user (some user) = user ∷ []

-- `_lock_users_stable`
unfoldable pub lock_users_stable : List ℕ → List Annotator → Result Fault (Unit {0})
unfolding find_id any
lock_users_stable users annotators =
    raise_if (any (λ user. is_none (find_id user annotators)) users) annotator_gone

-- The people whose rows the decision and the cancellation lock.
abbrev pub people_of : Round → Option ℕ → List ℕ
people_of round assignee =
    optional_user round.original_annotator_id
    ++ (round.secondary_annotator_id ∷ optional_user assignee)

unfoldable pub is_awaiting : Round → Bool
is_awaiting round = elim round.state [ awaiting_review ↦ true | _ ↦ false ]

unfoldable pub check_decision : (round_id : ℕ) → DecisionCommand → World → Result Fault Checked
unfolding is_awaiting find_assignee lock_users_stable passing validate_uuid find_draft
check_decision round_id command world = do
  let store = world.store
  round ← or_raise (store.rounds round_id) round_not_found
  raise_if (not (is_awaiting round)) not_awaiting_review
  let assignee = find_assignee round.task_id store.accounts.annotators store
  locked ← lock_users_stable (people_of round assignee) store.accounts.annotators
  raise_if (not (is_none assignee)) cross_check_active
  task ← or_raise (store.tasks round.task_id) task_gone
  raise_if (not (round.revision == command.expected_revision)) stale_revision
  expected_original ← passing session (validate_uuid command.expected_original_version_id)
  expected_secondary ← passing session (validate_uuid command.expected_secondary_version_id)
  raise_if
      (not (
        round.original_version_id == expected_original
        && round.secondary_version_id == expected_secondary))
      version_changed
  raise_if (not (names task.current_published_version_id round.original_version_id)) version_changed
  raise_if (not (is_none (find_draft round.task_id world.version_ids store))) open_draft
  first ← or_raise (store.versions round.original_version_id) version_changed
  second ← or_raise (store.versions round.secondary_version_id) version_changed
  ok (record { task = task; round = round; original = first; secondary = second })

-- `{int(seg["id"]) for seg in command.segments}`
unfoldable pub payload_ids : List RawSegment → Result Fault (List ℕ)
unfolding passing parse_id
payload_ids [] = ok []
payload_ids (seg ∷ segments) = do
  sid ← passing segment (parse_id seg.id)
  rest ← payload_ids segments
  ok (sid ∷ rest)

abbrev pub within : List ℕ → List ℕ → Bool
within ids others = not (any (λ id. not (any (λ other. other == id) others)) ids)

-- What a choice leaves: the final version and the store.
pub record Outcome : Type 0 where
  pub decision : Decision
  pub final_version_id : ℕ
  pub final_status : Option TargetStatus
  pub store : Store

abbrev pub set_version : ℕ → Version → Store → Store
set_version version_id version store = record store {
  versions = put store.versions version_id (some version);
}

abbrev pub set_task : ℕ → Task → Store → Store
set_task task_id task store = record store { tasks = put store.tasks task_id (some task) }

-- The final version takes the place of the original: three rows.
unfoldable pub replace_published :
    Checked
    → (superseded_version : Version) → (final_id : ℕ) → (final : Version) → (Option TargetStatus)
    → Store
    → Store
unfolding put set_task_published
replace_published checked superseded_version final_id final status store =
    set_task checked.round.task_id (set_task_published final_id status checked.task) (
      set_version final_id final
        (set_version checked.round.original_version_id superseded_version store))

module _ (action_id draft_id : ℕ) where
  -- The branch of the secondary version.
  unfoldable pub choose_secondary : Checked → Store → Result Fault Outcome
  unfolding supersede_published_version publish_secondary_version replace_published
  choose_secondary checked store = do
    let round = checked.round
    old ← or_raise (supersede_published_version round.task_id checked.original) version_changed
    final ← or_raise (publish_secondary_version action_id checked.secondary) not_frozen
    ok (record {
      decision = secondary round.secondary_version_id;
      final_version_id = round.secondary_version_id;
      final_status = checked.secondary.target_status;
      store =
          replace_published checked old round.secondary_version_id final
            checked.secondary.target_status store;
    })

  -- The segments of the version that `_publish_edited` publishes, and the reasons.
  unfoldable pub edited_rows :
      (base : Version)
      → List RawSegment
      → TargetStatus
      → (skip_reasons : List SkipReason) → Task
      → Result Fault (List SkipReason × List Segment)
  unfolding checked_reasons payload_ids any passing apply_dirty_segments validate_version_segments
      require_texts
  edited_rows base segments target_status skip_reasons task = do
    reasons ← checked_reasons target_status skip_reasons
    ids ← payload_ids segments
    let base_ids = map (λ row. row.id) base.segments
    raise_if (not (within ids base_ids && within base_ids ids)) edit_ids_differ
    rows ← passing segment (apply_dirty_segments segments base.segments)
    valid ← passing segment (validate_version_segments rows task.duration)
    texted ← require_texts target_status rows
    ok (reasons, rows)

  -- The draft of that version, and the version. No assignment works on the draft, so that no
  -- reviser's duration is kept.
  unfoldable pub edited_version :
      (base_id : ℕ)
      → (base : Version) → TargetStatus
      → List SkipReason
      → List Segment
      → (task_id : ℕ) → Store
      → Result Fault Version
  unfolding adjudication_draft snapshot_annotation_duration publish_adjudication_version
  edited_version base_id base target_status reasons rows task_id store = do
    credited ←
        snapshot_annotation_duration 0 annotation target_status rows
          (record (adjudication_draft task_id base_id base) { segments = rows }) store
    or_raise (publish_adjudication_version target_status reasons action_id credited) not_publishable

  unfoldable pub edited_outcome : Checked → (old final : Version) → TargetStatus → Store → Outcome
  unfolding replace_published
  edited_outcome checked old final target_status store = record {
    decision = edited draft_id;
    final_version_id = draft_id;
    final_status = some target_status;
    store = replace_published checked old draft_id final (some target_status) store;
  }

  -- `_publish_edited` on its base.
  unfoldable pub publish_edited_base :
      (base_id : ℕ)
      → (base : Version) → List RawSegment
      → TargetStatus
      → (skip_reasons : List SkipReason) → Checked
      → Store
      → Result Fault Outcome
  unfolding edited_rows edited_version supersede_published_version edited_outcome
  publish_edited_base base_id base segments target_status skip_reasons checked store = do
    let round = checked.round
    (reasons, rows) ← edited_rows base segments target_status skip_reasons checked.task
    old ← or_raise (supersede_published_version round.task_id checked.original) version_changed
    final ← edited_version base_id base target_status reasons rows round.task_id store
    ok (edited_outcome checked old final target_status store)

  unfoldable pub choose_edited :
      EditBase
      → List RawSegment
      → TargetStatus
      → (skip_reasons : List SkipReason) → Checked
      → Store
      → Result Fault Outcome
  unfolding publish_edited_base
  choose_edited original_base segments target_status skip_reasons checked store =
      publish_edited_base checked.round.original_version_id checked.original segments target_status
        skip_reasons checked store
  choose_edited secondary_base segments target_status skip_reasons checked store =
      publish_edited_base checked.round.secondary_version_id checked.secondary segments
        target_status skip_reasons checked store

  unfoldable pub apply_choice : Choice → Checked → Store → Result Fault Outcome
  unfolding choose_secondary choose_edited
  apply_choice keep_original checked store = ok (record {
    decision = original checked.round.original_version_id;
    final_version_id = checked.round.original_version_id;
    final_status = checked.original.target_status;
    store = store;
  })
  apply_choice publish_secondary checked store = choose_secondary checked store
  apply_choice (publish_edited base segments target_status skip_reasons) checked store =
      choose_edited base segments target_status skip_reasons checked store

  -- The keys of the versions after it.
  unfoldable pub version_ids_after : Choice → List ℕ → List ℕ
  version_ids_after (publish_edited base segments target_status skip_reasons) ids =
      ids ++ (draft_id ∷ [])
  version_ids_after _ ids = ids
