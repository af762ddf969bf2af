-- ===== src/CrossCheck/Adjudicate.antt =====
-- `_decide_locked` after its guards, and `decide_cross_check`.
pub mod Decided
pub mod Published
use egyptian_arabic_annotati.Base.{
  ℕ, Bool, true, false, not, ◌&&◌, Option, none, some, List, [], ◌∷◌, ◌++◌, map, any, ◌==◌,
  if◌then◌else◌, Result, ok, err, ◌>>=◌, ◌>>◌, raise_if, or_raise,
}
use egyptian_arabic_annotati.Sessions.State.{RawUuid, validate_uuid, Annotator, find_id}
use egyptian_arabic_annotati.Segments.{
  Segment, RawSegment, parse_id, apply_dirty_segments, validate_version_segments,
}
use egyptian_arabic_annotati.Drafts.State.{
  Fault, session, segment, no_skip_reason, task_gone, round_not_found, annotator_gone,
  not_awaiting_review, cross_check_active, open_draft, stale_revision, version_changed, not_frozen,
  not_publishable, edit_ids_differ, passing, annotation, TargetStatus, SkipReason, Version, Task,
  TaskStatus, Round, RoundState, awaiting_review, adjudicated, Decision, original, secondary,
  edited, Store, put, adjudicated_event,
}
use egyptian_arabic_annotati.Drafts.Abandon.{record_event}
use egyptian_arabic_annotati.Drafts.Complete.{
  checked_reasons, require_texts, snapshot_annotation_duration,
}
use egyptian_arabic_annotati.CrossCheck.Admin.{
  World, Summary, round_summary, AdminAction, replay, begun, cross_check_decision,
  begin_admin_action, finish_admin_action, insert_admin_action_item, is_none,
}
use egyptian_arabic_annotati.CrossCheck.Rounds.{
  mark_round_adjudicated, supersede_published_version, publish_secondary_version,
  adjudication_draft, publish_adjudication_version, set_task_published, find_draft, find_assignee,
}
use egyptian_arabic_annotati.CrossCheck.Submit.{names}
use egyptian_arabic_annotati.CrossCheck.Decide.{
  DecisionCommand, Checked, Outcome, check_decision, apply_choice, version_ids_after,
}

-- What the transaction writes after the choice.
unfoldable pub write_decision :
    (round_id : ℕ)
    → DecisionCommand
    → AdminAction
    → Checked
    → Outcome
    → Round
    → (version_ids : List ℕ) → World
    → Summary × World
unfolding put finish_admin_action
write_decision round_id command action checked outcome round version_ids world =
    let store = outcome.store in
    let summary =
      round_summary round_id adjudicated (some outcome.final_version_id) outcome.final_status in
    let written : Store = record store { rounds = put store.rounds round_id (some round) } in
    let recorded =
      record_event
        (record {
          operation_id = none;
          user_id = none;
          admin_action_id = some action.id;
          task_id = checked.round.task_id;
          version_id = outcome.final_version_id;
          kind = adjudicated_event;
          from_status = checked.task.status;
        })
        written in
    let listed =
      insert_admin_action_item
        (record {
          admin_action_id = action.id;
          task_id = checked.round.task_id;
          annotator_id = checked.round.secondary_annotator_id;
          expected_version_id = some checked.round.secondary_version_id;
          before_version_id = some checked.round.original_version_id;
          after_version_id = some outcome.final_version_id;
          result = adjudicated;
        })
        (record world { store = recorded; version_ids = version_ids }) in
    (summary, finish_admin_action action summary listed)

module _ (draft_id : ℕ) where
  -- `_decide_locked`
  unfoldable pub decide_locked :
      (round_id : ℕ) → DecisionCommand → AdminAction → World → Result Fault (Summary × World)
  unfolding check_decision apply_choice mark_round_adjudicated version_ids_after write_decision
  decide_locked round_id command action world = do
    checked ← check_decision round_id command world
    outcome ← apply_choice action.id draft_id command.choice checked world.store
    round ←
        or_raise
          (mark_round_adjudicated command.expected_revision outcome.decision action.id
            checked.round)
          not_awaiting_review
    ok (
        write_decision round_id command action checked outcome round
          (version_ids_after action.id draft_id command.choice world.version_ids) world)

  unfoldable pub decide_cross_check :
      (action_id now : ℕ)
      → (admin_session_id round_id : RawUuid) → (request_hash : ℕ) → DecisionCommand
      → World
      → Result Fault (Summary × World)
  unfolding passing validate_uuid begin_admin_action decide_locked
  decide_cross_check action_id now admin_session_id round_id request_hash command world = do
    rid ← passing session (validate_uuid round_id)
    action ←
        begin_admin_action action_id now admin_session_id command.operation_id cross_check_decision
          command.reason request_hash world
    elim action [
      | replay prior_id summary ↦ ok (summary, world)
      | begun row ↦ decide_locked rid command row world
    ]
