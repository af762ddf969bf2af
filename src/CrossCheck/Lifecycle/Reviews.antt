-- ===== src/CrossCheck/Lifecycle/Reviews.antt =====
-- What the submissions, the administration and the claims do to the rounds.
use egyptian_arabic_annotati.Base.{
  ℕ, ◌≡◌, ◌⊎◌, inl, inr, refl, sym, ap, subst, Bool-cases, Option, some, List, Result, ok, bind-ok,
}
use egyptian_arabic_annotati.Sessions.State.{
  SessionPolicy, SessionFence, RawUuid, validate_uuid, lock_active_annotator,
}
use egyptian_arabic_annotati.Sessions.Fence.{require_session_fence}
use egyptian_arabic_annotati.Comparison.Compare.{ComparisonResult}
use egyptian_arabic_annotati.Segments.{RawSegment}
use egyptian_arabic_annotati.Drafts.State.{
  Fault, session, passing, TargetStatus, SkipReason, complete_route, Round, in_progress,
  awaiting_review, adjudicated, Decision, Store, put, Response, replayed, operation_replay,
}
use egyptian_arabic_annotati.CrossCheck.Admin.{
  World, Summary, Action, replay, begun, AdminAction, cross_check_decision, begin_admin_action,
}
use egyptian_arabic_annotati.CrossCheck.Inputs.{Payload, SubmitSnapshot}
use egyptian_arabic_annotati.CrossCheck.Submit.{verdict_state, lock_inputs}
use egyptian_arabic_annotati.CrossCheck.Commit.{commit_cross_check_submit}
use egyptian_arabic_annotati.CrossCheck.Commit.Found.{lock_inputs-Found}
use egyptian_arabic_annotati.CrossCheck.Commit.Left.{submitted_round, freeze_submission-Left}
use egyptian_arabic_annotati.CrossCheck.Decide.{DecisionCommand}
use egyptian_arabic_annotati.CrossCheck.Adjudicate.{decide_locked, decide_cross_check}
use egyptian_arabic_annotati.CrossCheck.Adjudicate.Decided.{decided_round, decide_locked-Decided}
use egyptian_arabic_annotati.CrossCheck.Lifecycle.{
  ◌⟶◌, pass, queue, adjudicate, Advances, RoundMove, advanced, Follows, put-Follows,
}
use egyptian_arabic_annotati.CrossCheck.Lifecycle.Open.{out_eq}
use egyptian_arabic_annotati.CrossCheck.Lifecycle.Work.{replay-or-new, unchanged-Follows}

-- A row that is changed in place.
pub changed-Follows :
    (store after : Store) (round_id : ℕ) (row row' : Round)
    → store.rounds round_id ≡ some row
    → Advances row row'
    → after.rounds ≡ put store.rounds round_id (some row')
    → Follows store after
changed-Follows store after round_id row row' there advances written =
    put-Follows store after round_id (some row')
      (subst (λ r. RoundMove r (some row')) (sym there) (advanced advances)) written

verdict_move : (comparison : ComparisonResult) → in_progress ⟶ verdict_state comparison
verdict_move comparison = elim (Bool-cases comparison.needs_review) [
  | inl review ↦ rw (review) queue
  | inr clear ↦ rw (clear) pass
]

submitted-Advances :
    (snapshot : SubmitSnapshot) (comparison : ComparisonResult) (round : Round)
    → round.state ≡ in_progress
    → Advances round (submitted_round snapshot comparison round)
submitted-Advances snapshot comparison round running = record {
  moved = subst (λ s. s ⟶ verdict_state comparison) (sym running) (verdict_move comparison);
  counted = refl;
  same_task = refl;
  same_original = refl;
  same_secondary = refl;
  same_annotator = refl;
  same_threshold = refl;
}

decided-Advances :
    (decision : Decision) (action_id : ℕ) (round : Round)
    → round.state ≡ awaiting_review
    → Advances round (decided_round decision action_id round)
decided-Advances decision action_id round waiting = record {
  moved = subst (λ s. s ⟶ adjudicated) (sym waiting) adjudicate;
  counted = refl;
  same_task = refl;
  same_original = refl;
  same_secondary = refl;
  same_annotator = refl;
  same_threshold = refl;
}

pub commit-Follows :
    (digest : Payload → ℕ) (fence : SessionFence) (policy : SessionPolicy) (now : ℕ)
    (target_status : TargetStatus) (skip_reasons : List SkipReason) (operation_id request_hash : ℕ)
    (lease_token : Option ℕ) (expected_revision : ℕ) (dirty : List RawSegment)
    (snapshot : SubmitSnapshot) (comparison : ComparisonResult) (store : Store)
    {response : Response} {after : Store}
    → commit_cross_check_submit digest fence policy now target_status skip_reasons operation_id
        request_hash lease_token expected_revision dirty snapshot comparison store
      ≡ ok (response, after)
    → Follows store after
unfolding commit_cross_check_submit
commit-Follows digest fence policy now target_status skip_reasons operation_id request_hash
      lease_token expected_revision dirty snapshot comparison store {response} {after} e =
    let (user, locked, e1) =
      bind-ok (passing session (lock_active_annotator fence.user_id store.accounts)) e in
    let (opened, fenced, e2) =
      bind-ok (passing session (require_session_fence fence now store.accounts)) e1 in
    let (prior, replayed_as, e3) =
      bind-ok (operation_replay operation_id fence.user_id complete_route request_hash store) e2 in
    elim (replay-or-new replayed prior _ store e3) [
      | inl same ↦ unchanged-Follows store after same
      | inr new ↦
          let (inputs, held, e4) =
            bind-ok
              (lock_inputs digest fence now lease_token expected_revision dirty snapshot store)
              new in
          let found =
            lock_inputs-Found digest fence now lease_token expected_revision dirty snapshot store
              held in
          let left =
            freeze_submission-Left fence policy now target_status skip_reasons operation_id
              request_hash dirty snapshot comparison inputs store digest e4 in
          changed-Follows store after snapshot.round_id inputs.round
            (submitted_round snapshot comparison inputs.round) found.round_row
            (submitted-Advances snapshot comparison inputs.round found.running) left.rounds_left
    ]

-- An action of the administration is answered from its summary, or is new.
pub begun-or-replayed :
    (action : Action) (world : World) (run : AdminAction → Result Fault (Summary × World))
    {out : Summary} {after : World}
    → ◌≡◌ {A = Result Fault (Summary × World)}
        (elim action [ replay prior_id stored ↦ ok (stored, world) | begun row ↦ run row ])
        (ok (out, after))
    → (after ≡ world) ⊎ ((row : AdminAction) × (run row ≡ ok (out, after)))
begun-or-replayed (replay prior_id stored) world run e = inl (ap (λ o. o.1) (sym (out_eq e)))
begun-or-replayed (begun row) world run e = inr (row, e)

decide_locked-Follows :
    (draft_id round_id : ℕ) (command : DecisionCommand) (action : AdminAction) (world : World)
    {out : Summary} {after : World}
    → decide_locked draft_id round_id command action world ≡ ok (out, after)
    → Follows world.store after.store
decide_locked-Follows draft_id round_id command action world {out} {after} e =
    let d = decide_locked-Decided draft_id round_id command action world e in
    changed-Follows world.store after.store round_id d.checked.round
      (decided_round d.outcome.decision action.id d.checked.round) d.found.round_row
      (decided-Advances d.outcome.decision action.id d.checked.round d.found.waiting) d.rounds_left

pub decide-Follows :
    (draft_id action_id now : ℕ) (admin_session_id round_id : RawUuid) (request_hash : ℕ)
    (command : DecisionCommand) (world : World) {out : Summary} {after : World}
    → decide_cross_check draft_id action_id now admin_session_id round_id request_hash command world
      ≡ ok (out, after)
    → Follows world.store after.store
unfolding decide_cross_check
decide-Follows draft_id action_id now admin_session_id round_id request_hash command world {out}
      {after} e =
    let (rid, valid, e1) = bind-ok (passing session (validate_uuid round_id)) e in
    let (action, started, e2) =
      bind-ok
        (begin_admin_action action_id now admin_session_id command.operation_id cross_check_decision
          command.reason request_hash world)
        e1 in
    elim (begun-or-replayed action world (λ row. decide_locked draft_id rid command row world) e2) [
      | inl same ↦ unchanged-Follows world.store after.store (ap (λ w. w.store) same)
      | inr (row, new) ↦ decide_locked-Follows draft_id rid command row world new
    ]
