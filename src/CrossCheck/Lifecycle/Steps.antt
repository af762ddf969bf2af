-- ===== src/CrossCheck/Lifecycle/Steps.antt =====
-- A step changes rounds that are there, or a claim adds one.
use egyptian_arabic_annotati.Base.{
  ℕ, ◌≡◌, ◌⊎◌, inl, inr, refl, sym, ap, none, some, [], ◌∷◌, ◌++◌, ok, bind-ok,
}
use egyptian_arabic_annotati.Sessions.State.{RawUuid, validate_uuid}
use egyptian_arabic_annotati.Drafts.State.{session, passing, Round, in_progress, put}
use egyptian_arabic_annotati.Drafts.Abandon.{cancel_in_progress_cross_check}
use egyptian_arabic_annotati.CrossCheck.Admin.{
  World, Summary, cross_check_decision, cancel_cross_check_action, begin_admin_action,
}
use egyptian_arabic_annotati.CrossCheck.Cancel.{
  CancelCommand, find_open_round, check_cancel, write_cancel, cancel_locked, cancel_cross_check,
}
use egyptian_arabic_annotati.CrossCheck.Decide.{DecisionCommand}
use egyptian_arabic_annotati.CrossCheck.Adjudicate.{decide_locked, decide_cross_check}
use egyptian_arabic_annotati.CrossCheck.Adjudicate.Decided.{decide_locked-Decided}
use egyptian_arabic_annotati.CrossCheck.Draw.{new_round}
use egyptian_arabic_annotati.CrossCheck.Draw.Claimed.{candidate-cases}
use egyptian_arabic_annotati.CrossCheck.Draw.Independent.{is_free-IsFree, try_claim-Created}
use egyptian_arabic_annotati.CrossCheck.Lifecycle.{Follows}
use egyptian_arabic_annotati.CrossCheck.Lifecycle.Open.{out_eq}
use egyptian_arabic_annotati.CrossCheck.Lifecycle.Work.{
  save_draft-Follows, complete-Follows, abandon-Follows,
}
use egyptian_arabic_annotati.CrossCheck.Lifecycle.Reviews.{
  begun-or-replayed, commit-Follows, decide-Follows,
}
use egyptian_arabic_annotati.CrossCheck.Lifecycle.Endings.{
  cancel_cross_check-Follows, invalidate-Follows,
}
use egyptian_arabic_annotati.CrossCheck.Lifecycle.Reach.{
  Step, saving, abandoning, completing, submitting, deciding, cancelling, invalidating, claiming,
}

-- What a claim adds.
pub record Claims (w v : World) : Type 0 where
  pub round_id : ℕ
  pub round : Round
  pub new_id : w.store.rounds round_id ≡ none
  pub is_open : round.state ≡ in_progress
  pub none_open : find_open_round round.task_id w.round_ids w.store ≡ none
  pub rounds_left : v.store.rounds ≡ put w.store.rounds round_id (some round)
  pub round_ids_left : v.round_ids ≡ w.round_ids ++ (round_id ∷ [])

decide-round_ids :
    (draft_id action_id now : ℕ) (admin_session_id round_id : RawUuid) (request_hash : ℕ)
    (command : DecisionCommand) (world : World) {out : Summary} {after : World}
    → decide_cross_check draft_id action_id now admin_session_id round_id request_hash command world
      ≡ ok (out, after)
    → after.round_ids ≡ world.round_ids
unfolding decide_cross_check
decide-round_ids draft_id action_id now admin_session_id round_id request_hash command world e =
    let (rid, valid, e1) = bind-ok (passing session (validate_uuid round_id)) e in
    let (action, started, e2) =
      bind-ok
        (begin_admin_action action_id now admin_session_id command.operation_id cross_check_decision
          command.reason request_hash world)
        e1 in
    elim (begun-or-replayed action world (λ row. decide_locked draft_id rid command row world) e2) [
      | inl same ↦ ap (λ w. w.round_ids) same
      | inr (row, new) ↦ (decide_locked-Decided draft_id rid command row world new).round_ids_left
    ]

cancel-round_ids :
    (action_id now : ℕ) (admin_session_id round_id : RawUuid) (request_hash : ℕ)
    (command : CancelCommand) (world : World) {out : Summary} {after : World}
    → cancel_cross_check action_id now admin_session_id round_id request_hash command world
      ≡ ok (out, after)
    → after.round_ids ≡ world.round_ids
unfolding cancel_cross_check cancel_locked write_cancel
cancel-round_ids action_id now admin_session_id round_id request_hash command world e =
    let (rid, valid, e1) = bind-ok (passing session (validate_uuid round_id)) e in
    let (action, started, e2) =
      bind-ok
        (begin_admin_action action_id now admin_session_id command.operation_id
          cancel_cross_check_action command.reason request_hash world)
        e1 in
    elim (begun-or-replayed action world (λ row. cancel_locked rid command row world) e2) [
      | inl same ↦ ap (λ w. w.round_ids) same
      | inr (row, new) ↦
          let ((round, task), checked, e3) = bind-ok (check_cancel rid command world) new in
          let (ended, run, e4) =
            bind-ok
              (cancel_in_progress_cross_check (some rid) round.task_id round.secondary_version_id
                world.store)
              e3 in
          ap (λ o. o.1.round_ids) (sym (out_eq e4))
    ]

pub Step-cases :
    {w v : World} → Step w v → (Follows w.store v.store × (v.round_ids ≡ w.round_ids)) ⊎ Claims w v
unfolding new_round
Step-cases {w} (saving fence policy now lease expected dirty op hash e) =
    inl (save_draft-Follows fence policy now w.store lease expected dirty op hash e, refl)
Step-cases {w} (abandoning hash fence policy now lease op confirm e) =
    inl (abandon-Follows fence policy now w.store hash lease op confirm e, refl)
Step-cases {w} (completing fence policy now lease expected target reasons dirty op hash e) =
    inl (
      complete-Follows fence policy now w.store lease expected target reasons dirty op hash e,
      refl,
    )
Step-cases {w}
      (submitting digest fence policy now target reasons op hash lease expected dirty snapshot
        result e) =
    inl (
      commit-Follows digest fence policy now target reasons op hash lease expected dirty snapshot
          result w.store e,
      refl,
    )
Step-cases {w} (deciding draft action now admin rid hash command e) = inl (
  decide-Follows draft action now admin rid hash command w e,
  decide-round_ids draft action now admin rid hash command w e,
)
Step-cases {w} (cancelling action now admin rid hash command e) = inl (
  cancel_cross_check-Follows action now admin rid hash command w e,
  cancel-round_ids action now admin rid hash command w e,
)
Step-cases {w} (invalidating task action status) =
    inl (invalidate-Follows task action status w.round_ids w.store, refl)
Step-cases {w}
      (claiming whitelist matches has_best now user can_claim settings tries {task_id} {fresh} e
        new) =
    let (allowed, found, is_candidate, created) =
      try_claim-Created whitelist matches has_best now user w can_claim settings tries e in
    let (task, is_joined, other, free) = candidate-cases matches now user w task_id is_candidate in
    let is_free =
      is_free-IsFree whitelist matches has_best now user w found.task_id found.original_version_id
        free in
    inr (record {
      round_id = fresh.round_id;
      round = new_round whitelist matches has_best now user fresh.draft_id found;
      new_id = new;
      is_open = refl;
      none_open = is_free.no_open_round;
      rounds_left = created.rounds_left;
      round_ids_left = created.round_ids_left;
    })
