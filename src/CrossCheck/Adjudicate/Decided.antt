-- ===== src/CrossCheck/Adjudicate/Decided.antt =====
-- What a decision that was taken found and wrote.
use egyptian_arabic_annotati.Base.{
  ℕ, ◌+◌, ◌≡◌, inl, inr, refl, sym, ap, ◌∙◌, Option, some, List, arith, ok, or_raise, bind-ok,
  or_raise-ok,
}
use egyptian_arabic_annotati.Drafts.State.{
  not_awaiting_review, TargetStatus, Version, Round, adjudicated, Decision, Store, put,
}
use egyptian_arabic_annotati.CrossCheck.Admin.{
  World, Summary, round_summary, AdminAction, finish_admin_action,
}
use egyptian_arabic_annotati.CrossCheck.Rounds.{mark_round_adjudicated}
use egyptian_arabic_annotati.CrossCheck.Decide.{
  DecisionCommand, Choice, Checked, Outcome, check_decision, apply_choice, version_ids_after,
  replace_published,
}
use egyptian_arabic_annotati.CrossCheck.Decide.Guards.{Found, check_decision-Found}
use egyptian_arabic_annotati.CrossCheck.Decide.Chosen.{Chosen, apply_choice-Chosen}
use egyptian_arabic_annotati.CrossCheck.Adjudicate.{write_decision, decide_locked}
use egyptian_arabic_annotati.CrossCheck.Lifecycle.Open.{out_eq}

-- The round with a decision's columns.
abbrev pub decided_round : Decision → (action_id : ℕ) → Round → Round
decided_round decision action_id round = record round {
  revision = round.revision + 1;
  state = adjudicated;
  decision = some decision;
  decided_by_admin_action_id = some action_id;
}

mark_round-some :
    (expected_revision : ℕ) (decision : Decision) (action_id : ℕ) (round : Round) {round' : Round}
    → mark_round_adjudicated expected_revision decision action_id round ≡ some round'
    → round' ≡ decided_round decision action_id round
unfolding mark_round_adjudicated
mark_round-some expected_revision decision action_id round e = ground arith

replace_published-rounds :
    (checked : Checked) (old : Version) (final_id : ℕ) (final : Version)
    (status : Option TargetStatus) (store : Store)
    → ((replace_published checked old final_id final status store).rounds ≡ store.rounds)
      × ((replace_published checked old final_id final status store).assignments
          ≡ store.assignments)
unfolding replace_published
replace_published-rounds checked old final_id final status store = (refl, refl)

Chosen-rounds :
    (draft_id : ℕ) (choice : Choice) (checked : Checked) (store : Store) (outcome : Outcome)
    → Chosen draft_id choice checked store outcome
    → (outcome.store.rounds ≡ store.rounds) × (outcome.store.assignments ≡ store.assignments)
Chosen-rounds draft_id choice checked store outcome chosen = elim chosen.left [
  | inl (keeps, same) ↦ (ap (λ s. s.rounds) same, ap (λ s. s.assignments) same)
  | inr r ↦
      let (rounds, assignments) =
        replace_published-rounds checked _ outcome.final_version_id r.final outcome.final_status
          store in
      (ap (λ s. s.rounds) r.replaced ∙ rounds, ap (λ s. s.assignments) r.replaced ∙ assignments)
]

module _ (draft_id round_id : ℕ) (command : DecisionCommand) (action : AdminAction)
    (world : World) where
  -- The rows that the decision finds, the choice, and the tables after it.
  pub record Decided (summary : Summary) (after : World) : Type 0 where
    pub checked : Checked
    pub found : Found round_id command world checked
    pub outcome : Outcome
    pub chosen : Chosen draft_id command.choice checked world.store outcome
    pub summarized :
        summary
        ≡ round_summary round_id adjudicated (some outcome.final_version_id) outcome.final_status
    pub versions_left : after.store.versions ≡ outcome.store.versions
    pub tasks_left : after.store.tasks ≡ outcome.store.tasks
    pub assignments_left : after.store.assignments ≡ world.store.assignments
    pub round_ids_left : after.round_ids ≡ world.round_ids
    pub rounds_left :
        after.store.rounds
        ≡ put world.store.rounds round_id
            (some (decided_round outcome.decision action.id checked.round))

  write_decision-tables :
      (checked : Checked) (outcome : Outcome) (round : Round) (ids : List ℕ)
      → let out = write_decision round_id command action checked outcome round ids world in
        (out.0
          ≡ round_summary round_id adjudicated (some outcome.final_version_id) outcome.final_status)
        × (out.1.store.versions ≡ outcome.store.versions)
        × (out.1.store.tasks ≡ outcome.store.tasks)
        × (out.1.store.assignments ≡ outcome.store.assignments)
        × (out.1.store.rounds ≡ put outcome.store.rounds round_id (some round))
        × (out.1.round_ids ≡ world.round_ids)
  unfolding write_decision finish_admin_action
  write_decision-tables checked outcome round ids = (refl, refl, refl, refl, refl, refl)

  pub decide_locked-Decided :
      {summary : Summary} {after : World}
      → decide_locked draft_id round_id command action world ≡ ok (summary, after)
      → Decided summary after
  unfolding decide_locked
  decide_locked-Decided e =
      let (checked, found, e1) = bind-ok (check_decision round_id command world) e in
      let (outcome, choice, e2) =
        bind-ok (apply_choice action.id draft_id command.choice checked world.store) e1 in
      let (round, marked, e3) =
        bind-ok
          (or_raise
            (mark_round_adjudicated command.expected_revision outcome.decision action.id
              checked.round)
            not_awaiting_review)
          e2 in
      let chosen =
        apply_choice-Chosen action.id draft_id checked world.store command.choice choice in
      let (rounds, assignments) =
        Chosen-rounds draft_id command.choice checked world.store outcome chosen in
      let same_round =
        mark_round-some command.expected_revision outcome.decision action.id checked.round
          (or_raise-ok _ not_awaiting_review marked) in
      let (s, v, t, a, r, i) =
        write_decision-tables checked outcome round
          (version_ids_after action.id draft_id command.choice world.version_ids) in
      let out = sym (out_eq e3) in
      record {
        checked = checked;
        found = check_decision-Found round_id command world found;
        outcome = outcome;
        chosen = chosen;
        summarized = ap (λ o. o.0) out ∙ s;
        versions_left = ap (λ o. o.1.store.versions) out ∙ v;
        tasks_left = ap (λ o. o.1.store.tasks) out ∙ t;
        assignments_left = ap (λ o. o.1.store.assignments) out ∙ a ∙ assignments;
        round_ids_left = ap (λ o. o.1.round_ids) out ∙ i;
        rounds_left =
            ap (λ o. o.1.store.rounds) out
            ∙ r
            ∙ ap (λ rows. put rows round_id (some round)) rounds
            ∙ ap (λ row. put world.store.rounds round_id (some row)) same_round;
      }
