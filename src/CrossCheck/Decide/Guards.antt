-- ===== src/CrossCheck/Decide/Guards.antt =====
-- What the guards of a decision establish.
use egyptian_arabic_annotati.Base.{
  ℕ, ◌≡◌, refl, sym, ap, subst, ◌∙◌, false, not, ◌&&◌, Option, none, some, ◌==◌, arith, ok,
  or_raise, bind-ok, raise_if-ok, or_raise-ok,
}
use egyptian_arabic_annotati.Sessions.State.{validate_uuid}
use egyptian_arabic_annotati.Drafts.State.{
  session, passing, task_gone, round_not_found, not_awaiting_review, cross_check_active, open_draft,
  stale_revision, version_changed, Round, awaiting_review,
}
use egyptian_arabic_annotati.Drafts.Once.{passing-ok}
use egyptian_arabic_annotati.CrossCheck.Admin.{World, is_none}
use egyptian_arabic_annotati.CrossCheck.Rounds.{find_draft, find_assignee}
use egyptian_arabic_annotati.CrossCheck.Submit.{names}
use egyptian_arabic_annotati.CrossCheck.Decide.{
  DecisionCommand, Checked, lock_users_stable, people_of, is_awaiting, check_decision,
}
use egyptian_arabic_annotati.CrossCheck.Lifecycle.Open.{out_eq, same_id}
use egyptian_arabic_annotati.CrossCheck.Commit.Found.{names-some, both_same}

is_awaiting-state :
    (round : Round) → not (is_awaiting round) ≡ false → round.state ≡ awaiting_review
unfolding is_awaiting
is_awaiting-state round e = ground arith

is_none-none : {A : Type 0} (o : Option A) → not (is_none o) ≡ false → o ≡ none
is_none-none none e = refl
is_none-none (some a) e = absurd (cc e)

module _ (round_id : ℕ) (command : DecisionCommand) (world : World) where
  pub record Found (checked : Checked) : Type 0 where
    pub round_row : world.store.rounds round_id ≡ some checked.round
    pub waiting : checked.round.state ≡ awaiting_review
    pub unassigned :
        find_assignee checked.round.task_id world.store.accounts.annotators world.store ≡ none
    pub task_row : world.store.tasks checked.round.task_id ≡ some checked.task
    pub current_revision : checked.round.revision ≡ command.expected_revision
    pub original_named :
        validate_uuid command.expected_original_version_id ≡ ok checked.round.original_version_id
    pub secondary_named :
        validate_uuid command.expected_secondary_version_id ≡ ok checked.round.secondary_version_id
    pub current : checked.task.current_published_version_id ≡ some checked.round.original_version_id
    pub no_draft : find_draft checked.round.task_id world.version_ids world.store ≡ none
    pub original_row :
        world.store.versions checked.round.original_version_id ≡ some checked.original
    pub secondary_row :
        world.store.versions checked.round.secondary_version_id ≡ some checked.secondary

  pub check_decision-Found :
      {checked : Checked} → check_decision round_id command world ≡ ok checked → Found checked
  unfolding check_decision
  check_decision-Found e =
      let store = world.store in
      let (round, row, e1) = bind-ok (or_raise (store.rounds round_id) round_not_found) e in
      let (state, e2) = raise_if-ok (not (is_awaiting round)) not_awaiting_review e1 in
      let assignee = find_assignee round.task_id store.accounts.annotators store in
      let (locked, people, e3) =
        bind-ok (lock_users_stable (people_of round assignee) store.accounts.annotators) e2 in
      let (free, e4) = raise_if-ok (not (is_none assignee)) cross_check_active e3 in
      let (task, task_row, e5) = bind-ok (or_raise (store.tasks round.task_id) task_gone) e4 in
      let (revision_same, e6) =
        raise_if-ok (not (round.revision == command.expected_revision)) stale_revision e5 in
      let (first_id, first_valid, e7) =
        bind-ok (passing session (validate_uuid command.expected_original_version_id)) e6 in
      let (second_id, second_valid, e8) =
        bind-ok (passing session (validate_uuid command.expected_secondary_version_id)) e7 in
      let (ids_same, e9) =
        raise_if-ok
          (not (round.original_version_id == first_id && round.secondary_version_id == second_id))
          version_changed e8 in
      let (named, e10) =
        raise_if-ok (not (names task.current_published_version_id round.original_version_id))
          version_changed e9 in
      let (drafts, e11) =
        raise_if-ok (not (is_none (find_draft round.task_id world.version_ids store))) open_draft
          e10 in
      let (first, first_row, e12) =
        bind-ok (or_raise (store.versions round.original_version_id) version_changed) e11 in
      let (second, second_row, e13) =
        bind-ok (or_raise (store.versions round.secondary_version_id) version_changed) e12 in
      let (o_same, s_same) = both_same _ _ _ _ ids_same in
      subst Found (out_eq e13) (record {
        round_row = or_raise-ok (store.rounds round_id) round_not_found row;
        waiting = is_awaiting-state round state;
        unassigned = is_none-none assignee free;
        task_row = or_raise-ok (store.tasks round.task_id) task_gone task_row;
        current_revision = same_id round.revision command.expected_revision revision_same;
        original_named =
            passing-ok session (validate_uuid command.expected_original_version_id) first_valid
            ∙ ap ok (sym o_same);
        secondary_named =
            passing-ok session (validate_uuid command.expected_secondary_version_id) second_valid
            ∙ ap ok (sym s_same);
        current = names-some task.current_published_version_id round.original_version_id named;
        no_draft = is_none-none (find_draft round.task_id world.version_ids store) drafts;
        original_row =
            or_raise-ok (store.versions round.original_version_id) version_changed first_row;
        secondary_row =
            or_raise-ok (store.versions round.secondary_version_id) version_changed second_row;
      })
