-- ===== src/CrossCheck/Adjudicate/Published.antt =====
-- A decided task has one published version.
use egyptian_arabic_annotati.Base.{
  ℕ, ◌≡◌, inl, inr, refl, sym, ap, subst, ◌∙◌, Option, none, some, ℕ_discrete, ok, bind-ok,
}
use egyptian_arabic_annotati.Sessions.State.{RawUuid, uuid, validate_uuid}
use egyptian_arabic_annotati.Drafts.State.{
  passing, TargetStatus, Version, published, superseded, Task, Round, awaiting_review, Store, put,
}
use egyptian_arabic_annotati.Drafts.Published.{IsPublished}
use egyptian_arabic_annotati.CrossCheck.Admin.{
  World, Summary, AdminAction, cross_check_decision, begin_admin_action,
}
use egyptian_arabic_annotati.CrossCheck.Admin.Begun.{begin-Begins}
use egyptian_arabic_annotati.CrossCheck.Rounds.{set_task_published}
use egyptian_arabic_annotati.CrossCheck.Decide.{
  DecisionCommand, Choice, Checked, Outcome, replace_published,
}
use egyptian_arabic_annotati.CrossCheck.Decide.Chosen.{final_id, decision_of, Chosen}
use egyptian_arabic_annotati.CrossCheck.Adjudicate.{decide_locked, decide_cross_check}
use egyptian_arabic_annotati.CrossCheck.Adjudicate.Decided.{decided_round, decide_locked-Decided}
use egyptian_arabic_annotati.CrossCheck.Commit.Current.{put_same, put_other, some_inj}

-- The task names the version as its published one, and it is the only one.
pub record HasOnePublished (task_id final : ℕ) (store : Store) : Type 0 where
  pub task : Task
  pub task_row : store.tasks task_id ≡ some task
  pub named : task.current_published_version_id ≡ some final
  pub version : Version
  pub version_row : store.versions final ≡ some version
  pub is_published : IsPublished task_id version
  pub only : (k : ℕ) (v : Version) → store.versions k ≡ some v → IsPublished task_id v → k ≡ final

same_tables :
    (task_id final : ℕ) (store after : Store)
    → after.versions ≡ store.versions
    → after.tasks ≡ store.tasks
    → HasOnePublished task_id final store
    → HasOnePublished task_id final after
same_tables task_id final store after v t one = record {
  task = one.task;
  task_row = ap (λ rows. rows task_id) t ∙ one.task_row;
  named = one.named;
  version = one.version;
  version_row = ap (λ rows. rows final) v ∙ one.version_row;
  is_published = one.is_published;
  only = λ k version there. one.only k version (ap (λ rows. rows k) (sym v) ∙ there);
}

superseded_published :
    (version : Version) → version.lifecycle ≡ superseded → version.lifecycle ≡ published → ⊥
superseded_published version s p = cc (sym s ∙ p)

replace-tables :
    (checked : Checked) (old : Version) (final_id : ℕ) (final : Version)
    (status : Option TargetStatus) (store : Store)
    → let after = replace_published checked old final_id final status store in
      (after.versions
        ≡ put
            (put store.versions checked.round.original_version_id (some old))
            final_id
            (some final))
      × (after.tasks
          ≡ put store.tasks checked.round.task_id
              (some (set_task_published final_id status checked.task)))
unfolding replace_published
replace-tables checked old final_id final status store = (refl, refl)

task_named :
    (version_id : ℕ) (status : Option TargetStatus) (task : Task)
    → (set_task_published version_id status task).current_published_version_id ≡ some version_id
unfolding set_task_published
task_named version_id status task = refl

-- The final version takes the original's place.
replaced-HasOnePublished :
    (checked : Checked) (old : Version) (final_id : ℕ) (final : Version)
    (status : Option TargetStatus) (store : Store)
    → old.lifecycle ≡ superseded
    → IsPublished checked.round.task_id final
    → HasOnePublished checked.round.task_id checked.round.original_version_id store
    → HasOnePublished checked.round.task_id final_id
        (replace_published checked old final_id final status store)
replaced-HasOnePublished checked old final_id final status store gone shown one =
    let after = replace_published checked old final_id final status store in
    let task_id = checked.round.task_id in
    let first = checked.round.original_version_id in
    let (v, t) = replace-tables checked old final_id final status store in
    record {
      task = set_task_published final_id status checked.task;
      task_row = ap (λ rows. rows task_id) t ∙ put_same store.tasks task_id _;
      named = task_named final_id status checked.task;
      version = final;
      version_row = ap (λ rows. rows final_id) v ∙ put_same _ final_id (some final);
      is_published = shown;
      only = λ k version there is_published. elim (ℕ_discrete k final_id) [
        | yes same ↦ same
        | no differs ↦
            let before : put store.versions first (some old) k ≡ some version =
              sym (ap (λ rows. rows k) v ∙ put_other _ final_id k (some final) differs) ∙ there in
            elim (ℕ_discrete k first) [
              | yes same ↦ absurd (
                  superseded_published old gone (
                    subst (λ u. u.lifecycle ≡ published)
                      (some_inj (
                        sym before
                        ∙ ap (put store.versions first (some old)) same
                        ∙ put_same store.versions first (some old)))
                      is_published.1))
              | no other ↦ absurd (
                  other (
                    one.only k version
                      (sym (put_other store.versions first k (some old) other) ∙ before)
                      is_published))
            ]
      ];
    }

Chosen-HasOnePublished :
    (draft_id : ℕ) (choice : Choice) (checked : Checked) (store : Store) (outcome : Outcome)
    → Chosen draft_id choice checked store outcome
    → checked.secondary.task_id ≡ checked.round.task_id
    → HasOnePublished checked.round.task_id checked.round.original_version_id store
    → HasOnePublished checked.round.task_id outcome.final_version_id outcome.store
Chosen-HasOnePublished draft_id choice checked store outcome chosen tied one = elim chosen.left [
  | inl (keeps, same) ↦
      let final : outcome.final_version_id ≡ checked.round.original_version_id =
        chosen.final_same ∙ ap (λ c. final_id draft_id c checked.round) keeps in
      subst (λ k. HasOnePublished checked.round.task_id k outcome.store) (sym final)
        (same_tables checked.round.task_id checked.round.original_version_id store outcome.store
          (ap (λ s. s.versions) same) (ap (λ s. s.tasks) same) one)
  | inr r ↦
      let of_task : r.final.task_id ≡ checked.round.task_id = elim r.final_task [
        | inl same ↦ same
        | inr same ↦ same ∙ tied
      ] in
      subst (HasOnePublished checked.round.task_id outcome.final_version_id) (sym r.replaced) (
        replaced-HasOnePublished checked (record checked.original { lifecycle = superseded })
          outcome.final_version_id r.final outcome.final_status store refl
          (of_task, r.final_published) one)
]

module _ (draft_id action_id now round_id operation_id request_hash : ℕ)
    (admin_session_id : RawUuid) (command : DecisionCommand) (world : World) where
  -- A round that was decided as the command asks.
  abbrev pub IsDecided : World → Type 0
  IsDecided after =
      (round : Round) × (world.store.rounds round_id ≡ some round)
      × (round.state ≡ awaiting_review)
      × (round.revision ≡ command.expected_revision)
      × (after.store.rounds round_id
          ≡ some (decided_round (decision_of draft_id command.choice round) action_id round))
      × HasOnePublished round.task_id (final_id draft_id command.choice round) after.store

  decide_new :
      {summary : Summary} {after : World}
      → command.operation_id ≡ uuid operation_id
      → world.admin_actions operation_id ≡ none
      → decide_cross_check draft_id action_id now admin_session_id
          (uuid round_id)
          request_hash
          command
          world
        ≡ ok (summary, after)
      → (row : AdminAction) × (row.id ≡ action_id)
        × (decide_locked draft_id round_id command row world ≡ ok (summary, after))
  unfolding decide_cross_check validate_uuid passing
  decide_new named new e =
      let (action, started, e1) =
        bind-ok
          (begin_admin_action action_id now admin_session_id command.operation_id
            cross_check_decision command.reason request_hash world)
          e in
      let begins =
        begin-Begins action_id now admin_session_id operation_id cross_check_decision command.reason
          request_hash world new
          (ap
              (λ op.
                begin_admin_action action_id now admin_session_id op cross_check_decision
                  command.reason request_hash world)
              (sym named)
            ∙ started) in
      (begins.row, begins.same_id, rw (begins.is_begun) at e1)

  -- A decision on a new operation was taken on a round that waits for one, at the revision that the
  -- command expects. It closes the round, with the decision, its version and the next revision, and
  -- the task has exactly one published version, the one that was chosen, which it names as current: the
  -- original, the second annotator's, or the administrator's edit. Before it the original is the task's
  -- only published version, and the second version is one of the task.
  pub decide_cross_check-publishes_one :
      {summary : Summary} {after : World}
      → command.operation_id ≡ uuid operation_id
      → world.admin_actions operation_id ≡ none
      → ((round : Round)
          → world.store.rounds round_id ≡ some round
          → HasOnePublished round.task_id round.original_version_id world.store)
      → ((round : Round) (version : Version)
          → world.store.rounds round_id ≡ some round
          → world.store.versions round.secondary_version_id ≡ some version
          → version.task_id ≡ round.task_id)
      → decide_cross_check draft_id action_id now admin_session_id
          (uuid round_id)
          request_hash
          command
          world
        ≡ ok (summary, after)
      → IsDecided after
  decide_cross_check-publishes_one {summary} {after} named new one tied e =
      let (row, same_id, locked) = decide_new named new e in
      let d = decide_locked-Decided draft_id round_id command row world locked in
      let round = d.checked.round in
      (
        round,
        d.found.round_row,
        d.found.waiting,
        d.found.current_revision,
        ap (λ rows. rows round_id) d.rounds_left
            ∙ put_same world.store.rounds round_id _
            ∙ ap (λ decision. some (decided_round decision row.id round)) d.chosen.decision_same
            ∙ ap (λ id. some (decided_round (decision_of draft_id command.choice round) id round))
                same_id,
        subst (λ k. HasOnePublished round.task_id k after.store) d.chosen.final_same
            (same_tables round.task_id d.outcome.final_version_id d.outcome.store after.store
              d.versions_left d.tasks_left
              (Chosen-HasOnePublished draft_id command.choice d.checked world.store d.outcome
                d.chosen (tied round d.checked.secondary d.found.round_row d.found.secondary_row)
                (one round d.found.round_row))),
      )
