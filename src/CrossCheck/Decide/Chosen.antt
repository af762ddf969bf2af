-- ===== src/CrossCheck/Decide/Chosen.antt =====
-- What the choice of a decision leaves in the tables of the work.
use egyptian_arabic_annotati.Base.{
  ℕ, ◌≡◌, ◌⊎◌, inl, inr, refl, ap, subst, ◌∙◌, some, List, arith, ok, or_raise, bind-ok,
  or_raise-ok,
}
use egyptian_arabic_annotati.Segments.{Segment, RawSegment}
use egyptian_arabic_annotati.Drafts.State.{
  version_changed, not_frozen, not_publishable, annotation, TargetStatus, SkipReason, Version,
  published, superseded, cross_check_submitted, Decision, original, secondary, edited, Round, Store,
}
use egyptian_arabic_annotati.Drafts.Complete.{snapshot_annotation_duration}
use egyptian_arabic_annotati.CrossCheck.Rounds.{
  supersede_published_version, publish_secondary_version, adjudication_draft,
  publish_adjudication_version,
}
use egyptian_arabic_annotati.CrossCheck.Decide.{
  EditBase, original_base, secondary_base, Choice, keep_original, publish_secondary, publish_edited,
  Checked, Outcome, replace_published, edited_outcome, edited_rows, edited_version,
  publish_edited_base, choose_edited, choose_secondary, apply_choice,
}
use egyptian_arabic_annotati.CrossCheck.Commit.Left.{snapshot-keeps}
use egyptian_arabic_annotati.CrossCheck.Lifecycle.Open.{out_eq}

supersede-superseded :
    (task_id : ℕ) (version : Version) {old : Version}
    → supersede_published_version task_id version ≡ some old
    → (version.lifecycle ≡ published) × (old ≡ record version { lifecycle = superseded })
unfolding supersede_published_version
supersede-superseded task_id version e = (ground arith, ground arith)

publish_secondary-published :
    (action_id : ℕ) (version : Version) {final : Version}
    → publish_secondary_version action_id version ≡ some final
    → (version.lifecycle ≡ cross_check_submitted)
      × (final
          ≡ record version { lifecycle = published; published_by_admin_action_id = some action_id })
unfolding publish_secondary_version
publish_secondary-published action_id version e = (ground arith, ground arith)

publish_adjudication-published :
    (target_status : TargetStatus) (reasons : List SkipReason) (action_id : ℕ) (version : Version)
    {final : Version}
    → publish_adjudication_version target_status reasons action_id version ≡ some final
    → (final.lifecycle ≡ published)
      × (final.task_id ≡ version.task_id)
      × (final.segments ≡ version.segments)
unfolding publish_adjudication_version
publish_adjudication-published target_status reasons action_id version e =
    (ground arith, ground arith, ground arith)

adjudication_draft-task :
    (task_id base_id : ℕ) (base : Version)
    → (adjudication_draft task_id base_id base).task_id ≡ task_id
unfolding adjudication_draft
adjudication_draft-task task_id base_id base = refl

edited_version-published :
    (action_id draft_id base_id : ℕ) (base : Version) (target_status : TargetStatus)
    (reasons : List SkipReason) (rows : List Segment) (task_id : ℕ) (store : Store)
    {final : Version}
    → edited_version action_id draft_id base_id base target_status reasons rows task_id store
      ≡ ok final
    → (final.lifecycle ≡ published) × (final.task_id ≡ task_id) × (final.segments ≡ rows)
unfolding edited_version
edited_version-published action_id draft_id base_id base target_status reasons rows task_id store
      e =
    let opened : Version = record (adjudication_draft task_id base_id base) { segments = rows } in
    let (credited, snapped, e1) =
      bind-ok (snapshot_annotation_duration 0 annotation target_status rows opened store)
        {f = λ v.
          or_raise (publish_adjudication_version target_status reasons action_id v) not_publishable}
        e in
    let (text, task, revision) =
      snapshot-keeps 0 annotation target_status rows opened store snapped in
    let (state, of_task, of_text) =
      publish_adjudication-published target_status reasons action_id credited
        (or_raise-ok _ not_publishable e1) in
    (state, of_task ∙ task ∙ adjudication_draft-task task_id base_id base, of_text ∙ text)

-- The version that a choice makes the final one.
abbrev pub final_id : (draft_id : ℕ) → Choice → Round → ℕ
final_id draft_id keep_original round = round.original_version_id
final_id draft_id publish_secondary round = round.secondary_version_id
final_id draft_id (publish_edited base segments target_status reasons) round = draft_id

abbrev pub decision_of : (draft_id : ℕ) → Choice → Round → Decision
decision_of draft_id keep_original round = original round.original_version_id
decision_of draft_id publish_secondary round = secondary round.secondary_version_id
decision_of draft_id (publish_edited base segments target_status reasons) round = edited draft_id

-- A final version takes the place of the original, which was published.
pub record Replaced (checked : Checked) (store : Store) (outcome : Outcome) : Type 0 where
  pub final : Version
  pub was_published : checked.original.lifecycle ≡ published
  pub final_published : final.lifecycle ≡ published
  pub final_task :
      (final.task_id ≡ checked.round.task_id) ⊎ (final.task_id ≡ checked.secondary.task_id)
  pub replaced :
      outcome.store
      ≡ replace_published checked
          (record checked.original { lifecycle = superseded })
          outcome.final_version_id
          final
          outcome.final_status
          store

-- The store is as it was, or the final version has replaced the original.
pub record Chosen (draft_id : ℕ) (choice : Choice) (checked : Checked) (store : Store)
    (outcome : Outcome) : Type 0 where
  pub final_same : outcome.final_version_id ≡ final_id draft_id choice checked.round
  pub decision_same : outcome.decision ≡ decision_of draft_id choice checked.round
  pub left : ((choice ≡ keep_original) × (outcome.store ≡ store)) ⊎ Replaced checked store outcome

module _ (action_id draft_id : ℕ) (checked : Checked) (store : Store) where
  choose_secondary-Chosen :
      {outcome : Outcome}
      → choose_secondary action_id draft_id checked store ≡ ok outcome
      → Chosen draft_id publish_secondary checked store outcome
  unfolding choose_secondary
  choose_secondary-Chosen e =
      let task_id = checked.round.task_id in
      let (old, gone, e1) =
        bind-ok (or_raise (supersede_published_version task_id checked.original) version_changed)
          e in
      let (final, shown, e2) =
        bind-ok (or_raise (publish_secondary_version action_id checked.secondary) not_frozen) e1 in
      let (was, old_same) =
        supersede-superseded task_id checked.original (or_raise-ok _ version_changed gone) in
      let (frozen, final_same) =
        publish_secondary-published action_id checked.secondary (or_raise-ok _ not_frozen shown) in
      subst (Chosen draft_id publish_secondary checked store) (out_eq e2) (record {
        final_same = refl;
        decision_same = refl;
        left = inr (record {
          final = final;
          was_published = was;
          final_published = ap (λ v. v.lifecycle) final_same;
          final_task = inr (ap (λ v. v.task_id) final_same);
          replaced =
              ap
                (λ v.
                  replace_published checked v checked.round.secondary_version_id final
                    checked.secondary.target_status store)
                old_same;
        });
      })

  publish_edited_base-Chosen :
      (base_id : ℕ) (base : Version) (chosen : EditBase) (segments : List RawSegment)
      (target_status : TargetStatus) (skip_reasons : List SkipReason) {outcome : Outcome}
      → publish_edited_base action_id draft_id base_id base segments target_status skip_reasons
          checked store
        ≡ ok outcome
      → Chosen draft_id
          (publish_edited chosen segments target_status skip_reasons)
          checked
          store
          outcome
  unfolding publish_edited_base edited_outcome
  publish_edited_base-Chosen base_id base chosen segments target_status skip_reasons e =
      let task_id = checked.round.task_id in
      let ((reasons, rows), edit, e1) =
        bind-ok
          (edited_rows action_id draft_id base segments target_status skip_reasons checked.task)
          e in
      let (old, gone, e2) =
        bind-ok (or_raise (supersede_published_version task_id checked.original) version_changed)
          e1 in
      let (final, shown, e3) =
        bind-ok
          (edited_version action_id draft_id base_id base target_status reasons rows task_id store)
          {f = λ v. ok (edited_outcome action_id draft_id checked old v target_status store)} e2 in
      let (was, old_same) =
        supersede-superseded task_id checked.original (or_raise-ok _ version_changed gone) in
      let (state, of_task, text) =
        edited_version-published action_id draft_id base_id base target_status reasons rows task_id
          store shown in
      subst
        (Chosen draft_id (publish_edited chosen segments target_status skip_reasons) checked store)
        {x = edited_outcome action_id draft_id checked old final target_status store} (out_eq e3)
        (record {
          final_same = refl;
          decision_same = refl;
          left = inr (record {
            final = final;
            was_published = was;
            final_published = state;
            final_task = inl of_task;
            replaced =
                ap (λ v. replace_published checked v draft_id final (some target_status) store)
                  old_same;
          });
        })

  pub apply_choice-Chosen :
      (choice : Choice) {outcome : Outcome}
      → apply_choice action_id draft_id choice checked store ≡ ok outcome
      → Chosen draft_id choice checked store outcome
  unfolding apply_choice choose_edited
  apply_choice-Chosen keep_original e =
      subst (Chosen draft_id keep_original checked store) (out_eq e)
        (record { final_same = refl; decision_same = refl; left = inl (refl, refl) })
  apply_choice-Chosen publish_secondary e = choose_secondary-Chosen e
  apply_choice-Chosen (publish_edited original_base segments target_status reasons) e =
      publish_edited_base-Chosen checked.round.original_version_id checked.original original_base
        segments target_status reasons e
  apply_choice-Chosen (publish_edited secondary_base segments target_status reasons) e =
      publish_edited_base-Chosen checked.round.secondary_version_id checked.secondary secondary_base
        segments target_status reasons e
