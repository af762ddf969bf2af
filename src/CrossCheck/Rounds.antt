-- ===== src/CrossCheck/Rounds.antt =====
-- annotation_quality/repository.py, the updates of a round and of its versions, each with the
-- condition of its WHERE: none where it updates no row.
use egyptian_arabic_annotati.Base.{
  ℕ, ◌+◌, Bool, true, false, ◌&&◌, Option, none, some, List, [], ◌∷◌, ◌==◌, if◌then◌else◌,
}
use egyptian_arabic_annotati.Sessions.State.{Annotator}
use egyptian_arabic_annotati.Drafts.State.{
  TargetStatus, SkipReason, Assignment, Version, draft, published, superseded,
  cross_check_submitted, adjudication_purpose, Task, finished, Round, awaiting_review, adjudicated,
  Decision, Store, TaskStatus, pending,
}
use egyptian_arabic_annotati.Drafts.Complete.{or_else}

-- `mark_round_adjudicated`
unfoldable pub mark_round_adjudicated :
    (expected_revision : ℕ) → Decision → (action_id : ℕ) → Round → Option Round
mark_round_adjudicated expected_revision decision action_id round = elim round.state [
  | awaiting_review ↦
      if round.revision == expected_revision
      then some (record round {
        revision = round.revision + 1;
        state = adjudicated;
        decision = some decision;
        decided_by_admin_action_id = some action_id;
      })
      else none
  | _ ↦ none
]

-- `supersede_published_version`
unfoldable pub supersede_published_version : (task_id : ℕ) → Version → Option Version
supersede_published_version task_id version = elim version.lifecycle [
  | published ↦
      if version.task_id == task_id then some (record version { lifecycle = superseded }) else none
  | _ ↦ none
]

-- `publish_secondary_version`
unfoldable pub publish_secondary_version : (action_id : ℕ) → Version → Option Version
publish_secondary_version action_id version = elim version.lifecycle [
  | cross_check_submitted ↦
      some (record version { lifecycle = published; published_by_admin_action_id = some action_id })
  | _ ↦ none
]

-- `insert_adjudication_draft`; the scene review of the base is copied to it.
unfoldable pub adjudication_draft : (task_id base_version_id : ℕ) → Version → Version
adjudication_draft task_id base_version_id base = record {
  task_id = task_id;
  purpose = adjudication_purpose;
  base_version_id = some base_version_id;
  revision = 0;
  lifecycle = draft;
  human_modified = true;
  modified_by_user_id = none;
  credited_annotator_id = or_else base.credited_annotator_id base.submitted_by_user_id;
  submitted_by_user_id = none;
  target_status = none;
  skip_reasons = [];
  annotation_duration = none;
  duration_basis = none;
  segments = base.segments;
  review = base.review;
  published_by_admin_action_id = none;
}

abbrev pub is_adjudication_draft : Version → Bool
is_adjudication_draft version = elim version.lifecycle [
  | draft ↦ elim version.purpose [ adjudication_purpose ↦ true | _ ↦ false ]
  | _ ↦ false
]

-- `publish_adjudication_version`
unfoldable pub publish_adjudication_version :
    TargetStatus → List SkipReason → (action_id : ℕ) → Version → Option Version
publish_adjudication_version target_status reasons action_id version =
    if is_adjudication_draft version
    then some (record version {
      lifecycle = published;
      target_status = some target_status;
      skip_reasons = reasons;
      revision = version.revision + 1;
      submitted_by_user_id = none;
      published_by_admin_action_id = some action_id;
    })
    else none

-- The status that a task takes from its published version.
abbrev pub status_of : Option TargetStatus → TaskStatus
status_of none = pending
status_of (some status) = finished status

-- `set_task_published`
unfoldable pub set_task_published : (version_id : ℕ) → Option TargetStatus → Task → Task
set_task_published version_id status task = record task {
  status = status_of status;
  current_published_version_id = some version_id;
}

-- `SELECT … FROM annotation_versions WHERE task_id = … AND lifecycle = 'draft'`
abbrev pub is_draft_of : ℕ → Option Version → Bool
is_draft_of task_id none = false
is_draft_of task_id (some version) =
    version.task_id == task_id && elim version.lifecycle [ draft ↦ true | _ ↦ false ]

unfoldable pub find_draft : (task_id : ℕ) → (version_ids : List ℕ) → Store → Option ℕ
find_draft task_id [] store = none
find_draft task_id (k ∷ ks) store =
    if is_draft_of task_id (store.versions k) then some k else find_draft task_id ks store

-- `SELECT … FROM assignments WHERE task_id = …`: the user who has the task.
abbrev pub works_on : ℕ → Option Assignment → Bool
works_on task_id none = false
works_on task_id (some assignment) = assignment.task_id == task_id

unfoldable pub find_assignee : (task_id : ℕ) → List Annotator → Store → Option ℕ
find_assignee task_id [] store = none
find_assignee task_id (user ∷ users) store =
    if works_on task_id (store.assignments user.id)
    then some user.id
    else find_assignee task_id users store

-- `DELETE FROM assignments WHERE task_id = …`
unfoldable pub delete_assignments_of : (task_id : ℕ) → Store → Store
delete_assignments_of task_id store = record store {
  assignments = λ k. if works_on task_id (store.assignments k) then none else store.assignments k;
  accounts = record store.accounts {
    activity =
        λ k. if works_on task_id (store.assignments k) then none else store.accounts.activity k;
  };
}
