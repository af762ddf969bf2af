-- ===== src/CrossCheck/Draw.antt =====
-- annotation_quality/claiming.py and repository.py: the draw of a candidate, and what a claim writes.
pub mod Claimed
pub mod Independent
use egyptian_arabic_annotati.Base.{
  ℕ, zero, suc, Bool, true, false, not, ◌&&◌, ◌||◌, Option, none, some, List, [], ◌∷◌, ◌++◌, map,
  any, filter, length, leb, ltb, ◌==◌, if◌then◌else◌, get_elem?,
}
use egyptian_arabic_annotati.Sessions.State.{find_id}
use egyptian_arabic_annotati.Segments.{Segment}
use egyptian_arabic_annotati.Drafts.State.{
  annotated, skipped, cross_check, Assignment, Version, baseline, draft, published,
  cross_check_purpose, Task, finished, pending, Round, RoundState, in_progress, passed, adjudicated,
  cancelled, invalidated, Decision, original, secondary, edited, Store, put, claimed_event,
}
use egyptian_arabic_annotati.Drafts.Abandon.{record_event}
use egyptian_arabic_annotati.CrossCheck.Admin.{
  World, PoolRow, Settings, is_none, cross_check_allowed,
}
use egyptian_arabic_annotati.CrossCheck.Rounds.{find_draft, find_assignee}
use egyptian_arabic_annotati.CrossCheck.Cancel.{find_open_round}
use egyptian_arabic_annotati.CrossCheck.Claim.{Candidate, candidate}

-- The UUIDs that a claim makes.
pub record Fresh : Type 0 where
  pub draft_id : ℕ
  pub round_id : ℕ
  pub lease_token : ℕ

-- What an attempt meets: the draw of `randrange`, the rows of tasks and of annotators that no other
-- transaction has locked, and new UUIDs.
pub record Attempt : Type 0 where
  pub randrange : ℕ → ℕ
  pub task_free : ℕ → Bool
  pub author_free : ℕ → Bool
  pub fresh : Fresh

-- `claim` of annotation_quality/claiming.py: what was created, or why nothing was.
pub data Outcome : Type 0 where
  claimed : (task_id : ℕ) → Fresh → World → Outcome
  empty busy : Outcome

-- `MAX_LOCK_ATTEMPTS`
abbrev pub max_lock_attempts : ℕ
max_lock_attempts = 8

-- `WORD_DIFFERENCE_THRESHOLD_BPS`
abbrev pub word_difference_threshold_bps : ℕ
word_difference_threshold_bps = 1000

-- `whitelisted_segment_extra` keeps of the other keys of a segment the technical ones;
-- `matches` says whether a task has a source that the user's scope and the filters allow, and
-- `has_best` whether `matching_best_source` finds the best of them.
module _ (whitelisted_segment_extra : ℕ → ℕ) (matches has_best : ℕ → Bool) (now user_id : ℕ) where
  -- A segment of the baseline without its text and its mark.
  unfoldable pub reset_segment : Segment → Segment
  reset_segment row = record row {
    text = [];
    exclude_from_training = false;
    extra = whitelisted_segment_extra row.extra;
  }

  -- The version that `copy_baseline_draft` inserts.
  unfoldable pub baseline_draft : (task_id baseline_version_id : ℕ) → Version → Version
  unfolding reset_segment
  baseline_draft task_id baseline_version_id base = record {
    task_id = task_id;
    purpose = cross_check_purpose;
    base_version_id = some baseline_version_id;
    revision = 0;
    lifecycle = draft;
    human_modified = false;
    modified_by_user_id = none;
    credited_annotator_id = none;
    submitted_by_user_id = none;
    target_status = none;
    skip_reasons = [];
    annotation_duration = none;
    duration_basis = none;
    segments = map reset_segment base.segments;
    review = none;
    published_by_admin_action_id = none;
  }

  -- The row that `insert_in_progress_round` inserts.
  unfoldable pub new_round : (draft_id : ℕ) → Candidate → Round
  new_round draft_id found = record {
    task_id = found.task_id;
    revision = 0;
    state = in_progress;
    original_version_id = found.original_version_id;
    original_annotator_id = some found.original_annotator_id;
    secondary_version_id = draft_id;
    secondary_annotator_id = user_id;
    threshold_bps = word_difference_threshold_bps;
    evidence = none;
    decision = none;
    decided_by_admin_action_id = none;
  }

  unfoldable pub new_assignment : Fresh → (task_id : ℕ) → Assignment
  new_assignment fresh task_id = record {
    task_id = task_id;
    working_version_id = fresh.draft_id;
    mode = cross_check;
    lease_token = fresh.lease_token;
    cross_check_round_id = some fresh.round_id;
  }

  abbrev with_participant : (task_id : ℕ) → World → ℕ → ℕ → Bool
  with_participant task_id world task user =
      if task == task_id && user == user_id then true else world.participants task user

  -- `create_cross_check_claim`: none where the user or the task has an assignment already.
  unfoldable pub create_cross_check_claim : Fresh → Candidate → World → Option World
  unfolding put baseline_draft new_round new_assignment find_assignee
  create_cross_check_claim fresh found world =
      let store = world.store in
      if is_none (store.assignments user_id)
        && is_none (find_assignee found.task_id store.accounts.annotators store)
      then some (record world {
        store =
            record_event
              (record {
                operation_id = none;
                user_id = some user_id;
                admin_action_id = none;
                task_id = found.task_id;
                version_id = fresh.draft_id;
                kind = claimed_event;
                from_status = found.task.status;
              })
              (record store {
                versions =
                    put store.versions fresh.draft_id (
                      some (baseline_draft found.task_id found.baseline_version_id found.baseline));
                rounds = put store.rounds fresh.round_id (some (new_round fresh.draft_id found));
                assignments =
                    put store.assignments user_id (some (new_assignment fresh found.task_id));
                accounts = record store.accounts {
                  activity = put store.accounts.activity user_id (some now);
                };
              });
        version_ids = world.version_ids ++ (fresh.draft_id ∷ []);
        round_ids = world.round_ids ++ (fresh.round_id ∷ []);
        participants = with_participant found.task_id world;
      })
      else none

  -- The tasks that `count_cross_check_candidates` counts, in the order of their allocation.
  unfoldable pub candidates : World → List ℕ
  unfolding candidate filter
  candidates world =
      filter (λ task_id. not (is_none (candidate matches now user_id world task_id))) world.task_ids

  -- What an attempt does with the task that it drew.
  unfoldable pub claim_drawn : Attempt → (task_id : ℕ) → World → Option World
  unfolding candidate create_cross_check_claim
  claim_drawn attempt task_id world =
      if attempt.task_free task_id
      then elim (candidate matches now user_id world task_id) [
        | none ↦ none
        | some found ↦
            if attempt.author_free found.original_annotator_id && has_best task_id
            then create_cross_check_claim attempt.fresh found world
            else none
      ]
      else none

  -- The loop of `try_claim_cross_check`, with `left` attempts to go.
  unfoldable pub attempts : (left : ℕ) → (ℕ → Attempt) → (had_candidates : Bool) → World → Outcome
  unfolding candidates claim_drawn
  attempts zero tries had_candidates world = if had_candidates then busy else empty
  attempts (suc left) tries had_candidates world =
      let attempt = tries left in
      let found = candidates world in
      let again = attempts left tries true world in
      if length found == 0
      then (if had_candidates then busy else empty)
      else elim (get_elem? found (attempt.randrange (length found))) [
        | none ↦ again
        | some task_id ↦ elim (claim_drawn attempt task_id world) [
          | none ↦ again
          | some after ↦ claimed task_id attempt.fresh after
        ]
      ]

  -- `try_claim_cross_check`; `can_claim` is that of the user's scope.
  unfoldable pub try_claim_cross_check :
      (can_claim : Bool) → Settings → (ℕ → Attempt) → World → Outcome
  unfolding cross_check_allowed attempts
  try_claim_cross_check can_claim settings tries world =
      if can_claim && cross_check_allowed settings
      then attempts max_lock_attempts tries false world
      else empty
