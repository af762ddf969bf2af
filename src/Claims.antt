-- ===== src/Claims.antt =====
-- `claim` of annotation_repository.py and the pool of annotation_metadata/claiming.py: a user gets one
-- task, a reserved one, one of the normal pool or one to cross-check.
pub mod Assigned
pub mod Examples
use egyptian_arabic_annotati.Base.{
  ℕ, zero, suc, Bool, true, false, not, ◌&&◌, ◌||◌, Option, none, some, List, [], ◌∷◌, any, ltb,
  ◌==◌, if◌then◌else◌, Result, ok, err, ◌>>=◌, ◌>>◌, raise_if,
}
use egyptian_arabic_annotati.Sessions.State.{SessionPolicy, SessionFence, lock_active_annotator}
use egyptian_arabic_annotati.Sessions.Fence.{require_session_fence}
use egyptian_arabic_annotati.Drafts.State.{
  Fault, session, outside_scope, no_task_available, task_pool_busy, passing, annotation, Assignment,
  pending, Task, Store, put, claimed_event, touch,
}
use egyptian_arabic_annotati.Drafts.Abandon.{record_event}
use egyptian_arabic_annotati.CrossCheck.Admin.{
  World, PoolRow, Settings, is_none, load_settings, cross_check_allowed,
}
use egyptian_arabic_annotati.CrossCheck.Rounds.{find_draft, find_assignee}
use egyptian_arabic_annotati.CrossCheck.Submit.{names}
use egyptian_arabic_annotati.CrossCheck.Claim.{keep_if}
use egyptian_arabic_annotati.CrossCheck.Draw.{
  Attempt, claimed, empty, busy, new_assignment, try_claim_cross_check,
}

-- What the user's scope and the filters of the request say of the tasks: whether the user may claim
-- and may claim that scene, whether a task has a matching source, the same for each band of
-- confidence in turn, and the tasks in the order in which reserved ones are offered.
pub record Sources : Type 0 where
  pub can_claim : Bool
  pub scope_allows : Bool
  pub matches : ℕ → Bool
  pub bands : List (ℕ → Bool)
  pub reserved_order : List ℕ

-- What an attempt meets: the rows that nobody has locked, whether the task still matches, a new UUID.
pub record Try : Type 0 where
  pub free : ℕ → Bool
  pub still : ℕ → Bool
  pub lease_token : ℕ

-- An assignment with the tables after it, or why there is none.
pub data Answer : Type 0 where
  given : Assignment → World → Answer
  nothing : (is_busy : Bool) → Answer

abbrev pub is_pending : Task → Bool
is_pending task = elim task.status [ pending ↦ true | _ ↦ false ]

abbrev pub is_offered : (reserved_only : Bool) → Task → ℕ → Bool
is_offered true task user_id = names task.reserved_for_user_id user_id
is_offered false task user_id = is_none task.reserved_for_user_id

-- The first answer that gives something.
abbrev pub answer_or : Answer → Answer → Answer
answer_or (given assignment after) other = given assignment after
answer_or (nothing is_busy) (given assignment after) = given assignment after
answer_or (nothing is_busy) (nothing is_busy') = nothing (is_busy || is_busy')

-- `_raise_claim_pool_outcome`
abbrev pub raise_claim_pool_outcome : Answer → Result Fault (Assignment × World)
raise_claim_pool_outcome (given assignment after) = ok (assignment, after)
raise_claim_pool_outcome (nothing true) = err task_pool_busy
raise_claim_pool_outcome (nothing false) = err no_task_available

-- The attempts of `_try_claim_normal_pool`.
abbrev pub max_attempts : ℕ
max_attempts = 64

module _ (sources : Sources) (now user_id : ℕ) where
  unfoldable pub is_claimable :
      (reserved_only : Bool) → (task_id : ℕ) → Task → PoolRow → World → Bool
  unfolding find_assignee
  is_claimable reserved_only task_id task row world =
      is_pending task
      && (row.eligible
          && (is_none (find_assignee task_id world.store.accounts.annotators world.store)
              && (not (world.blocks task_id user_id) && is_offered reserved_only task user_id)))

  -- The task with its draft.
  unfoldable pub claimable : (reserved_only : Bool) → (task_id : ℕ) → World → Option (ℕ × ℕ)
  unfolding find_draft is_claimable
  claimable reserved_only task_id world = elim (world.store.tasks task_id) [
    | none ↦ none
    | some task ↦ elim (world.pool task_id) [
      | none ↦ none
      | some row ↦ elim (find_draft task_id world.version_ids world.store) [
        | none ↦ none
        | some version_id ↦
            keep_if (is_claimable reserved_only task_id task row world) (some (task_id, version_id))
      ]
    ]
  ]

  -- `claim_lock_query`: the first row in order that nobody has locked.
  unfoldable pub claim_lock_query :
      (reserved_only : Bool) (test : ℕ → Bool) → (order : List ℕ) → World → Option (ℕ × ℕ)
  unfolding claimable
  claim_lock_query reserved_only test [] world = none
  claim_lock_query reserved_only test (task_id ∷ order) world =
      let rest = claim_lock_query reserved_only test order world in
      if test task_id
      then elim (claimable reserved_only task_id world) [ none ↦ rest | some found ↦ some found ]
      else rest

  unfoldable pub first_band : (free : ℕ → Bool) → List (ℕ → Bool) → World → Option (ℕ × ℕ)
  unfolding claim_lock_query
  first_band free [] world = none
  first_band free (band ∷ bands) world =
      let rest = first_band free bands world in
      elim (claim_lock_query false (λ k. band k && free k) world.task_ids world) [
        | none ↦ rest
        | some found ↦ some found
      ]

  -- `fetch_claim_candidate`
  unfoldable pub fetch_claim_candidate : (free : ℕ → Bool) → World → Option (ℕ × ℕ)
  unfolding claim_lock_query first_band
  fetch_claim_candidate free world =
      if sources.can_claim
      then elim (claim_lock_query true (λ k. sources.matches k && free k) sources.reserved_order
          world) [ none ↦ first_band free sources.bands world | some found ↦ some found ]
      else none

  -- `candidate_exists_sql`
  unfoldable pub candidate_exists : World → Bool
  unfolding claim_lock_query
  candidate_exists world =
      not (is_none (claim_lock_query true sources.matches world.task_ids world))
      || not (is_none (claim_lock_query false sources.matches world.task_ids world))

  unfoldable pub normal_assignment : (lease_token task_id version_id : ℕ) → Assignment
  normal_assignment lease_token task_id version_id = record {
    task_id = task_id;
    working_version_id = version_id;
    mode = annotation;
    lease_token = lease_token;
    cross_check_round_id = none;
  }

  abbrev pub unreserved : Option Task → Option Task
  unreserved none = none
  unreserved (some task) = some (record task { reserved_for_user_id = none })

  -- The event has no status before it; the one that it has is its `to_status`.
  unfoldable pub write_normal : Assignment → World → World
  unfolding put
  write_normal assignment world =
      let store = world.store in
      record world {
        store =
            record_event
              (record {
                operation_id = none;
                user_id = some user_id;
                admin_action_id = none;
                task_id = assignment.task_id;
                version_id = assignment.working_version_id;
                kind = claimed_event;
                from_status = pending;
              })
              (record store {
                assignments = put store.assignments user_id (some assignment);
                tasks =
                    put store.tasks assignment.task_id
                      (unreserved (store.tasks assignment.task_id));
                accounts = record store.accounts {
                  activity = put store.accounts.activity user_id (some now);
                };
              });
        participants = λ task user.
            if task == assignment.task_id && user == user_id
            then true
            else world.participants task user;
      }

  -- `_commit_normal_assignment`, with its ON CONFLICT DO NOTHING.
  unfoldable pub commit_normal_assignment : (lease_token : ℕ) → (found : ℕ × ℕ) → World → Answer
  unfolding find_assignee normal_assignment write_normal
  commit_normal_assignment lease_token (task_id, version_id) world =
      let assignment = normal_assignment lease_token task_id version_id in
      if is_none (world.store.assignments user_id)
        && is_none (find_assignee task_id world.store.accounts.annotators world.store)
      then given assignment (write_normal assignment world)
      else nothing true

  -- `_try_claim_reserved`
  unfoldable pub try_claim_reserved : Try → World → Answer
  unfolding claim_lock_query commit_normal_assignment
  try_claim_reserved attempt world =
      if sources.can_claim
      then elim (claim_lock_query true (λ k. sources.matches k && attempt.free k)
          sources.reserved_order world) [
            | none ↦ nothing false
            | some found ↦
                if attempt.still found.0
                then commit_normal_assignment attempt.lease_token found world
                else nothing false
          ]
      else nothing false

  -- The loop of `_try_claim_normal_pool`.
  unfoldable pub normal_attempts : (left : ℕ) → (ℕ → Try) → World → Answer
  unfolding fetch_claim_candidate candidate_exists commit_normal_assignment
  normal_attempts zero tries world = nothing true
  normal_attempts (suc left) tries world =
      let again = normal_attempts left tries world in
      elim (fetch_claim_candidate (tries left).free world) [
        | none ↦ nothing (candidate_exists world)
        | some found ↦
            if (tries left).still found.0
            then elim (commit_normal_assignment (tries left).lease_token found world) [
              | given assignment after ↦ given assignment after
              | nothing is_busy ↦ again
            ]
            else again
      ]

  -- `_try_claim_normal_pool`
  unfoldable pub try_claim_normal_pool : (ℕ → Try) → World → Answer
  unfolding normal_attempts
  try_claim_normal_pool tries world = normal_attempts max_attempts tries world

module _ (sources : Sources) (whitelisted_segment_extra : ℕ → ℕ) (has_best : ℕ → Bool)
    (now user_id : ℕ) where
  -- The cross-check that `_finish_cross_check_claim` answers with.
  unfoldable pub cross_check_answer : (ℕ → Attempt) → World → Answer
  unfolding load_settings try_claim_cross_check new_assignment
  cross_check_answer tries world =
      elim (try_claim_cross_check whitelisted_segment_extra sources.matches has_best now user_id
        sources.can_claim (load_settings world) tries world) [
          | claimed task_id fresh after ↦
              given
                (new_assignment whitelisted_segment_extra sources.matches has_best now user_id fresh
                  task_id)
                after
          | empty ↦ nothing false
          | busy ↦ nothing true
        ]

  -- The part of `claim` after the scope: a reserved task, or the two pools in the order of the draw.
  unfoldable pub claim_new :
      (reserved_try : Try) (tries : ℕ → Try) (cross_tries : ℕ → Attempt) (randrange : ℕ → ℕ)
      → World
      → Answer
  unfolding try_claim_reserved try_claim_normal_pool cross_check_answer load_settings
      cross_check_allowed
  claim_new reserved_try tries cross_tries randrange world =
      let settings = load_settings world in
      let normal = try_claim_normal_pool sources now user_id tries world in
      let cross = cross_check_answer cross_tries world in
      elim (try_claim_reserved sources now user_id reserved_try world) [
        | given assignment after ↦ given assignment after
        | nothing is_busy ↦
            if cross_check_allowed settings
            then (if ltb (randrange 10000) settings.sampling_rate_bps
                then answer_or cross normal
                else answer_or normal cross)
            else normal
      ]

-- The user's activity.
abbrev pub touched : SessionFence → SessionPolicy → (now : ℕ) → World → World
touched fence policy now world = record world { store = touch fence policy true now world.store }

-- `claim`
unfoldable pub claim :
    Sources
    → (whitelisted_segment_extra : ℕ → ℕ) → (has_best : ℕ → Bool) → SessionFence
    → SessionPolicy
    → (now : ℕ) → (reserved_try : Try) → (tries : ℕ → Try) → (cross_tries : ℕ → Attempt)
    → (randrange : ℕ → ℕ) → World
    → Result Fault (Assignment × World)
unfolding passing lock_active_annotator require_session_fence touch claim_new
claim sources whitelisted_segment_extra has_best fence policy now reserved_try tries cross_tries
      randrange world =
    do
      user ← passing session (lock_active_annotator fence.user_id world.store.accounts)
      opened ← passing session (require_session_fence fence now world.store.accounts)
      elim (world.store.assignments fence.user_id) [
        | some existing ↦ ok (existing, touched fence policy now world)
        | none ↦ do
          raise_if (not sources.scope_allows) outside_scope
          (assignment, after) ← raise_claim_pool_outcome (
              claim_new sources whitelisted_segment_extra has_best now fence.user_id reserved_try
                tries cross_tries randrange world)
          ok (assignment, touched fence policy now after)
      ]
