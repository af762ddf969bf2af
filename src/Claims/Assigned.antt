-- ===== src/Claims/Assigned.antt =====
-- Whoever claims holds what the claim answers, and nobody else held it.
use egyptian_arabic_annotati.Base.{
  ℕ, zero, suc, ◌≡◌, ◌≢◌, ◌⊎◌, inl, inr, refl, sym, ap, subst, ◌∙◌, Bool, true, false, not, ◌&&◌,
  Option-cases, none, some, ltb, if◌then◌else◌, ok, bind-ok, raise_if-ok,
}
use egyptian_arabic_annotati.Sessions.State.{SessionPolicy, SessionFence, lock_active_annotator}
use egyptian_arabic_annotati.Sessions.Fence.{require_session_fence}
use egyptian_arabic_annotati.Drafts.State.{session, outside_scope, passing, Assignment, put, touch}
use egyptian_arabic_annotati.CrossCheck.Admin.{World, load_settings, cross_check_allowed}
use egyptian_arabic_annotati.CrossCheck.Rounds.{find_assignee}
use egyptian_arabic_annotati.CrossCheck.Commit.Current.{put_same, put_other}
use egyptian_arabic_annotati.CrossCheck.Lifecycle.Open.{out_eq}
use egyptian_arabic_annotati.CrossCheck.Draw.{
  Attempt, Fresh, Outcome, claimed, empty, busy, new_assignment, try_claim_cross_check,
}
use egyptian_arabic_annotati.CrossCheck.Draw.Claimed.{candidate-cases}
use egyptian_arabic_annotati.CrossCheck.Draw.Independent.{try_claim-Created}
use egyptian_arabic_annotati.Claims.{
  Sources, Try, Answer, given, nothing, answer_or, raise_claim_pool_outcome, claim_lock_query,
  fetch_claim_candidate, candidate_exists, normal_assignment, write_normal,
  commit_normal_assignment, try_claim_reserved, normal_attempts, max_attempts,
  try_claim_normal_pool, cross_check_answer, claim_new, claim,
}

module _ (user_id : ℕ) (world : World) where
  -- A new assignment: the user had none, the task was nobody's, and no other assignment is touched.
  pub record IsNew (assignment : Assignment) (after : World) : Type 0 where
    pub unassigned : world.store.assignments user_id ≡ none
    pub free_task :
        find_assignee assignment.task_id world.store.accounts.annotators world.store ≡ none
    pub assignments_left :
        after.store.assignments ≡ put world.store.assignments user_id (some assignment)

  GivesNew : Answer → Type 0
  GivesNew (given assignment after) = IsNew assignment after
  GivesNew (nothing is_busy) = Unit

  GivesNew-answer_or :
      (answer other : Answer) → GivesNew answer → GivesNew other → GivesNew (answer_or answer other)
  unfolding GivesNew
  GivesNew-answer_or (given assignment after) other first second = first
  GivesNew-answer_or (nothing b) (given assignment after) first second = second
  GivesNew-answer_or (nothing b) (nothing c) first second = tt

  module _ (sources : Sources) (now : ℕ) where
    GivesNew-commit :
        (lease_token : ℕ) (found : ℕ × ℕ)
        → GivesNew (commit_normal_assignment sources now user_id lease_token found world)
    unfolding commit_normal_assignment GivesNew write_normal normal_assignment
    GivesNew-commit lease_token (task_id, version_id) =
        elim (Option-cases (world.store.assignments user_id)) [
          | inl unassigned ↦
              elim (Option-cases
                (find_assignee task_id world.store.accounts.annotators world.store)) [
                  | inl free ↦
                      rw (unassigned, free)
                        (record {
                          unassigned = unassigned;
                          free_task = free;
                          assignments_left = refl;
                        })
                  | inr (other, taken) ↦ rw (unassigned, taken) tt
                ]
          | inr (assignment, assigned) ↦ rw assigned tt
        ]

    GivesNew-if :
        (test : Bool) (first second : Answer)
        → GivesNew first
        → GivesNew second
        → GivesNew (if test then first else second)
    GivesNew-if true first second held rest = held
    GivesNew-if false first second held rest = rest

    GivesNew-none : (is_busy : Bool) → GivesNew (nothing is_busy)
    unfolding GivesNew
    GivesNew-none is_busy = tt

    GivesNew-reserved :
        (attempt : Try) → GivesNew (try_claim_reserved sources now user_id attempt world)
    unfolding try_claim_reserved
    GivesNew-reserved attempt =
        GivesNew-if sources.can_claim _ _
          (elim (Option-cases (
            claim_lock_query sources now user_id true (λ k. sources.matches k && attempt.free k)
              sources.reserved_order world)) [
                | inl missing ↦ rw missing (GivesNew-none false)
                | inr (found, there) ↦ rw there (
                    GivesNew-if (attempt.still found.0) _ _
                      (GivesNew-commit attempt.lease_token found) (GivesNew-none false))
              ])
          (GivesNew-none false)

    -- An attempt that gives nothing is followed by the next one.
    GivesNew-attempt :
        (first again : Answer)
        → GivesNew first
        → GivesNew again
        → GivesNew (elim first [
          | given assignment after ↦ given assignment after
          | nothing is_busy ↦ again
        ])
    unfolding GivesNew
    GivesNew-attempt (given assignment after) again held rest = held
    GivesNew-attempt (nothing is_busy) again held rest = rest

    GivesNew-attempts :
        (left : ℕ) (tries : ℕ → Try)
        → GivesNew (normal_attempts sources now user_id left tries world)
    unfolding normal_attempts
    GivesNew-attempts zero tries = GivesNew-none true
    GivesNew-attempts (suc left) tries =
        elim (Option-cases (fetch_claim_candidate sources now user_id (tries left).free world)) [
          | inl missing ↦
              rw (missing, normal_attempts)
                (GivesNew-none (candidate_exists sources now user_id world))
          | inr (found, there) ↦
              rw (there, normal_attempts)
                (GivesNew-if ((tries left).still found.0) _ _
                  (GivesNew-attempt
                    (commit_normal_assignment sources now user_id (tries left).lease_token found
                      world)
                    (normal_attempts sources now user_id left tries world)
                    (GivesNew-commit (tries left).lease_token found) (GivesNew-attempts left tries))
                  (GivesNew-attempts left tries))
        ]

    GivesNew-pool :
        (tries : ℕ → Try) → GivesNew (try_claim_normal_pool sources now user_id tries world)
    unfolding try_claim_normal_pool
    GivesNew-pool tries = GivesNew-attempts max_attempts tries

    module _ (whitelist : ℕ → ℕ) (has_best : ℕ → Bool) where
      Outcome-cases :
          (outcome : Outcome)
          → ((task_id : ℕ) × (fresh : Fresh) × (after : World) × (outcome
                ≡ claimed task_id fresh after))
            ⊎ ((outcome ≡ empty) ⊎ (outcome ≡ busy))
      Outcome-cases (claimed task_id fresh after) = inl (task_id, fresh, after, refl)
      Outcome-cases empty = inr (inl refl)
      Outcome-cases busy = inr (inr refl)

      GivesNew-cross :
          (tries : ℕ → Attempt)
          → GivesNew (cross_check_answer sources whitelist has_best now user_id tries world)
      unfolding cross_check_answer GivesNew new_assignment
      GivesNew-cross tries =
          elim (Outcome-cases (
            try_claim_cross_check whitelist sources.matches has_best now user_id sources.can_claim
              (load_settings world) tries world)) [
                | inl (task_id, fresh, after, there) ↦
                    let (allowed, found, is_candidate, created) =
                      try_claim-Created whitelist sources.matches has_best now user_id world
                        sources.can_claim (load_settings world) tries there in
                    let (task, is_joined, other, is_free) =
                      candidate-cases sources.matches now user_id world task_id is_candidate in
                    rw (there, cross_check_answer)
                      (record {
                        unassigned = created.unassigned;
                        free_task =
                            subst
                              (λ t.
                                find_assignee t world.store.accounts.annotators world.store ≡ none)
                              task created.free_task;
                        assignments_left =
                            subst
                              (λ t.
                                after.store.assignments
                                ≡ put world.store.assignments user_id (
                                    some (
                                      new_assignment whitelist sources.matches has_best now user_id
                                        fresh t)))
                              task created.assignments_left;
                      })
                | inr (inl none_there) ↦ rw (none_there, cross_check_answer) tt
                | inr (inr all_locked) ↦ rw (all_locked, cross_check_answer) tt
              ]

      GivesNew-claim_new :
          (reserved_try : Try) (tries : ℕ → Try) (cross_tries : ℕ → Attempt) (randrange : ℕ → ℕ)
          → GivesNew (
              claim_new sources whitelist has_best now user_id reserved_try tries cross_tries
                randrange world)
      unfolding claim_new
      GivesNew-claim_new reserved_try tries cross_tries randrange =
          let normal = GivesNew-pool tries in
          let cross = GivesNew-cross cross_tries in
          GivesNew-attempt _ _ (GivesNew-reserved reserved_try) (
            GivesNew-if (cross_check_allowed (load_settings world)) _ _
              (GivesNew-if (ltb (randrange 10000) (load_settings world).sampling_rate_bps) _ _
                (GivesNew-answer_or _ _ cross normal) (GivesNew-answer_or _ _ normal cross))
              normal)

  raised-IsNew :
      (answer : Answer) {assignment : Assignment} {after : World}
      → GivesNew answer
      → raise_claim_pool_outcome answer ≡ ok (assignment, after)
      → IsNew assignment after
  unfolding GivesNew
  raised-IsNew (given a w) gives e = subst (λ out. IsNew out.0 out.1) (out_eq e) gives
  raised-IsNew (nothing true) gives e = absurd (cc e)
  raised-IsNew (nothing false) gives e = absurd (cc e)

-- What `claim` answers is the user's assignment afterwards. Either the user had it before, and no
-- assignment changes, whatever task was asked for; or the user had none, the task was nobody's, and
-- no other user's assignment changes.
pub claim-assigns :
    (sources : Sources) (whitelist : ℕ → ℕ) (has_best : ℕ → Bool) (fence : SessionFence)
    (policy : SessionPolicy) (now : ℕ) (reserved_try : Try) (tries : ℕ → Try)
    (cross_tries : ℕ → Attempt) (randrange : ℕ → ℕ) (world : World) {assignment : Assignment}
    {after : World}
    → claim sources whitelist has_best fence policy now reserved_try tries cross_tries randrange
        world
      ≡ ok (assignment, after)
    → (after.store.assignments fence.user_id ≡ some assignment)
      × (((world.store.assignments fence.user_id ≡ some assignment)
            × (after.store.assignments ≡ world.store.assignments))
          ⊎ ((world.store.assignments fence.user_id ≡ none)
              × (find_assignee assignment.task_id world.store.accounts.annotators world.store
                  ≡ none)
              × ((k : ℕ)
                  → k ≢ fence.user_id
                  → after.store.assignments k ≡ world.store.assignments k)))
unfolding claim touch
claim-assigns sources whitelist has_best fence policy now reserved_try tries cross_tries randrange
      world {assignment} {after} e =
    let user_id = fence.user_id in
    let (user, e1, e2) =
      bind-ok (passing session (lock_active_annotator user_id world.store.accounts)) e in
    let (opened, e3, e4) =
      bind-ok (passing session (require_session_fence fence now world.store.accounts)) e2 in
    elim (Option-cases (world.store.assignments user_id)) [
      | inr (existing, there) ↦
          let e5 = out_eq (rw there at e4) in
          let kept = ap (λ out. out.1.store.assignments) e5 in
          let same = there ∙ ap (λ out. some out.0) e5 in
          (ap (λ rows. rows user_id) (sym kept) ∙ same, inl (same, sym kept))
      | inl missing ↦
          let (allowed, e5) =
            raise_if-ok (not sources.scope_allows) outside_scope (rw missing at e4) in
          let ((a, w), e6, e7) =
            bind-ok
              (raise_claim_pool_outcome (
                claim_new sources whitelist has_best now user_id reserved_try tries cross_tries
                  randrange world))
              e5 in
          let new =
            raised-IsNew user_id world _
              (GivesNew-claim_new user_id world sources now whitelist has_best reserved_try tries
                cross_tries randrange)
              e6 in
          let e8 = out_eq e7 in
          let left = sym (ap (λ out. out.1.store.assignments) e8) ∙ new.assignments_left in
          (
            ap (λ rows. rows user_id) left
                ∙ put_same world.store.assignments user_id (some a)
                ∙ ap (λ out. some out.0) e8,
            inr (
              missing,
              ap (λ out. find_assignee out.0.task_id world.store.accounts.annotators world.store)
                    (sym e8)
                  ∙ new.free_task,
              λ k other.
                  ap (λ rows. rows k) left
                  ∙ put_other world.store.assignments user_id k (some a) other,
            ),
          )
    ]
