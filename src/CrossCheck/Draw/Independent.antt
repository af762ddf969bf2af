-- ===== src/CrossCheck/Draw/Independent.antt =====
-- A cross check is claimed by somebody else than the author, and starts without the author's text.
use egyptian_arabic_annotati.Base.{
  ℕ, zero, suc, ◌≡◌, ◌≢◌, inl, inr, refl, sym, ap, subst, ◌∙◌, Bool, Bool-cases, true, false, not,
  ◌&&◌, Option, Option-cases, none, some, [], ◌∷◌, ◌++◌, map, length, get_elem?, any, ◌==◌,
  if◌then◌else◌, arith, All, List,
}
use egyptian_arabic_annotati.Segments.{Segment}
use egyptian_arabic_annotati.Drafts.State.{
  Assignment, cross_check, Version, draft, Round, in_progress, put,
}
use egyptian_arabic_annotati.CrossCheck.Admin.{World, Settings, is_none, cross_check_allowed}
use egyptian_arabic_annotati.CrossCheck.Rounds.{find_draft, find_assignee}
use egyptian_arabic_annotati.CrossCheck.Cancel.{find_open_round}
use egyptian_arabic_annotati.CrossCheck.Claim.{Candidate, candidate, is_free, checks}
use egyptian_arabic_annotati.CrossCheck.Commit.Current.{put_same, some_inj}
use egyptian_arabic_annotati.CrossCheck.Draw.{
  Fresh, Attempt, Outcome, claimed, empty, busy, max_lock_attempts, baseline_draft, reset_segment,
  new_round, new_assignment, create_cross_check_claim, candidates, claim_drawn, attempts,
  try_claim_cross_check,
}
use egyptian_arabic_annotati.CrossCheck.Draw.Claimed.{IsJoined, candidate-cases, both}

-- Where the segments are cut.
abbrev pub cuts : List Segment → List (ℕ × ℕ × ℕ × ℕ)
cuts segments = map (λ row. (row.id, row.start, row.end, row.duration)) segments

-- The segments have the cuts of the others, no text and no mark.
abbrev pub IsBlank : (base segments : List Segment) → Type 0
IsBlank base segments =
    (cuts segments ≡ cuts base)
    × All (λ row. row.text ≡ []) segments
    × All (λ row. row.exclude_from_training ≡ false) segments

module _ (whitelist : ℕ → ℕ) (matches has_best : ℕ → Bool) (now user_id : ℕ) (world : World) where
  reset_segment-IsBlank :
      (base : List Segment)
      → IsBlank base (map (reset_segment whitelist matches has_best now user_id) base)
  unfolding reset_segment
  reset_segment-IsBlank [] = (refl, tt, tt)
  reset_segment-IsBlank (row ∷ base) =
      let (same, untexted, unmarked) = reset_segment-IsBlank base in
      (
        ap (λ rest. (row.id, row.start, row.end, row.duration) ∷ rest) same,
        (refl, untexted),
        (refl, unmarked),
      )

  -- What the claim writes.
  pub record Created (fresh : Fresh) (found : Candidate) (after : World) : Type 0 where
    pub unassigned : world.store.assignments user_id ≡ none
    pub free_task : find_assignee found.task_id world.store.accounts.annotators world.store ≡ none
    pub versions_left :
        after.store.versions
        ≡ put world.store.versions fresh.draft_id (
            some (
              baseline_draft whitelist matches has_best now user_id found.task_id
                found.baseline_version_id found.baseline))
    pub rounds_left :
        after.store.rounds
        ≡ put world.store.rounds fresh.round_id
            (some (new_round whitelist matches has_best now user_id fresh.draft_id found))
    pub assignments_left :
        after.store.assignments
        ≡ put world.store.assignments user_id
            (some (new_assignment whitelist matches has_best now user_id fresh found.task_id))
    pub tasks_left : after.store.tasks ≡ world.store.tasks
    pub round_ids_left : after.round_ids ≡ world.round_ids ++ (fresh.round_id ∷ [])
    pub took_part : after.participants found.task_id user_id ≡ true

  is_none-none : {A : Type 0} (o : Option A) → is_none o ≡ true → o ≡ none
  is_none-none none e = refl
  is_none-none (some a) e = absurd (cc e)

  if_some :
      {A : Type 0} (test : Bool) {a b : A}
      → ◌≡◌ {A = Option A} (if test then some a else none) (some b)
      → (test ≡ true) × (a ≡ b)
  if_some true e = (refl, some_inj e)
  if_some false e = absurd (cc e)

  create-Created :
      (fresh : Fresh) (found : Candidate) {after : World}
      → create_cross_check_claim whitelist matches has_best now user_id fresh found world
        ≡ some after
      → Created fresh found after
  unfolding create_cross_check_claim
  create-Created fresh found {after} e =
      let (tests, made) = if_some _ e in
      let (user, task) = both _ _ tests in
      subst (Created fresh found) made (record {
        unassigned = is_none-none (world.store.assignments user_id) user;
        free_task =
            is_none-none (find_assignee found.task_id world.store.accounts.annotators world.store)
              task;
        versions_left = refl;
        rounds_left = refl;
        assignments_left = refl;
        tasks_left = refl;
        round_ids_left = refl;
        took_part = ground arith;
      })

  claim_drawn-Created :
      (attempt : Attempt) (task_id : ℕ) {after : World}
      → claim_drawn whitelist matches has_best now user_id attempt task_id world ≡ some after
      → (found : Candidate) × (candidate matches now user_id world task_id ≡ some found)
        × Created attempt.fresh found after
  unfolding claim_drawn
  claim_drawn-Created attempt task_id {after} e = elim (Bool-cases (attempt.task_free task_id)) [
    | inr locked ↦ absurd (cc (rw locked at e))
    | inl free ↦ elim (Option-cases (candidate matches now user_id world task_id)) [
      | inl out ↦ absurd (cc (rw (free, out) at e))
      | inr (found, there) ↦
          elim (Bool-cases (attempt.author_free found.original_annotator_id && has_best task_id)) [
            | inr held ↦ absurd (cc (rw (free, there, held) at e))
            | inl ready ↦
                (found, there, create-Created attempt.fresh found (rw (free, there, ready) at e))
          ]
    ]
  ]

  attempts-Created :
      (left : ℕ) (tries : ℕ → Attempt) (had : Bool) {task_id : ℕ} {fresh : Fresh} {after : World}
      → attempts whitelist matches has_best now user_id left tries had world
        ≡ claimed task_id fresh after
      → (found : Candidate) × (candidate matches now user_id world task_id ≡ some found)
        × Created fresh found after
  unfolding attempts
  attempts-Created zero tries true e = absurd (cc e)
  attempts-Created zero tries false e = absurd (cc e)
  attempts-Created (suc left) tries had {task_id} {fresh} {after} e =
      let found = candidates whitelist matches has_best now user_id world in
      let attempt = tries left in
      elim (Bool-cases (length found == 0)) [
        | inl nobody ↦ absurd (none_claimed had (rw nobody at e))
        | inr some_found ↦
            elim (Option-cases (get_elem? found (attempt.randrange (length found)))) [
              | inl missed ↦ attempts-Created left tries true (rw (some_found, missed) at e)
              | inr (drawn, there) ↦
                  elim (Option-cases
                    (claim_drawn whitelist matches has_best now user_id attempt drawn world)) [
                      | inl lost ↦
                          attempts-Created left tries true (rw (some_found, there, lost) at e)
                      | inr (world', won) ↦
                          let (task, same_fresh, same_world) =
                            claimed_inj (rw (some_found, there, won) at e) in
                          let (c, is_candidate, created) = claim_drawn-Created attempt drawn won in
                          (
                            c,
                            ap (candidate matches now user_id world) (sym task) ∙ is_candidate,
                            subst (λ f. Created f c after) same_fresh
                                (subst (Created attempt.fresh c) same_world created),
                          )
                    ]
            ]
      ]
    where
      none_claimed :
          (had : Bool) {t : ℕ} {f : Fresh} {w : World}
          → ◌≡◌ {A = Outcome} (if had then busy else empty) (claimed t f w)
          → ⊥
      none_claimed true e = cc e
      none_claimed false e = cc e

      claimed_inj :
          {t t' : ℕ} {f f' : Fresh} {w w' : World}
          → claimed t f w ≡ claimed t' f' w'
          → (t ≡ t') × (f ≡ f') × (w ≡ w')
      claimed_inj e = (cc, cc, cc)

  -- What keeps a user off a task.
  pub record IsFree (task_id version_id : ℕ) : Type 0 where
    pub no_draft : find_draft task_id world.version_ids world.store ≡ none
    pub no_open_round : find_open_round task_id world.round_ids world.store ≡ none
    pub new_participant : world.participants task_id user_id ≡ false
    pub not_blocked : world.blocks task_id user_id ≡ false
    pub unchecked : any (λ k. checks version_id (world.store.rounds k)) world.round_ids ≡ false

  pub is_free-IsFree :
      (task_id version_id : ℕ)
      → is_free matches now user_id world task_id version_id ≡ true
      → IsFree task_id version_id
  unfolding is_free
  is_free-IsFree task_id version_id e =
      let (unassigned, t1) = both _ _ e in
      let (undrafted, t2) = both _ _ t1 in
      let (unopened, t3) = both _ _ t2 in
      let (stranger, t4) = both _ _ t3 in
      let (unblocked, t5) = both _ _ t4 in
      let (unchecked, matching) = both _ _ t5 in
      record {
        no_draft = is_none-none (find_draft task_id world.version_ids world.store) undrafted;
        no_open_round = is_none-none (find_open_round task_id world.round_ids world.store) unopened;
        new_participant = untrue (world.participants task_id user_id) stranger;
        not_blocked = untrue (world.blocks task_id user_id) unblocked;
        unchecked =
            untrue (any (λ k. checks version_id (world.store.rounds k)) world.round_ids) unchecked;
      }
    where
      untrue : (b : Bool) → not b ≡ true → b ≡ false
      untrue true e = absurd (cc e)
      untrue false e = refl

  pub try_claim-Created :
      (can_claim : Bool) (settings : Settings) (tries : ℕ → Attempt) {task_id : ℕ} {fresh : Fresh}
      {after : World}
      → try_claim_cross_check whitelist matches has_best now user_id can_claim settings tries world
        ≡ claimed task_id fresh after
      → (can_claim && cross_check_allowed settings ≡ true)
        × (found : Candidate) × (candidate matches now user_id world task_id ≡ some found)
        × Created fresh found after
  unfolding try_claim_cross_check
  try_claim-Created can_claim settings tries e =
      elim (Bool-cases (can_claim && cross_check_allowed settings)) [
        | inl allowed ↦
            let (found, there, created) =
              attempts-Created max_lock_attempts tries false (rw allowed at e) in
            (allowed, found, there, created)
        | inr refused ↦ absurd (cc (rw refused at e))
      ]

  -- The new round, its draft and its assignment.
  abbrev pub IsOpened : (task_id : ℕ) → (base : Version) → Fresh → World → Type 0
  IsOpened task_id base fresh after =
      (round : Round) × (draft_row : Version) × (assignment : Assignment) × (after.store.rounds
          fresh.round_id
        ≡ some round)
      × (round.task_id ≡ task_id)
      × (round.state ≡ in_progress)
      × (round.revision ≡ 0)
      × (round.secondary_annotator_id ≡ user_id)
      × (after.store.versions fresh.draft_id ≡ some draft_row)
      × (draft_row.lifecycle ≡ draft)
      × IsBlank base.segments draft_row.segments
      × (after.store.assignments user_id ≡ some assignment)
      × (assignment.mode ≡ cross_check)
      × (assignment.working_version_id ≡ fresh.draft_id)

  -- A claim of a cross check that succeeds is made where cross checks are enabled, on a task that
  -- names a published version whose author is somebody else. The user has taken no part in the task and
  -- is not kept off it; the task has no draft and no open round, and no round has checked that version.
  -- The claim opens one round, in progress at revision 0, whose draft has the cuts of the baseline with
  -- no text and no mark in any segment, and gives it to the user, who had no assignment.
  pub try_claim_cross_check-independent :
      (can_claim : Bool) (settings : Settings) (tries : ℕ → Attempt) {task_id : ℕ} {fresh : Fresh}
      {after : World}
      → try_claim_cross_check whitelist matches has_best now user_id can_claim settings tries world
        ≡ claimed task_id fresh after
      → (cross_check_allowed settings ≡ true)
        × ((found : Candidate) × (found.task_id ≡ task_id)
            × IsJoined matches now user_id world found
            × (found.original_annotator_id ≢ user_id)
            × IsFree task_id found.original_version_id
            × IsOpened task_id found.baseline fresh after)
        × (world.store.assignments user_id ≡ none)
  unfolding new_round new_assignment baseline_draft
  try_claim_cross_check-independent can_claim settings tries {task_id} {fresh} {after} e =
      let (allowed, found, is_candidate, created) = try_claim-Created can_claim settings tries e in
      let (task, is_joined, other, free) =
        candidate-cases matches now user_id world task_id is_candidate in
      (
        (both can_claim (cross_check_allowed settings) allowed).1,
        (
          found,
          task,
          is_joined,
          λ same. ground (arith, other, same),
          subst (λ t. IsFree t found.original_version_id) task
              (is_free-IsFree found.task_id found.original_version_id free),
          (
            new_round whitelist matches has_best now user_id fresh.draft_id found,
            baseline_draft whitelist matches has_best now user_id found.task_id
                found.baseline_version_id found.baseline,
            new_assignment whitelist matches has_best now user_id fresh found.task_id,
            ap (λ rows. rows fresh.round_id) created.rounds_left
                ∙ put_same world.store.rounds fresh.round_id _,
            task,
            refl,
            refl,
            refl,
            ap (λ rows. rows fresh.draft_id) created.versions_left
                ∙ put_same world.store.versions fresh.draft_id _,
            refl,
            reset_segment-IsBlank found.baseline.segments,
            ap (λ rows. rows user_id) created.assignments_left
                ∙ put_same world.store.assignments user_id _,
            refl,
            refl,
          ),
        ),
        created.unassigned,
      )
