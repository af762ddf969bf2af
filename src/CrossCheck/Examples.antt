-- ===== src/CrossCheck/Examples.antt =====
-- A cross check that is claimed, submitted and decided, and one that is cancelled.
use egyptian_arabic_annotati.Base.{
  ℕ, ◌+◌, ◌≤◌, ◌≡◌, ◌≢◌, ◌⊎◌, ◌↔◌, refl, subst, sym, ◌∙◌, true, false, none, some, [], ok, arith,
}
use egyptian_arabic_annotati.Sessions.State.{uuid, validate_uuid}
use egyptian_arabic_annotati.Segments.{overlaps, too_long, rounded_duration}
use egyptian_arabic_annotati.Drafts.State.{
  Version, published, annotated, submitted, awaiting_review, adjudicated, Round, in_progress,
}
use egyptian_arabic_annotati.Comparison.Compare.{ComparisonResult}
use egyptian_arabic_annotati.Comparison.Ascii.{ascii}
use egyptian_arabic_annotati.Segments.Merge.{unique_ids}
use egyptian_arabic_annotati.CrossCheck.Inputs.{unavailable_result, run_comparison}
use egyptian_arabic_annotati.CrossCheck.Submit.{read_snapshot, verdict_state}
use egyptian_arabic_annotati.CrossCheck.Commit.{commit_cross_check_submit}
use egyptian_arabic_annotati.CrossCheck.Commit.Current.{
  some_inj, Queued, Collision, Compares, commit_cross_check_submit-hides,
  commit_cross_check_submit-current,
}
use egyptian_arabic_annotati.CrossCheck.Admin.{cross_check_allowed, round_summary}
use egyptian_arabic_annotati.CrossCheck.Adjudicate.{decide_cross_check}
use egyptian_arabic_annotati.CrossCheck.Adjudicate.Published.{
  HasOnePublished, IsDecided, decide_cross_check-publishes_one,
}
use egyptian_arabic_annotati.CrossCheck.Claim.{Candidate}
use egyptian_arabic_annotati.CrossCheck.Draw.{try_claim_cross_check, claimed}
use egyptian_arabic_annotati.CrossCheck.Draw.Claimed.{IsJoined}
use egyptian_arabic_annotati.CrossCheck.Draw.Independent.{
  IsFree, IsOpened, try_claim_cross_check-independent,
}
use egyptian_arabic_annotati.CrossCheck.Admin.{World}
use egyptian_arabic_annotati.CrossCheck.Returns.{
  Cancellable, cancelled_round, cancel_cross_check-returns,
}
use egyptian_arabic_annotati.CrossCheck.Rounds.{works_on, find_assignee}
use egyptian_arabic_annotati.CrossCheck.Decide.{lock_users_stable}
use egyptian_arabic_annotati.CrossCheck.Cancel.{CancelCommand, cancel_cross_check}
use egyptian_arabic_annotati.CrossCheck.Admin.{Summary}
use egyptian_arabic_annotati.CrossCheck.Lifecycle.Reach.{
  Reach, start, further, submitting, deciding,
}
use egyptian_arabic_annotati.CrossCheck.Lifecycle.Closed.{History, Reach-History}
use egyptian_arabic_annotati.CrossCheck.Lifecycle.Single.{OneOpen, Reach-OneOpen}
use egyptian_arabic_annotati.CrossCheck.Lifecycle.Diagram.{Trail, Reach-Trail}
use egyptian_arabic_annotati.CrossCheck.Scenario.{
  second_fence, policy, fresh, tries, settings, world, working_world, digest, dirty, snapshot,
  submitted_store, submitted_world, command, decided_world, recording, original_version, admin_row,
}

claims :
    try_claim_cross_check (λ n. n) (λ task. true) (λ task. true) 205 2 true settings tries world
    ≡ claimed 70 fresh working_world
unfolding try_claim_cross_check
claims = refl

submits :
    commit_cross_check_submit digest second_fence policy 207 annotated [] 33 44
      (some 7)
      0
      dirty
      snapshot
      (unavailable_result 1000)
      working_world.store
    ≡ ok (submitted 70 annotated [] 300 awaiting_review, submitted_world.store)
unfolding commit_cross_check_submit try_claim_cross_check unavailable_result read_snapshot overlaps
    too_long rounded_duration
submits = refl

commit_cross_check_submit-hides_example :
    Queued digest second_fence policy 207 annotated [] 33 44
      (some 7)
      0
      dirty
      snapshot
      working_world.store
      (unavailable_result 1000)
      (submitted 70 annotated [] 300 awaiting_review)
      submitted_world.store
    × (submitted_world.store.tasks ≡ working_world.store.tasks)
    × (submitted_world.store.assignments 2 ≡ none)
    × ((k : ℕ) (version : Version)
        → version.lifecycle ≡ published
        → (working_world.store.versions k ≡ some version)
          ↔ (submitted_world.store.versions k ≡ some version))
unfolding try_claim_cross_check
commit_cross_check_submit-hides_example =
    commit_cross_check_submit-hides digest second_fence policy 207 annotated [] 33 44 (some 7) 0
      dirty snapshot working_world.store (unavailable_result 1000) refl submits

abbrev compared_result : ComparisonResult
compared_result = run_comparison ascii (λ cells. true) snapshot annotated

commit_cross_check_submit-current_example :
    Collision digest
    ⊎ Compares digest second_fence policy 207 annotated [] 33 44
        (some 7)
        0
        dirty
        snapshot
        working_world.store
        compared_result
        (submitted_store compared_result)
unfolding commit_cross_check_submit try_claim_cross_check read_snapshot unique_ids overlaps too_long
    rounded_duration
commit_cross_check_submit-current_example =
    commit_cross_check_submit-current digest second_fence policy 207 annotated [] 33 44 (some 7) 0
      dirty snapshot working_world.store ascii (λ cells. true) 206 working_world.store
      {response = submitted 70 annotated [] 300 (verdict_state compared_result)}
      {after = submitted_store compared_result} refl refl draft_ids refl
  where
    draft_ids :
        (version : Version)
        → working_world.store.versions snapshot.version_id ≡ some version
        → unique_ids version.segments ≡ true
    draft_ids version e = subst (λ v. unique_ids v.segments ≡ true) (some_inj e) refl

try_claim_cross_check-independent_example :
    (cross_check_allowed settings ≡ true)
    × ((found : Candidate) × (found.task_id ≡ 70)
        × IsJoined (λ task. true) 205 2 world found
        × (found.original_annotator_id ≢ 2)
        × IsFree (λ n. n) (λ task. true) (λ task. true) 205 2 world 70 found.original_version_id
        × IsOpened
            (λ n. n)
            (λ task. true)
            (λ task. true)
            205
            2
            world
            70
            found.baseline
            fresh
            working_world)
    × (world.store.assignments 2 ≡ none)
try_claim_cross_check-independent_example =
    try_claim_cross_check-independent (λ n. n) (λ task. true) (λ task. true) 205 2 world true
      settings tries claims

decides :
    decide_cross_check 91 400 208 (uuid 9) (uuid 300) 45 command submitted_world
    ≡ ok (round_summary 300 adjudicated (some 90) (some annotated), decided_world)
unfolding commit_cross_check_submit try_claim_cross_check read_snapshot decide_cross_check
    unavailable_result overlaps too_long rounded_duration
decides = refl

abbrev queued_round : Round
queued_round = record {
  task_id = 70;
  revision = 1;
  state = awaiting_review;
  original_version_id = 80;
  original_annotator_id = some 1;
  secondary_version_id = 90;
  secondary_annotator_id = 2;
  threshold_bps = 1000;
  evidence = some (record {
    comparison = unavailable_result 1000;
    original_input_revision = 4;
    secondary_input_revision = 0;
  });
  decision = none;
  decided_by_admin_action_id = none;
}

queued : submitted_world.store.rounds 300 ≡ some queued_round
unfolding commit_cross_check_submit try_claim_cross_check read_snapshot unavailable_result overlaps
    too_long rounded_duration
queued = refl

one_published : HasOnePublished 70 80 submitted_world.store
unfolding commit_cross_check_submit try_claim_cross_check read_snapshot unavailable_result overlaps
    too_long rounded_duration
one_published = record {
  task = recording;
  task_row = refl;
  named = refl;
  version = original_version;
  version_row = refl;
  is_published = (refl, refl);
  only = λ k v there (task, shown). ground arith;
}

second_tied :
    (version : Version) → submitted_world.store.versions 90 ≡ some version → version.task_id ≡ 70
unfolding commit_cross_check_submit try_claim_cross_check read_snapshot unavailable_result overlaps
    too_long rounded_duration
second_tied version found = subst (λ v. v.task_id ≡ 70) (some_inj found) refl

decide_cross_check-publishes_one_example :
    IsDecided 91 400 208 300 35 45 (uuid 9) command submitted_world decided_world
unfolding try_claim_cross_check
decide_cross_check-publishes_one_example =
    decide_cross_check-publishes_one 91 400 208 300 35 45 (uuid 9) command submitted_world
      {after = decided_world} refl refl
      (λ round there.
        subst (λ r. HasOnePublished r.task_id r.original_version_id submitted_world.store)
          (some_inj (sym queued ∙ there)) one_published)
      (λ round version there found.
        subst
          (λ r.
            (v : Version)
            → submitted_world.store.versions r.secondary_version_id ≡ some v
            → v.task_id ≡ r.task_id)
          (some_inj (sym queued ∙ there)) second_tied version found)
      decides

-- The submission and the decision after the claim.
reviewed : Reach working_world decided_world
reviewed =
    further
      (further start (
        submitting digest second_fence policy 207 annotated [] 33 44 (some 7) 0 dirty snapshot
          (unavailable_result 1000) submits))
      (deciding 91 400 208 (uuid 9) (uuid 300) 45 command decides)

abbrev working_round : Round
working_round = record queued_round { revision = 0; state = in_progress; evidence = none }

claimed_row : working_world.store.rounds 300 ≡ some working_round
unfolding try_claim_cross_check
claimed_row = refl

Reach-History_example :
    (after : Round) × (decided_world.store.rounds 300 ≡ some after) × History working_round after
Reach-History_example = Reach-History 300 reviewed claimed_row

Reach-Trail_example :
    (after : Round) × (n : ℕ) × (decided_world.store.rounds 300 ≡ some after)
    × Trail n in_progress after.state
    × (after.revision ≡ 0 + n)
    × (n ≤ 2)
Reach-Trail_example = Reach-Trail 300 {before = working_round} reviewed claimed_row

working-OneOpen : OneOpen working_world
unfolding try_claim_cross_check
working-OneOpen = record {
  listed = λ k round there. ground arith;
  single = λ task_id j k (r, there, task, running) (s, there', task', running'). ground arith;
}

Reach-OneOpen_example : OneOpen decided_world
Reach-OneOpen_example = Reach-OneOpen reviewed working-OneOpen

abbrev give_up : CancelCommand
give_up = record { operation_id = uuid 36; expected_revision = 0; reason = 5 }

cancellable : Cancellable 300 0 working_world working_round
unfolding try_claim_cross_check find_assignee lock_users_stable
cancellable = record {
  round_row = refl;
  running = refl;
  current_revision = refl;
  task = recording;
  task_row = refl;
  assignee = some 2;
  found_assignee = refl;
  own_assignee = refl;
  people = refl;
}

cancel_cross_check-returns_example :
    (summary : Summary) × (after : World) × (cancel_cross_check 401 209
        (uuid 9)
        (uuid 300)
        46
        give_up
        working_world
      ≡ ok (summary, after))
    × (after.store.rounds 300 ≡ some (cancelled_round working_round))
    × ((k : ℕ) → works_on 70 (after.store.assignments k) ≡ false)
unfolding try_claim_cross_check validate_uuid
cancel_cross_check-returns_example =
    cancel_cross_check-returns 401 209 36 46 9 300 (uuid 9) admin_row give_up working_world
      working_round refl refl refl refl (refl, omega arith, omega arith) cancellable
