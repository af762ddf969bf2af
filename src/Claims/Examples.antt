-- ===== src/Claims/Examples.antt =====
-- A second annotator claims a pending task that is in the pool beside one to cross-check.
use egyptian_arabic_annotati.Base.{
  ℕ, ◌≡◌, ◌≢◌, ◌⊎◌, refl, true, none, some, [], ◌∷◌, ◌==◌, if◌then◌else◌, Result, ok, err,
}
use egyptian_arabic_annotati.Drafts.State.{
  Fault, annotation, Assignment, Version, draft, Task, pending,
}
use egyptian_arabic_annotati.CrossCheck.Admin.{World}
use egyptian_arabic_annotati.CrossCheck.Rounds.{find_assignee}
use egyptian_arabic_annotati.CrossCheck.Scenario.{
  world, store, policy, second_fence, baseline_version, recording, pool_row, tries,
}
use egyptian_arabic_annotati.Claims.{Sources, Try, claim}
use egyptian_arabic_annotati.Claims.Assigned.{claim-assigns}

abbrev fresh_draft : Version
fresh_draft = record baseline_version { task_id = 71; lifecycle = draft }

abbrev fresh_task : Task
fresh_task = record recording { status = pending; current_published_version_id = none }

abbrev pool_world : World
pool_world = record world {
  store = record store {
    versions = λ k. if k == 61 then some fresh_draft else store.versions k;
    tasks = λ k. if k == 71 then some fresh_task else store.tasks k;
  };
  task_ids = 71 ∷ 70 ∷ [];
  version_ids = 60 ∷ 80 ∷ 61 ∷ [];
  pool = λ k. if k == 71 then some pool_row else world.pool k;
}

abbrev pool_sources : Sources
pool_sources = record {
  can_claim = true;
  scope_allows = true;
  matches = λ task. true;
  bands = (λ task. true) ∷ [];
  reserved_order = [];
}

abbrev one_try : Try
one_try = record { free = λ task. true; still = λ task. true; lease_token = 8 }

abbrev run : Result Fault (Assignment × World)
run =
    claim pool_sources (λ n. n) (λ task. true) second_fence policy 205 one_try (λ k. one_try) tries
      (λ n. 9999) pool_world

abbrev answered : Assignment
answered = record {
  task_id = 71;
  working_version_id = 61;
  mode = annotation;
  lease_token = 8;
  cross_check_round_id = none;
}

abbrev world_or : World → Result Fault (Assignment × World) → World
world_or default (ok out) = out.1
world_or default (err fault) = default

abbrev run_world : World
run_world = world_or pool_world run

runs : run ≡ ok (answered, run_world)
unfolding claim
runs = refl

claim-assigns_example :
    (run_world.store.assignments 2 ≡ some answered)
    × (((pool_world.store.assignments 2 ≡ some answered)
          × (run_world.store.assignments ≡ pool_world.store.assignments))
        ⊎ ((pool_world.store.assignments 2 ≡ none)
            × (find_assignee 71 pool_world.store.accounts.annotators pool_world.store ≡ none)
            × ((k : ℕ) → k ≢ 2 → run_world.store.assignments k ≡ pool_world.store.assignments k)))
claim-assigns_example =
    claim-assigns pool_sources (λ n. n) (λ task. true) second_fence policy 205 one_try
      (λ k. one_try) tries (λ n. 9999) pool_world runs
