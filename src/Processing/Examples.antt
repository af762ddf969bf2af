-- ===== src/Processing/Examples.antt =====
-- Two workers and one task.
use egyptian_arabic_annotati.Base.{
  ℕ, ◌<◌, ◌≡◌, ◌≢◌, refl, Option, none, some, [], ◌∷◌, false, any, if◌then◌else◌, ok, err, ◌==◌,
}
use egyptian_arabic_annotati.Processing.{
  conflict_error, uuid, Task, Tasks, put, clear_lease, acquire_processing_lease,
  renew_processing_lease, require_processing_token, complete_processing,
  try_release_processing_lease, lease_active,
}
use egyptian_arabic_annotati.Processing.Outcomes.{
  granted, renewed, active_lease-excludes, acquired_lease-usable,
}
use egyptian_arabic_annotati.Processing.Fencing.{
  acquired, Reachable, started, then_step, superseded_token-fenced,
}

abbrev idle_row : Task
idle_row = record {
  processing_token = none;
  processing_lease_until = none;
  processing_version = 4;
  updated_at = 0;
}

abbrev idle : Tasks
idle k = if k == 7 then some idle_row else none

abbrev taken : Tasks
taken = put idle 7 (granted 11 30 100 idle_row)

abbrev second_row : Task
second_row = granted 12 30 200 (granted 11 30 100 idle_row)

two_takers :
    Reachable 7
      (record { tasks = idle; issued = [] })
      (record { tasks = put taken 7 second_row; issued = 12 ∷ 11 ∷ [] })
unfolding acquire_processing_lease put lease_active any
two_takers =
    then_step (then_step started (acquired 30 11 100 none refl refl))
      (acquired 30 12 200 (some 5) refl refl)

active_lease-excludes_example :
    ((fresh : ℕ) (expected : Option ℕ)
      → acquire_processing_lease 7 30 expected fresh 120 taken ≡ err conflict_error)
    × (renew_processing_lease 7 (uuid 12) 30 120 taken ≡ err conflict_error)
    × (require_processing_token 7 (some (uuid 12)) 120 taken ≡ err conflict_error)
    × (complete_processing 7 (some (uuid 12)) 120 taken ≡ err conflict_error)
    × (require_processing_token 7 none 120 taken ≡ err conflict_error)
    × (complete_processing 7 none 120 taken ≡ err conflict_error)
    × (try_release_processing_lease 7 (some (uuid 12)) 120 taken ≡ ok (false, taken))
unfolding put lease_active
active_lease-excludes_example = active_lease-excludes 7 30 120 taken refl refl 12 (λ e. cc)

acquired_lease-usable_example :
    (tasks' : Tasks) × (acquire_processing_lease 7 30 (some 4) 11 100 idle
      ≡ ok (record { token = 11; processing_version = 5 }, tasks'))
    × ((later : ℕ)
        → later < 130
        → (require_processing_token 7 (some (uuid 11)) later tasks' ≡ ok 5)
          × (renew_processing_lease 7 (uuid 11) 30 later tasks'
              ≡ ok (put tasks' 7 (renewed 30 later (granted 11 30 100 idle_row))))
          × (complete_processing 7 (some (uuid 11)) later tasks'
              ≡ ok (put tasks' 7 (clear_lease (granted 11 30 100 idle_row) later))))
    × ((k : ℕ) → k ≢ 7 → tasks' k ≡ idle k)
unfolding lease_active
acquired_lease-usable_example = acquired_lease-usable 7 30 100 11 (some 4) idle refl refl refl

superseded_token-fenced_example :
    (renew_processing_lease 7 (uuid 11) 30 210 (put taken 7 second_row) ≡ err conflict_error)
    × (require_processing_token 7 (some (uuid 11)) 210 (put taken 7 second_row)
        ≡ err conflict_error)
    × (complete_processing 7 (some (uuid 11)) 210 (put taken 7 second_row) ≡ err conflict_error)
    × (try_release_processing_lease 7 (some (uuid 11)) 210 (put taken 7 second_row)
        ≡ ok (false, put taken 7 second_row))
unfolding any
superseded_token-fenced_example =
    superseded_token-fenced {start = idle} {row = idle_row} refl refl two_takers refl 11 210 30 refl
