-- ===== src/CrossCheck/Claim.antt =====
-- annotation_quality/claiming.py and `create_cross_check_claim`: a second annotator gets a published
-- task. A claim's transaction is one step here, so that what the code guards against a change between
-- two of its statements is a row that another transaction has locked.
use egyptian_arabic_annotati.Base.{
  ℕ, Bool, true, false, not, ◌&&◌, ◌||◌, Option, none, some, any, ltb, ◌==◌, if◌then◌else◌,
}
use egyptian_arabic_annotati.Sessions.State.{find_id}
use egyptian_arabic_annotati.Drafts.State.{
  annotated, Version, baseline, published, Task, finished, Round, RoundState, passed, adjudicated,
  cancelled, invalidated, Decision, original, secondary, edited,
}
use egyptian_arabic_annotati.CrossCheck.Admin.{World, PoolRow, is_none}
use egyptian_arabic_annotati.CrossCheck.Rounds.{find_draft, find_assignee}
use egyptian_arabic_annotati.CrossCheck.Cancel.{find_open_round}

-- `processing_token IS NULL OR processing_lease_until IS NULL OR processing_lease_until <= now()`
unfoldable pub is_processing : (now : ℕ) → PoolRow → Bool
is_processing now row = elim row.processing_token [
  | none ↦ false
  | some token ↦ elim row.processing_lease_until [ none ↦ false | some until ↦ ltb now until ]
]

-- A round that leaves its original version covered: `state NOT IN ('cancelled', 'invalidated')`.
abbrev pub is_covering : RoundState → Bool
is_covering cancelled = false
is_covering invalidated = false
is_covering _ = true

abbrev pub is_resolved : RoundState → Bool
is_resolved passed = true
is_resolved adjudicated = true
is_resolved _ = false

abbrev pub final_version : Option Decision → Option ℕ
final_version none = none
final_version (some (original k)) = some k
final_version (some (secondary k)) = some k
final_version (some (edited k)) = some k

abbrev pub is_id : Option ℕ → ℕ → Bool
is_id none id = false
is_id (some id') id = id' == id

-- A round that has checked the version, as its original or as what was made of it.
abbrev pub checks : (version_id : ℕ) → Option Round → Bool
checks version_id none = false
checks version_id (some round) =
    round.original_version_id == version_id && is_covering round.state
    || (is_id (final_version round.decision) version_id && is_resolved round.state)

-- The published version that the second annotator is to check, with its author and its baseline.
pub record Candidate : Type 0 where
  pub task_id : ℕ
  pub task : Task
  pub original_version_id : ℕ
  pub original_annotator_id : ℕ
  pub baseline_version_id : ℕ
  pub baseline : Version

-- What the two joins on the published version and its author give.
unfoldable pub published_by : Version → Option ℕ
published_by version = elim version.lifecycle [
  | published ↦ elim version.target_status [
    | some annotated ↦ version.submitted_by_user_id
    | _ ↦ none
  ]
  | _ ↦ none
]

abbrev pub is_baseline : Version → Bool
is_baseline version = elim version.lifecycle [ baseline ↦ true | _ ↦ false ]

abbrev pub is_annotated : Task → Bool
is_annotated task = elim task.status [ finished annotated ↦ true | _ ↦ false ]

abbrev pub keep_if {ℓ} : {A : Type ℓ} → Bool → Option A → Option A
keep_if test o = if test then o else none

infixl 5 ◌>>=◌
abbrev pub ◌>>=◌ {ℓ κ} : {A : Type ℓ} {B : Type κ} → Option A → (A → Option B) → Option B
some a >>= f = f a
none >>= f = none

module _ (matches : ℕ → Bool) (now user_id : ℕ) (world : World) where
  -- The conditions of `_candidate_sql` on the other tables.
  unfoldable pub is_free : (task_id version_id : ℕ) → Bool
  unfolding find_assignee find_draft find_open_round any
  is_free task_id version_id =
      is_none (find_assignee task_id world.store.accounts.annotators world.store)
      && (is_none (find_draft task_id world.version_ids world.store)
          && (is_none (find_open_round task_id world.round_ids world.store)
              && (not (world.participants task_id user_id)
                  && (not (world.blocks task_id user_id)
                      && (not (any (λ k. checks version_id (world.store.rounds k)) world.round_ids)
                          && matches task_id)))))

  -- The FROM of `_candidate_sql`, on one task.
  unfoldable pub joined : (task_id : ℕ) → Option (Candidate × PoolRow)
  unfolding published_by find_id
  joined task_id = do
    task ← world.store.tasks task_id
    row ← world.pool task_id
    version_id ← task.current_published_version_id
    version ← world.store.versions version_id
    author ← published_by version
    orig ← find_id author world.store.accounts.annotators
    baseline_id ← row.baseline_version_id
    base ← world.store.versions baseline_id
    some (
      record {
        task_id = task_id;
        task = task;
        original_version_id = version_id;
        original_annotator_id = author;
        baseline_version_id = baseline_id;
        baseline = base;
      },
      row,
    )

  -- Its WHERE.
  unfoldable pub is_candidate : Candidate → PoolRow → Bool
  unfolding is_processing is_free
  is_candidate found row =
      not (found.original_annotator_id == user_id)
      && (is_free found.task_id found.original_version_id
          && (row.eligible
              && (not (is_none row.baseline_quality)
                  && (is_annotated found.task
                      && (is_none found.task.reserved_for_user_id
                          && (not (is_processing now row) && is_baseline found.baseline))))))

  unfoldable pub candidate : (task_id : ℕ) → Option Candidate
  unfolding joined is_candidate
  candidate task_id = do
    (found, row) ← joined task_id
    keep_if (is_candidate found row) (some found)
