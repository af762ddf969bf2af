-- ===== src/CrossCheck/Scenario.antt =====
-- A published task, its author and a second annotator.
use egyptian_arabic_annotati.Base.{
  ℕ, true, false, ◌&&◌, none, some, List, [], ◌∷◌, ◌==◌, if◌then◌else◌, Result, ok, err,
}
use egyptian_arabic_annotati.Sessions.State.{Session, Database, SessionFence, SessionPolicy, uuid}
use egyptian_arabic_annotati.Comparison.Compare.{ComparisonResult}
use egyptian_arabic_annotati.Segments.{Segment, RawSegment, id, seconds, string}
use egyptian_arabic_annotati.Drafts.State.{
  Fault, Version, baseline, published, annotation_purpose, annotated, trainable_segments_v1, Task,
  finished, Store, Response,
}
use egyptian_arabic_annotati.CrossCheck.Inputs.{Payload, SubmitSnapshot, unavailable_result}
use egyptian_arabic_annotati.CrossCheck.Submit.{read_snapshot}
use egyptian_arabic_annotati.CrossCheck.Commit.{commit_cross_check_submit}
use egyptian_arabic_annotati.CrossCheck.Admin.{
  World, AdminSession, Settings, PoolRow, exact, Summary,
}
use egyptian_arabic_annotati.CrossCheck.Decide.{DecisionCommand, publish_secondary}
use egyptian_arabic_annotati.CrossCheck.Adjudicate.{decide_cross_check}
use egyptian_arabic_annotati.CrossCheck.Draw.{
  Fresh, Attempt, Outcome, claimed, try_claim_cross_check,
}

abbrev pub second_fence : SessionFence
second_fence = record { user_id = 2; username = 51; session_id = 901; generation = 1 }

abbrev pub policy : SessionPolicy
policy = record {
  idle_seconds = 600;
  absolute_seconds = 4000;
  presence_lease_seconds = 60;
  activity_throttle_seconds = 30;
}

abbrev pub session_row : Session
session_row = record {
  session_id = 901;
  generation = 1;
  login_time = 100;
  last_seen_at = 200;
  last_activity_at = 150;
  expires_at = 1000;
  absolute_expires_at = 5000;
}

abbrev pub accounts : Database
accounts = record {
  annotators =
      record { id = 1; username = 50; is_active = true }
      ∷ record { id = 2; username = 51; is_active = true }
      ∷ [];
  sessions = λ k. if k == 2 then some session_row else none;
  activity = λ k. none;
  events = [];
}

abbrev pub words : Segment
words = record {
  id = 1;
  start = 0;
  end = 1500000;
  duration = 1500000;
  text = 105 ∷ [];
  exclude_from_training = false;
  extra = 8;
}

abbrev pub original_version : Version
original_version = record {
  task_id = 70;
  purpose = annotation_purpose;
  base_version_id = none;
  revision = 4;
  lifecycle = published;
  human_modified = true;
  modified_by_user_id = some 1;
  credited_annotator_id = none;
  submitted_by_user_id = some 1;
  target_status = some annotated;
  skip_reasons = [];
  annotation_duration = some 1500000;
  duration_basis = some trainable_segments_v1;
  segments = words ∷ [];
  review = none;
  published_by_admin_action_id = none;
}

abbrev pub baseline_version : Version
baseline_version = record original_version {
  lifecycle = baseline;
  revision = 0;
  submitted_by_user_id = none;
  target_status = none;
  annotation_duration = none;
  duration_basis = none;
}

abbrev pub recording : Task
recording = record {
  status = finished annotated;
  current_published_version_id = some 80;
  reserved_for_user_id = none;
  duration = 1500000;
}

abbrev pub store : Store
store = record {
  accounts = accounts;
  assignments = λ k. none;
  versions = λ k.
      if k == 80 then some original_version else if k == 60 then some baseline_version else none;
  tasks = λ k. if k == 70 then some recording else none;
  rounds = λ k. none;
  operations = λ k. none;
  events = [];
}

abbrev pub settings : Settings
settings = record {
  enabled = true;
  sampling_rate_bps = 500;
  revision = 3;
  updated_by_admin_action_id = none;
}

abbrev pub admin_row : AdminSession
admin_row = record {
  key_id = 1;
  revoked_at = none;
  idle_expires_at = 900;
  absolute_expires_at = 900;
}

abbrev pub pool_row : PoolRow
pool_row = record {
  eligible = true;
  processing_token = none;
  processing_lease_until = none;
  baseline_version_id = some 60;
  baseline_quality = some exact;
}

abbrev pub world : World
world = record {
  store = store;
  task_ids = 70 ∷ [];
  version_ids = 60 ∷ 80 ∷ [];
  round_ids = [];
  pool = λ k. if k == 70 then some pool_row else none;
  participants = λ task user. task == 70 && user == 1;
  blocks = λ task user. false;
  admin_sessions = λ k. if k == 9 then some admin_row else none;
  admin_actions = λ k. none;
  action_items = [];
  settings = some settings;
}

abbrev pub fresh : Fresh
fresh = record { draft_id = 90; round_id = 300; lease_token = 7 }

abbrev pub tries : ℕ → Attempt
tries k = record {
  randrange = λ n. 0;
  task_free = λ task. true;
  author_free = λ user. true;
  fresh = fresh;
}

-- The world after a claim that succeeds.
abbrev pub claimed_world : Outcome → World
claimed_world (claimed task_id ids after) = after
claimed_world _ = world

-- The second annotator has claimed the task.
abbrev pub working_world : World
working_world =
    claimed_world
      (try_claim_cross_check (λ n. n) (λ task. true) (λ task. true) 205 2 true settings tries world)

abbrev pub dirty : List RawSegment
dirty =
    record {
      id = id 1;
      start = seconds 0;
      end = seconds 1400000;
      text = string (106 ∷ []);
      exclude_from_training = false;
    }
    ∷ []

abbrev pub digest : Payload → ℕ
digest payload = payload.revision

abbrev pub no_snapshot : SubmitSnapshot
no_snapshot = record {
  task_id = 0;
  version_id = 0;
  round_id = 0;
  original_version_id = 0;
  original_revision = 0;
  secondary_revision = 0;
  original_status = none;
  threshold_bps = 0;
  original_digest = 0;
  secondary_digest = 0;
  original_segments = [];
  merged_segments = [];
}

abbrev pub value_or : {A : Type 0} → A → Result Fault A → A
value_or default (ok a) = a
value_or default (err fault) = default

-- What the second annotator's submission reads first.
abbrev pub snapshot : SubmitSnapshot
snapshot =
    value_or no_snapshot
      (read_snapshot digest second_fence 206 (some 7) 0 dirty working_world.store)

abbrev pub store_or : Store → Result Fault (Response × Store) → Store
store_or default (ok out) = out.1
store_or default (err fault) = default

-- The submission is committed with that comparison.
abbrev pub submitted_store : ComparisonResult → Store
submitted_store comparison = store_or store (
    commit_cross_check_submit digest second_fence policy 207 annotated [] 33 44 (some 7) 0 dirty
      snapshot comparison working_world.store)

abbrev pub submitted_world : World
submitted_world = record working_world { store = submitted_store (unavailable_result 1000) }

abbrev pub command : DecisionCommand
command = record {
  operation_id = uuid 35;
  expected_revision = 1;
  expected_original_version_id = uuid 80;
  expected_secondary_version_id = uuid 90;
  choice = publish_secondary;
  reason = 5;
}

abbrev pub world_or : World → Result Fault (Summary × World) → World
world_or default (ok out) = out.1
world_or default (err fault) = default

-- An administrator takes the second version.
abbrev pub decided_world : World
decided_world =
    world_or world (decide_cross_check 91 400 208 (uuid 9) (uuid 300) 45 command submitted_world)
