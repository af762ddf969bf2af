-- ===== src/Drafts/Examples.antt =====
-- One annotator with an assigned task.
use egyptian_arabic_annotati.Base.{
  ℕ, ◌≡◌, ◌≢◌, refl, true, false, none, some, List, [], ◌∷◌, ◌==◌, if◌then◌else◌, ok, err,
}
use egyptian_arabic_annotati.Sessions.State.{
  Session, Database, SessionFence, SessionPolicy, uuid, lock_active_annotator,
}
use egyptian_arabic_annotati.Sessions.Fence.{require_session_fence}
use egyptian_arabic_annotati.Segments.{
  overlaps, too_long, rounded_duration, Segment, RawSegment, id, seconds, string,
  apply_dirty_segments,
}
use egyptian_arabic_annotati.Drafts.State.{
  revision_conflict, Assignment, annotation, Version, draft, Store, saved, gave_up, Work,
  other_lease, Task, annotated, trainable_segments_v1, completed, lock_assignment, pending,
  annotation_purpose, abandon_route, abandoned_event,
}
use egyptian_arabic_annotati.Drafts.Save.{save_draft, write_save}
use egyptian_arabic_annotati.Drafts.Abandon.{abandon}
use egyptian_arabic_annotati.Drafts.Once.{save_draft-once}
use egyptian_arabic_annotati.Drafts.Conflicts.{save_draft-effect, save_draft-stale}
use egyptian_arabic_annotati.Drafts.Complete.{published_version}
use egyptian_arabic_annotati.Drafts.Publish.{complete, write_published}
use egyptian_arabic_annotati.Drafts.Publication.{Done, complete-publishes}
use egyptian_arabic_annotati.Drafts.Release.{Kept, abandon-releases}

abbrev fence : SessionFence
fence = record { user_id = 1; username = 50; session_id = 900; generation = 3 }

abbrev policy : SessionPolicy
policy = record {
  idle_seconds = 600;
  absolute_seconds = 4000;
  presence_lease_seconds = 60;
  activity_throttle_seconds = 30;
}

abbrev row : Session
row = record {
  session_id = 900;
  generation = 3;
  login_time = 100;
  last_seen_at = 200;
  last_activity_at = 150;
  expires_at = 1000;
  absolute_expires_at = 5000;
}

abbrev accounts : Database
accounts = record {
  annotators = record { id = 1; username = 50; is_active = true } ∷ [];
  sessions = λ k. if k == 1 then some row else none;
  activity = λ k. if k == 1 then some 150 else none;
  events = [];
}

abbrev task : Assignment
task = record {
  task_id = 70;
  working_version_id = 80;
  mode = annotation;
  lease_token = 5;
  cross_check_round_id = none;
}

abbrev words : Segment
words = record {
  id = 1;
  start = 0;
  end = 1500000;
  duration = 1500000;
  text = [];
  exclude_from_training = false;
  extra = 8;
}

abbrev version : Version
version = record {
  task_id = 70;
  purpose = annotation_purpose;
  base_version_id = none;
  credited_annotator_id = none;
  submitted_by_user_id = none;
  target_status = none;
  skip_reasons = [];
  annotation_duration = none;
  duration_basis = none;
  revision = 4;
  lifecycle = draft;
  human_modified = false;
  modified_by_user_id = none;
  segments = words ∷ [];
  review = none;
  published_by_admin_action_id = none;
}

abbrev recording : Task
recording = record {
  status = pending;
  current_published_version_id = none;
  reserved_for_user_id = some 1;
  duration = 1500000;
}

abbrev store : Store
store = record {
  accounts = accounts;
  assignments = λ k. if k == 1 then some task else none;
  versions = λ k. if k == 80 then some version else none;
  tasks = λ k. if k == 70 then some recording else none;
  rounds = λ k. none;
  operations = λ k. none;
  events = [];
}

abbrev dirty : List RawSegment
dirty =
    record {
      id = id 1;
      start = seconds 0;
      end = seconds 1400000;
      text = string (105 ∷ []);
      exclude_from_training = false;
    }
    ∷ []

abbrev edited_words : List Segment
edited_words =
    record {
      id = 1;
      start = 0;
      end = 1400000;
      duration = 1400000;
      text = 105 ∷ [];
      exclude_from_training = false;
      extra = 8;
    }
    ∷ []

abbrev after : Store
after = (write_save fence policy 210 33 44 80 version edited_words store).1

saves : save_draft fence policy 210 (some 5) 4 dirty (uuid 33) 44 store ≡ ok (saved 5 none, after)
unfolding save_draft write_save rounded_duration
saves = refl

save_draft-once_example :
    save_draft fence policy 300 (some 5) 4 dirty (uuid 33) 44 after ≡ ok (saved 5 none, after)
unfolding write_save lock_active_annotator require_session_fence
save_draft-once_example =
    save_draft-once fence fence policy 210 300 (some 5) (some 5) 4 4 dirty dirty 33 44 store saves
      refl refl refl

save_draft-effect_example :
    (work : Work) × (version : Version) × (segments : List Segment) × (require_session_fence fence
        210 store.accounts
      ≡ ok tt)
    × (store.assignments 1 ≡ some work.assignment)
    × (other_lease (some 5) work.assignment ≡ false)
    × (store.versions work.assignment.working_version_id ≡ some version)
    × (version.revision ≡ 4)
    × (apply_dirty_segments dirty version.segments ≡ ok segments)
    × (saved 5 none ≡ saved 5 version.review)
    × (after.versions work.assignment.working_version_id
        ≡ some (record version {
          revision = 5;
          human_modified = true;
          modified_by_user_id = some 1;
          segments = segments;
        }))
    × ((k : ℕ) → k ≢ work.assignment.working_version_id → after.versions k ≡ store.versions k)
save_draft-effect_example =
    save_draft-effect fence policy 210 (some 5) 4 dirty 33 44 store refl saves

-- Another window sends its own edit of revision 4.
save_draft-stale_example :
    save_draft fence policy 300 (some 5) 4 [] (uuid 34) 45 after ≡ err (revision_conflict 5)
unfolding write_save lock_active_annotator require_session_fence
save_draft-stale_example =
    save_draft-stale fence policy 210 (some 5) 4 dirty 33 44 store fence 300 [] 34 45 refl saves
      refl refl refl refl

-- What the user leaves behind at 210.
abbrev left_behind : Store
left_behind = record store {
  accounts = record accounts {
    sessions = λ k.
        if k == 1
        then some (record row { last_seen_at = 210; last_activity_at = 210; expires_at = 810 })
        else if k == 1
        then some row
        else none;
    activity = λ k. if k == 1 then none else if k == 1 then some 150 else none;
  };
  assignments = λ k. if k == 1 then none else if k == 1 then some task else none;
  operations = λ k.
      if k == 35
      then some
          (record { user_id = 1; route = abandon_route; request_hash = 5; response = gave_up })
      else none;
  events =
      record {
        operation_id = some 35;
        user_id = some 1;
        admin_action_id = none;
        task_id = 70;
        version_id = 80;
        kind = abandoned_event;
        from_status = pending;
      }
      ∷ [];
}

abandon-releases_example :
    (assignment : Assignment) × (store.assignments 1 ≡ some assignment)
    × (assignment.lease_token ≡ 5)
    × (left_behind.assignments 1 ≡ none)
    × ((user_id : ℕ) → user_id ≢ 1 → left_behind.assignments user_id ≡ store.assignments user_id)
    × ((k : ℕ) (version : Version)
        → store.versions k ≡ some version
        → Kept version (left_behind.versions k))
unfolding abandon
abandon-releases_example =
    abandon-releases (λ n. n) fence policy 210 5 35 store {response = gave_up} {after = left_behind}
      refl refl

abbrev frozen : Version
frozen = record version {
  annotation_duration = some 1400000;
  duration_basis = some trainable_segments_v1;
}

-- What the completion of the task at 210 leaves.
abbrev finished_store : Store
finished_store =
    (write_published fence policy 210 36 46 (record { assignment = task; task_status = pending })
      recording annotated [] (published_version 1 annotated [] edited_words frozen) store).1

complete-publishes_example :
    (work : Work) × (require_session_fence fence 210 store.accounts ≡ ok tt)
    × (lock_assignment 1 (some 5) store ≡ ok work)
    × Done fence policy 210 4 annotated dirty 36 46 store work finished_store
unfolding complete write_published overlaps too_long rounded_duration
complete-publishes_example =
    complete-publishes fence policy 210 4 annotated dirty 36 46 store (some 5) []
      {response = completed 70 annotated [] none} {after = finished_store} refl refl
