-- ===== src/Drafts/Published.antt =====
-- What a publication leaves of the task and its versions.
use egyptian_arabic_annotati.Base.{
  ℕ, ◌+◌, ◌≡◌, ◌≢◌, refl, sym, ap, subst, inl, inr, false, Option, Option-cases, none, some, List,
  ◌==◌, if◌then◌else◌, arith, any, ok,
}
use egyptian_arabic_annotati.Sessions.State.{SessionPolicy, SessionFence}
use egyptian_arabic_annotati.Segments.{
  Segment, RawSegment, apply_dirty_segments, validate_segment_timeline,
}
use egyptian_arabic_annotati.Drafts.State.{
  TargetStatus, annotated, skipped, SkipReason, Assignment, AssignmentMode, Version, draft,
  published, Task, finished, Store, put, store_operation, Work, touch,
}
use egyptian_arabic_annotati.Drafts.Abandon.{delete_assignment}
use egyptian_arabic_annotati.Drafts.Complete.{
  untexted, require_texts, snapshot_annotation_duration, legacy_seconds, supersede, map_some,
  published_version, publish_versions,
}
use egyptian_arabic_annotati.Drafts.Publish.{write_published}

-- A version of the task is published.
abbrev pub IsPublished : ℕ → Version → Type 0
IsPublished task_id version = (version.task_id ≡ task_id) × (version.lifecycle ≡ published)

supersede-IsPublished :
    (task_id : ℕ) (version : Version) → IsPublished task_id (supersede task_id version) → ⊥
unfolding supersede
supersede-IsPublished task_id version (same, p) = ground arith

some_eq : {a b : Version} → ◌≡◌ {A = Option Version} (some a) (some b) → a ≡ b
some_eq e = cc

not_self :
    (a b : Option Version) {v : Version} (k version_id : ℕ)
    → k ≢ version_id
    → (if k == version_id then a else b) ≡ some v
    → b ≡ some v
not_self a b k version_id differs e = ground arith

supersede-other :
    (task_id : ℕ) (old : Option Version) {version : Version}
    → map_some (supersede task_id) old ≡ some version
    → IsPublished task_id version
    → ⊥
supersede-other task_id none e p = cc
supersede-other task_id (some v) e p =
    supersede-IsPublished task_id v (subst (IsPublished task_id) (sym (some_eq e)) p)

-- What the publication of a draft requires of it.
abbrev pub Publishable :
    Work
    → (expected_revision : ℕ) → TargetStatus
    → List RawSegment
    → Store
    → Version
    → List Segment
    → Task
    → Type 0
Publishable work expected_revision target_status dirty store version rows task =
    (store.versions work.assignment.working_version_id ≡ some version)
    × (version.revision ≡ expected_revision)
    × (version.lifecycle ≡ draft)
    × (apply_dirty_segments dirty version.segments ≡ ok rows)
    × (store.tasks work.assignment.task_id ≡ some task)
    × (validate_segment_timeline rows task.duration ≡ ok tt)
    × (target_status ≡ annotated → any untexted rows ≡ false)

-- What it leaves.
abbrev pub IsLeft :
    (user_id : ℕ)
    → Assignment
    → (expected_revision : ℕ) → TargetStatus
    → List Segment
    → Store
    → Type 0
IsLeft user_id assignment expected_revision target_status rows after =
    ((v : Version) × (after.versions assignment.working_version_id ≡ some v)
      × (v.lifecycle ≡ published)
      × (v.segments ≡ rows)
      × (v.revision ≡ expected_revision + 1))
    × ((k : ℕ) (v : Version)
        → k ≢ assignment.working_version_id
        → after.versions k ≡ some v
        → IsPublished assignment.task_id v
        → ⊥)
    × ((t : Task) × (after.tasks assignment.task_id ≡ some t)
        × (t.status ≡ finished target_status)
        × (t.current_published_version_id ≡ some assignment.working_version_id))
    × (after.assignments user_id ≡ none)

pub require_texts-annotated :
    (target_status : TargetStatus) (rows : List Segment)
    → require_texts target_status rows ≡ ok tt
    → target_status ≡ annotated
    → any untexted rows ≡ false
unfolding require_texts
require_texts-annotated annotated rows e same = ground arith
require_texts-annotated skipped rows e same = absurd (cc same)

-- The version that the snapshot returns is a draft with the same text.
pub snapshot-draft :
    (user_id : ℕ) (mode : AssignmentMode) (target_status : TargetStatus) (rows : List Segment)
    (version : Version) (store : Store) {frozen : Version}
    → snapshot_annotation_duration user_id mode target_status rows version store ≡ ok frozen
    → (version.lifecycle ≡ draft) × (frozen.revision ≡ version.revision)
unfolding snapshot_annotation_duration
snapshot-draft user_id mode target_status rows version store e =
    elim (Option-cases (legacy_seconds user_id mode version store)) [
      | inl fresh ↦ (ground (arith, fresh), ground (arith, fresh))
      | inr (seconds, legacy) ↦ (ground (arith, legacy), ground (arith, legacy))
    ]

pub write_published-IsLeft :
    (fence : SessionFence) (policy : SessionPolicy) (now operation_id request_hash : ℕ)
    (work : Work) (task : Task) (target_status : TargetStatus) (reasons : List SkipReason)
    (rows : List Segment) (frozen : Version) (store : Store) (expected_revision : ℕ)
    → frozen.revision ≡ expected_revision
    → IsLeft fence.user_id work.assignment expected_revision target_status rows
        (write_published fence policy now operation_id request_hash work task target_status reasons
          (published_version fence.user_id target_status reasons rows frozen)
          store).1
unfolding write_published publish_versions put store_operation delete_assignment touch
    published_version
write_published-IsLeft fence policy now operation_id request_hash work task target_status reasons
      rows frozen store expected_revision same =
    (
      (
        published_version fence.user_id target_status reasons rows frozen,
        ground arith,
        refl,
        refl,
        ap (λ r. r + 1) same,
      ),
      λ k v differs e.
          supersede-other work.assignment.task_id (store.versions k)
            (not_self _ _ k work.assignment.working_version_id differs e),
      (
        record task {
          status = finished target_status;
          current_published_version_id = some work.assignment.working_version_id;
          reserved_for_user_id = none;
        },
        ground arith,
        refl,
        refl,
      ),
      ground arith,
    )
