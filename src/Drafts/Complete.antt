-- ===== src/Drafts/Complete.antt =====
-- `complete` for an assignment that publishes, and annotation_duration.py, for a request that brings
-- no scene review. In the cross-check mode the transaction ends without a write and the submission
-- goes on in annotation_quality/service.py.
use egyptian_arabic_annotati.Base.{
  ℕ, ◌+◌, Bool, true, false, not, ◌&&◌, Option, none, some, List, [], ◌∷◌, map, ◌==◌, leb,
  if◌then◌else◌, any, filter, sort, Result, ok, err, ◌>>◌, raise_if,
}
use egyptian_arabic_annotati.Comparison.Types.{Text}
use egyptian_arabic_annotati.Segments.{Segment}
use egyptian_arabic_annotati.Drafts.State.{
  Fault, bad_target_status, no_skip_reason, invalid_skip_reason, no_unsubmitted_draft,
  empty_segments, TargetStatus, annotated, skipped, SkipReason, other_reason, annotation_purpose,
  cross_check_purpose, adjudication_purpose, DurationBasis, legacy_audio_v1, trainable_segments_v1,
  AssignmentMode, revision, Version, Lifecycle, draft, published, superseded, Store,
}

-- `target_status` as the request gives it.
pub data RawStatus : Type 0 where
  known : TargetStatus → RawStatus
  unknown : RawStatus

unfoldable pub parse_status : RawStatus → Result Fault TargetStatus
parse_status (known status) = ok status
parse_status unknown = err bad_target_status

-- `ALLOWED_SKIP_REASONS`
unfoldable pub disallowed : SkipReason → Bool
disallowed (other_reason r) = true
disallowed reason = false

abbrev pub no_reasons : List SkipReason → Bool
no_reasons [] = true
no_reasons (r ∷ rs) = false

unfoldable pub checked_reasons : TargetStatus → List SkipReason → Result Fault (List SkipReason)
unfolding any disallowed
checked_reasons annotated reasons = ok []
checked_reasons skipped reasons = do
  raise_if (no_reasons reasons) no_skip_reason
  raise_if (any disallowed reasons) invalid_skip_reason
  ok reasons

-- `btrim(text) = ''`: only spaces are trimmed.
unfoldable pub is_blank : Text → Bool
is_blank [] = true
is_blank (c ∷ text) = c == 32 && is_blank text

unfoldable pub untexted : Segment → Bool
unfolding is_blank
untexted row = not row.exclude_from_training && is_blank row.text

-- The segments that an annotated version may not have.
unfoldable pub require_texts : TargetStatus → List Segment → Result Fault (Unit {0})
unfolding any untexted filter sort
require_texts skipped rows = ok tt
require_texts annotated rows =
    raise_if (any untexted rows)
      (empty_segments (sort leb (map (λ row. row.id) (filter untexted rows))))

abbrev pub or_else {ℓ} : {A : Type ℓ} → Option A → Option A → Option A
or_else (some a) other = some a
or_else none other = other

unfoldable pub is_legacy : Option DurationBasis → Bool
is_legacy (some legacy_audio_v1) = true
is_legacy _ = false

unfoldable pub same_user : Option ℕ → ℕ → Bool
same_user none user_id = false
same_user (some credited) user_id = credited == user_id

-- The duration that a revision by the credited annotator keeps.
unfoldable pub legacy_seconds : (user_id : ℕ) → AssignmentMode → Version → Store → Option ℕ
unfolding is_legacy same_user
legacy_seconds user_id revision version store = elim version.purpose [
  | cross_check_purpose ↦ none
  | adjudication_purpose ↦ none
  | annotation_purpose ↦ elim version.base_version_id [
    | none ↦ none
    | some base_id ↦ elim (store.versions base_id) [
      | none ↦ none
      | some base ↦
          if base.task_id == version.task_id
            && (same_user (or_else base.credited_annotator_id base.submitted_by_user_id) user_id
                && is_legacy base.duration_basis)
          then base.annotation_duration
          else none
    ]
  ]
]
legacy_seconds user_id mode version store = none

-- `SELECT sum(s.duration) … NOT s.exclude_from_training`
unfoldable pub trainable_duration : List Segment → ℕ
trainable_duration [] = 0
trainable_duration (row ∷ rows) =
    let rest = trainable_duration rows in
    if row.exclude_from_training then rest else row.duration + rest

abbrev pub credited : TargetStatus → List Segment → ℕ
credited annotated rows = trainable_duration rows
credited skipped rows = 0

abbrev pub is_unsubmitted : Lifecycle → Option ℕ → Bool
is_unsubmitted draft none = true
is_unsubmitted _ _ = false

-- `snapshot_annotation_duration`
unfoldable pub snapshot_annotation_duration :
    (user_id : ℕ)
    → AssignmentMode
    → TargetStatus
    → List Segment
    → Version
    → Store
    → Result Fault Version
unfolding legacy_seconds trainable_duration
snapshot_annotation_duration user_id mode target_status rows version store = do
  raise_if (not (is_unsubmitted version.lifecycle version.annotation_duration)) no_unsubmitted_draft
  ok (elim (legacy_seconds user_id mode version store) [
    | some seconds ↦ record version {
      annotation_duration = some seconds;
      duration_basis = some legacy_audio_v1;
    }
    | none ↦ record version {
      annotation_duration = some (credited target_status rows);
      duration_basis = some trainable_segments_v1;
    }
  ])

-- `SET lifecycle = 'superseded' WHERE task_id = … AND lifecycle = 'published'`
unfoldable pub supersede : (task_id : ℕ) → Version → Version
supersede task_id version =
    if version.task_id == task_id
    then elim version.lifecycle [
      | published ↦ record version { lifecycle = superseded }
      | _ ↦ version
    ]
    else version

abbrev pub map_some {ℓ} : {A : Type ℓ} → (A → A) → Option A → Option A
map_some f none = none
map_some f (some a) = some (f a)

-- The columns that the publication sets.
unfoldable pub published_version :
    (user_id : ℕ) → TargetStatus → List SkipReason → List Segment → Version → Version
published_version user_id target_status reasons rows version = record version {
  lifecycle = published;
  target_status = some target_status;
  skip_reasons = reasons;
  revision = version.revision + 1;
  human_modified = true;
  modified_by_user_id = some user_id;
  submitted_by_user_id = some user_id;
  segments = rows;
}

unfoldable pub publish_versions :
    (task_id version_id : ℕ) → Version → (ℕ → Option Version) → ℕ → Option Version
unfolding supersede
publish_versions task_id version_id version versions k =
    if k == version_id then some version else map_some (supersede task_id) (versions k)
