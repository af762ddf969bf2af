-- ===== src/CrossCheck/Inputs.antt =====
-- What the comparison of a cross check reads: the digest of one input, and `_run_comparison`. The
-- digest (SHA-256 of a JSON text) is a parameter, a function of what it is taken of.
use egyptian_arabic_annotati.Base.{
  ℕ, Bool, true, false, ◌&&◌, ◌||◌, Option, none, some, List, [], ◌∷◌, map, ltb, leb, ◌==◌, sort,
  ok, err,
}
use egyptian_arabic_annotati.Comparison.Types.{Text}
use egyptian_arabic_annotati.Comparison.Unicode.{Unicode}
use egyptian_arabic_annotati.Comparison.Compare.{
  RawSegment as ComparedSegment, str, ComparisonResult, comparison_unavailable, compute_failure,
  compare_transcripts, codes,
}
use egyptian_arabic_annotati.Segments.{Segment}
use egyptian_arabic_annotati.Drafts.State.{TargetStatus, annotated, skipped}

-- What the digest keeps of a segment.
pub record Entry : Type 0 where
  pub id : ℕ
  pub start : ℕ
  pub end : ℕ
  pub text : Text
  pub exclude_from_training : Bool

-- What the digest is taken of. A status of `none` is `"pending"`.
pub record Payload : Type 0 where
  pub version_id : ℕ
  pub revision : ℕ
  pub status : Option TargetStatus
  pub segments : List Entry

abbrev pub entry_of : Segment → Entry
entry_of row = record {
  id = row.id;
  start = row.start;
  end = row.end;
  text = row.text;
  exclude_from_training = row.exclude_from_training;
}

-- The order of `(id, start)`.
abbrev pub id_before : Segment → Segment → Bool
id_before a b = ltb a.id b.id || (a.id == b.id && leb a.start b.start)

-- The segments as the digest lists them.
unfoldable pub entries : List Segment → List Entry
unfolding sort
entries segments = map entry_of (sort id_before segments)

-- The argument of the digest in `_comparison_input_digest`.
unfoldable pub digest_payload :
    List Segment → Option TargetStatus → (version_id revision : ℕ) → Payload
unfolding entries
digest_payload segments status version_id revision = record {
  version_id = version_id;
  revision = revision;
  status = status;
  segments = entries segments;
}

-- A segment as `_load_segments` gives it to the comparison.
abbrev pub compared : Segment → ComparedSegment
compared row = record {
  segment_id = none;
  id = some row.id;
  start_s = none;
  start = some row.start;
  end_s = none;
  end_at = some row.end;
  text = str row.text;
  exclude_from_training = row.exclude_from_training;
}

unfoldable pub status_text : Option TargetStatus → Text
status_text none = codes "pending"
status_text (some annotated) = codes "annotated"
status_text (some skipped) = codes "skipped"

-- `_unavailable_result`
unfoldable pub unavailable_result : (threshold_bps : ℕ) → ComparisonResult
unavailable_result threshold_bps = record {
  threshold_bps = threshold_bps;
  n_original = none;
  n_secondary = none;
  edit_distance = none;
  substitutions = none;
  insertions = none;
  deletions = none;
  word_difference_rate = none;
  needs_word_review = false;
  needs_review = true;
  reason_codes = comparison_unavailable ∷ [];
  ops = [];
  original_bad_quality = [];
  secondary_bad_quality = [];
  original_normalized = none;
  secondary_normalized = none;
  unavailable = some compute_failure;
}

-- `_SubmitSnapshot`; its two digests are numbers.
pub record SubmitSnapshot : Type 0 where
  pub task_id : ℕ
  pub version_id : ℕ
  pub round_id : ℕ
  pub original_version_id : ℕ
  pub original_revision : ℕ
  pub secondary_revision : ℕ
  pub original_status : Option TargetStatus
  pub threshold_bps : ℕ
  pub original_digest : ℕ
  pub secondary_digest : ℕ
  pub original_segments : List Segment
  pub merged_segments : List Segment

module _ (u : Unicode) (memory : ℕ → Bool) where
  -- `_run_comparison`
  unfoldable pub run_comparison :
      SubmitSnapshot → (secondary_status : TargetStatus) → ComparisonResult
  unfolding status_text unavailable_result
  run_comparison snapshot secondary_status =
      elim (compare_transcripts u memory (map compared snapshot.original_segments)
        (map compared snapshot.merged_segments) (status_text snapshot.original_status)
        (status_text (some secondary_status)) snapshot.threshold_bps) [
          | ok result ↦ result
          | err fault ↦ unavailable_result snapshot.threshold_bps
        ]
