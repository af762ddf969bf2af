-- ===== src/Comparison/Compare/Examples.antt =====
-- Comparisons of short ASCII transcripts, and the theorems at them.
use egyptian_arabic_annotati.Base.{
  ◌↔◌, true, ℕ, ◌≡◌, refl, Bool, false, ltb, List, [], ◌∷◌, none, some, any, text_eq, ok, Returns,
}
use egyptian_arabic_annotati.Comparison.Types.{Text, Segment, Token}
use egyptian_arabic_annotati.Comparison.Ascii.{ascii}
use egyptian_arabic_annotati.Comparison.Tokens.{tokenize_transcript}
use egyptian_arabic_annotati.Comparison.BadQuality.Coverage.{marks}
use egyptian_arabic_annotati.Comparison.BadQuality.{bad_quality_union}
use egyptian_arabic_annotati.Comparison.Compare.{
  str, RawSegment, ComparisonResult, Reason, among, codes, status_conflict, compare_segments,
  compare_transcripts, first_present,
}
use egyptian_arabic_annotati.Comparison.Compare.Reasons.{compare_segments-reasons, Applies}
use egyptian_arabic_annotati.Comparison.Compare.Verdicts.{compare_segments_same}
use egyptian_arabic_annotati.Comparison.Compare.Total.{
  compare_transcripts-IsFair, IsComplete, IsFair,
}

abbrev enough : ℕ → Bool
enough cells = ltb cells 100

abbrev no_memory : ℕ → Bool
no_memory cells = false

abbrev segment : Text → ℕ → Segment
segment text end_at = record {
  segment_id = 1;
  start_s = 0;
  end_s = end_at;
  text = text;
  exclude_from_training = false;
}

abbrev token : Text → ℕ → ℕ → ℕ → Token
token word start end_at time = record {
  word = word;
  mapping = record {
    segment_id = 1;
    text_start = start;
    text_end = end_at;
    start_s = 0;
    end_s = time;
  };
}

-- "Ana hna" and "ana, hna"
abbrev original : List Segment
original = segment (codes "Ana hna") 2000000 ∷ []

abbrev secondary : List Segment
secondary = segment (codes "ana, hna") 2100000 ∷ []

abbrev original_tokens : List Token
original_tokens = token (codes "ana") 0 3 2000000 ∷ token (codes "hna") 4 7 2000000 ∷ []

abbrev secondary_tokens : List Token
secondary_tokens = token (codes "ana") 0 3 2100000 ∷ token (codes "hna") 5 8 2100000 ∷ []

original_run : tokenize_transcript ascii original ≡ ok original_tokens
unfolding tokenize_transcript text_eq any
original_run = refl

secondary_run : tokenize_transcript ascii secondary ≡ ok secondary_tokens
unfolding tokenize_transcript text_eq any
secondary_run = refl

statuses : status_conflict ascii enough (codes "annotated") (codes "annotated") ≡ false
unfolding status_conflict text_eq
statuses = refl

no_marks : (t : ℕ) → marks original t ≡ marks secondary t
unfolding any
no_marks t = refl

compare_segments_same_example :
    (r : ComparisonResult) × (compare_segments ascii enough original secondary
        (codes "annotated")
        (codes "annotated")
        1000
      ≡ ok r)
    × ((r.edit_distance ≡ some 0) × (r.reason_codes ≡ []) × (r.needs_review ≡ false))
compare_segments_same_example =
    compare_segments_same ascii enough original secondary (codes "annotated") (codes "annotated")
      1000 original_tokens secondary_tokens original_run secondary_run refl (λ e. cc e) no_marks
      statuses refl

compare_segments-reasons_example :
    (r : ComparisonResult) × (compare_segments ascii enough original secondary
        (codes "annotated")
        (codes "skipped")
        1000
      ≡ ok r)
    × ((code : Reason)
        → (among code r.reason_codes ≡ true)
          ↔ Applies ascii enough original_tokens secondary_tokens
              (bad_quality_union original)
              (bad_quality_union secondary)
              (codes "annotated")
              (codes "skipped")
              1000
              code)
compare_segments-reasons_example =
    compare_segments-reasons ascii enough original secondary (codes "annotated") (codes "skipped")
      1000 original_tokens secondary_tokens original_run secondary_run

abbrev raw : RawSegment
raw = record {
  segment_id = none;
  id = some 3;
  start_s = some 0;
  start = none;
  end_s = none;
  end_at = some 2000000;
  text = str (codes "ana");
  exclude_from_training = false;
}

raw-IsComplete : IsComplete ascii raw
unfolding first_present
raw-IsComplete = record {
  identified = λ e. cc e;
  started = λ e. cc e;
  ended = λ e. cc e;
  readable = refl;
}

compare_transcripts-IsFair_example :
    Returns (IsFair ascii enough (codes "annotated") (codes "annotated") 1000) (
      compare_transcripts ascii enough
        (raw ∷ [])
        (raw ∷ raw ∷ [])
        (codes "annotated")
        (codes "annotated")
        1000)
compare_transcripts-IsFair_example =
    compare_transcripts-IsFair ascii enough (codes "annotated") (codes "annotated") 1000 (raw ∷ [])
      (raw ∷ raw ∷ []) (raw-IsComplete, tt) (raw-IsComplete, (raw-IsComplete, tt))
