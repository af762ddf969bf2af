-- ===== src/Comparison/Compare.antt =====
-- `_parse_segments` and `compare_transcripts`.
pub mod Reasons
pub mod Verdicts
pub mod Total
mod Examples
use Prim.Native.Char.{code}
use egyptian_arabic_annotati.Base.{
  ℕ, ◌*◌, max, Bool, true, false, ◌&&◌, ◌||◌, List, [], ◌∷◌, ◌++◌, Option, none, some, length,
  String, ltb, leb, ◌==◌, if◌then◌else◌, text_eq, sort, filter, any, Result, ok, err, ◌>>=◌,
  or_raise, map,
}
use egyptian_arabic_annotati.Comparison.Types.{
  Fault, value_error, type_error, memory_error, Text, Segment, Token, EditOp, TimeInterval,
}
use egyptian_arabic_annotati.Comparison.Unicode.{Unicode}
use egyptian_arabic_annotati.Comparison.Tokens.{tokenize_transcript}
use egyptian_arabic_annotati.Comparison.BadQuality.{bad_quality_union, bad_quality_conflict}
use egyptian_arabic_annotati.Comparison.Align.{Alignment, word_alignment}

-- `raw.get("text", "")`: a missing or null text, a string, or something else.
pub data RawText : Type 0 where
  empty other : RawText
  str : Text → RawText

-- The keys of a segment mapping that are read. `none` stands for a missing key and for `None`.
pub record RawSegment : Type 0 where
  pub segment_id : Option ℕ
  pub id : Option ℕ
  pub start_s : Option ℕ
  pub start : Option ℕ
  pub end_s : Option ℕ
  pub end_at : Option ℕ
  pub text : RawText
  pub exclude_from_training : Bool

-- `_first_present` over two keys
unfoldable pub first_present : Option ℕ → Option ℕ → Option ℕ
first_present none second = second
first_present (some v) second = some v

unfoldable pub parse_text : RawText → Result Fault Text
parse_text empty = ok []
parse_text (str t) = ok t
parse_text other = err type_error

unfoldable pub parse_segment : RawSegment → Result Fault Segment
unfolding first_present parse_text
parse_segment raw = do
  segment_id ← or_raise (first_present raw.segment_id raw.id) value_error
  start ← or_raise (first_present raw.start_s raw.start) value_error
  end_at ← or_raise (first_present raw.end_s raw.end_at) value_error
  text ← parse_text raw.text
  ok (record {
    segment_id = segment_id;
    start_s = start;
    end_s = end_at;
    text = text;
    exclude_from_training = raw.exclude_from_training;
  })

unfoldable pub parse_each : List RawSegment → Result Fault (List Segment)
unfolding parse_segment
parse_each [] = ok []
parse_each (raw ∷ rest) = do
  segment ← parse_segment raw
  segments ← parse_each rest
  ok (segment ∷ segments)

-- The key `(start_s, end_s, segment_id)`
abbrev pub segment_before : Segment → Segment → Bool
segment_before a b =
    ltb a.start_s b.start_s
    || (a.start_s == b.start_s
        && (ltb a.end_s b.end_s || (a.end_s == b.end_s && leb a.segment_id b.segment_id)))

unfoldable pub parse_segments : List RawSegment → Result Fault (List Segment)
unfolding parse_each
parse_segments raws = do segments ← parse_each raws; ok (sort segment_before segments)

pub data Reason : Type 0 where
  word_difference_exceeded submission_status_conflict empty_original_text empty_secondary_text :
      Reason
  bad_quality_conflict_found comparison_unavailable : Reason

unfoldable pub reason_eq : Reason → Reason → Bool
reason_eq word_difference_exceeded word_difference_exceeded = true
reason_eq submission_status_conflict submission_status_conflict = true
reason_eq empty_original_text empty_original_text = true
reason_eq empty_secondary_text empty_secondary_text = true
reason_eq bad_quality_conflict_found bad_quality_conflict_found = true
reason_eq comparison_unavailable comparison_unavailable = true
reason_eq _ _ = false

-- `code in reasons`
abbrev pub among : Reason → List Reason → Bool
among code reasons = any (reason_eq code) reasons

-- `_REASON_ORDER`
abbrev pub reason_order : List Reason
reason_order =
    word_difference_exceeded ∷ submission_status_conflict ∷ empty_original_text
    ∷ empty_secondary_text ∷ bad_quality_conflict_found ∷ comparison_unavailable ∷ []

pub data Unavailable : Type 0 where
  input_too_large compute_failure : Unavailable

-- `edit_distance / denom`, as its two parts.
pub record Rate : Type 0 where
  pub numerator : ℕ
  pub denominator : ℕ

pub record ComparisonResult : Type 0 where
  pub threshold_bps : ℕ
  pub n_original : Option ℕ
  pub n_secondary : Option ℕ
  pub edit_distance : Option ℕ
  pub substitutions : Option ℕ
  pub insertions : Option ℕ
  pub deletions : Option ℕ
  pub word_difference_rate : Option Rate
  pub needs_word_review : Bool
  pub needs_review : Bool
  pub reason_codes : List Reason
  pub ops : List EditOp
  pub original_bad_quality : List TimeInterval
  pub secondary_bad_quality : List TimeInterval
  pub original_normalized : Option Text
  pub secondary_normalized : Option Text
  pub unavailable : Option Unavailable

-- `" ".join(token.word for token in tokens)`
abbrev pub normalized : List Token → Text
normalized [] = []
normalized (t ∷ []) = t.word
normalized (t ∷ t' ∷ ts) = t.word ++ (32 ∷ normalized (t' ∷ ts))

abbrev pub max_comparison_cells : ℕ
max_comparison_cells = 10000000

abbrev pub codes : String → Text
codes String.[] = []
codes (String.◌∷◌ c s) = code c ∷ codes s

-- What the attempt at an alignment yields: an alignment, or why there is none.
pub data Attempt : Type 0 where
  aligned : Alignment → Attempt
  unavailable : Unavailable → Attempt

-- `except MemoryError`
unfoldable pub recover : Result Fault Alignment → Result Fault Attempt
recover (ok a) = ok (aligned a)
recover (err memory_error) = ok (unavailable compute_failure)
recover (err fault) = err fault

-- `reasons.add(code)` under a test
abbrev pub add_if : Bool → Reason → List Reason → List Reason
add_if true code reasons = code ∷ reasons
add_if false code reasons = reasons

abbrev pub is_empty : {A : Type 0} → List A → Bool
is_empty [] = true
is_empty (x ∷ xs) = false

-- `memory cells` says whether the interpreter can allocate a table of that many cells.
module _ (u : Unicode) (memory : ℕ → Bool) where
  pub casefold : Text → Text
  casefold [] = []
  casefold (c ∷ cs) = u.casefold c ++ casefold cs

  -- The test on the two submission statuses.
  pub status_conflict : Text → Text → Bool
  unfolding casefold
  status_conflict original secondary =
      text_eq (casefold original) (codes "annotated")
      && text_eq (casefold secondary) (codes "skipped")

  -- The guard on the table's size, and the `try` block.
  pub attempt : List Token → List Token → Result Fault Attempt
  unfolding recover
  attempt original secondary =
      let cells = length original * length secondary in
      if ltb max_comparison_cells cells
      then ok (unavailable input_too_large)
      else recover (if memory cells then word_alignment original secondary else err memory_error)

  -- `edit_distance * 10000 > denom * threshold`, where both texts have words
  pub exceeds : ℕ → ℕ → ℕ → ℕ → Bool
  exceeds threshold n m distance =
      ltb 0 n && ltb 0 m && ltb (max n m * threshold) (distance * 10000)

  -- What the function returns when an alignment was found, and when none was.
  pub finish :
      ℕ
      → List Token
      → List Token
      → List TimeInterval
      → List TimeInterval
      → List Reason
      → Attempt
      → ComparisonResult
  unfolding exceeds
  finish threshold original secondary original_bq secondary_bq reasons (aligned a) =
      let n = length original in
      let m = length secondary in
      let needs_word_review = exceeds threshold n m a.edit_distance in
      let reasons' = add_if needs_word_review word_difference_exceeded reasons in
      let reason_codes = filter (λ code. among code reasons') reason_order in
      record {
        threshold_bps = threshold;
        n_original = some n;
        n_secondary = some m;
        edit_distance = some a.edit_distance;
        substitutions = some a.substitutions;
        insertions = some a.insertions;
        deletions = some a.deletions;
        word_difference_rate =
            if ltb 0 n && ltb 0 m
            then some (record { numerator = a.edit_distance; denominator = max n m })
            else none;
        needs_word_review = needs_word_review;
        needs_review = if is_empty reason_codes then false else true;
        reason_codes = reason_codes;
        ops = a.ops;
        original_bad_quality = original_bq;
        secondary_bad_quality = secondary_bq;
        original_normalized = some (normalized original);
        secondary_normalized = some (normalized secondary);
        unavailable = none;
      }
  finish threshold original secondary original_bq secondary_bq reasons (unavailable why) =
      let n = length original in
      let m = length secondary in
      let reasons' = comparison_unavailable ∷ reasons in
      let reason_codes = filter (λ code. among code reasons') reason_order in
      record {
        threshold_bps = threshold;
        n_original = some n;
        n_secondary = some m;
        edit_distance = none;
        substitutions = none;
        insertions = none;
        deletions = none;
        word_difference_rate = none;
        needs_word_review = false;
        needs_review = if is_empty reason_codes then false else true;
        reason_codes = reason_codes;
        ops = [];
        original_bad_quality = original_bq;
        secondary_bad_quality = secondary_bq;
        original_normalized = some (normalized original);
        secondary_normalized = some (normalized secondary);
        unavailable = some why;
      }

  -- The reasons that are found before the alignment.
  pub first_reasons :
      List Token → List Token → List TimeInterval → List TimeInterval → Text → Text → List Reason
  first_reasons original secondary original_bq secondary_bq original_status secondary_status =
      add_if (bad_quality_conflict original_bq secondary_bq) bad_quality_conflict_found (
        add_if (length secondary == 0) empty_secondary_text (
          add_if (length original == 0) empty_original_text (
            add_if (status_conflict original_status secondary_status) submission_status_conflict
              [])))

  -- After the parsing.
  pub compare_segments :
      List Segment → List Segment → Text → Text → ℕ → Result Fault ComparisonResult
  compare_segments original secondary original_status secondary_status threshold = do
    let original_bq = bad_quality_union original
    let secondary_bq = bad_quality_union secondary
    original_tokens ← tokenize_transcript u original
    secondary_tokens ← tokenize_transcript u secondary
    let reasons =
        first_reasons original_tokens secondary_tokens original_bq secondary_bq original_status
          secondary_status
    result ← attempt original_tokens secondary_tokens
    ok (finish threshold original_tokens secondary_tokens original_bq secondary_bq reasons result)

  pub compare_transcripts :
      List RawSegment → List RawSegment → Text → Text → ℕ → Result Fault ComparisonResult
  compare_transcripts original secondary original_status secondary_status threshold = do
    original_parsed ← parse_segments original
    secondary_parsed ← parse_segments secondary
    compare_segments original_parsed secondary_parsed original_status secondary_status threshold
