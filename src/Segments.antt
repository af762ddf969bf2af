-- ===== src/Segments.antt =====
-- annotation_repository.py, the edited segments of a draft: reading one from a request, applying
-- the edits to the stored rows, applying them in memory for a preview, and the check of the
-- timeline. Times are whole microseconds; a rounding to 3 places is one to whole milliseconds. An
-- id is a natural number: a negative one names no segment, as an unknown one does not.
pub mod Merge
pub mod Effect
pub mod Timeline
mod Examples
use egyptian_arabic_annotati.Base.{
  ◌^◌, double, double_add, double_sub, half_even, ℕ, zero, suc, ◌+◌, ◌-◌, ◌*◌, Bool, true, false,
  not, Option, none, some, List, [], ◌∷◌, map, ltb, leb, ◌==◌, if◌then◌else◌, Result, ok, err,
  ◌>>=◌, ◌>>◌, raise_if, or_raise, sort, any, count,
}
use egyptian_arabic_annotati.Comparison.Types.{Text}

pub data Fault : Type 0 where
  missing_id invalid_times empty_span : Fault
  text_not_string appears_twice does_not_exist overlaps_previous ends_after_audio : ℕ → Fault
  key_error : Fault

-- The fields of an edit as the request gives them. `unreadable` is a field that is missing or that
-- `int` or `float` refuses.
pub data RawId : Type 0 where
  id : ℕ → RawId
  unreadable : RawId

pub data RawTime : Type 0 where
  seconds : ℕ → RawTime
  below_zero not_finite unreadable_time : RawTime

pub data RawText : Type 0 where
  missing not_a_string : RawText
  string : Text → RawText

pub record RawSegment : Type 0 where
  pub id : RawId
  pub start : RawTime
  pub end : RawTime
  pub text : RawText
  pub exclude_from_training : Bool

pub record Times : Type 0 where
  pub start : ℕ
  pub end : ℕ
  pub duration : ℕ

-- A stored segment. `extra` stands for its other keys.
pub record Segment : Type 0 where
  pub id : ℕ
  pub start : ℕ
  pub end : ℕ
  pub duration : ℕ
  pub text : Text
  pub exclude_from_training : Bool
  pub extra : ℕ

-- `round(end - start, 3)`, which rounds the float difference to the nearest three decimal places.
unfoldable pub rounded_duration : (start end : ℕ) → ℕ
unfolding double double_sub half_even
rounded_duration start end =
    half_even (double_sub (double end) (double start) * 1000) (2 ^ 80) * 1000

unfoldable pub times_of : RawTime → RawTime → Result Fault Times
times_of unreadable_time end = err invalid_times
times_of start unreadable_time = err invalid_times
times_of (seconds start) (seconds end) = do
  raise_if (leb end start) empty_span
  ok (record { start = start; end = end; duration = rounded_duration start end })
times_of start end = err empty_span

-- `_seg_times`
unfoldable pub seg_times : RawSegment → Result Fault Times
unfolding times_of
seg_times seg = times_of seg.start seg.end

unfoldable pub parse_id : RawId → Result Fault ℕ
parse_id (id sid) = ok sid
parse_id unreadable = err missing_id

unfoldable pub parse_text : ℕ → RawText → Result Fault Text
parse_text sid missing = ok []
parse_text sid not_a_string = err (text_not_string sid)
parse_text sid (string text) = ok text

-- The columns that an edit sets.
pub record Edit : Type 0 where
  pub sid : ℕ
  pub times : Times
  pub text : Text
  pub exclude : Bool

-- `_parse_dirty_segment`
unfoldable pub parse_dirty_segment : RawSegment → Result Fault Edit
unfolding seg_times parse_id parse_text
parse_dirty_segment seg = do
  sid ← parse_id seg.id
  times ← seg_times seg
  text ← parse_text sid seg.text
  ok (record { sid = sid; times = times; text = text; exclude = seg.exclude_from_training })

unfoldable pub edited : Edit → Segment → Segment
edited edit segment = record segment {
  id = edit.sid;
  start = edit.times.start;
  end = edit.times.end;
  duration = edit.times.duration;
  text = edit.text;
  exclude_from_training = edit.exclude;
}

-- `UPDATE segments SET … WHERE … segment_id = …`; the rows of the version in their order.
unfoldable pub update_rows : Edit → List Segment → List Segment
unfolding edited
update_rows edit rows = map (λ row. if row.id == edit.sid then edited edit row else row) rows

-- `cur.rowcount`
unfoldable pub rowcount : Edit → List Segment → ℕ
unfolding count
rowcount edit rows = count (λ row. row.id == edit.sid) rows

-- The loop of `_apply_dirty_segments`.
unfoldable pub apply_each : List ℕ → List RawSegment → List Segment → Result Fault (List Segment)
unfolding parse_dirty_segment update_rows rowcount any
apply_each seen [] rows = ok rows
apply_each seen (seg ∷ dirty) rows = do
  edit ← parse_dirty_segment seg
  raise_if (any (λ sid. sid == edit.sid) seen) (appears_twice edit.sid)
  raise_if (not (rowcount edit rows == 1)) (does_not_exist edit.sid)
  apply_each (edit.sid ∷ seen) dirty (update_rows edit rows)

unfoldable pub apply_dirty_segments : List RawSegment → List Segment → Result Fault (List Segment)
unfolding apply_each
apply_dirty_segments dirty rows = apply_each [] dirty rows

-- A dict from ids to segments.
abbrev pub Dict : Type 0
Dict = ℕ → Option Segment

unfoldable pub assign : Dict → ℕ → Segment → Dict
assign dict key segment k = if k == key then some segment else dict k

-- `{int(seg["id"]): dict(seg) for seg in segments}`
unfoldable pub by_id : Dict → List Segment → Dict
unfolding assign
by_id dict [] = dict
by_id dict (segment ∷ segments) = by_id (assign dict segment.id segment) segments

-- `[merged[int(seg["id"])] for seg in segments]`
unfoldable pub in_order : Dict → List Segment → Result Fault (List Segment)
in_order dict [] = ok []
in_order dict (segment ∷ segments) = do
  found ← or_raise (dict segment.id) key_error
  rest ← in_order dict segments
  ok (found ∷ rest)

-- The loop of `_merge_dirty_segments`.
unfoldable pub merge_each : List ℕ → List RawSegment → Dict → Result Fault Dict
unfolding parse_dirty_segment edited assign any
merge_each seen [] merged = ok merged
merge_each seen (seg ∷ dirty) merged = do
  edit ← parse_dirty_segment seg
  raise_if (any (λ sid. sid == edit.sid) seen) (appears_twice edit.sid)
  segment ← or_raise (merged edit.sid) (does_not_exist edit.sid)
  merge_each (edit.sid ∷ seen) dirty (assign merged edit.sid (edited edit segment))

unfoldable pub merge_dirty_segments : List Segment → List RawSegment → Result Fault (List Segment)
unfolding by_id in_order merge_each
merge_dirty_segments segments dirty = do
  merged ← merge_each [] dirty (by_id (λ k. none) segments)
  in_order merged segments

-- The order of `(start, id)`.
unfoldable pub segment_before : Segment → Segment → Bool
segment_before a b =
    if ltb a.start b.start then true else if a.start == b.start then leb a.id b.id else false

-- 0.001 s
abbrev pub tolerance : ℕ
tolerance = 1000

-- `start < previous_end - 0.001`, on floats
unfoldable pub overlaps : (start previous_end : ℕ) → Bool
unfolding double double_sub
overlaps start previous_end =
    ltb (double start) (double_sub (double previous_end) (double tolerance))

-- `end > duration + 0.001`, on floats
unfoldable pub too_long : (end duration : ℕ) → Bool
unfolding double double_add
too_long end duration = ltb (double_add (double duration) (double tolerance)) (double end)

-- The loop of `_validate_segment_timeline`.
unfoldable pub check_each : (duration previous_end : ℕ) → List Segment → Result Fault (Unit {0})
check_each duration previous_end [] = ok tt
check_each duration previous_end (seg ∷ ordered) = do
  raise_if (overlaps seg.start previous_end) (overlaps_previous seg.id)
  raise_if (too_long seg.end duration) (ends_after_audio seg.id)
  check_each duration seg.end ordered

unfoldable pub validate_segment_timeline : List Segment → (duration : ℕ) → Result Fault (Unit {0})
unfolding segment_before check_each sort
validate_segment_timeline segments duration = check_each duration 0 (sort segment_before segments)

-- `_validate_version_segments`: the rows come in the order of the query.
unfoldable pub validate_version_segments : List Segment → (duration : ℕ) → Result Fault (Unit {0})
unfolding segment_before validate_segment_timeline sort
validate_version_segments rows duration =
    validate_segment_timeline (sort segment_before rows) duration
