-- ===== src/Segments/Timeline.antt =====
-- The check of the timeline on rows that are ordered already.
use egyptian_arabic_annotati.Base.{
  ℕ, ◌≡◌, ap, true, false, List, arith, sort, IsSorted, sort-IsSorted, sort_sorted,
}
use egyptian_arabic_annotati.Segments.{
  Segment, segment_before, check_each, validate_segment_timeline, validate_version_segments,
}

abbrev pub sorted : List Segment → List Segment
sorted segments = sort segment_before segments

before-total : (a b : Segment) → segment_before a b ≡ false → segment_before b a ≡ true
unfolding segment_before
before-total a b h = ground arith

before_trans :
    (a b c : Segment)
    → segment_before a b ≡ true
    → segment_before b c ≡ true
    → segment_before a c ≡ true
unfolding segment_before
before_trans a b c h k = ground arith

pub sorted-IsSorted : (segments : List Segment) → IsSorted segment_before (sorted segments)
sorted-IsSorted segments = sort-IsSorted segment_before before-total before_trans segments

-- The check on the rows that the query ordered decides as the check on the segments in any order.
pub version_segments_agree :
    (rows : List Segment) (duration : ℕ)
    → validate_version_segments rows duration ≡ validate_segment_timeline rows duration
unfolding validate_version_segments validate_segment_timeline
version_segments_agree rows duration =
    ap (check_each duration 0) (sort_sorted segment_before (sorted rows) (sorted-IsSorted rows))
