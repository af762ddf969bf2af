-- ===== src/Segments/Examples.antt =====
-- A draft of two segments and edits of it.
use egyptian_arabic_annotati.Base.{◌≡◌, refl, true, false, List, [], ◌∷◌, map, ok, ◌>>=◌, ◌>>◌}
use egyptian_arabic_annotati.Segments.{
  RawSegment, id, seconds, string, Segment, merge_dirty_segments, apply_dirty_segments,
  validate_segment_timeline, validate_version_segments, overlaps, too_long, rounded_duration,
}
use egyptian_arabic_annotati.Segments.Merge.{preview_agrees, unique_ids}
use egyptian_arabic_annotati.Segments.Effect.{saved_row, apply_dirty_segments-effect}

abbrev first : Segment
first = record {
  id = 1;
  start = 0;
  end = 1500000;
  duration = 1500000;
  text = 104 ∷ [];
  exclude_from_training = false;
  extra = 8;
}

abbrev second : Segment
second = record {
  id = 2;
  start = 1600000;
  end = 2000000;
  duration = 400000;
  text = [];
  exclude_from_training = false;
  extra = 9;
}

abbrev rows : List Segment
rows = first ∷ second ∷ []

-- Moves the second segment to 0.5 ms before the end of the first.
abbrev dirty : List RawSegment
dirty =
    record {
      id = id 2;
      start = seconds 1499500;
      end = seconds 2000400;
      text = string (105 ∷ []);
      exclude_from_training = true;
    }
    ∷ []

abbrev moved : Segment
moved = record {
  id = 2;
  start = 1499500;
  end = 2000400;
  duration = 501000;
  text = 105 ∷ [];
  exclude_from_training = true;
  extra = 9;
}

saves : apply_dirty_segments dirty rows ≡ ok (first ∷ moved ∷ [])
unfolding apply_dirty_segments rounded_duration
saves = refl

accepts : validate_segment_timeline (first ∷ moved ∷ []) 2000000 ≡ ok tt
unfolding validate_segment_timeline overlaps too_long
accepts = refl

-- The float of 0.01 less that of 0.001 is more than that of 0.009, and more than a millisecond is
-- seen after 0.009, while 1 s and 1.001 s are no overlap.
at_the_tolerance :
    (overlaps 9000 10000 ≡ true) × (too_long 10000 9000 ≡ true) × (overlaps 1000000 1001000 ≡ false)
unfolding overlaps too_long
at_the_tolerance = (refl, refl, refl)

preview_agrees_example :
    (merge_dirty_segments rows dirty >>= λ merged.
    validate_segment_timeline merged 2000000 >> ok merged)
    ≡ (apply_dirty_segments dirty rows >>= λ saved.
        validate_version_segments saved 2000000 >> ok saved)
unfolding unique_ids
preview_agrees_example = preview_agrees rows dirty 2000000 refl

apply_dirty_segments-effect_example : first ∷ moved ∷ [] ≡ map (saved_row dirty) rows
apply_dirty_segments-effect_example = apply_dirty_segments-effect dirty rows saves
