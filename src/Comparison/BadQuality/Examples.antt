-- ===== src/Comparison/BadQuality/Examples.antt =====
-- Runs of the union on cut and reordered segments, and the theorems at them.
use egyptian_arabic_annotati.Base.{
  ℕ, ◌≡◌, refl, ◌↔◌, Bool, true, false, List, [], ◌∷◌, arith, any, sort,
}
use egyptian_arabic_annotati.Comparison.Types.{Segment, TimeInterval}
use egyptian_arabic_annotati.Comparison.BadQuality.{
  to_ms, bad_spans, merge, merge_all, bad_quality_union, bad_quality_conflict,
}
use egyptian_arabic_annotati.Comparison.BadQuality.Coverage.{
  covers, marks, covers-bad_quality_union,
}
use egyptian_arabic_annotati.Comparison.BadQuality.Canonical.{
  Near, bad_quality_union_canonical, bad_quality_conflict_iff,
}

abbrev segment : Bool → ℕ → ℕ → Segment
segment bad start end_at = record {
  segment_id = 1;
  start_s = start;
  end_s = end_at;
  text = [];
  exclude_from_training = bad;
}

-- The product of 2.0005 and 1000 is over 2000.5 as a float, that of 0.5015 and 1000 is under 501.5, and
-- a half goes to the even side.
rounding :
    (to_ms 2000500 ≡ 2001)
    × (to_ms 2001500 ≡ 2002)
    × (to_ms 2001501 ≡ 2002)
    × (to_ms 501500 ≡ 501)
    × (to_ms 2500 ≡ 2)
unfolding to_ms
rounding = (refl, refl, refl, refl, refl)

abbrev whole : List Segment
whole = segment true 0 2000000 ∷ []

abbrev cut : List Segment
cut = segment true 1000000 2000000 ∷ segment false 5000000 6000000 ∷ segment true 0 1000000 ∷ []

union_run : bad_quality_union cut ≡ record { start_ms = 0; end_ms = 2000 } ∷ []
unfolding bad_quality_union bad_spans merge_all merge sort to_ms
union_run = refl

same_marks : (t : ℕ) → marks whole t ≡ marks cut t
unfolding any to_ms
same_marks t = ground arith

bad_quality_union_canonical_example :
    (bad_quality_union whole ≡ bad_quality_union cut)
    × (bad_quality_conflict (bad_quality_union whole) (bad_quality_union cut) ≡ false)
bad_quality_union_canonical_example = bad_quality_union_canonical whole cut same_marks

abbrev at : ℕ → ℕ → TimeInterval
at start end_at = record { start_ms = start; end_ms = end_at }

bad_quality_conflict_iff_example :
    (bad_quality_conflict (at 0 10 ∷ []) (at 1 12 ∷ []) ≡ false)
    ↔ Near (at 0 10 ∷ []) (at 1 12 ∷ [])
bad_quality_conflict_iff_example = bad_quality_conflict_iff (at 0 10 ∷ []) (at 1 12 ∷ [])

covers-bad_quality_union_example : covers (bad_quality_union cut) 1500 ≡ marks cut 1500
covers-bad_quality_union_example = covers-bad_quality_union cut 1500
