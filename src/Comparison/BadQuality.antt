-- ===== src/Comparison/BadQuality.antt =====
-- `_to_ms`, `_bad_quality_union` and `_bad_quality_conflict`.
pub mod Coverage
pub mod Canonical
mod Examples
use egyptian_arabic_annotati.Base.{
  ℕ, ◌+◌, ◌-◌, ◌/◌, ◌%◌, max, Bool, true, false, ◌&&◌, ◌||◌, List, [], ◌∷◌, ltb, leb, ◌==◌,
  if◌then◌else◌, length, sort, ◌^◌, double, double_scale, half_even,
}
use egyptian_arabic_annotati.Comparison.Types.{Segment, TimeInterval}

-- `int(round(seconds * 1000.0))`, the seconds given in whole microseconds: a float product, then
-- round(), which takes a half to the even side.
unfoldable pub to_ms : ℕ → ℕ
unfolding double double_scale half_even
to_ms us = half_even (double_scale (double us) 1000) (2 ^ 80)

abbrev pub Span : Type 0
Span = ℕ × ℕ

-- The order of pairs.
abbrev pub span_before : Span → Span → Bool
span_before (a, b) (c, d) = ltb a c || (a == c && leb b d)

-- The loop that collects the bad segments that last at least a millisecond.
pub bad_spans : List Segment → List Span
bad_spans [] = []
bad_spans (s ∷ rest) =
    let start_ms = to_ms s.start_s in
    let end_ms = to_ms s.end_s in
    let others = bad_spans rest in
    if s.exclude_from_training && ltb start_ms end_ms then (start_ms, end_ms) ∷ others else others

interval : ℕ → ℕ → TimeInterval
interval start end_at = record { start_ms = start; end_ms = end_at }

-- The merging loop. The last interval of `merged`, which the loop may still extend, is carried
-- apart from those before it.
pub merge : ℕ → ℕ → List Span → List TimeInterval
unfolding interval
merge prev_start prev_end [] = interval prev_start prev_end ∷ []
merge prev_start prev_end ((start_ms, end_ms) ∷ rest) =
    let joined = merge prev_start (max prev_end end_ms) rest in
    let apart = interval prev_start prev_end ∷ merge start_ms end_ms rest in
    if leb start_ms prev_end then joined else apart

pub merge_all : List Span → List TimeInterval
merge_all [] = []
merge_all ((start_ms, end_ms) ∷ rest) = merge start_ms end_ms rest

pub bad_quality_union : List Segment → List TimeInterval
bad_quality_union segments = merge_all (sort span_before (bad_spans segments))

abbrev pub abs_diff : ℕ → ℕ → ℕ
abs_diff a b = (a - b) + (b - a)

-- `_BQ_ENDPOINT_TOLERANCE_MS`
abbrev pub endpoint_tolerance_ms : ℕ
endpoint_tolerance_ms = 1

-- The loop over `zip(original, secondary)`.
pub differ_pairwise : List TimeInterval → List TimeInterval → Bool
differ_pairwise (a ∷ as') (b ∷ bs) =
    if ltb endpoint_tolerance_ms (abs_diff a.start_ms b.start_ms)
      || ltb endpoint_tolerance_ms (abs_diff a.end_ms b.end_ms)
    then true
    else differ_pairwise as' bs
differ_pairwise _ _ = false

pub bad_quality_conflict : List TimeInterval → List TimeInterval → Bool
unfolding differ_pairwise
bad_quality_conflict original secondary =
    if length original == length secondary then differ_pairwise original secondary else true
