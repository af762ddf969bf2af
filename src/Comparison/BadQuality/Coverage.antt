-- ===== src/Comparison/BadQuality/Coverage.antt =====
-- The merged intervals cover the milliseconds that the bad segments cover, and no others.
use egyptian_arabic_annotati.Base.{
  ℕ, ◌≤◌, max, ◌≡◌, refl, ◌∙◌, Bool, true, false, ◌&&◌, List, [], ◌∷◌, ltb, leb, if◌then◌else◌,
  arith, any, All, All-map, sort, any-sort, IsSorted, sort-IsSorted,
}
use egyptian_arabic_annotati.Comparison.Types.{Segment, TimeInterval}
use egyptian_arabic_annotati.Comparison.BadQuality.{
  to_ms, Span, span_before, bad_spans, merge, merge_all, bad_quality_union,
}

abbrev pub within : ℕ → ℕ → ℕ → Bool
within t start end_at = leb start t && ltb t end_at

-- Some interval holds the millisecond that begins at `t`.
abbrev pub covers : List TimeInterval → ℕ → Bool
covers intervals t = any (λ i. within t i.start_ms i.end_ms) intervals

-- Some segment marked as bad, with its ends rounded to milliseconds, holds it.
abbrev pub marks : List Segment → ℕ → Bool
marks segments t =
    any (λ s. s.exclude_from_training && within t (to_ms s.start_s) (to_ms s.end_s)) segments

abbrev spans_cover : List Span → ℕ → Bool
spans_cover spans t = any (λ p. within t p.0 p.1) spans

bad_spans-cover :
    (segments : List Segment) (t : ℕ) → spans_cover (bad_spans segments) t ≡ marks segments t
unfolding any bad_spans
bad_spans-cover [] t = refl
bad_spans-cover (s ∷ rest) t = ground (arith, bad_spans-cover rest t)

span_before_total : (a b : Span) → span_before a b ≡ false → span_before b a ≡ true
span_before_total (a, b) (c, d) h = ground arith

span_before_trans :
    (a b c : Span) → span_before a b ≡ true → span_before b c ≡ true → span_before a c ≡ true
span_before_trans (a, b) (c, d) (e, f) h k = ground arith

later :
    (s e : ℕ) (spans : List Span)
    → All (λ p. span_before (s, e) p ≡ true) spans
    → All (λ p. s ≤ p.0) spans
later s e spans h = All-map spans (λ (c, d) k. ground arith) h

-- Extending a span to the larger end covers both, when the second begins no later than the first
-- ends and no earlier than it begins.
merge-cover :
    (ps pe : ℕ) (spans : List Span) (t : ℕ)
    → All (λ p. ps ≤ p.0) spans
    → IsSorted span_before spans
    → covers (merge ps pe spans) t ≡ (if within t ps pe then true else spans_cover spans t)
unfolding any merge
merge-cover ps pe [] t h k = refl
merge-cover ps pe ((s, e) ∷ spans) t h k = ground (
  arith,
  h.0,
  merge-cover ps (max pe e) spans t h.1 k.1,
  merge-cover s e spans t (later s e spans k.0) k.1,
)

merge_all-cover :
    (spans : List Span) (t : ℕ)
    → IsSorted span_before spans
    → covers (merge_all spans) t ≡ spans_cover spans t
unfolding any merge_all
merge_all-cover [] t k = refl
merge_all-cover ((s, e) ∷ spans) t k = merge-cover s e spans t (later s e spans k.0) k.1

-- `_bad_quality_union` covers exactly the milliseconds that some segment marked as bad covers,
-- both of its ends rounded to milliseconds.
pub covers-bad_quality_union :
    (segments : List Segment) (t : ℕ) → covers (bad_quality_union segments) t ≡ marks segments t
unfolding bad_quality_union
covers-bad_quality_union segments t =
    merge_all-cover (sort span_before (bad_spans segments)) t
      (sort-IsSorted span_before span_before_total span_before_trans (bad_spans segments))
    ∙ any-sort span_before (λ p. within t p.0 p.1) (bad_spans segments)
    ∙ bad_spans-cover segments t
