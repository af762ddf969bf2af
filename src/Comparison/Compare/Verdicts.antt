-- ===== src/Comparison/Compare/Verdicts.antt =====
-- What `compare_transcripts` returns for transcripts that agree, that are too large, and in general.
use egyptian_arabic_annotati.Base.{
  ℕ, ◌<◌, ◌≡◌, ◌≢◌, refl, ◌∙◌, ap, inl, inr, Bool, true, false, List, [], ◌∷◌, map, none, some,
  length, if◌then◌else◌, arith, any, ok,
}
use egyptian_arabic_annotati.Comparison.Types.{Text, Segment, Token}
use egyptian_arabic_annotati.Comparison.Unicode.{Unicode}
use egyptian_arabic_annotati.Comparison.Tokens.{tokenize_transcript}
use egyptian_arabic_annotati.Comparison.BadQuality.{bad_quality_union}
use egyptian_arabic_annotati.Comparison.BadQuality.Coverage.{marks}
use egyptian_arabic_annotati.Comparison.BadQuality.Canonical.{bad_quality_union_canonical}
use egyptian_arabic_annotati.Comparison.Align.{Alignment, word_alignment}
use egyptian_arabic_annotati.Comparison.Align.Optimal.{word_alignment-eq-dist, word_alignment_zero}
use egyptian_arabic_annotati.Comparison.Compare.{
  Reason, word_difference_exceeded, submission_status_conflict, empty_original_text,
  empty_secondary_text, bad_quality_conflict_found, comparison_unavailable, ComparisonResult,
  aligned, unavailable, is_empty, status_conflict, exceeds, finish, compare_segments, among,
}
use egyptian_arabic_annotati.Comparison.Compare.Reasons.{
  fits, report, applies, compare_segments-cases, among-aligned, among-unavailable, among_self,
}

no_codes : (codes : List Reason) → ((code : Reason) → among code codes ≡ false) → codes ≡ []
no_codes [] h = refl
no_codes (x ∷ xs) h = cc (h x, among_self x xs)

some_code :
    (code : Reason) (codes : List Reason)
    → among code codes ≡ true
    → (if is_empty codes then false else true) ≡ true
unfolding any
some_code code [] h = h
some_code code (x ∷ xs) h = refl

words_nonempty :
    (os ss : List Token)
    → map (λ t. t.word) os ≡ map (λ t. t.word) ss
    → os ≢ []
    → (0 < length os) × (0 < length ss)
words_nonempty [] ss e ne = absurd (ne refl)
words_nonempty (o ∷ os) [] e ne = cc
words_nonempty (o ∷ os) (s ∷ ss) e ne = omega arith

module _ (u : Unicode) (memory : ℕ → Bool) (original secondary : List Segment)
    (original_status secondary_status : Text) (threshold : ℕ) (os ss : List Token) where
  abbrev Report : (ComparisonResult → Type 0) → Type 0
  Report P =
      (r : ComparisonResult) × (compare_segments u memory original secondary original_status
          secondary_status threshold
        ≡ ok r)
      × P r

  nothing_applies :
      {a : Alignment}
      → map (λ t. t.word) os ≡ map (λ t. t.word) ss
      → os ≢ []
      → ((t : ℕ) → marks original t ≡ marks secondary t)
      → status_conflict u memory original_status secondary_status ≡ false
      → fits u memory os ss ≡ true
      → word_alignment os ss ≡ ok a
      → a.edit_distance ≡ 0
      → (code : Reason)
      → applies u memory os ss
          (bad_quality_union original)
          (bad_quality_union secondary)
          original_status
          secondary_status
          threshold
          code
        ≡ false
  unfolding exceeds
  nothing_applies words ne marked status f ea z word_difference_exceeded =
      ground (arith, word_alignment-eq-dist os ss ea)
  nothing_applies words ne marked status f ea z submission_status_conflict = status
  nothing_applies words ne marked status f ea z empty_original_text =
      ground (arith, words_nonempty os ss words ne)
  nothing_applies words ne marked status f ea z empty_secondary_text =
      ground (arith, words_nonempty os ss words ne)
  nothing_applies words ne marked status f ea z bad_quality_conflict_found =
      (bad_quality_union_canonical original secondary marked).1
  nothing_applies words ne marked status f ea z comparison_unavailable = rw f

  -- Two transcripts with the same words, at least one, whose bad segments cover the same
  -- milliseconds and whose statuses do not conflict, are at distance 0 and need no review, when the
  -- table fits and the threshold is any.
  pub compare_segments_same :
      tokenize_transcript u original ≡ ok os
      → tokenize_transcript u secondary ≡ ok ss
      → map (λ t. t.word) os ≡ map (λ t. t.word) ss
      → os ≢ []
      → ((t : ℕ) → marks original t ≡ marks secondary t)
      → status_conflict u memory original_status secondary_status ≡ false
      → fits u memory os ss ≡ true
      → Report (λ r. (r.edit_distance ≡ some 0) × (r.reason_codes ≡ []) × (r.needs_review ≡ false))
  unfolding finish
  compare_segments_same eo es words nonempty same_marks status f =
      elim (compare_segments-cases u memory original secondary original_status secondary_status
        threshold os ss eo es) [
          | inl (_, (a, ea, e)) ↦
              let z = (word_alignment_zero os ss ea).1 words in
              let codes = no_codes _ (λ code.
                among-aligned u memory os ss _ _ original_status secondary_status threshold code a f
                  ea
                ∙ nothing_applies words nonempty same_marks status f ea z code) in
              (
                report u memory original secondary original_status secondary_status threshold os ss
                    (aligned a),
                e,
                (ap some z, codes, ap (λ c. if is_empty c then false else true) codes),
              )
          | inr (g, _) ↦ cc
        ]

  -- When the table does not fit, there is no alignment and no rate, and a review is asked for.
  pub compare_segments_unavailable :
      tokenize_transcript u original ≡ ok os
      → tokenize_transcript u secondary ≡ ok ss
      → fits u memory os ss ≡ false
      → Report (λ r.
        (r.edit_distance ≡ none)
        × (r.word_difference_rate ≡ none)
        × (r.ops ≡ [])
        × (r.needs_word_review ≡ false)
        × (r.needs_review ≡ true))
  unfolding finish
  compare_segments_unavailable eo es f =
      elim (compare_segments-cases u memory original secondary original_status secondary_status
        threshold os ss eo es) [
          | inl (g, _) ↦ cc
          | inr (_, (why, e)) ↦ (
            report u memory original secondary original_status secondary_status threshold os ss
                (unavailable why),
            e,
            (
              refl,
              refl,
              refl,
              refl,
              some_code comparison_unavailable _ (
                  among-unavailable u memory os ss _ _ original_status secondary_status threshold
                    comparison_unavailable why f
                  ∙ rw f),
            ),
          )
        ]
