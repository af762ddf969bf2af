-- ===== src/Comparison/Compare/Reasons.antt =====
-- Which reasons for a review `compare_transcripts` reports.
use egyptian_arabic_annotati.Base.{
  ℕ, ◌*◌, ◌≤◌, ◌<◌, max, ◌≡◌, ◌≢◌, ◌↔◌, refl, sym, ◌∙◌, ◌⊎◌, text_eq_iff, inl, inr, Bool, true,
  false, Bool-cases, not, ◌&&◌, ◌||◌, List, [], ◌∷◌, length, leb, ◌==◌, arith, filter, any, Result,
  ok,
}
use egyptian_arabic_annotati.Comparison.Types.{Text, Segment, Token, Fault, TimeInterval}
use egyptian_arabic_annotati.Comparison.Unicode.{Unicode}
use egyptian_arabic_annotati.Comparison.Tokens.{tokenize_transcript}
use egyptian_arabic_annotati.Comparison.BadQuality.{bad_quality_union, bad_quality_conflict}
use egyptian_arabic_annotati.Comparison.BadQuality.Canonical.{Near, bad_quality_conflict_iff}
use egyptian_arabic_annotati.Comparison.Align.{Alignment, word_alignment}
use egyptian_arabic_annotati.Comparison.Align.Spec.{dist}
use egyptian_arabic_annotati.Comparison.Align.Optimal.{
  word_alignment-Aligns, word_alignment-eq-dist,
}
use egyptian_arabic_annotati.Comparison.Compare.{
  Reason, word_difference_exceeded, submission_status_conflict, empty_original_text,
  empty_secondary_text, bad_quality_conflict_found, comparison_unavailable, reason_eq, among,
  reason_order, ComparisonResult, Attempt, aligned, unavailable, Unavailable, input_too_large,
  compute_failure, max_comparison_cells, add_if, status_conflict, attempt, exceeds, finish,
  first_reasons, compare_segments, casefold, codes,
}

reason_eq_sound : (a b : Reason) → reason_eq a b ≡ true → a ≡ b
unfolding reason_eq
reason_eq_sound word_difference_exceeded word_difference_exceeded h = refl
reason_eq_sound submission_status_conflict submission_status_conflict h = refl
reason_eq_sound empty_original_text empty_original_text h = refl
reason_eq_sound empty_secondary_text empty_secondary_text h = refl
reason_eq_sound bad_quality_conflict_found bad_quality_conflict_found h = refl
reason_eq_sound comparison_unavailable comparison_unavailable h = refl
reason_eq_sound _ _ h = cc

pub among_self : (code : Reason) (codes : List Reason) → among code (code ∷ codes) ≡ true
unfolding any reason_eq
among_self word_difference_exceeded codes = refl
among_self _ codes = refl

among-filter :
    (p : Reason → Bool) (code : Reason) (xs : List Reason)
    → among code (filter p xs) ≡ among code xs && p code
unfolding any filter
among-filter p code [] = refl
among-filter p code (x ∷ xs) = ground (arith, reason_eq_sound code x, among-filter p code xs)

among-reason_order : (code : Reason) → among code reason_order ≡ true
unfolding any reason_eq
among-reason_order word_difference_exceeded = refl
among-reason_order _ = refl

ordered : List Reason → List Reason
ordered reasons = filter (λ code. among code reasons) reason_order

among-ordered :
    (code : Reason) (reasons : List Reason) → among code (ordered reasons) ≡ among code reasons
unfolding ordered
among-ordered code reasons =
    ground (arith, among-filter (λ c. among c reasons) code reason_order, among-reason_order code)

among-nil : (code : Reason) → among code [] ≡ false
unfolding any
among-nil code = refl

among-add_if :
    (code added : Reason) (test : Bool) (reasons : List Reason)
    → among code (add_if test added reasons) ≡ (reason_eq code added && test) || among code reasons
unfolding any
among-add_if code added test reasons = ground arith

true-false : true ≢ false
true-false e = cc e

module _ (u : Unicode) (memory : ℕ → Bool) where
  -- The table has at most the permitted cells, and the interpreter can allocate it.
  abbrev pub fits : List Token → List Token → Bool
  fits os ss = leb (length os * length ss) max_comparison_cells && memory (length os * length ss)

  pub attempt_cases :
      (os ss : List Token)
      → ((fits os ss ≡ true)
          × ((a : Alignment) × (word_alignment os ss ≡ ok a)
              × (attempt u memory os ss ≡ ok (aligned a))))
        ⊎ ((fits os ss ≡ false)
            × ((why : Unavailable) × (attempt u memory os ss ≡ ok (unavailable why))))
  unfolding attempt
  attempt_cases os ss = elim (Bool-cases (fits os ss)) [
    | inl e ↦
        let (a, ea, _, _) = word_alignment-Aligns os ss in inl (e, (a, ea, ground (arith, ea)))
    | inr e ↦ elim (Bool-cases (leb (length os * length ss) max_comparison_cells)) [
      | inl small ↦ inr (e, (compute_failure, ground arith))
      | inr large ↦ inr (e, (input_too_large, ground arith))
    ]
  ]

  module _ (os ss : List Token) (original_bq secondary_bq : List TimeInterval)
      (original_status secondary_status : Text) (threshold : ℕ) where
    -- When each reason applies.
    abbrev pub applies : Reason → Bool
    applies word_difference_exceeded =
        fits os ss
        && exceeds u memory threshold (length os) (length ss) (dist os ss (length os) (length ss))
    applies submission_status_conflict = status_conflict u memory original_status secondary_status
    applies empty_original_text = length os == 0
    applies empty_secondary_text = length ss == 0
    applies bad_quality_conflict_found = bad_quality_conflict original_bq secondary_bq
    applies comparison_unavailable = not (fits os ss)

    -- The table has at most ten million cells, and the interpreter can allocate it.
    abbrev pub HasTable : Type 0
    HasTable = (length os * length ss ≤ 10000000) × (memory (length os * length ss) ≡ true)

    -- When a review is needed, and why.
    abbrev pub Applies : Reason → Type 0
    Applies word_difference_exceeded =
        HasTable
        × (0 < length os)
        × (0 < length ss)
        × (max (length os) (length ss) * threshold < dist os ss (length os) (length ss) * 10000)
    Applies submission_status_conflict =
        (casefold u memory original_status ≡ codes "annotated")
        × (casefold u memory secondary_status ≡ codes "skipped")
    Applies empty_original_text = length os ≡ 0
    Applies empty_secondary_text = length ss ≡ 0
    Applies bad_quality_conflict_found = ¬ (Near original_bq secondary_bq)
    Applies comparison_unavailable = ¬ HasTable

    applies-Applies : (code : Reason) → (applies code ≡ true) ↔ Applies code
    unfolding exceeds status_conflict
    applies-Applies word_difference_exceeded = ground arith
    applies-Applies submission_status_conflict = ground (
      arith,
      text_eq_iff (casefold u memory original_status) (codes "annotated"),
      text_eq_iff (casefold u memory secondary_status) (codes "skipped"),
    )
    applies-Applies empty_original_text = ground arith
    applies-Applies empty_secondary_text = ground arith
    applies-Applies bad_quality_conflict_found = (
      λ found near.
          true-false (sym found ∙ (bad_quality_conflict_iff original_bq secondary_bq).1 near),
      λ apart. elim (Bool-cases (bad_quality_conflict original_bq secondary_bq)) [
        | inl found ↦ found
        | inr none_found ↦
            absurd (apart ((bad_quality_conflict_iff original_bq secondary_bq).0 none_found))
      ],
    )
    applies-Applies comparison_unavailable = ground arith

    abbrev pub reasons : List Reason
    reasons = first_reasons u memory os ss original_bq secondary_bq original_status secondary_status

    among-first_reasons :
        (code : Reason)
        → among code reasons
          ≡ (reason_eq code bad_quality_conflict_found && applies bad_quality_conflict_found)
            || (reason_eq code empty_secondary_text && applies empty_secondary_text)
            || (reason_eq code empty_original_text && applies empty_original_text)
            || (reason_eq code submission_status_conflict && applies submission_status_conflict)
    unfolding first_reasons
    among-first_reasons code = simp (among-add_if, among-nil) (ground arith)

    -- With the reasons that the alignment adds, a code is reported exactly when it applies.
    joined :
        (code : Reason) (late : Bool) (extra : Reason)
        → (extra ≡ word_difference_exceeded)
            × (late ≡ applies word_difference_exceeded)
            × (fits os ss ≡ true)
          ⊎ (extra ≡ comparison_unavailable) × (late ≡ true) × (fits os ss ≡ false)
        → (reason_eq code extra && late) || among code reasons ≡ applies code
    unfolding reason_eq
    joined word_difference_exceeded late extra (inl (h, k, m)) =
        rw (h, among-first_reasons word_difference_exceeded) (ground arith)
    joined word_difference_exceeded late extra (inr (h, k, m)) =
        rw (h, among-first_reasons word_difference_exceeded) (ground arith)
    joined comparison_unavailable late extra (inl (h, k, m)) =
        rw (h, among-first_reasons comparison_unavailable) (ground arith)
    joined comparison_unavailable late extra (inr (h, k, m)) =
        rw (h, among-first_reasons comparison_unavailable) (ground arith)
    joined code late extra (inl (h, k, m)) = rw (h, among-first_reasons code) (ground arith)
    joined code late extra (inr (h, k, m)) = rw (h, among-first_reasons code) (ground arith)

    pub among-aligned :
        (code : Reason) (a : Alignment)
        → fits os ss ≡ true
        → word_alignment os ss ≡ ok a
        → among code
            (finish u memory threshold os ss original_bq secondary_bq reasons
              (aligned a)).reason_codes
          ≡ applies code
    unfolding finish ordered
    among-aligned code a f e =
        among-ordered code _
        ∙ among-add_if code word_difference_exceeded _ reasons
        ∙ joined code _ word_difference_exceeded
            (inl (refl, rw (f, word_alignment-eq-dist os ss e), f))

    pub among-unavailable :
        (code : Reason) (why : Unavailable)
        → fits os ss ≡ false
        → among code
            (finish u memory threshold os ss original_bq secondary_bq reasons
              (unavailable why)).reason_codes
          ≡ applies code
    unfolding finish ordered
    among-unavailable code why f =
        among-ordered code _
        ∙ among-add_if code comparison_unavailable true reasons
        ∙ joined code true comparison_unavailable (inr (refl, refl, f))

  module _ (original secondary : List Segment) (original_status secondary_status : Text)
      (threshold : ℕ) (os ss : List Token) where
    -- The result that an attempt at an alignment leads to.
    abbrev pub report : Attempt → ComparisonResult
    report result =
        finish u memory threshold os ss (bad_quality_union original) (bad_quality_union secondary)
          (reasons os ss (bad_quality_union original) (bad_quality_union secondary) original_status
            secondary_status threshold)
          result

    abbrev pub compared : Result Fault ComparisonResult
    compared =
        compare_segments u memory original secondary original_status secondary_status threshold

    pub compare_segments-cases :
        tokenize_transcript u original ≡ ok os
        → tokenize_transcript u secondary ≡ ok ss
        → ((fits os ss ≡ true)
            × ((a : Alignment) × (word_alignment os ss ≡ ok a)
                × (compared ≡ ok (report (aligned a)))))
          ⊎ ((fits os ss ≡ false)
              × ((why : Unavailable) × (compared ≡ ok (report (unavailable why)))))
    unfolding compare_segments
    compare_segments-cases eo es = elim (attempt_cases os ss) [
      | inl (f, (a, ea, e)) ↦ inl (f, (a, ea, rw (eo, es, e)))
      | inr (f, (why, e)) ↦ inr (f, (why, rw (eo, es, e)))
    ]

    reported :
        (code : Reason) (found : Bool)
        → found
          ≡ applies os ss
              (bad_quality_union original)
              (bad_quality_union secondary)
              original_status
              secondary_status
              threshold
              code
        → (found ≡ true)
          ↔ Applies os ss
              (bad_quality_union original)
              (bad_quality_union secondary)
              original_status
              secondary_status
              threshold
              code
    reported code found same =
        let exactly =
          applies-Applies os ss (bad_quality_union original) (bad_quality_union secondary)
            original_status secondary_status threshold code in
        (λ e. exactly.0 (sym same ∙ e), λ holds. same ∙ exactly.1 holds)

    -- `compare_transcripts`, after the segments are parsed and tokenized, returns, and reports each
    -- reason exactly when it applies. The word difference: the table fits, both texts have words, and
    -- 10,000 times the least number of edits is more than the threshold times the words of the longer
    -- text. A status conflict: the first is annotated and the second skipped. An empty text: it has no
    -- word. A conflict of the bad segments: they are not as many, or some end is more than a
    -- millisecond off. The comparison is unavailable: the table has over ten million cells or no memory.
    pub compare_segments-reasons :
        tokenize_transcript u original ≡ ok os
        → tokenize_transcript u secondary ≡ ok ss
        → (r : ComparisonResult) × (compared ≡ ok r)
          × ((code : Reason)
              → (among code r.reason_codes ≡ true)
                ↔ Applies os ss
                    (bad_quality_union original)
                    (bad_quality_union secondary)
                    original_status
                    secondary_status
                    threshold
                    code)
    compare_segments-reasons eo es = elim (compare_segments-cases eo es) [
      | inl (f, (a, ea, e)) ↦ (
        report (aligned a),
        e,
        λ code. reported code _ (among-aligned os ss _ _ _ _ threshold code a f ea),
      )
      | inr (f, (why, e)) ↦ (
        report (unavailable why),
        e,
        λ code. reported code _ (among-unavailable os ss _ _ _ _ threshold code why f),
      )
    ]
