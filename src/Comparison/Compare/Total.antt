-- ===== src/Comparison/Compare/Total.antt =====
-- `compare_transcripts` does not fail on complete segments, and its rate is a fraction of one.
use egyptian_arabic_annotati.Base.{
  ℕ, ◌≤◌, ◌<◌, max, ◌≡◌, ◌≢◌, refl, inl, inr, Bool, ◌&&◌, List, [], ◌∷◌, Option, none, some, length,
  ltb, if◌then◌else◌, arith, All, All-sort, ok, or_raise, Returns, returns, Returns-bind,
  Returns-value,
}
use egyptian_arabic_annotati.Comparison.Types.{Fault, value_error, Text, Segment, Token}
use egyptian_arabic_annotati.Comparison.Unicode.{Unicode}
use egyptian_arabic_annotati.Comparison.Tokens.Spans.{IsEquivalent, tokenize_transcript-IsWord}
use egyptian_arabic_annotati.Comparison.Align.{Alignment, word_alignment}
use egyptian_arabic_annotati.Comparison.Align.Optimal.{word_alignment_bound}
use egyptian_arabic_annotati.Comparison.Compare.{
  RawText, empty, str, other, RawSegment, first_present, parse_text, parse_segment, parse_each,
  segment_before, parse_segments, ComparisonResult, Rate, finish, compare_segments,
  compare_transcripts,
}
use egyptian_arabic_annotati.Comparison.Compare.Reasons.{compare_segments-cases}

or_raise-Returns :
    {A : Type 0} (o : Option A) (fault : Fault)
    → o ≢ none
    → Returns (λ a. Unit {0}) (or_raise o fault)
or_raise-Returns none fault h = absurd (h refl)
or_raise-Returns (some a) fault h = returns tt

module _ (u : Unicode) where
  abbrev pub IsReadable : RawText → Type 0
  IsReadable empty = IsEquivalent u []
  IsReadable (str t) = IsEquivalent u t
  IsReadable other = ⊥

  -- A segment has an id, both times, and a text that is missing, null or a string.
  pub record IsComplete (raw : RawSegment) : Type 0 where
    pub identified : first_present raw.segment_id raw.id ≢ none
    pub started : first_present raw.start_s raw.start ≢ none
    pub ended : first_present raw.end_s raw.end_at ≢ none
    pub readable : IsReadable raw.text

  parse_text-Returns : (t : RawText) → IsReadable t → Returns (IsEquivalent u) (parse_text t)
  unfolding parse_text
  parse_text-Returns empty h = returns h
  parse_text-Returns (str t) h = returns h
  parse_text-Returns other h = absurd h

  parse_segment-Returns :
      (raw : RawSegment) → IsComplete raw → Returns (λ s. IsEquivalent u s.text) (parse_segment raw)
  unfolding parse_segment
  parse_segment-Returns raw c =
      Returns-bind (or_raise-Returns (first_present raw.segment_id raw.id) value_error c.identified)
        λ i _.
          Returns-bind
            (or_raise-Returns (first_present raw.start_s raw.start) value_error c.started)
            λ b _.
              Returns-bind
                (or_raise-Returns (first_present raw.end_s raw.end_at) value_error c.ended)
                λ e _. Returns-bind (parse_text-Returns raw.text c.readable) λ t h. returns h

  parse_each-Returns :
      (raws : List RawSegment)
      → All IsComplete raws
      → Returns (All (λ s. IsEquivalent u s.text)) (parse_each raws)
  unfolding parse_each
  parse_each-Returns [] h = returns tt
  parse_each-Returns (raw ∷ rest) h =
      Returns-bind (parse_segment-Returns raw h.0)
        λ s k. Returns-bind (parse_each-Returns rest h.1) λ ss ks. returns (k, ks)

  parse_segments-Returns :
      (raws : List RawSegment)
      → All IsComplete raws
      → Returns (All (λ s. IsEquivalent u s.text)) (parse_segments raws)
  unfolding parse_segments
  parse_segments-Returns raws h =
      Returns-bind (parse_each-Returns raws h) λ ss k. returns (All-sort segment_before _ ss k)

  module _ (memory : ℕ → Bool) (original_status secondary_status : Text) (threshold : ℕ) where
    -- The rate is a fraction of at most one over a positive number of words.
    abbrev pub IsFair : ComparisonResult → Type 0
    IsFair r =
        (q : Rate)
        → r.word_difference_rate ≡ some q
        → (q.numerator ≤ q.denominator) × (0 < q.denominator)

    rate_bound :
        (os ss : List Token) {a : Alignment}
        → word_alignment os ss ≡ ok a
        → (q : Rate)
        → (if ltb 0 (length os) && ltb 0 (length ss)
            then some
                (record { numerator = a.edit_distance; denominator = max (length os) (length ss) })
            else none)
          ≡ some q
        → (q.numerator ≤ q.denominator) × (0 < q.denominator)
    rate_bound os ss e q h = ground (arith, word_alignment_bound os ss e)

    compare_segments-IsFair :
        (original secondary : List Segment)
        → All (λ s. IsEquivalent u s.text) original
        → All (λ s. IsEquivalent u s.text) secondary
        → Returns IsFair (
            compare_segments u memory original secondary original_status secondary_status threshold)
    unfolding finish
    compare_segments-IsFair original secondary ho hs =
        let (os, eo, _) = Returns-value (tokenize_transcript-IsWord u original ho) in
        let (ss, es, _) = Returns-value (tokenize_transcript-IsWord u secondary hs) in
        elim (compare_segments-cases u memory original secondary original_status secondary_status
          threshold os ss eo es) [
            | inl (f, (a, ea, e)) ↦ rw e (returns (rate_bound os ss ea))
            | inr (f, (why, e)) ↦ rw e (returns (λ q h. cc))
          ]

    -- `compare_transcripts` returns on all lists of complete segments whose texts decompose as their
    -- compositions do, whatever memory there is, and a rate that it returns is a fraction of at most
    -- one over a positive number of words.
    pub compare_transcripts-IsFair :
        (original secondary : List RawSegment)
        → All IsComplete original
        → All IsComplete secondary
        → Returns IsFair (
            compare_transcripts u memory original secondary original_status secondary_status
              threshold)
    unfolding compare_transcripts
    compare_transcripts-IsFair original secondary ho hs =
        Returns-bind (parse_segments-Returns original ho) λ os ko.
          Returns-bind (parse_segments-Returns secondary hs)
            λ ss ks. compare_segments-IsFair os ss ko ks
