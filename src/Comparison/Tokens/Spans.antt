-- ===== src/Comparison/Tokens/Spans.antt =====
-- The spans of the tokens are non-empty ranges of the raw text, and tokenizing does not fail.
use egyptian_arabic_annotati.Base.{
  ℕ, suc, ◌+◌, ◌≤◌, ◌<◌, ◌==◌, min, max, ◌≡◌, ◌≢◌, refl, ◌∙◌, sym, ap, Bool-cases, inl, inr, List,
  [], ◌∷◌, length, set, length-set, replicate, length-replicate, All, All-append, All-map,
  All-intro, All-sort, drop-get_elem?, arith, text_eq, text_eq_iff, sort, Returns, returns,
  Returns-bind, Returns-map,
}
use egyptian_arabic_annotati.Comparison.Types.{Text, Segment, Token}
use egyptian_arabic_annotati.Comparison.Unicode.{Unicode}
use egyptian_arabic_annotati.Comparison.Tokens.{
  Folded, Buffer, empty, get_or, append_char, widen, flush, flush_word, scan, Sourced, decompose,
  sources, nfd_with_sources, pair_spans, identity_spans, nfc_with_raw_spans, fold_char, fold_case,
  fold_segment, tokenize_segment, tokenize_transcript, mark_before,
}
use egyptian_arabic_annotati.Comparison.Tokens.Words.{scan_cases, IsWord, scan-IsWord}

-- A non-empty span of a text of `size` characters.
abbrev pub IsSpan : ℕ → Token → Type 0
IsSpan size t = (t.mapping.text_start < t.mapping.text_end) × (t.mapping.text_end ≤ size)

abbrev pub IsPlaced : ℕ → Folded → Type 0
IsPlaced size f = (f.raw_start < f.raw_end) × (f.raw_end ≤ size)

module _ (u : Unicode) (segment : Segment) (size : ℕ) where
  record IsReady (b : Buffer) : Type 0 where
    bounded : get_or b.span_end 0 ≤ size
    ordered : b.buf ≢ [] → get_or b.span_start 0 < get_or b.span_end 0

  append_char-IsReady :
      (b : Buffer) (f : Folded) → IsPlaced size f → IsReady b → IsReady (append_char b f)
  unfolding append_char
  append_char-IsReady b f p r = ground (arith, r.bounded)

  widen-IsReady : (b : Buffer) (f : Folded) → IsPlaced size f → IsReady b → IsReady (widen b f)
  unfolding widen
  widen-IsReady b f p r = record {
    bounded = omega (arith, r.bounded);
    ordered = λ ne. omega (arith, r.ordered ne);
  }

  flush-IsSpan : (b : Buffer) → IsReady b → All (IsSpan size) (flush segment b)
  unfolding flush
  flush-IsSpan b r = go b.buf (get_or b.span_start 0) (get_or b.span_end 0) r.ordered r.bounded
    where
      go :
          (word : Text) (start end_at : ℕ)
          → (word ≢ [] → start < end_at)
          → end_at ≤ size
          → All (IsSpan size) (flush_word segment word start end_at)
      go [] start end_at h k = tt
      go (c ∷ cs) start end_at h k = ((h (λ e. cc e), k), tt)

  scan_from-IsSpan :
      (fs : List Folded) (b : Buffer)
      → All (IsPlaced size) fs
      → IsReady b
      → All (IsSpan size) (scan u segment fs b)
  unfolding scan
  scan_from-IsSpan [] b h r = flush-IsSpan b r
  scan_from-IsSpan (f ∷ fs) b h r = elim (scan_cases u segment f fs b) [
    | inl (joiner, e) ↦ rw e (scan_from-IsSpan fs (widen b f) h.1 (widen-IsReady b f h.0 r))
    | inr (inl (sep, e)) ↦
        rw e (All-append _ _ _ (flush-IsSpan b r) (scan_from-IsSpan fs empty h.1 empty-IsReady))
    | inr (inr (letter, e)) ↦
        rw e (scan_from-IsSpan fs (append_char b f) h.1 (append_char-IsReady b f h.0 r))
  ]
    where
      empty-IsReady : IsReady empty
      empty-IsReady = record { bounded = omega arith; ordered = λ ne. absurd (ne refl) }

  -- Where every folded character comes from a non-empty span of the raw text, so does every token.
  scan-IsSpan :
      (fs : List Folded) → All (IsPlaced size) fs → All (IsSpan size) (scan u segment fs empty)
  scan-IsSpan fs h =
      scan_from-IsSpan fs empty h
        (record { bounded = omega arith; ordered = λ ne. absurd (ne refl) })

fold_char-All :
    (P : Folded → Type 0) (cs : Text) (start end_at : ℕ)
    → ((c : ℕ) → P (record { char = c; raw_start = start; raw_end = end_at }))
    → All P (fold_char cs start end_at)
unfolding fold_char
fold_char-All P [] start end_at h = tt
fold_char-All P (c ∷ cs) start end_at h = (h c, fold_char-All P cs start end_at h)

module _ (u : Unicode) where
  abbrev Below : ℕ → Sourced → Type 0
  Below bound p = p.1 < bound

  decompose-Below :
      (bound index : ℕ) (cs : Text) (marks : List Sourced)
      → index < bound
      → All (Below bound) marks
      → All (Below bound) (decompose u index cs marks).0
        × All (Below bound) (decompose u index cs marks).1
  unfolding decompose
  decompose-Below bound index [] marks h k = (k, tt)
  decompose-Below bound index (c ∷ cs) marks h k = elim (Bool-cases (u.combining c == 0)) [
    | inl e ↦
        let rest = decompose-Below bound index cs [] h tt in
        rw e (
          rest.0,
          All-append _ (sort (mark_before u) marks) _ (All-sort (mark_before u) _ marks k)
              (h, rest.1),
        )
    | inr e ↦ rw e (decompose-Below bound index cs _ h (All-append _ marks _ k (h, tt)))
  ]

  sources-Below :
      (bound index : ℕ) (text : Text) (marks : List Sourced)
      → index + length text ≤ bound
      → All (Below bound) marks
      → All (Below bound) (sources u index text marks)
  unfolding sources
  sources-Below bound index [] marks h k = All-sort (mark_before u) _ marks k
  sources-Below bound index (c ∷ text) marks h k =
      let here = decompose-Below bound index (u.nfd c) marks (omega arith) k in
      All-append _ _ _ here.1 (sources-Below bound (suc index) text _ (omega arith) here.0)

  pair_spans-Returns :
      (raw composed : List Sourced) (spans : List (ℕ × ℕ))
      → length raw ≡ length composed
      → All (Below (length spans)) composed
      → Returns (λ r. length r ≡ length spans) (pair_spans raw composed spans)
  unfolding pair_spans
  pair_spans-Returns [] [] spans e h = returns refl
  pair_spans-Returns [] (b ∷ composed) spans e h = absurd (omega arith)
  pair_spans-Returns (a ∷ raw) [] spans e h = absurd (omega arith)
  pair_spans-Returns (a ∷ raw) (b ∷ composed) spans e h =
      let (span, here, _) = drop-get_elem? b.1 spans h.0 in
      let widened : ℕ × ℕ = (min span.0 a.1, max span.1 (a.1 + 1)) in
      let same = length-set spans b.1 widened in
      rw (here, pair_spans)
        (Returns-map
          (pair_spans-Returns raw composed (set spans b.1 widened) (omega arith) (rw same h.1))
          (λ r k. k ∙ same))

  -- Spans of the right number fold with the text, and each folded character has one of them.
  fold_case-Returns :
      (P : Folded → Type 0) (text : Text) (spans : List (ℕ × ℕ))
      → length text ≡ length spans
      → All (λ p. (c : ℕ) → P (record { char = c; raw_start = p.0; raw_end = p.1 })) spans
      → Returns (All P) (fold_case u text spans)
  unfolding fold_case
  fold_case-Returns P [] [] e h = returns tt
  fold_case-Returns P [] (p ∷ spans) e h = absurd (omega arith)
  fold_case-Returns P (c ∷ text) [] e h = absurd (omega arith)
  fold_case-Returns P (c ∷ text) (p ∷ spans) e h =
      Returns-bind (fold_case-Returns P text spans (omega arith) h.1)
        λ rest k. returns (All-append P _ rest (chars (u.casefold c)) k)
    where
      chars : (cs : Text) → All P (fold_char cs p.0 p.1)
      chars cs = fold_char-All P cs p.0 p.1 h.0

  identity_spans-IsPlaced :
      (size index : ℕ) (text : Text)
      → index + length text ≤ size
      → All (λ p. (p.0 < p.1) × (p.1 ≤ size)) (identity_spans index text)
  unfolding identity_spans
  identity_spans-IsPlaced size index [] h = tt
  identity_spans-IsPlaced size index (c ∷ text) h =
      (omega arith, identity_spans-IsPlaced size (suc index) text (omega arith))

  length-identity_spans :
      (index : ℕ) (text : Text) → length (identity_spans index text) ≡ length text
  unfolding identity_spans
  length-identity_spans index [] = refl
  length-identity_spans index (c ∷ text) = ap suc (length-identity_spans (suc index) text)

  -- A text in NFC is folded without a failure, and each folded character is one raw character's.
  fold_segment-IsPlaced :
      (segment : Segment)
      → u.nfc segment.text ≡ segment.text
      → Returns (All (IsPlaced (length segment.text))) (fold_segment u segment)
  unfolding fold_segment nfc_with_raw_spans
  fold_segment-IsPlaced segment e =
      rw ((text_eq_iff _ _).1 e, e)
        (fold_case-Returns (IsPlaced (length segment.text)) segment.text
          (identity_spans 0 segment.text) (sym (length-identity_spans 0 segment.text))
          (All-map (identity_spans 0 segment.text) (λ p h c. h)
            (identity_spans-IsPlaced (length segment.text) 0 segment.text (omega arith))))

  -- The two decompositions of a text, of itself and of its composition, are as long.
  abbrev pub IsEquivalent : Text → Type 0
  IsEquivalent text = length (nfd_with_sources u text) ≡ length (nfd_with_sources u (u.nfc text))

  fold_segment-Returns :
      (segment : Segment)
      → IsEquivalent segment.text
      → Returns (All (λ f. Unit {0})) (fold_segment u segment)
  unfolding fold_segment nfc_with_raw_spans nfd_with_sources
  fold_segment-Returns segment e = elim (Bool-cases (text_eq (u.nfc segment.text) segment.text)) [
    | inl t ↦
        Returns-map (fold_segment-IsPlaced segment ((text_eq_iff _ _).0 t))
          (λ fs k. All-intro _ fs (λ f. tt))
    | inr t ↦ rw t (
        Returns-bind
          (Returns-bind
            {Q = λ r. (r.0 ≡ u.nfc segment.text) × (length r.1 ≡ length (u.nfc segment.text))}
            paired (λ spans k. returns (refl, k ∙ length-replicate _ _)))
          λ r k.
            fold_case-Returns (λ f. Unit) r.0 r.1 (ap length k.0 ∙ sym k.1)
              (All-intro _ r.1 (λ p c. tt)))
  ]
    where
      start : List (ℕ × ℕ)
      start = replicate (length (u.nfc segment.text)) (length segment.text, 0)

      paired :
          Returns
            (λ r. length r ≡ length start)
            (pair_spans (sources u 0 segment.text []) (sources u 0 (u.nfc segment.text) []) start)
      paired = pair_spans-Returns _ _ start e (
          sources-Below (length start) 0 (u.nfc segment.text) []
            (omega (
              arith,
              length-replicate {A = ℕ × ℕ} (length (u.nfc segment.text)) (length segment.text, 0),
            ))
            tt)

  -- A segment whose text is in NFC is tokenized without a failure, and the span of each token is a
  -- non-empty range of that text.
  pub tokenize_segment-IsSpan :
      (segment : Segment)
      → u.nfc segment.text ≡ segment.text
      → Returns (All (IsSpan (length segment.text))) (tokenize_segment u segment)
  unfolding tokenize_segment
  tokenize_segment-IsSpan segment e =
      Returns-bind (fold_segment-IsPlaced segment e)
        λ fs h. returns (scan-IsSpan u segment (length segment.text) fs h)

  tokenize_segment-IsWord :
      (segment : Segment)
      → IsEquivalent segment.text
      → Returns (All (λ t. IsWord u t.word)) (tokenize_segment u segment)
  unfolding tokenize_segment
  tokenize_segment-IsWord segment e =
      Returns-bind (fold_segment-Returns segment e) λ fs h. returns (scan-IsWord u segment fs)

  -- A transcript is tokenized without a failure where each text decomposes into as many characters
  -- as its composition does (which canonical equivalence says of every text), and each word is
  -- non-empty and free of joiners, punctuation and space.
  pub tokenize_transcript-IsWord :
      (segments : List Segment)
      → All (λ s. IsEquivalent s.text) segments
      → Returns (All (λ t. IsWord u t.word)) (tokenize_transcript u segments)
  unfolding tokenize_transcript
  tokenize_transcript-IsWord [] h = returns tt
  tokenize_transcript-IsWord (s ∷ rest) h = elim (Bool-cases s.exclude_from_training) [
    | inl e ↦ simp e (tokenize_transcript-IsWord rest h.1)
    | inr e ↦ simp e (
        Returns-bind (tokenize_segment-IsWord s h.0) λ tokens k.
          Returns-bind (tokenize_transcript-IsWord rest h.1)
            λ more m. returns (All-append _ tokens more k m))
  ]
