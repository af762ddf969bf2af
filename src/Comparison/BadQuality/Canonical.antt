-- ===== src/Comparison/BadQuality/Canonical.antt =====
-- The merged intervals are the canonical form of what they cover, so the comparison of two of them
-- sees no more than that.
use egyptian_arabic_annotati.Base.{
  ℕ, suc, ◌+◌, ◌≤◌, ◌<◌, max, ◌≡◌, refl, sym, ◌∙◌, ◌↔◌, ◌⊎◌, true, false, Bool-cases, inl, inr,
  ◌&&◌, List, [], ◌∷◌, ltb, leb, arith, any, All, All-sort, sort,
}
use egyptian_arabic_annotati.Comparison.Types.{Segment, TimeInterval}
use egyptian_arabic_annotati.Comparison.BadQuality.{
  to_ms, Span, span_before, bad_spans, merge, merge_all, bad_quality_union, bad_quality_conflict,
}
use egyptian_arabic_annotati.Comparison.BadQuality.Coverage.{
  covers, marks, covers-bad_quality_union,
}

-- Every interval is non-empty, the first begins no earlier than `lo`, and each begins after the one
-- before it has ended.
abbrev pub Separated : ℕ → List TimeInterval → Type 0
Separated lo [] = Unit
Separated lo (i ∷ rest) =
    (lo ≤ i.start_ms) × (i.start_ms < i.end_ms) × Separated (suc i.end_ms) rest

Separated-weaken :
    (lo hi : ℕ) (xs : List TimeInterval) → lo ≤ hi → Separated hi xs → Separated lo xs
Separated-weaken lo hi [] h k = tt
Separated-weaken lo hi (i ∷ rest) h k = (omega arith, k.1, k.2)

bad_spans-nonempty : (segments : List Segment) → All (λ p. p.0 < p.1) (bad_spans segments)
unfolding bad_spans
bad_spans-nonempty [] = tt
bad_spans-nonempty (s ∷ rest) =
    elim (Bool-cases (s.exclude_from_training && ltb (to_ms s.start_s) (to_ms s.end_s))) [
      | inl e ↦ rw e (ground arith, bad_spans-nonempty rest)
      | inr e ↦ rw e (bad_spans-nonempty rest)
    ]

merge-Separated :
    (ps pe : ℕ) (spans : List Span)
    → ps < pe
    → All (λ p. p.0 < p.1) spans
    → Separated ps (merge ps pe spans)
unfolding merge
merge-Separated ps pe [] h k = omega arith
merge-Separated ps pe ((s, e) ∷ spans) h k = elim (Bool-cases (leb s pe)) [
  | inl le ↦ rw le (merge-Separated ps (max pe e) spans (omega arith) k.1)
  | inr gt ↦ rw gt (
    omega arith,
    h,
    Separated-weaken (suc pe) s (merge s e spans) (ground arith)
        (merge-Separated s e spans k.0 k.1),
  )
]

merge_all-Separated :
    (spans : List Span) → All (λ p. p.0 < p.1) spans → Separated 0 (merge_all spans)
unfolding merge_all
merge_all-Separated [] k = tt
merge_all-Separated ((s, e) ∷ spans) k =
    Separated-weaken 0 s (merge s e spans) (omega arith) (merge-Separated s e spans k.0 k.1)

-- `_bad_quality_union` returns non-empty intervals in order, each of which begins after the one
-- before it has ended.
pub bad_quality_union-Separated :
    (segments : List Segment) → Separated 0 (bad_quality_union segments)
unfolding bad_quality_union
bad_quality_union-Separated segments =
    merge_all-Separated (sort span_before (bad_spans segments))
      (All-sort span_before _ (bad_spans segments) (bad_spans-nonempty segments))

covers_below : (lo t : ℕ) (xs : List TimeInterval) → Separated lo xs → t < lo → covers xs t ≡ false
unfolding any
covers_below lo t [] k h = refl
covers_below lo t (i ∷ rest) k h =
    ground (arith, k.0, k.1, covers_below (suc i.end_ms) t rest k.2 (omega arith))

covers_nil : (t : ℕ) → covers [] t ≡ false
unfolding any
covers_nil t = refl

covers_first :
    (t : ℕ) (i : TimeInterval) (rest : List TimeInterval)
    → i.start_ms ≤ t
    → t < i.end_ms
    → covers (i ∷ rest) t ≡ true
unfolding any
covers_first t i rest h k = ground arith

covers_gap :
    (lo t : ℕ) (i : TimeInterval) (rest : List TimeInterval)
    → Separated lo (i ∷ rest)
    → (t < i.start_ms) ⊎ (t ≡ i.end_ms)
    → covers (i ∷ rest) t ≡ false
unfolding any
covers_gap lo t i rest k h = ground (arith, k.1, covers_below (suc i.end_ms) t rest k.2)

first_le :
    (i j : TimeInterval) (xs ys : List TimeInterval) (lo : ℕ)
    → Separated lo (i ∷ xs)
    → Separated lo (j ∷ ys)
    → ((t : ℕ) → covers (i ∷ xs) t ≡ covers (j ∷ ys) t)
    → (i.start_ms ≤ j.start_ms) × (i.end_ms ≤ j.end_ms)
first_le i j xs ys lo a b e = (begin, finish)
  where
    begin : i.start_ms ≤ j.start_ms
    begin =
        ground
          (arith, b.1, e j.start_ms, covers_first j.start_ms j ys, covers_gap lo j.start_ms i xs a)

    finish : i.end_ms ≤ j.end_ms
    finish =
        ground
          (arith, begin, b.1, e j.end_ms, covers_first j.end_ms i xs, covers_gap lo j.end_ms j ys b)

covers_rest :
    (i : TimeInterval) (xs ys : List TimeInterval) (lo : ℕ)
    → Separated lo (i ∷ xs)
    → Separated lo (i ∷ ys)
    → ((t : ℕ) → covers (i ∷ xs) t ≡ covers (i ∷ ys) t)
    → (t : ℕ) → covers xs t ≡ covers ys t
unfolding any
covers_rest i xs ys lo a b e t =
    ground (arith, e t, covers_below (suc i.end_ms) t xs a.2, covers_below (suc i.end_ms) t ys b.2)

canonical :
    (lo : ℕ) (xs ys : List TimeInterval)
    → Separated lo xs
    → Separated lo ys
    → ((t : ℕ) → covers xs t ≡ covers ys t)
    → xs ≡ ys
canonical lo [] [] a b e = refl
canonical lo [] (j ∷ ys) a b e =
    cc (e j.start_ms, covers_first j.start_ms j ys (omega arith) b.1, covers_nil j.start_ms)
canonical lo (i ∷ xs) [] a b e =
    cc (e i.start_ms, covers_first i.start_ms i xs (omega arith) a.1, covers_nil i.start_ms)
canonical lo (i ∷ xs) (j ∷ ys) a b e =
    let same : i ≡ j =
      ground (arith, first_le i j xs ys lo a b e, first_le j i ys xs lo b a (λ t. sym (e t))) in
    let rest : xs ≡ ys =
      canonical (suc i.end_ms) xs ys a.2 (rw same b.2)
        (covers_rest i xs ys lo a (rw same b) (λ t. e t ∙ cc same)) in
    cc (same, rest)

no_conflict_self : (xs : List TimeInterval) → bad_quality_conflict xs xs ≡ false
unfolding bad_quality_conflict
no_conflict_self [] = refl
no_conflict_self (x ∷ xs) = ground (arith, no_conflict_self xs)

-- Two transcripts whose bad segments cover the same milliseconds have the same union, however the
-- segments are cut and ordered, and no conflict between them is reported.
pub bad_quality_union_canonical :
    (original secondary : List Segment)
    → ((t : ℕ) → marks original t ≡ marks secondary t)
    → (bad_quality_union original ≡ bad_quality_union secondary)
      × (bad_quality_conflict (bad_quality_union original) (bad_quality_union secondary) ≡ false)
bad_quality_union_canonical original secondary h =
    let same : bad_quality_union original ≡ bad_quality_union secondary =
      canonical 0 (bad_quality_union original) (bad_quality_union secondary)
        (bad_quality_union-Separated original) (bad_quality_union-Separated secondary)
        (λ t.
          covers-bad_quality_union original t ∙ h t ∙ sym (covers-bad_quality_union secondary t)) in
    (same, rw same (no_conflict_self (bad_quality_union secondary)))

-- Position by position, both ends are at most a millisecond apart, and the lengths are the same.
abbrev pub Near : List TimeInterval → List TimeInterval → Type 0
Near [] [] = Unit
Near (a ∷ xs) (b ∷ ys) =
    (a.start_ms ≤ b.start_ms + 1)
    × (b.start_ms ≤ a.start_ms + 1)
    × (a.end_ms ≤ b.end_ms + 1)
    × (b.end_ms ≤ a.end_ms + 1)
    × Near xs ys
Near _ _ = ⊥

Near-of_no_conflict :
    (original secondary : List TimeInterval)
    → bad_quality_conflict original secondary ≡ false
    → Near original secondary
unfolding bad_quality_conflict
Near-of_no_conflict [] [] h = tt
Near-of_no_conflict [] (b ∷ ys) h = ground arith
Near-of_no_conflict (a ∷ xs) [] h = ground arith
Near-of_no_conflict (a ∷ xs) (b ∷ ys) h = (
  ground arith,
  ground arith,
  ground arith,
  ground arith,
  Near-of_no_conflict xs ys (ground arith),
)

no_conflict-of_Near :
    (original secondary : List TimeInterval)
    → Near original secondary
    → bad_quality_conflict original secondary ≡ false
unfolding bad_quality_conflict
no_conflict-of_Near [] [] h = refl
no_conflict-of_Near [] (b ∷ ys) h = absurd h
no_conflict-of_Near (a ∷ xs) [] h = absurd h
no_conflict-of_Near (a ∷ xs) (b ∷ ys) (l, m, n, o, h) = ground (arith, no_conflict-of_Near xs ys h)

-- `_bad_quality_conflict` reports none exactly when the two lists have the same length and, position
-- by position, both ends are at most a millisecond apart.
pub bad_quality_conflict_iff :
    (original secondary : List TimeInterval)
    → (bad_quality_conflict original secondary ≡ false) ↔ Near original secondary
bad_quality_conflict_iff original secondary =
    (Near-of_no_conflict original secondary, no_conflict-of_Near original secondary)
