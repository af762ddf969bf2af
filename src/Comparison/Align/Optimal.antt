-- ===== src/Comparison/Align/Optimal.antt =====
-- What `_word_alignment` returns: an alignment, and one of the least cost.
use egyptian_arabic_annotati.Base.{
  ℕ, zero, suc, ◌+◌, ◌*◌, ◌≤◌, max, ◌≡◌, refl, ◌↔◌, List, [], ◌∷◌, map, arith, length, ok, Returns,
  returns, Returns-bind, Returns-value, Returns-at, count, drop-length,
}
use egyptian_arabic_annotati.Comparison.Types.{Token, EditOp, edit_op}
use egyptian_arabic_annotati.Comparison.Align.{Alignment, word_alignment, cols, is_op}
use egyptian_arabic_annotati.Comparison.Align.Spec.{
  Aligns, done, matched, replaced, deleted, inserted, cost, dist, dist-le-cost, dist_step_replace,
}
use egyptian_arabic_annotati.Comparison.Align.Table.{table-IsFilled, read-IsFilled}
use egyptian_arabic_annotati.Comparison.Align.Walk.{walk-Returns}

module _ (original secondary : List Token) where
  abbrev n : ℕ
  n = length original

  abbrev m : ℕ
  m = length secondary

  record IsOptimal (r : Alignment) : Type 0 where
    distance : r.edit_distance ≡ dist original secondary n m
    aligned : Aligns r.ops original secondary
    counted : cost r.ops ≡ r.edit_distance
    paid : r.edit_distance ≡ r.substitutions + r.insertions + r.deletions

  word_alignment-IsOptimal : Returns IsOptimal (word_alignment original secondary)
  unfolding word_alignment dist count
  word_alignment-IsOptimal = Returns-bind (table-IsFilled original secondary) λ dp f.
      Returns-bind
        (walk-Returns original secondary f (suc (n + m)) n m [] (omega arith) (omega arith)
          (omega arith) (rw (drop-length original, drop-length secondary) done))
        λ ops a.
          rw
            (read-IsFilled original secondary f n m (n * cols original secondary + m) (omega arith)
              (omega arith) tt refl)
            (returns (record {
              distance = refl;
              aligned = a.0;
              counted = omega (arith, a.1);
              paid = omega (arith, a.1);
            }))

  -- `_word_alignment` raises nothing on any two token lists: every array access is in range, the
  -- walk always finds a move and ends. Its operations, in order, rebuild both lists with their
  -- mappings (a match joins equal words, a replacement different ones), and the distance is the
  -- number of its substitutions, insertions and deletions.
  pub word_alignment-Aligns :
      (r : Alignment) × (word_alignment original secondary ≡ ok r)
      × Aligns r.ops original secondary
      × (r.edit_distance ≡ r.substitutions + r.insertions + r.deletions)
  word_alignment-Aligns =
      let (r, e, v) = Returns-value word_alignment-IsOptimal in (r, e, v.aligned, v.paid)

  -- The distance that `_word_alignment` returns is the least cost of any alignment of the two
  -- token lists: its own operations are an alignment that costs so much, and none costs less.
  pub word_alignment_least :
      {r : Alignment}
      → word_alignment original secondary ≡ ok r
      → Aligns r.ops original secondary
        × (cost r.ops ≡ r.edit_distance)
        × ((ops : List EditOp) → Aligns ops original secondary → r.edit_distance ≤ cost ops)
  word_alignment_least {r} e =
      let v = Returns-at word_alignment-IsOptimal e in
      (
        v.aligned,
        v.counted,
        λ ops a. omega (arith, v.distance, dist-le-cost original secondary ops a),
      )

pub word_alignment-eq-dist :
    (original secondary : List Token) {r : Alignment}
    → word_alignment original secondary ≡ ok r
    → r.edit_distance ≡ dist original secondary (length original) (length secondary)
word_alignment-eq-dist original secondary e =
    (Returns-at (word_alignment-IsOptimal original secondary) e).distance

dist_bounds : (original secondary : List Token) (i j : ℕ) → dist original secondary i j ≤ max i j
unfolding dist
dist_bounds original secondary zero j = omega arith
dist_bounds original secondary (suc i) zero = omega arith
dist_bounds original secondary (suc i) (suc j) =
    omega (arith, dist_step_replace original secondary i j, dist_bounds original secondary i j)

-- The distance that `_word_alignment` returns is at most the number of words of the longer list.
pub word_alignment_bound :
    (original secondary : List Token) {r : Alignment}
    → word_alignment original secondary ≡ ok r
    → r.edit_distance ≤ max (length original) (length secondary)
word_alignment_bound original secondary e =
    let v = Returns-at (word_alignment-IsOptimal original secondary) e in
    omega (arith, v.distance, dist_bounds original secondary (length original) (length secondary))

-- The alignment of two lists with the same words in the same order.
Aligns-same :
    (os ss : List Token)
    → map (λ t. t.word) os ≡ map (λ t. t.word) ss
    → (ops : List EditOp) × Aligns ops os ss × (cost ops ≡ 0)
unfolding count is_op edit_op
Aligns-same [] [] e = ([], done, refl)
Aligns-same [] (s ∷ ss) e = cc
Aligns-same (o ∷ os) [] e = cc
Aligns-same (o ∷ os) (s ∷ ss) e =
    let (ops, a, c) = Aligns-same os ss (ground arith) in (_, matched o s (ground arith) a, c)

-- An alignment that costs nothing consists of matches.
words_of_free :
    {ops : List EditOp} {os ss : List Token}
    → Aligns ops os ss
    → cost ops ≡ 0
    → map (λ t. t.word) os ≡ map (λ t. t.word) ss
unfolding count is_op edit_op
words_of_free done c = refl
words_of_free (matched o s e a) c = ground (arith, words_of_free a)
words_of_free (replaced o s e a) c = absurd (omega arith)
words_of_free (deleted o a) c = absurd (omega arith)
words_of_free (inserted s a) c = absurd (omega arith)

-- The distance that `_word_alignment` returns is 0 exactly when the two lists have the same words
-- in the same order.
pub word_alignment_zero :
    (original secondary : List Token) {r : Alignment}
    → word_alignment original secondary ≡ ok r
    → (r.edit_distance ≡ 0) ↔ (map (λ t. t.word) original ≡ map (λ t. t.word) secondary)
word_alignment_zero original secondary {r} e = (forth, back)
  where
    v : IsOptimal original secondary r
    v = Returns-at (word_alignment-IsOptimal original secondary) e

    forth : r.edit_distance ≡ 0 → map (λ t. t.word) original ≡ map (λ t. t.word) secondary
    forth z = words_of_free v.aligned (omega (arith, v.counted))

    back : map (λ t. t.word) original ≡ map (λ t. t.word) secondary → r.edit_distance ≡ 0
    back s =
        let (ops, a, c) = Aligns-same original secondary s in
        omega (arith, (word_alignment_least original secondary e).2 ops a, c)
