-- ===== src/Comparison/Align/Spec.antt =====
-- What an alignment of two token lists is, what it costs, and the least cost on prefixes.
use egyptian_arabic_annotati.Base.{
  ℕ, zero, suc, ◌+◌, ◌≤◌, min, ◌≡◌, ◌≢◌, refl, List, [], ◌∷◌, Option, none, some, arith, length,
  get_elem?, drop, drop-cons, count, if◌then◌else◌, text_eq, text_eq_iff,
}
use egyptian_arabic_annotati.Comparison.Types.{
  Token, match, replace, delete, insert, EditOp, edit_op,
}
use egyptian_arabic_annotati.Comparison.Align.{is_op}

-- The operations, in order, consume both token lists and carry their words and mappings. A match
-- joins equal words and a replacement different ones.
pub data Aligns : List EditOp → List Token → List Token → Type 0 where
  done : Aligns [] [] []
  matched :
      {ops : List EditOp} {os ss : List Token} (o s : Token)
      → o.word ≡ s.word
      → Aligns ops os ss
      → Aligns (edit_op match (some o) (some s) ∷ ops) (o ∷ os) (s ∷ ss)
  replaced :
      {ops : List EditOp} {os ss : List Token} (o s : Token)
      → o.word ≢ s.word
      → Aligns ops os ss
      → Aligns (edit_op replace (some o) (some s) ∷ ops) (o ∷ os) (s ∷ ss)
  deleted :
      {ops : List EditOp} {os ss : List Token} (o : Token)
      → Aligns ops os ss
      → Aligns (edit_op delete (some o) none ∷ ops) (o ∷ os) ss
  inserted :
      {ops : List EditOp} {os ss : List Token} (s : Token)
      → Aligns ops os ss
      → Aligns (edit_op insert none (some s) ∷ ops) os (s ∷ ss)

-- Every operation but a match costs one.
abbrev pub cost : List EditOp → ℕ
cost ops = count (is_op replace) ops + count (is_op insert) ops + count (is_op delete) ops

unfoldable pub mismatch : Option Token → Option Token → ℕ
mismatch (some o) (some s) = if text_eq o.word s.word then 0 else 1
mismatch _ _ = 1

module _ (original secondary : List Token) where
  -- The least cost of aligning the first `i` tokens of one list with the first `j` of the other.
  unfoldable pub dist : ℕ → ℕ → ℕ
  unfolding mismatch
  dist zero j = j
  dist (suc i) zero = suc i
  dist (suc i) (suc j) =
      let here = mismatch (get_elem? original i) (get_elem? secondary j) in
      min (dist i j + here) (min (dist i (suc j) + 1) (dist (suc i) j + 1))

  pub dist-zero : (i : ℕ) → dist i 0 ≡ i
  unfolding dist
  dist-zero zero = refl
  dist-zero (suc i) = refl

  pub dist_first_column : (i : ℕ) → dist (suc i) 0 ≡ dist i 0 + 1
  dist_first_column i = omega (arith, dist-zero)

  pub dist_first_row : (j : ℕ) → dist 0 (suc j) ≡ dist 0 j + 1
  unfolding dist
  dist_first_row j = omega arith

  pub dist-suc :
      (i j : ℕ) (o s : Token)
      → get_elem? original i ≡ some o
      → get_elem? secondary j ≡ some s
      → dist (suc i) (suc j)
        ≡ min
            (dist i j + (if text_eq o.word s.word then 0 else 1))
            (min (dist i (suc j) + 1) (dist (suc i) j + 1))
  unfolding dist
  dist-suc i j o s eo es = rw (eo, es)

  pub dist_step_match :
      (i j : ℕ) (o s : Token)
      → get_elem? original i ≡ some o
      → get_elem? secondary j ≡ some s
      → o.word ≡ s.word
      → dist (suc i) (suc j) ≤ dist i j
  unfolding dist
  dist_step_match i j o s eo es e = ground (arith, text_eq_iff o.word s.word)

  pub dist_step_replace : (i j : ℕ) → dist (suc i) (suc j) ≤ dist i j + 1
  unfolding dist
  dist_step_replace i j = ground arith

  pub dist_step_delete : (i j : ℕ) → dist (suc i) j ≤ dist i j + 1
  unfolding dist
  dist_step_delete zero zero = omega arith
  dist_step_delete (suc i) zero = omega arith
  dist_step_delete i (suc j) = omega arith

  pub dist_step_insert : (i j : ℕ) → dist i (suc j) ≤ dist i j + 1
  unfolding dist
  dist_step_insert zero j = omega arith
  dist_step_insert (suc i) j = omega arith

  -- What is left of the lists costs no less than what the distance grows by.
  dist-le-rest :
      {ops : List EditOp} {os ss : List Token}
      → Aligns ops os ss
      → (i j a b : ℕ) → drop i original ≡ os
      → drop j secondary ≡ ss
      → i + length os ≡ a
      → j + length ss ≡ b
      → dist a b ≤ dist i j + cost ops
  unfolding count is_op edit_op
  dist-le-rest done i j a b eo es ea eb = ground arith
  dist-le-rest (matched o s e rest) i j a b eo es ea eb =
      let (go, eo', _) = drop-cons i original eo in
      let (gs, es', _) = drop-cons j secondary es in
      omega (
        arith,
        dist_step_match i j o s go gs e,
        dist-le-rest rest (suc i) (suc j) a b eo' es' (omega arith) (omega arith),
      )
  dist-le-rest (replaced o s e rest) i j a b eo es ea eb =
      let (_, eo', _) = drop-cons i original eo in
      let (_, es', _) = drop-cons j secondary es in
      omega (
        arith,
        dist_step_replace i j,
        dist-le-rest rest (suc i) (suc j) a b eo' es' (omega arith) (omega arith),
      )
  dist-le-rest (deleted o rest) i j a b eo es ea eb =
      let (_, eo', _) = drop-cons i original eo in
      omega (arith, dist_step_delete i j, dist-le-rest rest (suc i) j a b eo' es (omega arith) eb)
  dist-le-rest (inserted s rest) i j a b eo es ea eb =
      let (_, es', _) = drop-cons j secondary es in
      omega (arith, dist_step_insert i j, dist-le-rest rest i (suc j) a b eo es' ea (omega arith))

  -- No alignment costs less than the distance.
  pub dist-le-cost :
      (ops : List EditOp)
      → Aligns ops original secondary
      → dist (length original) (length secondary) ≤ cost ops
  unfolding dist
  dist-le-cost ops h = omega (
    arith,
    dist-le-rest h 0 0 (length original) (length secondary) refl refl (omega arith) (omega arith),
  )
