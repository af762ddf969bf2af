-- ===== src/Comparison/Align/Walk.antt =====
-- The walk back through the table neither fails nor runs out of fuel, and what it collects is an
-- alignment at the distance.
use egyptian_arabic_annotati.Base.{
  ℕ, zero, suc, ◌+◌, ◌-◌, ◌*◌, ◌≤◌, ◌<◌, ◌≡◌, refl, Bool, true, false, Bool-cases, inl, inr, List,
  ◌∷◌, Option, none, some, arith, length, get_elem?, drop, drop-get_elem?, count, ◌==◌, lt→ltb,
  if◌then◌else◌, text_eq, text_eq_iff, ok, ◌>>=◌, or_raise, Returns, returns, Returns-bind,
  Returns-map,
}
use egyptian_arabic_annotati.Comparison.Types.{
  reconstruction_failed, Token, match, replace, delete, insert, EditOp, edit_op,
}
use egyptian_arabic_annotati.Comparison.Align.{
  read, cols, Move, try_diagonal, try_delete, try_insert, or_else, token_before, walk_step, walk,
  is_op,
}
use egyptian_arabic_annotati.Comparison.Align.Spec.{
  Aligns, matched, replaced, deleted, inserted, cost, dist, dist-zero, dist_first_row,
  dist_first_column, dist-suc,
}
use egyptian_arabic_annotati.Comparison.Align.Table.{
  IsFilled, Everywhere, read-IsFilled, read-get_elem?,
}

-- The first test that holds decides the move.
choose :
    {P : Move → Type 0} (a b c : Bool) (first second third : Move)
    → (a ≡ true → P first)
    → (b ≡ true → P second)
    → (c ≡ true → P third)
    → (a ≡ false → b ≡ false → c ≡ false → ⊥)
    → Returns P (
        or_else (if a then some first else none) (ok (if b then some second else none))
        >>= λ deletion. or_else deletion (ok (if c then some third else none)) >>= λ insertion.
            or_raise insertion reconstruction_failed)
choose true b c first second third p q r none_left = returns (p refl)
choose false true c first second third p q r none_left = returns (q refl)
choose false false true first second third p q r none_left = returns (r refl)
choose false false false first second third p q r none_left = absurd (none_left refl refl refl)

suc-sub : (i : ℕ) → suc i - 1 ≡ i
suc-sub i = omega arith

token_before-zero : (xs : List Token) → token_before xs 0 ≡ ok none
unfolding token_before
token_before-zero xs = refl

token_before-suc :
    (xs : List Token) (i : ℕ) (t : Token)
    → get_elem? xs i ≡ some t
    → token_before xs (suc i) ≡ ok (some t)
unfolding token_before
token_before-suc xs i t e =
    rw (lt→ltb 0 (suc i) (omega arith), read-get_elem? xs (suc i - 1) t (rw (suc-sub i) e))

module _ (original secondary : List Token) where
  abbrev D : ℕ → ℕ → ℕ
  D = dist original secondary

  -- A move from `(i, j)` pays what the distance falls by, and extends every alignment of the rest.
  record IsMove (i j : ℕ) (m : Move) : Type 0 where
    lower : m.1 + m.2 < i + j
    left : m.1 ≤ i
    right : m.2 ≤ j
    price : (ops : List EditOp) → cost (m.0 ∷ ops) + D m.1 m.2 ≡ cost ops + D i j
    aligns :
        (ops : List EditOp)
        → Aligns ops (drop i original) (drop j secondary)
        → Aligns (m.0 ∷ ops) (drop m.1 original) (drop m.2 secondary)

  diagonal-IsMove :
      (i j : ℕ) (o s : Token)
      → drop i original ≡ o ∷ drop (suc i) original
      → drop j secondary ≡ s ∷ drop (suc j) secondary
      → D (suc i) (suc j) ≡ D i j + (if text_eq o.word s.word then 0 else 1)
      → IsMove
          (suc i)
          (suc j)
          (edit_op (if text_eq o.word s.word then match else replace) (some o) (some s), i, j)
  unfolding count is_op edit_op
  diagonal-IsMove i j o s eo es e = elim (Bool-cases (text_eq o.word s.word)) [
    | inl same ↦ record {
      lower = omega arith;
      left = omega arith;
      right = omega arith;
      price = rw same (ground arith);
      aligns = λ ops h. rw (same, eo, es) (matched o s ((text_eq_iff o.word s.word).0 same) h);
    }
    | inr other ↦ record {
      lower = omega arith;
      left = omega arith;
      right = omega arith;
      price = rw other (ground arith);
      aligns = λ ops h.
          rw (other, eo, es) (replaced o s (λ p. cc (other, (text_eq_iff o.word s.word).1 p)) h);
    }
  ]

  delete-IsMove :
      (i j : ℕ) (o : Token)
      → drop i original ≡ o ∷ drop (suc i) original
      → D (suc i) j ≡ D i j + 1
      → IsMove (suc i) j (edit_op delete (some o) none, i, j)
  unfolding count is_op edit_op
  delete-IsMove i j o eo e = record {
    lower = omega arith;
    left = omega arith;
    right = omega arith;
    price = ground arith;
    aligns = λ ops h. rw eo (deleted o h);
  }

  insert-IsMove :
      (i j : ℕ) (s : Token)
      → drop j secondary ≡ s ∷ drop (suc j) secondary
      → D i (suc j) ≡ D i j + 1
      → IsMove i (suc j) (edit_op insert none (some s), i, j)
  unfolding count is_op edit_op
  insert-IsMove i j s es e = record {
    lower = omega arith;
    left = omega arith;
    right = omega arith;
    price = ground arith;
    aligns = λ ops h. rw es (inserted s h);
  }

  module _ {dp : List ℕ} (f : IsFilled original secondary Everywhere dp) where
    cell :
        (i j k : ℕ)
        → i ≤ length original
        → j ≤ length secondary
        → k ≡ i * cols original secondary + j
        → read dp k ≡ ok (D i j)
    cell i j k hi hj e = read-IsFilled original secondary f i j k hi hj tt e

    diagonal_lem :
        (i j c : ℕ) (o s : Token)
        → i ≤ length original
        → j ≤ length secondary
        → try_diagonal original secondary dp (suc i) (suc j) c (some o) (some s)
          ≡ ok (
              if c == D i j + (if text_eq o.word s.word then 0 else 1)
              then some (
                edit_op (if text_eq o.word s.word then match else replace) (some o) (some s),
                i,
                j,
              )
              else none)
    unfolding try_diagonal
    diagonal_lem i j c o s hi hj = rw (
      cell i j ((suc i - 1) * cols original secondary + (suc j - 1)) hi hj
          (rw (suc-sub i, suc-sub j)),
      suc-sub i,
      suc-sub j,
    )

    delete_lem :
        (i j c : ℕ) (o : Token)
        → i ≤ length original
        → j ≤ length secondary
        → try_delete original secondary dp (suc i) j c (some o)
          ≡ ok (if c == D i j + 1 then some (edit_op delete (some o) none, i, j) else none)
    unfolding try_delete
    delete_lem i j c o hi hj =
        rw (cell i j ((suc i - 1) * cols original secondary + j) hi hj (rw (suc-sub i)), suc-sub i)

    insert_lem :
        (i j c : ℕ) (s : Token)
        → i ≤ length original
        → j ≤ length secondary
        → try_insert original secondary dp i (suc j) c (some s)
          ≡ ok (if c == D i j + 1 then some (edit_op insert none (some s), i, j) else none)
    unfolding try_insert
    insert_lem i j c s hi hj =
        rw (cell i j (i * cols original secondary + (suc j - 1)) hi hj (rw (suc-sub j)), suc-sub j)

    no_original :
        (i j c : ℕ) (s : Option Token)
        → (try_diagonal original secondary dp i j c none s ≡ ok none)
          × (try_delete original secondary dp i j c none ≡ ok none)
    unfolding try_diagonal try_delete
    no_original i j c s = (refl, refl)

    no_secondary :
        (i j c : ℕ) (o : Token)
        → (try_diagonal original secondary dp i j c (some o) none ≡ ok none)
          × (try_insert original secondary dp i j c none ≡ ok none)
    unfolding try_diagonal try_insert
    no_secondary i j c o = (refl, refl)

    walk_step-IsMove :
        (i j : ℕ)
        → i ≤ length original
        → j ≤ length secondary
        → (i + j == 0) ≡ false
        → Returns (IsMove i j) (walk_step original secondary dp i j)
    unfolding walk_step
    walk_step-IsMove zero zero hi hj h = ground arith
    walk_step-IsMove zero (suc j) hi hj h =
        let (s, es, ls) = drop-get_elem? j secondary (omega arith) in
        let only : Move = (edit_op insert none (some s), 0, j) in
        let rise = dist_first_row original secondary j in
        rw
          (
            cell 0 (suc j) (0 * cols original secondary + suc j) hi hj refl,
            token_before-zero original,
            token_before-suc secondary j s es,
            (no_original 0 (suc j) (D 0 (suc j)) (some s)).0,
            (no_original 0 (suc j) (D 0 (suc j)) (some s)).1,
            insert_lem 0 j (D 0 (suc j)) s hi (omega arith),
          )
          (choose false false _ only only only (λ p. cc) (λ p. cc)
            (λ p. insert-IsMove 0 j s ls (ground arith)) (λ p q r. ground (arith, rise)))
    walk_step-IsMove (suc i) zero hi hj h =
        let (o, eo, lo) = drop-get_elem? i original (omega arith) in
        let only : Move = (edit_op delete (some o) none, i, 0) in
        let rise = dist_first_column original secondary i in
        rw
          (
            cell (suc i) 0 (suc i * cols original secondary + 0) hi hj refl,
            token_before-suc original i o eo,
            token_before-zero secondary,
            (no_secondary (suc i) 0 (D (suc i) 0) o).0,
            delete_lem i 0 (D (suc i) 0) o (omega arith) hj,
            (no_secondary (suc i) 0 (D (suc i) 0) o).1,
          )
          (choose false _ false only only only (λ p. cc)
            (λ p. delete-IsMove i 0 o lo (ground arith)) (λ p. cc) (λ p q r. ground (arith, rise)))
    walk_step-IsMove (suc i) (suc j) hi hj h =
        let (o, eo, lo) = drop-get_elem? i original (omega arith) in
        let (s, es, ls) = drop-get_elem? j secondary (omega arith) in
        rw
          (
            cell (suc i) (suc j) (suc i * cols original secondary + suc j) hi hj refl,
            token_before-suc original i o eo,
            token_before-suc secondary j s es,
            diagonal_lem i j (D (suc i) (suc j)) o s (omega arith) (omega arith),
            delete_lem i (suc j) (D (suc i) (suc j)) o (omega arith) hj,
            insert_lem (suc i) j (D (suc i) (suc j)) s hi (omega arith),
          )
          (choose _ _ _ _ _ _ (λ p. diagonal-IsMove i j o s lo ls (ground arith))
            (λ p. delete-IsMove i (suc j) o lo (ground arith))
            (λ p. insert-IsMove (suc i) j s ls (ground arith))
            (λ p q r. ground (arith, dist-suc original secondary i j o s eo es)))

    -- The walk from any cell, on fuel above `i + j`, completes every alignment of the rest.
    pub walk-Returns :
        (fuel i j : ℕ) (ops : List EditOp)
        → i + j < fuel
        → i ≤ length original
        → j ≤ length secondary
        → Aligns ops (drop i original) (drop j secondary)
        → Returns
            (λ all. Aligns all original secondary × (cost all ≡ cost ops + D i j))
            (walk original secondary dp fuel i j ops)
    unfolding walk
    walk-Returns zero i j ops h hi hj a = elim h [ ]
    walk-Returns (suc fuel) i j ops h hi hj a = elim (Bool-cases (i + j == 0)) [
      | inl e ↦
          let iz : i ≡ 0 = ground arith in
          let jz : j ≡ 0 = ground arith in
          rw (e, walk) (returns (rw (iz, jz) at a, rw (iz, jz, dist-zero) (omega arith)))
      | inr e ↦
          rw (e, walk)
            (Returns-bind (walk_step-IsMove i j hi hj e) λ m v.
              Returns-map
                (walk-Returns fuel m.1 m.2 (m.0 ∷ ops) (omega arith) (omega arith) (omega arith)
                  (v.aligns ops a))
                (λ all r. (r.0, omega (arith, v.price ops))))
    ]
