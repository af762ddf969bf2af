-- ===== src/Comparison/Align/Table.antt =====
-- The flat array holds the distances, and no access to it is out of range.
use native.Mathlib.Numerals.{sub-one}
use egyptian_arabic_annotati.Base.{
  ℕ, zero, suc, ◌+◌, ◌-◌, ◌*◌, ◌≤◌, ◌<◌, ◌≡◌, refl, ◌⊎◌, inl, inr, ap, ◌∙◌, List, some, arith,
  length, get_elem?, set, length-set, length-replicate, get_elem?-replicate, get_elem?-set_self,
  get_elem?-set_ne, drop-get_elem?, lt→ltb, dec_lt, ℕ_discrete, sym, ok, Returns, returns,
  Returns-bind, Returns-map, for_range-Returns,
}
use egyptian_arabic_annotati.Comparison.Types.{Token}
use egyptian_arabic_annotati.Comparison.Align.{
  read, write, cols, init, borders, fill_cell, fill_row, table,
}
use egyptian_arabic_annotati.Comparison.Align.Spec.{dist, dist-zero, dist-suc}

pub read-get_elem? {ℓ} :
    {A : Type ℓ} (xs : List A) (k : ℕ) (v : A) → get_elem? xs k ≡ some v → read xs k ≡ ok v
unfolding read
read-get_elem? xs k v e = rw e

-- Cells of different rows, or of different columns, are different places of the array.
cell-lt : (w i j a b : ℕ) → i < a → j < w → i * w + j < a * w + b
cell-lt w i j a b h k = grind arith

cell_inj : (w i j a b : ℕ) → j < w → b < w → i * w + j ≡ a * w + b → (i ≡ a) × (j ≡ b)
cell_inj w i j a b hj hb e = elim (dec_lt i a) [
  | yes p ↦ absurd (omega (arith, cell-lt w i j a b p hj))
  | no p ↦ elim (dec_lt a i) [
    | yes q ↦ absurd (omega (arith, cell-lt w a b i j q hb))
    | no q ↦ let same : i ≡ a = omega arith in (same, omega (arith, ap (λ (t : ℕ). t * w) same))
  ]
]

cell_bound : (n w i j : ℕ) → i ≤ n → j < w → i * w + j < (n + 1) * w
cell_bound n w i j h k = grind arith

abbrev pub Everywhere : ℕ → ℕ → Type 0
Everywhere a b = Unit

module _ (original secondary : List Token) where
  abbrev place : ℕ → ℕ → ℕ
  place i j = i * cols original secondary + j

  -- An array of the right size that holds the distance at every cell which `Known` names.
  pub record IsFilled (Known : ℕ → ℕ → Type 0) (dp : List ℕ) : Type 0 where
    pub size : length dp ≡ (length original + 1) * cols original secondary
    pub cells :
        (i j : ℕ)
        → i ≤ length original
        → j ≤ length secondary
        → Known i j
        → get_elem? dp (place i j) ≡ some (dist original secondary i j)

  write-IsFilled :
      {Known : ℕ → ℕ → Type 0} (Known' : ℕ → ℕ → Type 0) {dp : List ℕ} (i j k v : ℕ)
      → i ≤ length original
      → j ≤ length secondary
      → k ≡ place i j
      → v ≡ dist original secondary i j
      → ((a b : ℕ) → Known' a b → Known a b ⊎ ((a ≡ i) × (b ≡ j)))
      → IsFilled Known dp
      → Returns (IsFilled Known') (write dp k v)
  unfolding write
  write-IsFilled {Known} Known' {dp} i j k v hi hj ek ev more f = rw (lt→ltb k (length dp) inside) (
      returns (record {
        size = length-set dp k v ∙ f.size;
        cells = λ a b ha hb known. cell a b ha hb (more a b known);
      }))
    where
      inside : k < length dp
      inside = omega (
        arith,
        f.size,
        cell_bound (length original) (cols original secondary) i j hi (omega arith),
      )

      here :
          (a b : ℕ)
          → a ≡ i
          → b ≡ j
          → get_elem? (set dp k v) (place a b) ≡ some (dist original secondary a b)
      here a b ea eb = rw (ea, eb, ← ek, ← ev) (get_elem?-set_self dp k v inside)

      cell :
          (a b : ℕ)
          → a ≤ length original
          → b ≤ length secondary
          → Known a b ⊎ ((a ≡ i) × (b ≡ j))
          → get_elem? (set dp k v) (place a b) ≡ some (dist original secondary a b)
      cell a b ha hb (inr (ea, eb)) = here a b ea eb
      cell a b ha hb (inl known) = elim (ℕ_discrete k (place a b)) [
        | yes e ↦
            let (ei, ej) =
              cell_inj (cols original secondary) i j a b (omega arith) (omega arith) (sym ek ∙ e) in
            here a b (sym ei) (sym ej)
        | no ne ↦ get_elem?-set_ne dp k (place a b) v ne ∙ f.cells a b ha hb known
      ]

  IsFilled-weaken :
      {Known Known' : ℕ → ℕ → Type 0} {dp : List ℕ}
      → ((a b : ℕ) → a ≤ length original → b ≤ length secondary → Known' a b → Known a b)
      → IsFilled Known dp
      → IsFilled Known' dp
  IsFilled-weaken less f = record {
    size = f.size;
    cells = λ a b ha hb known. f.cells a b ha hb (less a b ha hb known);
  }

  pub read-IsFilled :
      {Known : ℕ → ℕ → Type 0} {dp : List ℕ}
      → IsFilled Known dp
      → (a b k : ℕ) → a ≤ length original
      → b ≤ length secondary
      → Known a b
      → k ≡ place a b
      → read dp k ≡ ok (dist original secondary a b)
  read-IsFilled {dp} f a b k ha hb known e = read-get_elem? dp k _ (rw e (f.cells a b ha hb known))

  -- Before round `i` of the first loop, the first column is known below `i`.
  abbrev Column : ℕ → ℕ → ℕ → Type 0
  Column i a b = (b ≡ 0) × (a < i)

  -- Before round `j` of the second, the whole column and the first row below `j`.
  abbrev Borders : ℕ → ℕ → ℕ → Type 0
  Borders j a b = (b ≡ 0) ⊎ ((a ≡ 0) × (b < j))

  IsFilled-init : IsFilled (Column 1) (init original secondary)
  unfolding dist
  IsFilled-init = record {
    size = length-replicate _ 0;
    cells = λ i j hi hj known.
        get_elem?-replicate _ (place i j) 0 (cell_bound _ _ i j hi (omega arith)) ∙ ground arith;
  }

  borders-IsFilled :
      Returns (IsFilled (Borders (suc (length secondary)))) (borders original secondary)
  unfolding borders dist
  borders-IsFilled =
      Returns-bind
        (for_range-Returns (λ i. IsFilled (Column i)) _ (length original) 1 (suc (length original))
          _ (omega arith)
          (λ i dp lo hi f.
            write-IsFilled (Column (suc i)) i 0 _ _ (omega arith) (omega arith) (omega arith)
              (sym (dist-zero original secondary i)) (λ a b known. ground arith) f)
          IsFilled-init)
        λ dp f.
          for_range-Returns (λ j. IsFilled (Borders j)) _ (length secondary) 1
            (suc (length secondary)) dp (omega arith)
            (λ j dp' lo hi g.
              write-IsFilled (Borders (suc j)) 0 j _ _ (omega arith) (omega arith) (omega arith)
                refl (λ a b known. ground arith) g)
            (IsFilled-weaken (λ a b ha hb known. ground arith) f)

  -- Before cell `j` of row `i`, the borders, the rows above and the cells to the left are known.
  abbrev Rows : ℕ → ℕ → ℕ → ℕ → Type 0
  Rows i j a b = (b ≡ 0) ⊎ (a < i) ⊎ ((a ≡ i) × (b < j))

  fill_cell-IsFilled :
      (i j : ℕ) (dp : List ℕ)
      → i < length original
      → j < length secondary
      → IsFilled (Rows (suc i) (suc j)) dp
      → Returns
          (IsFilled (Rows (suc i) (suc (suc j))))
          (fill_cell original secondary (suc i) (suc j) dp)
  unfolding fill_cell
  fill_cell-IsFilled i j dp hi hj f =
      let before : suc i - 1 ≡ i = omega arith in
      let (o, eo, _) = drop-get_elem? i original hi in
      let (s, es, _) = drop-get_elem? j secondary hj in
      rw
        (
          read-get_elem? original (suc i - 1) o (rw sub-one eo),
          read-IsFilled f i j ((suc i - 1) * cols original secondary + suc j - 1) (omega arith)
              (omega arith) (inr (inl (omega arith))) (rw before (omega arith)),
          read-get_elem? secondary (suc j - 1) s (rw sub-one es),
          read-IsFilled f i (suc j) ((suc i - 1) * cols original secondary + suc j) (omega arith)
              (omega arith) (inr (inl (omega arith))) (rw before (omega arith)),
          read-IsFilled f (suc i) j (suc i * cols original secondary + suc j - 1) (omega arith)
              (omega arith) (inr (inr (refl, omega arith))) (omega arith),
        )
        (write-IsFilled _ (suc i) (suc j) _ _ (omega arith) (omega arith) refl
          (ground (arith, dist-suc original secondary i j o s eo es)) (λ a b known. ground arith) f)

  fill_row-IsFilled :
      (i : ℕ) (dp : List ℕ)
      → i < length original
      → IsFilled (Rows (suc i) 1) dp
      → Returns (IsFilled (Rows (suc (suc i)) 1)) (fill_row original secondary (suc i) dp)
  unfolding fill_row
  fill_row-IsFilled i dp hi f =
      Returns-map
        (for_range-Returns (λ j. IsFilled (Rows (suc i) j)) _ (length secondary) 1
          (suc (length secondary)) dp (omega arith) cell f)
        (λ dp' g. IsFilled-weaken (λ a b ha hb known. grind arith) g)
    where
      cell :
          (j : ℕ) (dp' : List ℕ)
          → 1 ≤ j
          → j < suc (length secondary)
          → IsFilled (Rows (suc i) j) dp'
          → Returns (IsFilled (Rows (suc i) (suc j))) (fill_cell original secondary (suc i) j dp')
      cell zero dp' lo hj g = absurd (omega arith)
      cell (suc j) dp' lo hj g = fill_cell-IsFilled i j dp' hi (omega arith) g

  -- The table is built without an index error, and each of its cells is a distance.
  pub table-IsFilled : Returns (IsFilled Everywhere) (table original secondary)
  unfolding table
  table-IsFilled = Returns-bind borders-IsFilled λ dp f.
      Returns-map
        (for_range-Returns (λ i. IsFilled (Rows i 1)) _ (length original) 1 (suc (length original))
          dp (omega arith) row (IsFilled-weaken (λ a b ha hb known. grind arith) f))
        (λ dp' g. IsFilled-weaken (λ a b ha hb known. inr (inl (omega arith))) g)
    where
      row :
          (i : ℕ) (dp : List ℕ)
          → 1 ≤ i
          → i < suc (length original)
          → IsFilled (Rows i 1) dp
          → Returns (IsFilled (Rows (suc i) 1)) (fill_row original secondary i dp)
      row zero dp lo hi g = absurd (omega arith)
      row (suc i) dp lo hi g = fill_row-IsFilled i dp (omega arith) g
