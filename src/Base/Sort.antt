-- ===== src/Base/Sort.antt =====
-- Python's stable `sort`, as insertion sort by a test `before` that says which item may stand
-- first, and what it keeps.
use Prim.Native.Nat.{◌+◌}
use mathlib.Core.Path.{◌≡◌, refl}
use mathlib.Core.Logic.{inl, inr}
use mathlib.Core.Bool.{Bool, true, false}
use mathlib.Core.List.{List, [], ◌∷◌}
use native.Mathlib.Omega.{arith}
use egyptian_arabic_annotati.Base.Tests.{if◌then◌else◌, Bool-cases}
use egyptian_arabic_annotati.Base.Lists.{All, any, count}

module _ {ℓ} {A : Type ℓ} (before : A → A → Bool) where
  -- Put an item in front of the first one that it may stand before.
  unfoldable pub insert_sorted : A → List A → List A
  insert_sorted a [] = a ∷ []
  insert_sorted a (x ∷ xs) = if before a x then a ∷ x ∷ xs else x ∷ insert_sorted a xs

  unfoldable pub sort : List A → List A
  unfolding insert_sorted
  sort [] = []
  sort (x ∷ xs) = insert_sorted x (sort xs)

  -- Every item may stand before all that follow it.
  abbrev pub IsSorted : List A → Type ℓ
  IsSorted [] = Unit
  IsSorted (x ∷ xs) = All (λ y. before x y ≡ true) xs × IsSorted xs

  pub any-insert_sorted :
      (test : A → Bool) (a : A) (xs : List A)
      → any test (insert_sorted a xs) ≡ (if test a then true else any test xs)
  unfolding any insert_sorted
  any-insert_sorted test a [] = refl
  any-insert_sorted test a (x ∷ xs) = ground (arith, any-insert_sorted test a xs)

  -- Sorting keeps which tests some item passes.
  pub any-sort : (test : A → Bool) (xs : List A) → any test (sort xs) ≡ any test xs
  unfolding sort any
  any-sort test [] = refl
  any-sort test (x ∷ xs) = ground (arith, any-insert_sorted test x (sort xs), any-sort test xs)

  pub count-insert_sorted :
      (test : A → Bool) (a : A) (xs : List A)
      → count test (insert_sorted a xs) ≡ (if test a then count test xs + 1 else count test xs)
  unfolding count insert_sorted
  count-insert_sorted test a [] = refl
  count-insert_sorted test a (x ∷ xs) = ground (arith, count-insert_sorted test a xs)

  -- Sorting keeps how many items pass each test.
  pub count-sort : (test : A → Bool) (xs : List A) → count test (sort xs) ≡ count test xs
  unfolding sort count
  count-sort test [] = refl
  count-sort test (x ∷ xs) =
      ground (arith, count-insert_sorted test x (sort xs), count-sort test xs)

  All-insert_sorted {κ} :
      (P : A → Type κ) (a : A) (xs : List A) → P a → All P xs → All P (insert_sorted a xs)
  unfolding insert_sorted
  All-insert_sorted P a [] h hs = (h, tt)
  All-insert_sorted P a (x ∷ xs) h hs = elim (Bool-cases (before a x)) [
    | inl e ↦ rw e (h, hs)
    | inr e ↦ rw e (hs.0, All-insert_sorted P a xs h hs.1)
  ]

  -- Sorting keeps what holds of every item.
  pub All-sort {κ} : (P : A → Type κ) (xs : List A) → All P xs → All P (sort xs)
  unfolding sort
  All-sort P [] h = tt
  All-sort P (x ∷ xs) h = All-insert_sorted P x (sort xs) h.0 (All-sort P xs h.1)

  insert_sorted-front :
      (a : A) (xs : List A) → All (λ y. before a y ≡ true) xs → insert_sorted a xs ≡ a ∷ xs
  unfolding insert_sorted
  insert_sorted-front a [] h = refl
  insert_sorted-front a (x ∷ xs) h = rw (h.0) refl

  -- Sorting leaves a sorted list as it is.
  pub sort_sorted : (xs : List A) → IsSorted xs → sort xs ≡ xs
  unfolding sort
  sort_sorted [] h = refl
  sort_sorted (x ∷ xs) h = rw (sort_sorted xs h.1) (insert_sorted-front x xs h.0)

  module _ (total : (a b : A) → before a b ≡ false → before b a ≡ true)
      (trans : (a b c : A) → before a b ≡ true → before b c ≡ true → before a c ≡ true) where
    All-trans :
        (a x : A) (xs : List A)
        → before a x ≡ true
        → All (λ y. before x y ≡ true) xs
        → All (λ y. before a y ≡ true) xs
    All-trans a x [] h hs = tt
    All-trans a x (y ∷ xs) h hs = (trans a x y h hs.0, All-trans a x xs h hs.1)

    insert_sorted-IsSorted : (a : A) (xs : List A) → IsSorted xs → IsSorted (insert_sorted a xs)
    unfolding insert_sorted
    insert_sorted-IsSorted a [] h = (tt, tt)
    insert_sorted-IsSorted a (x ∷ xs) h = elim (Bool-cases (before a x)) [
      | inl e ↦ rw e ((e, All-trans a x xs e h.0), h)
      | inr e ↦ rw e (All-insert_sorted _ a xs (total a x e) h.0, insert_sorted-IsSorted a xs h.1)
    ]

    pub sort-IsSorted : (xs : List A) → IsSorted (sort xs)
    unfolding sort
    sort-IsSorted [] = tt
    sort-IsSorted (x ∷ xs) = insert_sorted-IsSorted x (sort xs) (sort-IsSorted xs)
