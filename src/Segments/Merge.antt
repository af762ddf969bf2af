-- ===== src/Segments/Merge.antt =====
-- The preview of the edits in memory and their application to the rows.
use egyptian_arabic_annotati.Base.{
  ℕ, ◌≡◌, refl, sym, ◌∙◌, subst, inl, inr, Bool, true, false, Bool-cases, Option-cases, not, none,
  some, List, [], ◌∷◌, map, ◌==◌, if◌then◌else◌, arith, ok, err, ◌>>=◌, ◌>>◌, raise_if, or_raise,
  All, any, count,
}
use egyptian_arabic_annotati.Segments.{
  RawSegment, Segment, Edit, parse_dirty_segment, edited, update_rows, rowcount, apply_each,
  apply_dirty_segments, Dict, assign, by_id, in_order, merge_each, merge_dirty_segments,
  validate_segment_timeline, validate_version_segments, appears_twice, does_not_exist,
}
use egyptian_arabic_annotati.Segments.Timeline.{version_segments_agree}

abbrev pub has_id : ℕ → List Segment → Bool
has_id sid rows = any (λ row. row.id == sid) rows

-- No two rows of a version have the same id: (version_id, segment_id) is the key of the table.
unfoldable pub unique_ids : List Segment → Bool
unfolding any
unique_ids [] = true
unique_ids (row ∷ rows) = if has_id row.id rows then false else unique_ids rows

-- The dict holds the rows and nothing else.
abbrev pub Holds : Dict → List Segment → Type 0
Holds dict rows =
    All (λ row. dict row.id ≡ some row) rows × ((k : ℕ) → has_id k rows ≡ false → dict k ≡ none)

abbrev ids : List Segment → List ℕ
ids rows = map (λ row. row.id) rows

rowcount_absent :
    (edit : Edit) (rows : List Segment) → has_id edit.sid rows ≡ false → rowcount edit rows ≡ 0
unfolding rowcount count any
rowcount_absent edit [] h = refl
rowcount_absent edit (row ∷ rows) h = ground (arith, rowcount_absent edit rows)

rowcount_present :
    (edit : Edit) (rows : List Segment)
    → unique_ids rows ≡ true
    → has_id edit.sid rows ≡ true
    → rowcount edit rows ≡ 1
unfolding rowcount count any unique_ids
rowcount_present edit [] u h = ground arith
rowcount_present edit (row ∷ rows) u h = elim (Bool-cases (row.id == edit.sid)) [
  | inl e ↦
      let same : row.id ≡ edit.sid = ground arith in
      let rest : has_id row.id rows ≡ false = ground arith in
      let none_left = rowcount_absent edit rows (subst (λ k. has_id k rows ≡ false) same rest) in
      ground (arith, none_left)
  | inr e ↦
      let rest : unique_ids rows ≡ true = ground arith in
      let there : has_id edit.sid rows ≡ true = ground arith in
      ground (arith, rowcount_present edit rows rest there)
]

missing_id-absent :
    (dict : Dict) (rows : List Segment) (k : ℕ)
    → All (λ row. dict row.id ≡ some row) rows
    → dict k ≡ none
    → has_id k rows ≡ false
unfolding any
missing_id-absent dict [] k h p = refl
missing_id-absent dict (row ∷ rows) k h p = ground (arith, missing_id-absent dict rows k h.1)

found-has_id :
    (dict : Dict) (rows : List Segment) (k : ℕ) (segment : Segment)
    → Holds dict rows
    → dict k ≡ some segment
    → has_id k rows ≡ true
found-has_id dict rows k segment h found = elim (Bool-cases (has_id k rows)) [
  | inl e ↦ e
  | inr e ↦ absurd (cc (h.1 k e))
]

update-has_id :
    (edit : Edit) (rows : List Segment) (k : ℕ) → has_id k (update_rows edit rows) ≡ has_id k rows
unfolding update_rows edited any
update-has_id edit [] k = refl
update-has_id edit (row ∷ rows) k = ground (arith, update-has_id edit rows k)

update-unique_ids :
    (edit : Edit) (rows : List Segment) → unique_ids (update_rows edit rows) ≡ unique_ids rows
unfolding update_rows edited unique_ids
update-unique_ids edit [] = refl
update-unique_ids edit (row ∷ rows) =
    ground (arith, update-unique_ids edit rows, update-has_id edit rows row.id)

update-All :
    (edit : Edit) (dict : Dict) (segment : Segment) (rows : List Segment)
    → dict edit.sid ≡ some segment
    → All (λ row. dict row.id ≡ some row) rows
    → All
        (λ row. assign dict edit.sid (edited edit segment) row.id ≡ some row)
        (update_rows edit rows)
unfolding update_rows assign edited
update-All edit dict segment [] e h = tt
update-All edit dict segment (row ∷ rows) e h =
    (ground (arith, h.0), update-All edit dict segment rows e h.1)

update-Holds :
    (edit : Edit) (dict : Dict) (segment : Segment) (rows : List Segment)
    → dict edit.sid ≡ some segment
    → Holds dict rows
    → Holds (assign dict edit.sid (edited edit segment)) (update_rows edit rows)
unfolding assign
update-Holds edit dict segment rows e h = (
  update-All edit dict segment rows e h.0,
  λ k absent. let gone = h.1 k (sym (update-has_id edit rows k) ∙ absent) in ground (arith, gone),
)

update-ids : (edit : Edit) (rows : List Segment) → ids (update_rows edit rows) ≡ ids rows
unfolding update_rows edited
update-ids edit [] = refl
update-ids edit (row ∷ rows) = ground (arith, update-ids edit rows)

in_order-Holds :
    (dict : Dict) (segments rows : List Segment)
    → ids segments ≡ ids rows
    → All (λ row. dict row.id ≡ some row) rows
    → in_order dict segments ≡ ok rows
unfolding in_order
in_order-Holds dict [] [] e h = refl
in_order-Holds dict [] (row ∷ rows) e h = cc
in_order-Holds dict (segment ∷ segments) [] e h = cc
in_order-Holds dict (segment ∷ segments) (row ∷ rows) e h =
    let same : segment.id ≡ row.id = cc in
    let rest : ids segments ≡ ids rows = cc in
    rw (same, h.0, in_order-Holds dict segments rows rest h.1) refl

by_id-absent :
    (dict : Dict) (rows : List Segment) (k : ℕ) → has_id k rows ≡ false → by_id dict rows k ≡ dict k
unfolding by_id any assign
by_id-absent dict [] k h = refl
by_id-absent dict (row ∷ rows) k h = ground (arith, by_id-absent (assign dict row.id row) rows k)

by_id-All :
    (dict : Dict) (rows : List Segment)
    → unique_ids rows ≡ true
    → All (λ row. by_id dict rows row.id ≡ some row) rows
unfolding by_id assign unique_ids
by_id-All dict [] u = tt
by_id-All dict (row ∷ rows) u =
    let fresh : has_id row.id rows ≡ false = ground arith in
    let rest : unique_ids rows ≡ true = ground arith in
    let kept = by_id-absent (assign dict row.id row) rows row.id fresh in
    (ground (arith, kept), by_id-All (assign dict row.id row) rows rest)

merge_each-apply_each :
    (seen : List ℕ) (dirty : List RawSegment) (dict : Dict) (segments rows : List Segment)
    → Holds dict rows
    → unique_ids rows ≡ true
    → ids segments ≡ ids rows
    → (merge_each seen dirty dict >>= λ merged. in_order merged segments)
      ≡ apply_each seen dirty rows
unfolding merge_each apply_each
merge_each-apply_each seen [] dict segments rows h u e = in_order-Holds dict segments rows e h.0
merge_each-apply_each seen (seg ∷ dirty) dict segments rows h u e =
    elim (parse_dirty_segment seg)
      as (λ parsed.
        ((do
          edit ← parsed
          raise_if (any (λ sid. sid == edit.sid) seen) (appears_twice edit.sid)
          segment ← or_raise (dict edit.sid) (does_not_exist edit.sid)
          merge_each (edit.sid ∷ seen) dirty (assign dict edit.sid (edited edit segment)))
          >>= λ merged. in_order merged segments)
        ≡ (do
          edit ← parsed
          raise_if (any (λ sid. sid == edit.sid) seen) (appears_twice edit.sid)
          raise_if (not (rowcount edit rows == 1)) (does_not_exist edit.sid)
          apply_each (edit.sid ∷ seen) dirty (update_rows edit rows))) [
            | err fault ↦ refl
            | ok edit ↦ elim (Bool-cases (any (λ sid. sid == edit.sid) seen)) [
              | inl twice ↦ rw twice refl
              | inr once ↦ elim (Option-cases (dict edit.sid)) [
                | inl gone ↦
                    let zero_rows =
                      rowcount_absent edit rows (missing_id-absent dict rows edit.sid h.0 gone) in
                    rw (once, gone, zero_rows) refl
                | inr (segment, found) ↦
                    let one_row =
                      rowcount_present edit rows u
                        (found-has_id dict rows edit.sid segment h found) in
                    let rest =
                      merge_each-apply_each (edit.sid ∷ seen) dirty
                        (assign dict edit.sid (edited edit segment)) segments
                        (update_rows edit rows) (update-Holds edit dict segment rows found h)
                        (update-unique_ids edit rows ∙ u) (e ∙ sym (update-ids edit rows)) in
                    rw (once, found, one_row) rest
              ]
            ]
          ]

-- On a version whose rows have different ids, merging the edits in memory gives what applying them
-- to the rows gives: the same segments in the same order, or the same error.
pub merge-apply_dirty_segments :
    (segments : List Segment) (dirty : List RawSegment)
    → unique_ids segments ≡ true
    → merge_dirty_segments segments dirty ≡ apply_dirty_segments dirty segments
unfolding merge_dirty_segments apply_dirty_segments
merge-apply_dirty_segments segments dirty u =
    merge_each-apply_each [] dirty (by_id (λ k. none) segments) segments segments
      (by_id-All (λ k. none) segments u, λ k absent. by_id-absent (λ k. none) segments k absent) u
      refl

-- A preview of the edits, merged and checked in memory, accepts exactly the edits that saving and
-- completing accepts, with the same segments, and refuses the others with the same error.
pub preview_agrees :
    (segments : List Segment) (dirty : List RawSegment) (duration : ℕ)
    → unique_ids segments ≡ true
    → (merge_dirty_segments segments dirty >>= λ merged.
        validate_segment_timeline merged duration >> ok merged)
      ≡ (apply_dirty_segments dirty segments >>= λ rows.
          validate_version_segments rows duration >> ok rows)
preview_agrees segments dirty duration u =
    rw (merge-apply_dirty_segments segments dirty u)
      (elim (apply_dirty_segments dirty segments)
        as (λ saved.
          (saved >>= λ rows. validate_segment_timeline rows duration >> ok rows)
          ≡ (saved >>= λ rows. validate_version_segments rows duration >> ok rows)) [
            | ok rows ↦ rw (version_segments_agree rows duration) refl
            | err fault ↦ refl
          ])
