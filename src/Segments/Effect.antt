-- ===== src/Segments/Effect.antt =====
-- What a saved list of edits leaves in each row.
use egyptian_arabic_annotati.Base.{
  ℕ, ◌≡◌, refl, sym, subst, ap, ◌∙◌, inl, inr, true, false, Bool-cases, Option, none, some, List,
  [], ◌∷◌, map, ◌==◌, if◌then◌else◌, arith, Result, ok, err, any, Result-cases,
}
use egyptian_arabic_annotati.Segments.{
  Fault, RawSegment, Segment, Edit, parse_dirty_segment, edited, update_rows, apply_each,
  apply_dirty_segments,
}

-- The edit of the segment `sid`, if there is one.
unfoldable pub edit_for : List RawSegment → ℕ → Option Edit
edit_for [] sid = none
edit_for (seg ∷ dirty) sid =
    let rest = edit_for dirty sid in
    elim (parse_dirty_segment seg) [
      | err fault ↦ rest
      | ok edit ↦ if edit.sid == sid then some edit else rest
    ]

unfoldable pub after_edit : Option Edit → Segment → Segment
unfolding edited
after_edit none row = row
after_edit (some edit) row = edited edit row

abbrev pub saved_row : List RawSegment → Segment → Segment
saved_row dirty row = after_edit (edit_for dirty row.id) row

apply_each-cons :
    (seen : List ℕ) (seg : RawSegment) (dirty : List RawSegment) (rows : List Segment)
    {after : List Segment}
    → apply_each seen (seg ∷ dirty) rows ≡ ok after
    → (edit : Edit) × (parse_dirty_segment seg ≡ ok edit)
      × (any (λ sid. sid == edit.sid) seen ≡ false)
      × (apply_each (edit.sid ∷ seen) dirty (update_rows edit rows) ≡ ok after)
unfolding apply_each
apply_each-cons seen seg dirty rows e = elim (Result-cases (parse_dirty_segment seg)) [
  | inl (edit, p) ↦ (edit, p, ground (arith, p), ground (arith, p))
  | inr (fault, p) ↦ ground (arith, p)
]

edit_for-cons :
    (seg : RawSegment) (dirty : List RawSegment) (edit : Edit) (sid : ℕ)
    → parse_dirty_segment seg ≡ ok edit
    → edit_for (seg ∷ dirty) sid ≡ (if edit.sid == sid then some edit else edit_for dirty sid)
unfolding edit_for
edit_for-cons seg dirty edit sid p = rw (p, edit_for) refl

not_again :
    (seen : List ℕ) (edit : Edit) (later : Option Edit) (sid : ℕ)
    → any (λ s. s == edit.sid) seen ≡ false
    → any (λ s. s == sid) seen ≡ true
    → (any (λ s. s == sid) (edit.sid ∷ seen) ≡ true → later ≡ none)
    → (if edit.sid == sid then some edit else later) ≡ none
unfolding any
not_again seen edit later sid once h absent = elim (Bool-cases (edit.sid == sid)) [
  | inl same ↦
      let e : sid ≡ edit.sid = ground arith in
      absurd (cc (subst (λ k. any (λ s. s == k) seen ≡ true) e h))
  | inr differs ↦ rw differs (absent (rw (differs, h) refl))
]

saved_row-cons :
    (seg : RawSegment) (dirty : List RawSegment) (edit : Edit) (row : Segment)
    → parse_dirty_segment seg ≡ ok edit
    → edit_for dirty edit.sid ≡ none
    → saved_row dirty (if row.id == edit.sid then edited edit row else row)
      ≡ saved_row (seg ∷ dirty) row
unfolding after_edit
saved_row-cons seg dirty edit row p again = elim (Bool-cases (row.id == edit.sid)) [
  | inl same ↦
      let e : edit.sid == row.id ≡ true = ground arith in
      rw (same, edit_for-cons seg dirty edit row.id p, e, again) refl
  | inr differs ↦
      let e : edit.sid == row.id ≡ false = ground arith in
      rw (differs, edit_for-cons seg dirty edit row.id p, e) refl
]

-- An id that was seen is not edited again.
seen_not_edited :
    (seen : List ℕ) (dirty : List RawSegment) (rows : List Segment) {after : List Segment} (sid : ℕ)
    → apply_each seen dirty rows ≡ ok after
    → any (λ s. s == sid) seen ≡ true
    → edit_for dirty sid ≡ none
unfolding edit_for any
seen_not_edited seen [] rows sid e h = refl
seen_not_edited seen (seg ∷ dirty) rows sid e h =
    let (edit, p, once, rest) = apply_each-cons seen seg dirty rows e in
    let later = seen_not_edited (edit.sid ∷ seen) dirty (update_rows edit rows) sid rest in
    edit_for-cons seg dirty edit sid p ∙ not_again seen edit (edit_for dirty sid) sid once h later

ok_value : {a b : List Segment} → ◌≡◌ {A = Result Fault (List Segment)} (ok a) (ok b) → a ≡ b
ok_value e = cc

self_eq : (n : ℕ) → n == n ≡ true
self_eq n = ground arith

map_ext :
    (f g : Segment → Segment) (rows : List Segment)
    → ((row : Segment) → f row ≡ g row)
    → map f rows ≡ map g rows
map_ext f g [] h = refl
map_ext f g (row ∷ rows) h = rw (h row, map_ext f g rows h) refl

map_twice :
    (f g : Segment → Segment) (rows : List Segment)
    → map f (map g rows) ≡ map (λ row. f (g row)) rows
map_twice f g [] = refl
map_twice f g (row ∷ rows) = ap (λ rest. f (g row) ∷ rest) (map_twice f g rows)

map_same : (rows : List Segment) → map (λ row. row) rows ≡ rows
map_same [] = refl
map_same (row ∷ rows) = ap (λ rest. row ∷ rest) (map_same rows)

apply_each-effect :
    (seen : List ℕ) (dirty : List RawSegment) (rows : List Segment) {after : List Segment}
    → apply_each seen dirty rows ≡ ok after
    → after ≡ map (saved_row dirty) rows
unfolding edit_for after_edit update_rows apply_each any
apply_each-effect seen [] rows e = sym (ok_value e) ∙ sym (map_same rows)
apply_each-effect seen (seg ∷ dirty) rows e =
    let (edit, p, once, rest) = apply_each-cons seen seg dirty rows e in
    let again = seen_not_edited (edit.sid ∷ seen) dirty (update_rows edit rows) edit.sid rest in
    apply_each-effect (edit.sid ∷ seen) dirty (update_rows edit rows) rest
    ∙ map_twice (saved_row dirty) (λ row. if row.id == edit.sid then edited edit row else row) rows
    ∙ map_ext _ _ rows
        (λ row. saved_row-cons seg dirty edit row p (again (rw (self_eq edit.sid) refl)))

-- Edits that are saved change the rows they name and no other: no row appears, disappears or moves,
-- a row with an edit gets the edit's times, text and mark and keeps its other fields, and a row
-- with none stays as it was.
pub apply_dirty_segments-effect :
    (dirty : List RawSegment) (rows : List Segment) {after : List Segment}
    → apply_dirty_segments dirty rows ≡ ok after
    → after ≡ map (saved_row dirty) rows
unfolding apply_dirty_segments
apply_dirty_segments-effect dirty rows e = apply_each-effect [] dirty rows e
