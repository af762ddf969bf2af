-- ===== src/Taxonomy/Ordered.antt =====
-- annotation_metadata/taxonomy.py: the order of the catalog.
use egyptian_arabic_annotati.Base.{
  ◌≡◌, ◌↔◌, refl, sym, ap, subst, ◌∙◌, Bool, true, Bool-cases, inl, inr, List, [], ◌∷◌, any, filter,
  text_eq, text_eq_iff, arith,
}
use egyptian_arabic_annotati.Comparison.Compare.{codes}
use egyptian_arabic_annotati.Comparison.Types.{Text}
use egyptian_arabic_annotati.Taxonomy.{scene_order, member, is_scene, ordered_scene_codes}
use egyptian_arabic_annotati.Taxonomy.Labels.{member_cons}

-- What a filter keeps is a member if it was one.
member-filter :
    (test : Text → Bool) (text : Text) (texts : List Text)
    → test text ≡ true
    → member text (filter test texts) ≡ member text texts
unfolding member any filter
member-filter test text [] kept = refl
member-filter test text (t ∷ ts) kept = elim (Bool-cases (test t)) [
  | inl holds ↦ rw (holds, member-filter test text ts kept) refl
  | inr fails ↦ elim (Bool-cases (text_eq t text)) [
    | inl same ↦
        absurd (let e = ap test ((text_eq_iff t text).0 same) in ground (arith, e, fails, kept))
    | inr other ↦ rw (fails, other, member-filter test text ts kept) refl
  ]
]

-- The text is one of the list.
pub data Listed (text : Text) : List Text → Type 0 where
  here : {texts : List Text} → Listed text (text ∷ texts)
  there : {other : Text} {texts : List Text} → Listed text texts → Listed text (other ∷ texts)

-- The first list is the second with some of its texts left out, in the same order.
pub data LeavesOut : List Text → List Text → Type 0 where
  done : LeavesOut [] []
  keep :
      {text : Text} {some_of all_of : List Text}
      → LeavesOut some_of all_of
      → LeavesOut (text ∷ some_of) (text ∷ all_of)
  skip :
      {text : Text} {some_of all_of : List Text}
      → LeavesOut some_of all_of
      → LeavesOut some_of (text ∷ all_of)

-- The ten scenes in the order in which they are displayed.
abbrev pub catalog : List Text
catalog =
    codes "restaurant"
    ∷ codes "hotel"
    ∷ codes "taxi"
    ∷ codes "airport"
    ∷ codes "clinic"
    ∷ codes "tourism_information"
    ∷ codes "emergencies"
    ∷ codes "spoken_languages"
    ∷ codes "business_negotiation"
    ∷ codes "shopping"
    ∷ []

Listed-member : (text : Text) (texts : List Text) → member text texts ≡ true → Listed text texts
unfolding member any
Listed-member text [] e = absurd (cc e)
Listed-member text (t ∷ ts) e = elim (Bool-cases (text_eq t text)) [
  | inl same ↦ subst (λ u. Listed u (t ∷ ts)) ((text_eq_iff t text).0 same) here
  | inr other ↦ there (Listed-member text ts (rw other at e))
]

member-Listed : (text : Text) (texts : List Text) → Listed text texts → member text texts ≡ true
unfolding member any
member-Listed text [] listed = elim listed [ ]
member-Listed text (t ∷ ts) here = rw ((text_eq_iff text text).1 refl) refl
member-Listed text (t ∷ ts) (there listed) = elim (Bool-cases (text_eq t text)) [
  | inl same ↦ rw same refl
  | inr other ↦ rw other (member-Listed text ts listed)
]

LeavesOut-filter : (test : Text → Bool) (texts : List Text) → LeavesOut (filter test texts) texts
unfolding filter
LeavesOut-filter test [] = done
LeavesOut-filter test (text ∷ texts) = elim (Bool-cases (test text)) [
  | inl holds ↦ rw holds (keep (LeavesOut-filter test texts))
  | inr fails ↦ rw fails (skip (LeavesOut-filter test texts))
]

-- What a filter keeps passes its test.
member_filter-holds :
    (test : Text → Bool) (text : Text) (texts : List Text)
    → member text (filter test texts) ≡ true
    → (test text ≡ true) × (member text texts ≡ true)
unfolding member any filter
member_filter-holds test text [] e = absurd (cc e)
member_filter-holds test text (t ∷ ts) e = elim (Bool-cases (test t)) [
  | inr fails ↦
      let (held, rest) = member_filter-holds test text ts (rw fails at e) in
      (held, member_cons text t ts rest)
  | inl holds ↦ elim (Bool-cases (text_eq t text)) [
    | inl same ↦ (ap test (sym ((text_eq_iff t text).0 same)) ∙ holds, rw same refl)
    | inr other ↦
        let (held, rest) = member_filter-holds test text ts (rw (holds, other) at e) in
        (held, rw other rest)
  ]
]

-- The scenes come in the catalog's order, each at most once: the result is the catalog with some of its
-- scenes left out. Those that are left are the scenes that were listed, in whatever order, however
-- often, and among whatever else.
pub ordered_scene_codes-catalog :
    (texts : List Text)
    → LeavesOut (ordered_scene_codes texts) catalog
      × ((code : Text)
          → Listed code (ordered_scene_codes texts) ↔ (Listed code catalog × Listed code texts))
unfolding ordered_scene_codes
ordered_scene_codes-catalog texts = (
  LeavesOut-filter (λ code. member code (filter is_scene texts)) scene_order,
  λ code. (
    λ kept.
        let (listed, scene) =
          member_filter-holds (λ c. member c (filter is_scene texts)) code scene_order
            (member-Listed code _ kept) in
        let (is_one, in_texts) = member_filter-holds is_scene code texts listed in
        (Listed-member code scene_order scene, Listed-member code texts in_texts),
    λ (scene, listed).
        let is_one = member-Listed code scene_order scene in
        Listed-member code _ (
          member-filter (λ c. member c (filter is_scene texts)) code scene_order
            (member-filter is_scene code texts is_one ∙ member-Listed code texts listed)
          ∙ is_one),
  ),
)
