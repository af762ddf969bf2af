-- ===== src/Taxonomy/Labels.antt =====
-- annotation_metadata/taxonomy.py: the labels of a review.
use egyptian_arabic_annotati.Base.{
  ℕ, ◌≡◌, ◌↔◌, refl, sym, ap, ◌∙◌, subst, Bool, true, false, not, Bool-cases, inl, inr, Option,
  some, List, [], ◌∷◌, ◌++◌, append-nil, append_assoc, map, any, length, ◌==◌, text_eq, All, arith,
  Result, ok, bind-ok, raise_if-ok, ◌≤◌, guard_holds, text_eq_iff, All-map,
}
use egyptian_arabic_annotati.Comparison.Types.{Text}
use egyptian_arabic_annotati.Taxonomy.{
  member, is_scene, ReviewStatus, pending, confirmed, mixed, out_of_scope, uncertain, Fault,
  label_of, collect, check_count, validate_review_labels,
}
use egyptian_arabic_annotati.Taxonomy.Scenes.{alphabet, resolve_scene_code-scene}

-- None of the codes is among those found before it.
pub NoRepeat : (found more : List Text) → Type 0
NoRepeat found [] = Unit
NoRepeat found (code ∷ more) = (member code found ≡ false) × NoRepeat (found ++ (code ∷ [])) more

-- What the number of scenes has to be.
pub Fits : ReviewStatus → ℕ → Type 0
Fits confirmed n = n ≡ 1
Fits mixed n = 2 ≤ n
Fits out_of_scope n = n ≡ 0
Fits pending n = n ≡ 0
Fits uncertain n = Unit

check_count_iff :
    (status : ReviewStatus) (codes : List Text)
    → (check_count status codes ≡ ok tt) ↔ Fits status (length codes)
unfolding check_count Fits
check_count_iff confirmed codes = ground arith
check_count_iff mixed codes = ground arith
check_count_iff out_of_scope codes = ground arith
check_count_iff pending codes = ground arith
check_count_iff uncertain codes = ground arith

pub member_cons :
    (text code : Text) (texts : List Text)
    → member text texts ≡ true
    → member text (code ∷ texts) ≡ true
unfolding member any
member_cons text code texts e = ground (arith, e)

member_self : (code : Text) (texts : List Text) → member code (code ∷ texts) ≡ true
unfolding member any
member_self code texts = rw ((text_eq_iff code code).1 refl) refl

member_append_left :
    (text : Text) (found more : List Text)
    → member text found ≡ true
    → member text (found ++ more) ≡ true
unfolding member any
member_append_left text [] more e = absurd (cc e)
member_append_left text (code ∷ found) more e = elim (Bool-cases (text_eq code text)) [
  | inl same ↦ rw same refl
  | inr other ↦ rw other (member_append_left text found more (rw other at e))
]

member_append_right :
    (text : Text) (found more : List Text)
    → member text more ≡ true
    → member text (found ++ more) ≡ true
unfolding member any
member_append_right text [] more e = e
member_append_right text (code ∷ found) more e =
    member_cons text code (found ++ more) (member_append_right text found more e)

ok_same : {a b : List Text} → ◌≡◌ {A = Result Fault (List Text)} (ok a) (ok b) → a ≡ b
ok_same e = cc

module _ (is_space : ℕ → Bool) (lower : Text → Text) where
  abbrev label : Option Text → Text
  label raw = label_of is_space lower raw

  abbrev pub IsFound : (raws : List (Option Text)) → Text → Type 0
  IsFound raws code = member code (map label raws) ≡ true

  -- What the loop adds to what it has found.
  Added : (found : List Text) (raws : List (Option Text)) (codes : List Text) → Type 0
  Added found raws codes =
      (more : List Text) × (codes ≡ found ++ more)
      × NoRepeat found more
      × All (λ code. is_scene code ≡ true) more
      × All (IsFound raws) more

  collect-Added :
      (found : List Text) (raws : List (Option Text)) {codes : List Text}
      → collect is_space lower found raws ≡ ok codes
      → Added found raws codes
  unfolding collect NoRepeat Added
  collect-Added found [] e = ([], sym (append-nil found ∙ ok_same e), tt, tt, tt)
  collect-Added found (raw ∷ rest) e =
      let code = label raw in
      let (scene, e2) = raise_if-ok (not (is_scene code)) _ e in
      elim (Bool-cases (member code found)) [
        | inl old ↦
            let (more, split, apart, scenes, listed) = collect-Added found rest (rw old at e2) in
            (
              more,
              split,
              apart,
              scenes,
              All-map more (λ other. member_cons other code (map label rest)) listed,
            )
        | inr new ↦
            let (more, split, apart, scenes, listed) =
              collect-Added (found ++ (code ∷ [])) rest (rw new at e2) in
            (
              code ∷ more,
              split ∙ append_assoc found (code ∷ []) more,
              (new, apart),
              (guard_holds (is_scene code) scene, scenes),
              (
                member_self code (map label rest),
                All-map more (λ other. member_cons other code (map label rest)) listed,
              ),
            )
      ]

  collect-listed :
      (found : List Text) (raws : List (Option Text)) {codes : List Text}
      → collect is_space lower found raws ≡ ok codes
      → All (λ raw. member (label raw) codes ≡ true) raws
  unfolding collect Added
  collect-listed found [] e = tt
  collect-listed found (raw ∷ rest) {codes} e =
      let code = label raw in
      let (scene, e2) = raise_if-ok (not (is_scene code)) _ e in
      elim (Bool-cases (member code found)) [
        | inl old ↦
            let (more, split, apart, scenes, listed) = collect-Added found rest (rw old at e2) in
            (
              subst (λ cs. member code cs ≡ true) (sym split)
                  (member_append_left code found more old),
              collect-listed found rest (rw old at e2),
            )
        | inr new ↦
            let (more, split, apart, scenes, listed) =
              collect-Added (found ++ (code ∷ [])) rest (rw new at e2) in
            (
              subst (λ cs. member code cs ≡ true) (sym split)
                  (member_append_left code (found ++ (code ∷ [])) more
                    (member_append_right code found (code ∷ []) (member_self code []))),
              collect-listed (found ++ (code ∷ [])) rest (rw new at e2),
            )
      ]

  -- Where a review's labels are accepted, what is returned are scenes of the ten, none of them twice,
  -- and as many as the status asks. Each label is resolved to one of them, and each of them is what some
  -- label is resolved to.
  pub validate_review_labels-accepts :
      (status : ReviewStatus) (raws : List (Option Text)) {codes : List Text}
      → validate_review_labels is_space lower status raws ≡ ok codes
      → All (λ code. is_scene code ≡ true) codes
        × NoRepeat [] codes
        × Fits status (length codes)
        × All (λ raw. member (label raw) codes ≡ true) raws
        × All (IsFound raws) codes
  unfolding validate_review_labels Added
  validate_review_labels-accepts status raws {codes} e =
      let (found, e1, e2) = bind-ok (collect is_space lower [] raws) e in
      let (counted, e3, e4) = bind-ok (check_count status found) e2 in
      let (more, split, apart, scenes, listed) = collect-Added [] raws e1 in
      let same = ok_same e4 in
      let at_codes = sym split ∙ same in
      (
        subst (All (λ code. is_scene code ≡ true)) at_codes scenes,
        subst (NoRepeat []) at_codes apart,
        subst (λ cs. Fits status (length cs)) same ((check_count_iff status found).0 e3),
        subst (λ cs. All (λ raw. member (label raw) cs ≡ true) raws) same
            (collect-listed [] raws e1),
        subst (All (IsFound raws)) at_codes listed,
      )

module _ (is_space : ℕ → Bool) (lower : Text → Text)
    (plain : (c : ℕ) → any (λ a. a == c) alphabet ≡ true → is_space c ≡ false) where
  label_of-scene : (code : Text) → is_scene code ≡ true → label_of is_space lower (some code) ≡ code
  unfolding label_of
  label_of-scene code scene =
      rw (label_of, resolve_scene_code-scene is_space lower plain code scene) refl

  collect-again :
      (found more : List Text)
      → NoRepeat found more
      → All (λ code. is_scene code ≡ true) more
      → collect is_space lower found (map some more) ≡ ok (found ++ more)
  unfolding collect NoRepeat
  collect-again found [] apart scenes = ap ok (sym (append-nil found))
  collect-again found (code ∷ more) apart scenes =
      rw (label_of-scene code scenes.0, scenes.0, apart.0)
        (collect-again (found ++ (code ∷ [])) more apart.1 scenes.1
          ∙ ap ok (append_assoc found (code ∷ []) more))

  -- Where no letter of the scenes' codes and no underscore is a space: the scenes that a review's labels
  -- are stored as are accepted again with the same status, and stay what they are, order included.
  pub validate_review_labels-again :
      (status : ReviewStatus) (raws : List (Option Text)) {codes : List Text}
      → validate_review_labels is_space lower status raws ≡ ok codes
      → validate_review_labels is_space lower status (map some codes) ≡ ok codes
  unfolding validate_review_labels
  validate_review_labels-again status raws {codes} e =
      let (scenes, apart, fits, listed, named) =
        validate_review_labels-accepts is_space lower status raws e in
      rw (collect-again [] codes apart scenes, (check_count_iff status codes).1 fits) refl
