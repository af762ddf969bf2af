-- ===== src/Taxonomy/Examples.antt =====
-- Names and labels, and the theorems at them.
use egyptian_arabic_annotati.Base.{
  ◌↔◌, filter, ℕ, ◌+◌, ◌≡◌, refl, Bool, true, false, ◌&&◌, Bool-cases, inl, inr, Option, some, List,
  [], ◌∷◌, map, any, length, leb, ◌==◌, if◌then◌else◌, text_eq, All, arith, ok, err,
}
use egyptian_arabic_annotati.Comparison.Types.{Text}
use egyptian_arabic_annotati.Comparison.Compare.{codes}
use egyptian_arabic_annotati.Taxonomy.{
  member, is_scene, get, split, normalize_key, alias_of, resolve_scene_code, label_of, collect,
  check_count, validate_review_labels, ordered_scene_codes, mixed, not_two_scenes,
}
use egyptian_arabic_annotati.Taxonomy.Scenes.{alphabet}
use egyptian_arabic_annotati.Taxonomy.Labels.{
  NoRepeat, Fits, IsFound, validate_review_labels-accepts, validate_review_labels-again,
}
use egyptian_arabic_annotati.Taxonomy.Ordered.{
  Listed, LeavesOut, catalog, ordered_scene_codes-catalog,
}

abbrev space : ℕ → Bool
space c = c == 32

abbrev lowercase : Text → Text
lowercase text = map (λ c. if leb 65 c && leb c 90 then c + 32 else c) text

space-plain : (c : ℕ) → any (λ a. a == c) alphabet ≡ true → space c ≡ false
unfolding any
space-plain c e = elim (Bool-cases (space c)) [
  | inl blank ↦ absurd (cc (rw (same blank) at e))
  | inr letter ↦ letter
]
  where
    same : space c ≡ true → c ≡ 32
    same blank = ground (arith, blank)

abbrev raws : List (Option Text)
raws = some (codes "Hotel ") ∷ some (codes "09-出租车") ∷ some (codes "hotel") ∷ []

abbrev stored : List Text
stored = codes "hotel" ∷ codes "taxi" ∷ []

stored_run : validate_review_labels space lowercase mixed raws ≡ ok stored
unfolding validate_review_labels collect check_count label_of resolve_scene_code alias_of
    normalize_key split get member any text_eq
stored_run = refl

-- One scene twice is not two.
once :
    validate_review_labels space lowercase mixed (some (codes "taxi") ∷ some (codes "Taxi") ∷ [])
    ≡ err not_two_scenes
unfolding validate_review_labels collect check_count label_of resolve_scene_code alias_of
    normalize_key split get member any text_eq
once = refl

validate_review_labels-accepts_example :
    All (λ code. is_scene code ≡ true) stored
    × NoRepeat [] stored
    × Fits mixed (length stored)
    × All (λ raw. member (label_of space lowercase raw) stored ≡ true) raws
    × All (IsFound space lowercase raws) stored
validate_review_labels-accepts_example =
    validate_review_labels-accepts space lowercase mixed raws stored_run

validate_review_labels-again_example :
    validate_review_labels space lowercase mixed (map some stored) ≡ ok stored
validate_review_labels-again_example =
    validate_review_labels-again space lowercase space-plain mixed raws stored_run

abbrev twice : List Text
twice = codes "taxi" ∷ codes "Other" ∷ codes "hotel" ∷ codes "taxi" ∷ []

in_order : ordered_scene_codes twice ≡ codes "hotel" ∷ codes "taxi" ∷ []
unfolding ordered_scene_codes member any text_eq filter
in_order = refl

ordered_scene_codes-catalog_example :
    LeavesOut (ordered_scene_codes twice) catalog
    × ((code : Text)
        → Listed code (ordered_scene_codes twice) ↔ (Listed code catalog × Listed code twice))
ordered_scene_codes-catalog_example = ordered_scene_codes-catalog twice
