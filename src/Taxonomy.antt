-- ===== src/Taxonomy.antt =====
-- annotation_metadata/taxonomy.py: the ten scenes, the names that crawlers and folders give them, and
-- the labels of a review. A text is the list of its code points; `None` is `none`.
pub mod Scenes
pub mod Labels
pub mod Ordered
pub mod Examples
use egyptian_arabic_annotati.Base.{
  ℕ, Bool, true, false, not, ◌&&◌, ◌||◌, Option, none, some, List, [], ◌∷◌, ◌++◌, map, any, filter,
  length, ltb, ◌==◌, if◌then◌else◌, text_eq, Result, ok, err, ◌>>=◌, ◌>>◌, raise_if,
}
use egyptian_arabic_annotati.Comparison.Types.{Text}
use egyptian_arabic_annotati.Comparison.Compare.{codes}

-- `SCENE_ORDER`
abbrev pub scene_order : List Text
scene_order =
    codes "restaurant"
    ∷ codes "hotel"
    ∷ codes "taxi"
    ∷ codes "airport"
    ∷ codes "clinic"
    ∷ codes "tourism_information"
    ∷ codes "emergencies"
    ∷ codes "spoken_languages"
    ∷ codes "business_negotiation"
    ∷ codes "shopping"
    ∷ []

-- `FALLBACK_SOURCE_SCENE`
abbrev pub fallback_source_scene : Text
fallback_source_scene = codes "spoken_languages"

-- `_SCENE_ALIASES`
abbrev pub scene_aliases : List (Text × Text)
scene_aliases =
    (codes "restaurant", codes "restaurant")
    ∷ (codes "餐厅", codes "restaurant")
    ∷ (codes "07_餐厅", codes "restaurant")
    ∷ (codes "07-餐厅", codes "restaurant")
    ∷ (codes "hotel", codes "hotel")
    ∷ (codes "酒店", codes "hotel")
    ∷ (codes "08_酒店", codes "hotel")
    ∷ (codes "08-酒店", codes "hotel")
    ∷ (codes "taxi", codes "taxi")
    ∷ (codes "出租车", codes "taxi")
    ∷ (codes "09_出租车", codes "taxi")
    ∷ (codes "09-出租车", codes "taxi")
    ∷ (codes "airport", codes "airport")
    ∷ (codes "机场", codes "airport")
    ∷ (codes "01_机场", codes "airport")
    ∷ (codes "01-机场", codes "airport")
    ∷ (codes "clinic", codes "clinic")
    ∷ (codes "诊所", codes "clinic")
    ∷ (codes "04_诊所", codes "clinic")
    ∷ (codes "04-诊所", codes "clinic")
    ∷ (codes "tourism_information", codes "tourism_information")
    ∷ (codes "tourism information", codes "tourism_information")
    ∷ (codes "旅游信息", codes "tourism_information")
    ∷ (codes "02_旅游信息", codes "tourism_information")
    ∷ (codes "02-旅游信息", codes "tourism_information")
    ∷ (codes "emergencies", codes "emergencies")
    ∷ (codes "紧急情况", codes "emergencies")
    ∷ (codes "05_紧急情况", codes "emergencies")
    ∷ (codes "05-紧急情况", codes "emergencies")
    ∷ (codes "spoken_languages", codes "spoken_languages")
    ∷ (codes "spoken languages", codes "spoken_languages")
    ∷ (codes "口语", codes "spoken_languages")
    ∷ (codes "08_口语", codes "spoken_languages")
    ∷ (codes "08-口语", codes "spoken_languages")
    ∷ (codes "10_口语", codes "spoken_languages")
    ∷ (codes "10-口语", codes "spoken_languages")
    ∷ (codes "business_negotiation", codes "business_negotiation")
    ∷ (codes "business negotiation", codes "business_negotiation")
    ∷ (codes "商务谈判", codes "business_negotiation")
    ∷ (codes "06_商务谈判", codes "business_negotiation")
    ∷ (codes "06-商务谈判", codes "business_negotiation")
    ∷ (codes "shopping", codes "shopping")
    ∷ (codes "购物", codes "shopping")
    ∷ (codes "03_购物", codes "shopping")
    ∷ (codes "03-购物", codes "shopping")
    ∷ []

-- `MODEL_LABEL_TO_SCENE`
abbrev pub model_label_to_scene : List (Text × Text)
model_label_to_scene =
    (codes "Restaurant", codes "restaurant")
    ∷ (codes "Hotel", codes "hotel")
    ∷ (codes "Taxi", codes "taxi")
    ∷ (codes "Airport", codes "airport")
    ∷ (codes "Clinic", codes "clinic")
    ∷ (codes "Tourism information", codes "tourism_information")
    ∷ (codes "Emergencies", codes "emergencies")
    ∷ (codes "Spoken languages", codes "spoken_languages")
    ∷ (codes "Business negotiation", codes "business_negotiation")
    ∷ (codes "Shopping", codes "shopping")
    ∷ []

-- `text in texts`
unfoldable pub member : Text → List Text → Bool
unfolding text_eq any
member text texts = any (λ other. text_eq other text) texts

-- `code in SCENE_CODES`
abbrev pub is_scene : Text → Bool
is_scene code = member code scene_order

-- `dict.get`
unfoldable pub get : List (Text × Text) → Text → Option Text
unfolding text_eq
get [] key = none
get ((name, value) ∷ rest) key = if text_eq name key then some value else get rest key

abbrev pub alias_or : Option Text → Option Text → Option Text
alias_or none other = other
alias_or (some code) other = some code

-- `not text`
abbrev pub is_falsy : Text → Bool
is_falsy [] = true
is_falsy (c ∷ cs) = false

-- `str(value or "")`
abbrev pub text_or : Option Text → Text
text_or none = []
text_or (some text) = text

-- `str.replace`, one code point for another.
abbrev pub replace : ℕ → ℕ → Text → Text
replace old new text = map (λ c. if c == old then new else c) text

-- `" ".join(words)`
abbrev pub join_after : Text → List Text → Text
join_after word [] = word
join_after word (next ∷ rest) = word ++ (32 ∷ join_after next rest)

abbrev pub join : List Text → Text
join [] = []
join (word ∷ rest) = join_after word rest

-- `REVIEW_STATUSES`
pub data ReviewStatus : Type 0 where
  pending confirmed mixed out_of_scope uncertain : ReviewStatus

-- The `ValueError`s.
pub data Fault : Type 0 where
  unknown_scene : Option Text → Fault
  unrecognised_filter not_one_scene not_two_scenes scenes_out_of_scope scenes_pending : Fault

-- The tests of the number of codes.
unfoldable pub check_count : ReviewStatus → List Text → Result Fault (Unit {0})
check_count confirmed found = raise_if (not (length found == 1)) not_one_scene
check_count mixed found = raise_if (ltb (length found) 2) not_two_scenes
check_count out_of_scope found = raise_if (not (length found == 0)) scenes_out_of_scope
check_count pending found = raise_if (not (length found == 0)) scenes_pending
check_count uncertain found = ok tt

-- `str.isspace` of a character and `str.lower` of a text, which read Python's tables.
module _ (is_space : ℕ → Bool) (lower : Text → Text) where
  abbrev pub strip_start : Text → Text
  strip_start [] = []
  strip_start (c ∷ cs) = if is_space c then strip_start cs else c ∷ cs

  abbrev pub strip_end : Text → Text
  strip_end [] = []
  strip_end (c ∷ cs) =
      let rest = strip_end cs in if is_space c && is_falsy rest then [] else c ∷ rest

  -- `str.strip`
  abbrev pub strip : Text → Text
  strip text = strip_end (strip_start text)

  -- `str.split`, with what is read of the word that is not over yet.
  unfoldable pub split : (word : Text) → Text → List Text
  split word [] = if is_falsy word then [] else word ∷ []
  split word (c ∷ cs) = elim (is_space c) [
    | true ↦ if is_falsy word then split [] cs else word ∷ split [] cs
    | false ↦ split (word ++ (c ∷ [])) cs
  ]

  -- `normalize_key`
  unfoldable pub normalize_key : Option Text → Text
  unfolding split
  normalize_key value = join (split [] (replace 95 32 (lower (strip (text_or value)))))

  unfoldable pub alias_of : Text → Option Text
  unfolding get normalize_key
  alias_of raw =
      let folded = replace 45 95 raw in
      alias_or (alias_or (get scene_aliases raw) (get scene_aliases (lower raw))) (
        alias_or (alias_or (get scene_aliases folded) (get scene_aliases (lower folded)))
          (get scene_aliases (normalize_key (some raw))))

  -- `resolve_scene_code`
  unfoldable pub resolve_scene_code : Option Text → Option Text
  unfolding member alias_of
  resolve_scene_code value =
      let raw = strip (text_or value) in
      if is_falsy raw then none else if is_scene raw then some raw else alias_of raw

  -- `model_scene_code`
  unfoldable pub model_scene_code : Option Text → Option Text
  unfolding member get
  model_scene_code label =
      let raw = strip (text_or label) in
      if is_falsy raw then none else if is_scene raw then some raw else get model_label_to_scene raw

  -- `is_source_fallback_code`
  unfoldable pub is_source_fallback_code : Option Text → Bool
  unfolding text_eq
  is_source_fallback_code code =
      let text = lower (strip (text_or code)) in
      is_falsy (text_or code)
      || (text_eq text (codes "unknown") || text_eq text fallback_source_scene)

  -- `is_source_fallback_filter`
  unfoldable pub is_source_fallback_filter : Option Text → Bool
  unfolding is_source_fallback_code
  is_source_fallback_filter value =
      if is_falsy (text_or value) then false else is_source_fallback_code value

  -- `effective_source_scene`
  unfoldable pub effective_source_scene : Option Text → Text
  unfolding is_source_fallback_code
  effective_source_scene code =
      if is_source_fallback_code code then fallback_source_scene else text_or code

  -- `normalize_source_scene_filter`
  unfoldable pub normalize_source_scene_filter : Option Text → Result Fault (Option Text)
  unfolding text_eq resolve_scene_code
  normalize_source_scene_filter value =
      if is_falsy (text_or value) || text_eq (text_or value) (codes "all")
      then ok none
      else if text_eq (lower (strip (text_or value))) (codes "unknown")
      then ok (some fallback_source_scene)
      else elim (resolve_scene_code value) [
        | none ↦ err unrecognised_filter
        | some code ↦ ok (some code)
      ]

  -- `resolve_scene_code(raw) or str(raw or "").strip()`
  unfoldable pub label_of : Option Text → Text
  unfolding resolve_scene_code
  label_of raw = elim (resolve_scene_code raw) [ none ↦ strip (text_or raw) | some code ↦ code ]

  -- The loop; `seen` has the members of the list of codes.
  unfoldable pub collect : (found : List Text) → List (Option Text) → Result Fault (List Text)
  unfolding member label_of
  collect found [] = ok found
  collect found (raw ∷ rest) = do
    let code = label_of raw
    raise_if (not (is_scene code)) (unknown_scene raw)
    collect (if member code found then found else found ++ (code ∷ [])) rest

  -- `validate_review_labels`
  unfoldable pub validate_review_labels :
      ReviewStatus → (scene_codes : List (Option Text)) → Result Fault (List Text)
  unfolding collect check_count
  validate_review_labels status scene_codes = do
    found ← collect [] scene_codes
    counted ← check_count status found
    ok found

-- `ordered_scene_codes`
unfoldable pub ordered_scene_codes : List Text → List Text
unfolding member filter
ordered_scene_codes texts =
    let wanted = filter is_scene texts in filter (λ code. member code wanted) scene_order
