-- ===== src/Taxonomy/Scenes.antt =====
-- annotation_metadata/taxonomy.py: what a name resolves to.
use egyptian_arabic_annotati.Base.{
  ℕ, ◌≡◌, refl, ap, ◌∙◌, subst, Bool, true, false, ◌&&◌, Bool-cases, inl, inr, Option, none, some,
  List, [], ◌∷◌, any, ◌==◌, if◌then◌else◌, text_eq, text_eq_iff, All, All-map, arith,
}
use egyptian_arabic_annotati.Comparison.Types.{Text}
use egyptian_arabic_annotati.Comparison.Compare.{codes}
use egyptian_arabic_annotati.Taxonomy.{
  scene_order, scene_aliases, member, is_scene, get, alias_or, is_falsy, text_or, strip_start,
  strip_end, strip, alias_of, resolve_scene_code, normalize_key, replace,
}

-- The letters of the scenes.
abbrev pub alphabet : Text
alphabet = codes "abcdefghijklmnopqrstuvwxyz_"

abbrev pub every {ℓ} : {A : Type ℓ} → (A → Bool) → List A → Bool
every test [] = true
every test (x ∷ xs) = test x && every test xs

pub every-All {ℓ} :
    {A : Type ℓ} (test : A → Bool) (xs : List A)
    → every test xs ≡ true
    → All (λ x. test x ≡ true) xs
every-All test [] e = tt
every-All test (x ∷ xs) e = elim (Bool-cases (test x)) [
  | inl holds ↦ (holds, every-All test xs (rw holds at e))
  | inr fails ↦ absurd (ground (arith, e, fails))
]

pub member-All {ℓ} :
    (P : Text → Type ℓ) (text : Text) (texts : List Text)
    → All P texts
    → member text texts ≡ true
    → P text
unfolding member any
member-All P text [] held e = absurd (cc e)
member-All P text (t ∷ ts) held e = elim (Bool-cases (text_eq t text)) [
  | inl same ↦ subst P ((text_eq_iff t text).0 same) held.0
  | inr other ↦ member-All P text ts held.1 (rw other at e)
]

-- The value that a dictionary gives is one of its values.
get-All {ℓ} :
    (P : Text → Type ℓ) (key : Text) (entries : List (Text × Text)) {value : Text}
    → All (λ entry. P entry.1) entries
    → get entries key ≡ some value
    → P value
unfolding get
get-All P key [] held e = absurd (cc e)
get-All P key ((name, value) ∷ rest) held e = elim (Bool-cases (text_eq name key)) [
  | inl same ↦ subst P (some_inj (rw same at e)) held.0
  | inr other ↦ get-All P key rest held.1 (rw other at e)
]
  where
    some_inj : {a b : Text} → ◌≡◌ {A = Option Text} (some a) (some b) → a ≡ b
    some_inj e = cc

-- A text that may be missing is a scene.
AreScenes : Option Text → Type 0
AreScenes o = (code : Text) → o ≡ some code → is_scene code ≡ true

AreScenes-alias_or :
    (o other : Option Text) → AreScenes o → AreScenes other → AreScenes (alias_or o other)
AreScenes-alias_or none other left right = right
AreScenes-alias_or (some a) other left right = left

aliases-scenes : All (λ entry. is_scene entry.1 ≡ true) scene_aliases
unfolding member any text_eq
aliases-scenes = every-All (λ entry. is_scene entry.1) scene_aliases refl

AreScenes-get : (key : Text) → AreScenes (get scene_aliases key)
unfolding AreScenes
AreScenes-get key code e = get-All (λ code. is_scene code ≡ true) key scene_aliases aliases-scenes e

AreScenes-or :
    (key key' : Text) → AreScenes (alias_or (get scene_aliases key) (get scene_aliases key'))
AreScenes-or key key' = AreScenes-alias_or _ _ (AreScenes-get key) (AreScenes-get key')

module _ (is_space : ℕ → Bool) (lower : Text → Text)
    (plain : (c : ℕ) → any (λ a. a == c) alphabet ≡ true → is_space c ≡ false) where
  strip_start-plain :
      (text : Text) → All (λ c. is_space c ≡ false) text → strip_start is_space lower text ≡ text
  strip_start-plain [] held = refl
  strip_start-plain (c ∷ cs) held = rw (held.0) refl

  strip_end-plain :
      (text : Text) → All (λ c. is_space c ≡ false) text → strip_end is_space lower text ≡ text
  strip_end-plain [] held = refl
  strip_end-plain (c ∷ cs) held = rw (held.0, strip_end-plain cs held.1) refl

  scene_order-plain : All (λ code. All (λ c. any (λ a. a == c) alphabet ≡ true) code) scene_order
  unfolding any
  scene_order-plain =
      All-map scene_order (λ code e. every-All (λ c. any (λ a. a == c) alphabet) code e)
        (every-All (λ code. every (λ c. any (λ a. a == c) alphabet) code) scene_order refl)

  pub strip-scene : (code : Text) → is_scene code ≡ true → strip is_space lower code ≡ code
  strip-scene code scene =
      let spaceless = All-map code plain (
        member-All (λ code. All (λ c. any (λ a. a == c) alphabet ≡ true) code) code scene_order
          scene_order-plain scene) in
      ap (strip_end is_space lower) (strip_start-plain code spaceless)
      ∙ strip_end-plain code spaceless

  pub resolve_scene_code-scene :
      (code : Text)
      → is_scene code ≡ true
      → resolve_scene_code is_space lower (some code) ≡ some code
  unfolding resolve_scene_code member any text_eq
  resolve_scene_code-scene [] scene = absurd (cc scene)
  resolve_scene_code-scene (c ∷ cs) scene = rw (strip-scene (c ∷ cs) scene, scene) refl

  AreScenes-alias_of : (raw : Text) → AreScenes (alias_of is_space lower raw)
  unfolding alias_of
  AreScenes-alias_of raw = AreScenes-alias_or _ _ (AreScenes-or raw (lower raw)) (
      AreScenes-alias_or _ _ (AreScenes-or (replace 45 95 raw) (lower (replace 45 95 raw)))
        (AreScenes-get (normalize_key is_space lower (some raw))))

  pub resolve_scene_code-IsScene :
      (value : Option Text) {code : Text}
      → resolve_scene_code is_space lower value ≡ some code
      → is_scene code ≡ true
  unfolding resolve_scene_code AreScenes
  resolve_scene_code-IsScene value e = resolved (strip is_space lower (text_or value)) e
    where
      resolved :
          (raw : Text) {code : Text}
          → (if is_falsy raw
              then none
              else if is_scene raw
              then some raw
              else alias_of is_space lower raw)
            ≡ some code
          → is_scene code ≡ true
      resolved [] e = absurd (cc e)
      resolved (c ∷ cs) e = elim (Bool-cases (is_scene (c ∷ cs))) [
        | inl scene ↦ ground (arith, rw scene at e, scene)
        | inr other ↦ AreScenes-alias_of (c ∷ cs) _ (rw other at e)
      ]

  -- Where no letter of the scenes' codes and no underscore is a space: what a name resolves to, if it
  -- resolves, is one of the ten scenes, and resolves to itself.
  pub resolve_scene_code-again :
      (value : Option Text) {code : Text}
      → resolve_scene_code is_space lower value ≡ some code
      → (is_scene code ≡ true) × (resolve_scene_code is_space lower (some code) ≡ some code)
  resolve_scene_code-again value e =
      let scene = resolve_scene_code-IsScene value e in (scene, resolve_scene_code-scene _ scene)
