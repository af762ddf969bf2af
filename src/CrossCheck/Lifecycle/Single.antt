-- ===== src/CrossCheck/Lifecycle/Single.antt =====
-- A task has at most one open round.
use egyptian_arabic_annotati.Base.{
  ℕ, ◌≡◌, ◌≢◌, ◌⊎◌, inl, inr, refl, sym, ap, subst, ◌∙◌, Bool-cases, true, false, Option, none,
  some, List, [], ◌∷◌, ◌++◌, any, ◌==◌, ℕ_discrete, arith,
}
use egyptian_arabic_annotati.Drafts.State.{Round, RoundState, is_open, Store, put}
use egyptian_arabic_annotati.CrossCheck.Admin.{World}
use egyptian_arabic_annotati.CrossCheck.Cancel.{find_open_round, is_open_for}
use egyptian_arabic_annotati.CrossCheck.Commit.Current.{put_same, put_other, some_inj}
use egyptian_arabic_annotati.CrossCheck.Lifecycle.{
  ◌⟶◌, pass, queue, cancel, adjudicate, invalidate, RoundMove, kept, advanced, Follows,
}
use egyptian_arabic_annotati.CrossCheck.Lifecycle.Reach.{Step, Reach, start, further}
use egyptian_arabic_annotati.CrossCheck.Lifecycle.Steps.{Claims, Step-cases}

-- A row of an open round of the task.
abbrev pub OpenFor : ℕ → ℕ → World → Type 0
OpenFor task_id k w =
    (round : Round) × (w.store.rounds k ≡ some round)
    × (round.task_id ≡ task_id)
    × (is_open round.state ≡ true)

-- The list of the keys is complete, and two open rounds of a task are one.
pub record OneOpen (w : World) : Type 0 where
  pub listed :
      (k : ℕ) (round : Round) → w.store.rounds k ≡ some round → any (λ j. j == k) w.round_ids ≡ true
  pub single : (task_id j k : ℕ) → OpenFor task_id j w → OpenFor task_id k w → j ≡ k

reopened : {a b : RoundState} → a ⟶ b → is_open b ≡ true → is_open a ≡ true
reopened pass e = absurd (cc e)
reopened queue e = refl
reopened cancel e = absurd (cc e)
reopened adjudicate e = absurd (cc e)
reopened (invalidate e) f = absurd (cc f)

-- A round that a change of rows leaves was there.
move-earlier :
    {old new : Option Round} {after : Round}
    → RoundMove old new
    → new ≡ some after
    → (before : Round) × (old ≡ some before)
      × (after.task_id ≡ before.task_id)
      × (is_open after.state ≡ true → is_open before.state ≡ true)
move-earlier {after} (kept) e = (after, e, refl, λ h. h)
move-earlier {after} (advanced {before} {after = row} step) e =
    subst
      (λ r.
        (b : Round) × (some before ≡ some b)
        × (r.task_id ≡ b.task_id)
        × (is_open r.state ≡ true → is_open b.state ≡ true))
      (some_inj e) (before, refl, step.same_task, reopened step.moved)

OpenFor-earlier :
    (w v : World) (task_id k : ℕ)
    → Follows w.store v.store
    → OpenFor task_id k v
    → OpenFor task_id k w
OpenFor-earlier w v task_id k follows (round, there, task, running) =
    let (before, was, same, earlier) = move-earlier (follows k) there in
    (before, was, sym same ∙ task, earlier running)

Follows-OneOpen :
    (w v : World) → Follows w.store v.store → v.round_ids ≡ w.round_ids → OneOpen w → OneOpen v
Follows-OneOpen w v follows ids one = record {
  listed = λ k round there.
      let (before, was, same, earlier) = move-earlier (follows k) there in
      ap (any (λ j. j == k)) ids ∙ one.listed k before was;
  single = λ task_id j k first second.
      one.single task_id j k (OpenFor-earlier w v task_id j follows first)
        (OpenFor-earlier w v task_id k follows second);
}

find-none :
    (task_id k : ℕ) (ids : List ℕ) (store : Store)
    → find_open_round task_id ids store ≡ none
    → any (λ j. j == k) ids ≡ true
    → is_open_for task_id (store.rounds k) ≡ false
unfolding find_open_round any
find-none task_id k [] store e f = absurd (cc f)
find-none task_id k (j ∷ ids) store e f = elim (Bool-cases (is_open_for task_id (store.rounds j))) [
  | inl running ↦ absurd (cc (rw running at e))
  | inr closed ↦ elim (Bool-cases (j == k)) [
    | inl same ↦
        subst (λ i. is_open_for task_id (store.rounds i) ≡ false) (ground (arith, same)) closed
    | inr differs ↦ find-none task_id k ids store (rw closed at e) (rw differs at f)
  ]
]

any-append :
    (k : ℕ) (ids more : List ℕ)
    → any (λ j. j == k) ids ≡ true
    → any (λ j. j == k) (ids ++ more) ≡ true
unfolding any
any-append k [] more e = absurd (cc e)
any-append k (j ∷ ids) more e = elim (Bool-cases (j == k)) [
  | inl same ↦ rw same refl
  | inr differs ↦ rw differs (any-append k ids more (rw differs at e))
]

any-last : (k : ℕ) (ids : List ℕ) → any (λ j. j == k) (ids ++ (k ∷ [])) ≡ true
unfolding any
any-last k [] = ground arith
any-last k (j ∷ ids) = elim (Bool-cases (j == k)) [
  | inl same ↦ rw same refl
  | inr differs ↦ rw differs (any-last k ids)
]

open_elsewhere :
    (w : World) (task_id k : ℕ)
    → OneOpen w
    → find_open_round task_id w.round_ids w.store ≡ none
    → OpenFor task_id k w
    → ⊥
open_elsewhere w task_id k one none_open (round, there, task, running) =
    let closed : is_open_for task_id (some round) ≡ false =
      ap (is_open_for task_id) (sym there)
      ∙ find-none task_id k w.round_ids w.store none_open (one.listed k round there) in
    ground (arith, task, running, closed)

put_row :
    (w v : World) (claim : Claims w v) (k : ℕ) {round : Round}
    → v.store.rounds k ≡ some round
    → ((k ≡ claim.round_id) × (round ≡ claim.round))
      ⊎ ((k ≢ claim.round_id) × (w.store.rounds k ≡ some round))
put_row w v claim k there =
    let written = ap (λ rows. rows k) (sym claim.rounds_left) ∙ there in
    elim (ℕ_discrete k claim.round_id) [
      | yes same ↦ inl (
        same,
        sym (
            some_inj (
              sym (
                ap (put w.store.rounds claim.round_id (some claim.round)) same
                ∙ put_same w.store.rounds claim.round_id (some claim.round))
              ∙ written)),
      )
      | no differs ↦ inr (
        differs,
        sym (put_other w.store.rounds claim.round_id k (some claim.round) differs) ∙ written,
      )
    ]

Claims-OneOpen : (w v : World) → Claims w v → OneOpen w → OneOpen v
Claims-OneOpen w v claim one = record {
  listed = λ k round there.
      ap (any (λ j. j == k)) claim.round_ids_left ∙ elim (put_row w v claim k there) [
        | inl (same, row) ↦
            subst (λ i. any (λ j. j == i) (w.round_ids ++ (claim.round_id ∷ [])) ≡ true) (sym same)
              (any-last claim.round_id w.round_ids)
        | inr (differs, was) ↦
            any-append k w.round_ids (claim.round_id ∷ []) (one.listed k round was)
      ];
  single = λ task_id j k (r, there, task, running) (s, there', task', running').
      elim (put_row w v claim j there) [
        | inl (here_j, row) ↦ elim (put_row w v claim k there') [
          | inl (here_k, row') ↦ here_j ∙ sym here_k
          | inr (other, was) ↦ absurd (
              open_elsewhere w task_id k one
                (subst (λ t. find_open_round t w.round_ids w.store ≡ none)
                  (ap (λ x. x.task_id) (sym row) ∙ task) claim.none_open)
                (s, was, task', running'))
        ]
        | inr (other, was) ↦ elim (put_row w v claim k there') [
          | inl (here_k, row') ↦ absurd (
              open_elsewhere w task_id j one
                (subst (λ t. find_open_round t w.round_ids w.store ≡ none)
                  (ap (λ x. x.task_id) (sym row') ∙ task') claim.none_open)
                (r, was, task, running))
          | inr (other', was') ↦
              one.single task_id j k (r, was, task, running) (s, was', task', running')
        ]
      ];
}

Step-OneOpen : {w v : World} → Step w v → OneOpen w → OneOpen v
Step-OneOpen {w} {v} step one = elim (Step-cases step) [
  | inl (follows, ids) ↦ Follows-OneOpen w v follows ids one
  | inr claim ↦ Claims-OneOpen w v claim one
]

-- In every state that the transactions reach from one where each task has at most one open round, each
-- task has at most one open round.
pub Reach-OneOpen : {w v : World} → Reach w v → OneOpen w → OneOpen v
Reach-OneOpen start one = one
Reach-OneOpen (further path step) one = Step-OneOpen step (Reach-OneOpen path one)
