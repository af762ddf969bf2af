-- ===== src/CrossCheck/Lifecycle.antt =====
-- The states of a round and the moves between them, on the tables.
pub mod Open
pub mod Work
pub mod Reviews
pub mod Endings
pub mod Reach
pub mod Steps
pub mod Closed
pub mod Single
pub mod Diagram
use egyptian_arabic_annotati.Base.{
  ℕ, ◌+◌, ◌≤◌, ◌≡◌, ◌≢◌, refl, sym, ap, subst, ◌∙◌, inl, inr, Bool-cases, true, false, Option, none,
  some, ◌==◌, arith,
}
use egyptian_arabic_annotati.Drafts.State.{
  Round, RoundState, in_progress, awaiting_review, passed, adjudicated, cancelled, invalidated,
  is_open, Store, put,
}

-- The moves of a round's state.
infix 40 ◌⟶◌
pub data ◌⟶◌ : RoundState → RoundState → Type 0 where
  pass : in_progress ⟶ passed
  queue : in_progress ⟶ awaiting_review
  cancel : in_progress ⟶ cancelled
  adjudicate : awaiting_review ⟶ adjudicated
  invalidate : {state : RoundState} → is_open state ≡ true → state ⟶ invalidated

-- One change of a round's row: a move of its state, counted by its revision. What the round compares
-- and who made it stay.
pub record Advances (before after : Round) : Type 0 where
  pub moved : before.state ⟶ after.state
  pub counted : after.revision ≡ before.revision + 1
  pub same_task : after.task_id ≡ before.task_id
  pub same_original : after.original_version_id ≡ before.original_version_id
  pub same_secondary : after.secondary_version_id ≡ before.secondary_version_id
  pub same_annotator : after.secondary_annotator_id ≡ before.secondary_annotator_id
  pub same_threshold : after.threshold_bps ≡ before.threshold_bps

-- What a step may do to the row of a round that is there, or is not.
pub data RoundMove : Option Round → Option Round → Type 0 where
  kept : {row : Option Round} → RoundMove row row
  advanced : {before after : Round} → Advances before after → RoundMove (some before) (some after)

abbrev pub Follows : Store → Store → Type 0
Follows store after = (k : ℕ) → RoundMove (store.rounds k) (after.rounds k)

pub same-Follows : (store after : Store) → after.rounds ≡ store.rounds → Follows store after
same-Follows store after same k =
    subst (λ rounds. RoundMove (store.rounds k) (rounds k)) (sym same) kept

put-RoundMove :
    (rounds : ℕ → Option Round) (round_id k : ℕ) (row : Option Round)
    → RoundMove (rounds round_id) row
    → RoundMove (rounds k) (put rounds round_id row k)
unfolding put
put-RoundMove rounds round_id k row move = elim (Bool-cases (k == round_id)) [
  | inl same ↦
      let e : k ≡ round_id = ground arith in
      rw (same) (subst (λ j. RoundMove (rounds j) row) (sym e) move)
  | inr differs ↦ rw (differs) kept
]

-- A step that writes one row of a round.
pub put-Follows :
    (store after : Store) (round_id : ℕ) (row : Option Round)
    → RoundMove (store.rounds round_id) row
    → after.rounds ≡ put store.rounds round_id row
    → Follows store after
put-Follows store after round_id row move written k =
    subst (λ rounds. RoundMove (store.rounds k) (rounds k)) (sym written)
      (put-RoundMove store.rounds round_id k row move)
