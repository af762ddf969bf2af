-- ===== src/CrossCheck/Lifecycle/Open.antt =====
-- An open round that is found, and its cancellation.
use egyptian_arabic_annotati.Base.{
  ℕ, ◌+◌, ◌≡◌, refl, sym, ap, subst, ◌∙◌, inl, inr, false, not, Option, Option-cases, none, some,
  ◌==◌, arith, Result, ok, err, or_raise, bind-ok, raise_if-ok, or_raise-ok,
}
use egyptian_arabic_annotati.Drafts.State.{
  Fault, round_closed, annotation, revision, cross_check, Assignment, Round, RoundState,
  in_progress, awaiting_review, passed, adjudicated, invalidated, cancelled, Store, put, open_round,
}
use egyptian_arabic_annotati.Drafts.Abandon.{
  discard_draft, cancel_in_progress_cross_check, release_draft,
}
use egyptian_arabic_annotati.CrossCheck.Lifecycle.{
  ◌⟶◌, cancel, Advances, RoundMove, advanced, Follows, same-Follows, put-Follows,
}

pub out_eq : {A : Type 0} {a b : A} → ◌≡◌ {A = Result Fault A} (ok a) (ok b) → a ≡ b
out_eq e = cc

abbrev if_in_progress : RoundState → ℕ → Round → Result Fault (ℕ × Round)
if_in_progress state round_id row = elim state [
  | in_progress ↦ ok (round_id, row)
  | _ ↦ err round_closed
]

if_in_progress-ok :
    (state : RoundState) (round_id : ℕ) (row : Round) {out : ℕ × Round}
    → if_in_progress state round_id row ≡ ok out
    → (state ≡ in_progress) × ((round_id, row) ≡ out)
if_in_progress-ok in_progress round_id row e = (refl, out_eq e)
if_in_progress-ok awaiting_review round_id row e = absurd (cc e)
if_in_progress-ok passed round_id row e = absurd (cc e)
if_in_progress-ok adjudicated round_id row e = absurd (cc e)
if_in_progress-ok cancelled round_id row e = absurd (cc e)
if_in_progress-ok invalidated round_id row e = absurd (cc e)

pub same_id : (a b : ℕ) → not (a == b) ≡ false → a ≡ b
same_id a b e = ground arith

-- The row that `open_round` finds is that of an open round.
pub open_round-found :
    (round_id : Option ℕ) (task_id : ℕ) (store : Store) {out : ℕ × Round}
    → open_round round_id task_id store ≡ ok out
    → (round_id ≡ some out.0)
      × (store.rounds out.0 ≡ some out.1)
      × (out.1.state ≡ in_progress)
      × (out.1.task_id ≡ task_id)
unfolding open_round
open_round-found none task_id store e = absurd (cc e)
open_round-found (some round_id) task_id store e =
    let (row, found, e1) = bind-ok (or_raise (store.rounds round_id) round_closed) e in
    let (same, e2) = raise_if-ok (not (row.task_id == task_id)) round_closed e1 in
    let there = or_raise-ok (store.rounds round_id) round_closed found in
    let (running, out_same) = if_in_progress-ok row.state round_id row e2 in
    subst
      (λ o.
        (some round_id ≡ some o.0)
        × (store.rounds o.0 ≡ some o.1)
        × (o.1.state ≡ in_progress)
        × (o.1.task_id ≡ task_id))
      out_same (refl, there, running, same_id row.task_id task_id same)

pub discard_draft-rounds :
    (version_id : ℕ) (store : Store) → (discard_draft version_id store).rounds ≡ store.rounds
unfolding discard_draft
discard_draft-rounds version_id store = elim (Option-cases (store.versions version_id)) [
  | inl gone ↦ rw (gone, discard_draft) refl
  | inr (version, there) ↦ rw (there, discard_draft) refl
]

cancelled-Advances :
    (row : Round)
    → row.state ≡ in_progress
    → Advances row (record row { revision = row.revision + 1; state = cancelled })
cancelled-Advances row running = record {
  moved = subst (λ s. s ⟶ cancelled) (sym running) cancel;
  counted = refl;
  same_task = refl;
  same_original = refl;
  same_secondary = refl;
  same_annotator = refl;
  same_threshold = refl;
}

-- A cancellation changes the open round that it finds, and no other.
pub cancel-Follows :
    (round_id : Option ℕ) (task_id version_id : ℕ) (store : Store) {after : Store}
    → cancel_in_progress_cross_check round_id task_id version_id store ≡ ok after
    → Follows store after
unfolding cancel_in_progress_cross_check
cancel-Follows round_id task_id version_id store {after} e =
    let ((found_id, row), opened, e1) = bind-ok (open_round round_id task_id store) e in
    let (same, there, running, task) = open_round-found round_id task_id store opened in
    let row' : Round = record row { revision = row.revision + 1; state = cancelled } in
    put-Follows store after found_id (some row')
      (subst (λ r. RoundMove r (some row')) (sym there) (advanced (cancelled-Advances row running)))
      (ap (λ s. s.rounds) (sym (out_eq e1))
        ∙ discard_draft-rounds version_id
            (record store { rounds = put store.rounds found_id (some row') }))

pub release-Follows :
    (assignment : Assignment) (store : Store) {released : Store}
    → release_draft assignment store ≡ ok released
    → Follows store released
unfolding release_draft
release-Follows assignment store {released} e =
    elim assignment.mode
        as (λ mode.
          ◌≡◌ {A = Result Fault Store}
            (elim mode [
              | cross_check ↦
                  cancel_in_progress_cross_check assignment.cross_check_round_id assignment.task_id
                    assignment.working_version_id store
              | revision ↦ ok (discard_draft assignment.working_version_id store)
              | annotation ↦ ok store
            ])
            (ok released)
          → Follows store released) [
            | annotation ↦ λ h. same-Follows store released (ap (λ s. s.rounds) (sym (out_eq h)))
            | revision ↦ λ h. same-Follows store released (
                ap (λ s. s.rounds) (sym (out_eq h))
                ∙ discard_draft-rounds assignment.working_version_id store)
            | cross_check ↦ λ h.
                cancel-Follows assignment.cross_check_round_id assignment.task_id
                  assignment.working_version_id store h
          ]
      e
