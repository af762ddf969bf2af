-- ===== src/CrossCheck/Lifecycle/Endings.antt =====
-- The rounds that end without a decision, and those that begin.
use egyptian_arabic_annotati.Base.{
  ℕ, ◌+◌, ◌≡◌, inl, inr, refl, sym, ap, subst, ◌∙◌, Bool-cases, true, Option-cases, some, List, [],
  ◌∷◌, arith, ok, bind-ok,
}
use egyptian_arabic_annotati.Sessions.State.{RawUuid, validate_uuid}
use egyptian_arabic_annotati.Drafts.State.{
  session, passing, Task, TaskStatus, Round, RoundState, in_progress, awaiting_review, passed,
  adjudicated, cancelled, invalidated, is_open, Store, put,
}
use egyptian_arabic_annotati.Drafts.Abandon.{cancel_in_progress_cross_check}
use egyptian_arabic_annotati.CrossCheck.Admin.{
  World, Summary, AdminAction, cancel_cross_check_action, begin_admin_action,
}
use egyptian_arabic_annotati.CrossCheck.Rounds.{delete_assignments_of}
use egyptian_arabic_annotati.CrossCheck.Cancel.{
  CancelCommand, check_cancel, cancel_locked, cancel_cross_check, write_cancel, find_open_round,
  is_open_for, release_open, invalidate_round, invalidate_open_cross_check_for_task,
}
use egyptian_arabic_annotati.CrossCheck.Lifecycle.{invalidate, Advances, RoundMove, kept, Follows}
use egyptian_arabic_annotati.CrossCheck.Lifecycle.Open.{
  out_eq, cancel-Follows, discard_draft-rounds,
}
use egyptian_arabic_annotati.CrossCheck.Lifecycle.Work.{unchanged-Follows}
use egyptian_arabic_annotati.CrossCheck.Lifecycle.Reviews.{begun-or-replayed, changed-Follows}

write_cancel-rounds :
    (round_id : ℕ) (action : AdminAction) (round : Round) (task : Task) (cancelled_store : Store)
    (world : World)
    → (write_cancel round_id action round task cancelled_store world).1.store.rounds
      ≡ cancelled_store.rounds
unfolding write_cancel delete_assignments_of
write_cancel-rounds round_id action round task cancelled_store world = refl

cancel_locked-Follows :
    (round_id : ℕ) (command : CancelCommand) (action : AdminAction) (world : World) {out : Summary}
    {after : World}
    → cancel_locked round_id command action world ≡ ok (out, after)
    → Follows world.store after.store
unfolding cancel_locked
cancel_locked-Follows round_id command action world {out} {after} e =
    let ((round, task), checked, e1) = bind-ok (check_cancel round_id command world) e in
    let (ended, run, e2) =
      bind-ok
        (cancel_in_progress_cross_check (some round_id) round.task_id round.secondary_version_id
          world.store)
        e1 in
    let rounds : after.store.rounds ≡ ended.rounds =
      ap (λ o. o.1.store.rounds) (sym (out_eq e2))
      ∙ write_cancel-rounds round_id action round task ended world in
    λ k.
      subst (λ rows. RoundMove (world.store.rounds k) (rows k)) (sym rounds)
        (cancel-Follows (some round_id) round.task_id round.secondary_version_id world.store run k)

pub cancel_cross_check-Follows :
    (action_id now : ℕ) (admin_session_id round_id : RawUuid) (request_hash : ℕ)
    (command : CancelCommand) (world : World) {out : Summary} {after : World}
    → cancel_cross_check action_id now admin_session_id round_id request_hash command world
      ≡ ok (out, after)
    → Follows world.store after.store
unfolding cancel_cross_check
cancel_cross_check-Follows action_id now admin_session_id round_id request_hash command world {out}
      {after} e =
    let (rid, valid, e1) = bind-ok (passing session (validate_uuid round_id)) e in
    let (action, started, e2) =
      bind-ok
        (begin_admin_action action_id now admin_session_id command.operation_id
          cancel_cross_check_action command.reason request_hash world)
        e1 in
    elim (begun-or-replayed action world (λ row. cancel_locked rid command row world) e2) [
      | inl same ↦ unchanged-Follows world.store after.store (ap (λ w. w.store) same)
      | inr (row, new) ↦ cancel_locked-Follows rid command row world new
    ]

-- The open round that is found is open and of the task.
pub find_open_round-open :
    (task_id : ℕ) (ids : List ℕ) (store : Store) {k : ℕ}
    → find_open_round task_id ids store ≡ some k
    → is_open_for task_id (store.rounds k) ≡ true
unfolding find_open_round
find_open_round-open task_id [] store e = absurd (cc e)
find_open_round-open task_id (j ∷ ids) store {k} e =
    elim (Bool-cases (is_open_for task_id (store.rounds j))) [
      | inl here ↦
          let same : j ≡ k = ground (arith, here) in
          subst (λ i. is_open_for task_id (store.rounds i) ≡ true) same here
      | inr elsewhere ↦ find_open_round-open task_id ids store (rw elsewhere at e)
    ]

is_open_for-open :
    (task_id : ℕ) (round : Round)
    → is_open_for task_id (some round) ≡ true
    → (round.task_id ≡ task_id) × (is_open round.state ≡ true)
is_open_for-open task_id round e = (ground arith, ground arith)

release_open-rounds :
    (state : RoundState) (round : Round) (store : Store)
    → (release_open state round store).rounds ≡ store.rounds
unfolding release_open delete_assignments_of
release_open-rounds in_progress round store = discard_draft-rounds round.secondary_version_id store
release_open-rounds awaiting_review round store = refl
release_open-rounds passed round store = refl
release_open-rounds adjudicated round store = refl
release_open-rounds cancelled round store = refl
release_open-rounds invalidated round store = refl

invalidated-Advances :
    (round : Round)
    → is_open round.state ≡ true
    → Advances round (record round { revision = round.revision + 1; state = invalidated })
invalidated-Advances round open_state = record {
  moved = invalidate open_state;
  counted = refl;
  same_task = refl;
  same_original = refl;
  same_secondary = refl;
  same_annotator = refl;
  same_threshold = refl;
}

invalidate_round-rounds :
    (round_id action_id : ℕ) (from_status : TaskStatus) (round : Round) (store : Store)
    → (invalidate_round round_id action_id from_status round store).rounds
      ≡ put store.rounds round_id
          (some (record round { revision = round.revision + 1; state = invalidated }))
unfolding invalidate_round
invalidate_round-rounds round_id action_id from_status round store =
    ap
      (λ rows.
        put rows round_id
          (some (record round { revision = round.revision + 1; state = invalidated })))
      (release_open-rounds round.state round store)

pub invalidate-Follows :
    (task_id action_id : ℕ) (from_status : TaskStatus) (round_ids : List ℕ) (store : Store)
    → Follows store
        (invalidate_open_cross_check_for_task task_id action_id from_status round_ids store)
unfolding invalidate_open_cross_check_for_task
invalidate-Follows task_id action_id from_status round_ids store =
    elim (Option-cases (find_open_round task_id round_ids store)) [
      | inl closed ↦ λ k. rw (closed, invalidate_open_cross_check_for_task) kept
      | inr (round_id, found) ↦ elim (Option-cases (store.rounds round_id)) [
        | inl gone ↦ λ k. rw (found, gone, invalidate_open_cross_check_for_task) kept
        | inr (round, there) ↦
            let (task, running) = is_open_for-open task_id round (
              ap (is_open_for task_id) (sym there)
              ∙ find_open_round-open task_id round_ids store found) in
            λ k.
              rw (found, there, invalidate_open_cross_check_for_task)
                (changed-Follows store (invalidate_round round_id action_id from_status round store)
                  round_id round _ there (invalidated-Advances round running)
                  (invalidate_round-rounds round_id action_id from_status round store) k)
      ]
    ]
