-- ===== src/CrossCheck/Commit/Found.antt =====
-- What a submission that was committed found, and what it wrote.
use egyptian_arabic_annotati.Base.{
  guard_holds, ℕ, ◌≡◌, sym, ap, subst, ◌∙◌, true, false, not, ◌&&◌, Option, none, some, List, ◌==◌,
  arith, ok, or_raise, bind-ok, raise_if-ok, or_raise-ok,
}
use egyptian_arabic_annotati.Sessions.State.{SessionFence}
use egyptian_arabic_annotati.Segments.{RawSegment, merge_dirty_segments}
use egyptian_arabic_annotati.Drafts.State.{
  segment, passing, version_gone, revision_conflict, not_cross_check, assignment_changed,
  round_mismatch, round_versions_changed, task_gone, original_changed, not_editable, inputs_changed,
  in_progress, Store, lock_assignment, open_round,
}
use egyptian_arabic_annotati.Drafts.Once.{passing-ok}
use egyptian_arabic_annotati.CrossCheck.Inputs.{Payload, digest_payload, SubmitSnapshot}
use egyptian_arabic_annotati.CrossCheck.Submit.{other_mode, names, is_editable, Inputs, lock_inputs}
use egyptian_arabic_annotati.CrossCheck.Lifecycle.Open.{open_round-found, out_eq, same_id}

pub names-some : (o : Option ℕ) (id : ℕ) → not (names o id) ≡ false → o ≡ some id
names-some none id e = absurd (cc e)
names-some (some other) id e = ap some (same_id other id e)

pub both_same : (a b c d : ℕ) → not (a == b && c == d) ≡ false → (a ≡ b) × (c ≡ d)
both_same a b c d e = (ground arith, ground arith)

some_id : {a b : ℕ} → ◌≡◌ {A = Option ℕ} (some a) (some b) → a ≡ b
some_id e = cc

module _ (digest : Payload → ℕ) (fence : SessionFence) (now : ℕ) (lease_token : Option ℕ)
    (expected_revision : ℕ) (dirty : List RawSegment) (snapshot : SubmitSnapshot)
    (store : Store) where
  -- What the guards of the transaction establish.
  pub record Found (inputs : Inputs) : Type 0 where
    pub locked : lock_assignment fence.user_id lease_token store ≡ ok inputs.work
    pub same_mode : other_mode inputs.work.assignment ≡ false
    pub same_task : inputs.work.assignment.task_id ≡ snapshot.task_id
    pub same_version : inputs.work.assignment.working_version_id ≡ snapshot.version_id
    pub task_row : store.tasks snapshot.task_id ≡ some inputs.task
    pub round_row : store.rounds snapshot.round_id ≡ some inputs.round
    pub running : inputs.round.state ≡ in_progress
    pub round_task : inputs.round.task_id ≡ snapshot.task_id
    pub round_original : inputs.round.original_version_id ≡ snapshot.original_version_id
    pub round_secondary : inputs.round.secondary_version_id ≡ snapshot.version_id
    pub original_row : store.versions snapshot.original_version_id ≡ some inputs.original
    pub working_row : store.versions snapshot.version_id ≡ some inputs.working
    pub current_revision : inputs.working.revision ≡ expected_revision
    pub editable : is_editable inputs.working ≡ true
    pub current : inputs.task.current_published_version_id ≡ some snapshot.original_version_id
    pub merged_with : merge_dirty_segments inputs.working.segments dirty ≡ ok inputs.merged
    pub original_unchanged :
        digest (
          digest_payload inputs.original.segments inputs.original.target_status
            snapshot.original_version_id inputs.original.revision)
        ≡ snapshot.original_digest
    pub secondary_unchanged :
        digest (digest_payload inputs.merged none snapshot.version_id inputs.working.revision)
        ≡ snapshot.secondary_digest

  pub lock_inputs-Found :
      {inputs : Inputs}
      → lock_inputs digest fence now lease_token expected_revision dirty snapshot store ≡ ok inputs
      → Found inputs
  unfolding lock_inputs
  lock_inputs-Found {inputs} e =
      let (work, locked, e1) = bind-ok (lock_assignment fence.user_id lease_token store) e in
      let a = work.assignment in
      let (mode, e2) = raise_if-ok (other_mode a) not_cross_check e1 in
      let (task_same, e3) =
        raise_if-ok (not (a.task_id == snapshot.task_id)) assignment_changed e2 in
      let (version_same, e4) =
        raise_if-ok (not (a.working_version_id == snapshot.version_id)) assignment_changed e3 in
      let (round_named, e5) =
        raise_if-ok (not (names a.cross_check_round_id snapshot.round_id)) round_mismatch e4 in
      let (task, task_found, e6) = bind-ok (or_raise (store.tasks a.task_id) task_gone) e5 in
      let ((round_id, round), opened, e7) =
        bind-ok (open_round (some snapshot.round_id) a.task_id store) e6 in
      let (versions_same, e8) =
        raise_if-ok
          (not (
            round.original_version_id == snapshot.original_version_id
            && round.secondary_version_id == snapshot.version_id))
          round_versions_changed e7 in
      let (first, first_found, e9) =
        bind-ok (or_raise (store.versions snapshot.original_version_id) version_gone) e8 in
      let (working, working_found, e10) =
        bind-ok (or_raise (store.versions snapshot.version_id) version_gone) e9 in
      let (revision_same, e11) =
        raise_if-ok (not (working.revision == expected_revision))
          (revision_conflict working.revision) e10 in
      let (edit, e12) = raise_if-ok (not (is_editable working)) not_editable e11 in
      let (named, e13) =
        raise_if-ok (not (names task.current_published_version_id snapshot.original_version_id))
          original_changed e12 in
      let (merged, merge, e14) =
        bind-ok (passing segment (merge_dirty_segments working.segments dirty)) e13 in
      let (digests, e15) =
        raise_if-ok
          (not (
            digest (
                digest_payload first.segments first.target_status snapshot.original_version_id
                  first.revision)
              == snapshot.original_digest
            && digest (digest_payload merged none snapshot.version_id working.revision)
              == snapshot.secondary_digest))
          inputs_changed e14 in
      let (rounds, row, running, of_task) =
        open_round-found (some snapshot.round_id) a.task_id store opened in
      let round_same : snapshot.round_id ≡ round_id = some_id rounds in
      let t : a.task_id ≡ snapshot.task_id = same_id a.task_id snapshot.task_id task_same in
      let (r1, r2) = both_same _ _ _ _ versions_same in
      let (d1, d2) = both_same _ _ _ _ digests in
      subst Found (out_eq e15) (record {
        locked = locked;
        same_mode = mode;
        same_task = t;
        same_version = same_id a.working_version_id snapshot.version_id version_same;
        task_row =
            subst (λ k. store.tasks k ≡ some task) t
              (or_raise-ok (store.tasks a.task_id) task_gone task_found);
        round_row = subst (λ k. store.rounds k ≡ some round) (sym round_same) row;
        running = running;
        round_task = of_task ∙ t;
        round_original = r1;
        round_secondary = r2;
        original_row =
            or_raise-ok (store.versions snapshot.original_version_id) version_gone first_found;
        working_row = or_raise-ok (store.versions snapshot.version_id) version_gone working_found;
        current_revision = same_id working.revision expected_revision revision_same;
        editable = guard_holds (is_editable working) edit;
        current = names-some task.current_published_version_id snapshot.original_version_id named;
        merged_with = passing-ok segment (merge_dirty_segments working.segments dirty) merge;
        original_unchanged = d1;
        secondary_unchanged = d2;
      })
