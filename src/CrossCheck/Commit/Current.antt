-- ===== src/CrossCheck/Commit/Current.antt =====
-- The comparison that a submission stores is that of the texts that the round compares.
use egyptian_arabic_annotati.Base.{
  ℕ, ◌+◌, ◌≡◌, ◌≢◌, ◌⊎◌, ◌↔◌, ℕ_discrete, refl, sym, ap, subst, ◌∙◌, inl, inr, Bool, true, Option,
  none, some, List, arith, Result, ok,
}
use egyptian_arabic_annotati.Sessions.State.{SessionPolicy, SessionFence}
use egyptian_arabic_annotati.Comparison.Unicode.{Unicode}
use egyptian_arabic_annotati.Comparison.Compare.{ComparisonResult}
use egyptian_arabic_annotati.Segments.{
  Fault as SegmentFault, Segment, RawSegment, merge_dirty_segments, apply_dirty_segments,
}
use egyptian_arabic_annotati.Segments.Merge.{unique_ids, merge-apply_dirty_segments}
use egyptian_arabic_annotati.Drafts.State.{
  in_progress, submitted, cross_check_submitted, TargetStatus, SkipReason, Version, Round, draft,
  published, Store, Response, put,
}
use egyptian_arabic_annotati.CrossCheck.Inputs.{
  Payload, digest_payload, entries, SubmitSnapshot, run_comparison,
}
use egyptian_arabic_annotati.CrossCheck.Submit.{read_snapshot, verdict_state}
use egyptian_arabic_annotati.CrossCheck.Commit.{commit_cross_check_submit}
use egyptian_arabic_annotati.CrossCheck.Commit.Left.{submitted_round}
use egyptian_arabic_annotati.CrossCheck.Commit.Frozen.{
  Payload-discrete, is_editable-draft, read_snapshot-digests, commit-Committed,
}

-- Two inputs that the digest does not tell apart.
abbrev pub Collision : (Payload → ℕ) → Type 0
Collision digest = (p : Payload) × (q : Payload) × (p ≢ q) × (digest p ≡ digest q)

same_or_Collision :
    (digest : Payload → ℕ) (p q : Payload) → digest p ≡ digest q → Collision digest ⊎ (p ≡ q)
same_or_Collision digest p q same = elim (Payload-discrete p q) [
  | yes e ↦ inr e
  | no differs ↦ inl (p, q, differs, same)
]

pub put_same :
    {A : Type 0} (table : ℕ → Option A) (key : ℕ) (row : Option A) → put table key row key ≡ row
unfolding put
put_same table key row = ground arith

pub put_other :
    {A : Type 0} (table : ℕ → Option A) (key k : ℕ) (row : Option A)
    → k ≢ key
    → put table key row k ≡ table k
unfolding put
put_other table key k row differs = ground arith

payload_entries :
    (a b : List Segment) (s t : Option TargetStatus) (i j r q : ℕ)
    → digest_payload a s i r ≡ digest_payload b t j q
    → (entries a ≡ entries b) × (s ≡ t)
unfolding digest_payload
payload_entries a b s t i j r q e = (ap (λ p. p.segments) e, ap (λ p. p.status) e)

same_result :
    {a b : List Segment} (m n : Result SegmentFault (List Segment))
    → m ≡ n
    → m ≡ ok a
    → n ≡ ok b
    → a ≡ b
same_result m n e f g = cc

pub some_inj : {A : Type 0} {a b : A} → ◌≡◌ {A = Option A} (some a) (some b) → a ≡ b
some_inj e = cc

draft_published :
    (version : Version) → version.lifecycle ≡ draft → version.lifecycle ≡ published → ⊥
draft_published version d p = cc (sym d ∙ p)

frozen_published :
    (version : Version)
    → version.lifecycle ≡ cross_check_submitted
    → version.lifecycle ≡ published
    → ⊥
frozen_published version d p = cc (sym d ∙ p)

module _ (digest : Payload → ℕ) (fence : SessionFence) (policy : SessionPolicy) (now : ℕ)
    (target_status : TargetStatus) (skip_reasons : List SkipReason) (operation_id request_hash : ℕ)
    (lease_token : Option ℕ) (expected_revision : ℕ) (dirty : List RawSegment)
    (snapshot : SubmitSnapshot) (store : Store) where
  -- What the administration decides on: the frozen version, and the round with its comparison.
  abbrev pub Queued : ComparisonResult → Response → Store → Type 0
  Queued comparison response after =
      ((frozen : Version) × (after.versions snapshot.version_id ≡ some frozen)
        × (frozen.lifecycle ≡ cross_check_submitted)
        × (frozen.revision ≡ expected_revision + 1)
        × (frozen.submitted_by_user_id ≡ some fence.user_id)
        × (frozen.target_status ≡ some target_status))
      × ((round : Round) × (round' : Round) × (store.rounds snapshot.round_id ≡ some round)
          × (round.state ≡ in_progress)
          × (after.rounds snapshot.round_id ≡ some round')
          × (round'.state ≡ verdict_state comparison)
          × (round'.revision ≡ round.revision + 1))
      × (response
          ≡ submitted snapshot.task_id target_status skip_reasons snapshot.round_id
              (verdict_state comparison))

  -- A submission of a cross check publishes nothing: the tasks stay as they were, the versions that
  -- are published after it are those that were before, unchanged, and the user's assignment is gone.
  -- It freezes the draft, with the submission's status and author and the next revision, and its round
  -- passes if the comparison asks for no review and waits for one otherwise.
  pub commit_cross_check_submit-hides :
      (comparison : ComparisonResult) {response : Response} {after : Store}
      → store.operations operation_id ≡ none
      → commit_cross_check_submit digest fence policy now target_status skip_reasons operation_id
          request_hash lease_token expected_revision dirty snapshot comparison store
        ≡ ok (response, after)
      → Queued comparison response after
        × (after.tasks ≡ store.tasks)
        × (after.assignments fence.user_id ≡ none)
        × ((k : ℕ) (version : Version)
            → version.lifecycle ≡ published
            → (store.versions k ≡ some version) ↔ (after.versions k ≡ some version))
  commit_cross_check_submit-hides comparison {response} {after} new e =
      let (inputs, found, left) =
        commit-Committed digest fence policy now target_status skip_reasons operation_id
          request_hash lease_token expected_revision dirty snapshot comparison store new e in
      let vid = snapshot.version_id in
      let here : after.versions vid ≡ some left.frozen =
        ap (λ rows. rows vid) left.versions_left ∙ put_same store.versions vid (some left.frozen) in
      let working_draft = is_editable-draft inputs.working found.editable in
      (
        (
          (
            left.frozen,
            here,
            left.is_frozen.submitted_state,
            left.is_frozen.next_revision ∙ ap (λ r. r + 1) found.current_revision,
            left.is_frozen.author,
            left.is_frozen.status,
          ),
          (
            inputs.round,
            submitted_round snapshot comparison inputs.round,
            found.round_row,
            found.running,
            ap (λ rows. rows snapshot.round_id) left.rounds_left
                ∙ put_same store.rounds snapshot.round_id
                    (some (submitted_round snapshot comparison inputs.round)),
            refl,
            refl,
          ),
          left.replied,
        ),
        left.tasks_left,
        ap (λ rows. rows fence.user_id) left.assignments_left
            ∙ put_same store.assignments fence.user_id none,
        λ k version is_published. elim (ℕ_discrete k vid) [
          | yes same ↦ (
            λ there. absurd (
                draft_published version
                  (subst (λ v. v.lifecycle ≡ draft)
                    (some_inj (sym found.working_row ∙ ap store.versions (sym same) ∙ there))
                    working_draft)
                  is_published),
            λ there. absurd (
                frozen_published version
                  (subst (λ v. v.lifecycle ≡ cross_check_submitted)
                    (some_inj (sym here ∙ ap after.versions (sym same) ∙ there))
                    left.is_frozen.submitted_state)
                  is_published),
          )
          | no differs ↦
              let stays : after.versions k ≡ store.versions k =
                ap (λ rows. rows k) left.versions_left
                ∙ put_other store.versions vid k (some left.frozen) differs in
              (λ there. stays ∙ there, λ there. sym stays ∙ there)
        ],
      )

  -- The texts of the frozen version and of the original are those that the comparison read.
  abbrev pub Compares : ComparisonResult → Store → Type 0
  Compares comparison after =
      (frozen : Version) × (original : Version) × (round : Round) × (after.versions
          snapshot.version_id
        ≡ some frozen)
      × (store.versions snapshot.original_version_id ≡ some original)
      × (after.rounds snapshot.round_id ≡ some round)
      × (round.evidence
          ≡ some (record {
            comparison = comparison;
            original_input_revision = snapshot.original_revision;
            secondary_input_revision = snapshot.secondary_revision;
          }))
      × (entries frozen.segments ≡ entries snapshot.merged_segments)
      × (entries original.segments ≡ entries snapshot.original_segments)
      × (original.target_status ≡ snapshot.original_status)

  -- The comparison that a submission stores is never stale. It was made outside the transactions, of
  -- the snapshot that an earlier one read. Whatever happened in between, if the submission is committed
  -- then the frozen version has the ids, times, texts and marks that were compared, and so has the
  -- original, with the status that was compared; or two different inputs have the same digest. The
  -- rows of the draft have different ids.
  pub commit_cross_check_submit-current :
      (u : Unicode) (memory : ℕ → Bool) (earlier : ℕ) (at_load : Store) {response : Response}
      {after : Store}
      → read_snapshot digest fence earlier lease_token expected_revision dirty at_load ≡ ok snapshot
      → store.operations operation_id ≡ none
      → ((version : Version)
          → store.versions snapshot.version_id ≡ some version
          → unique_ids version.segments ≡ true)
      → commit_cross_check_submit digest fence policy now target_status skip_reasons operation_id
          request_hash lease_token expected_revision dirty snapshot
          (run_comparison u memory snapshot target_status)
          store
        ≡ ok (response, after)
      → Collision digest ⊎ Compares (run_comparison u memory snapshot target_status) after
  commit_cross_check_submit-current u memory earlier at_load {response} {after} read new unique e =
      let comparison = run_comparison u memory snapshot target_status in
      let (inputs, found, left) =
        commit-Committed digest fence policy now target_status skip_reasons operation_id
          request_hash lease_token expected_revision dirty snapshot comparison store new e in
      let (d1, d2) =
        read_snapshot-digests digest fence earlier lease_token expected_revision dirty at_load
          read in
      let merged_rows : inputs.merged ≡ left.rows =
        same_result (merge_dirty_segments inputs.working.segments dirty)
          (apply_dirty_segments dirty inputs.working.segments)
          (merge-apply_dirty_segments inputs.working.segments dirty
            (unique inputs.working found.working_row))
          found.merged_with left.applied in
      elim (same_or_Collision digest _ _ (found.original_unchanged ∙ d1)) [
        | inl collision ↦ inl collision
        | inr original_same ↦ elim (same_or_Collision digest _ _ (found.secondary_unchanged ∙ d2)) [
          | inl collision ↦ inl collision
          | inr secondary_same ↦
              let (first, status) = payload_entries _ _ _ _ _ _ _ _ original_same in
              let (second, pending) = payload_entries _ _ _ _ _ _ _ _ secondary_same in
              inr (
                left.frozen,
                inputs.original,
                submitted_round snapshot comparison inputs.round,
                ap (λ rows. rows snapshot.version_id) left.versions_left
                    ∙ put_same store.versions snapshot.version_id (some left.frozen),
                found.original_row,
                ap (λ rows. rows snapshot.round_id) left.rounds_left
                    ∙ put_same store.rounds snapshot.round_id
                        (some (submitted_round snapshot comparison inputs.round)),
                refl,
                ap entries (left.is_frozen.same_segments ∙ sym merged_rows) ∙ second,
                first,
                status,
              )
        ]
      ]
