-- ===== src/CrossCheck/Lifecycle/Reach.antt =====
-- The transactions that touch a round, as steps of the tables, in any order.
use egyptian_arabic_annotati.Base.{ℕ, ◌≡◌, Bool, Option, none, List, ok}
use egyptian_arabic_annotati.Sessions.State.{SessionPolicy, SessionFence, RawUuid}
use egyptian_arabic_annotati.Comparison.Compare.{ComparisonResult}
use egyptian_arabic_annotati.Segments.{RawSegment}
use egyptian_arabic_annotati.Drafts.State.{TargetStatus, SkipReason, TaskStatus, Store, Response}
use egyptian_arabic_annotati.Drafts.Save.{save_draft}
use egyptian_arabic_annotati.Drafts.Abandon.{abandon}
use egyptian_arabic_annotati.Drafts.Complete.{RawStatus}
use egyptian_arabic_annotati.Drafts.Publish.{Next, complete}
use egyptian_arabic_annotati.CrossCheck.Inputs.{Payload, SubmitSnapshot}
use egyptian_arabic_annotati.CrossCheck.Commit.{commit_cross_check_submit}
use egyptian_arabic_annotati.CrossCheck.Admin.{World, Summary, Settings}
use egyptian_arabic_annotati.CrossCheck.Decide.{DecisionCommand}
use egyptian_arabic_annotati.CrossCheck.Adjudicate.{decide_cross_check}
use egyptian_arabic_annotati.CrossCheck.Cancel.{
  CancelCommand, cancel_cross_check, invalidate_open_cross_check_for_task,
}
use egyptian_arabic_annotati.CrossCheck.Draw.{Fresh, Attempt, claimed, try_claim_cross_check}

abbrev pub with_store : World → Store → World
with_store world store = record world { store = store }

-- One transaction that is committed. A claim's round has a new id.
pub data Step (w : World) : World → Type 0 where
  saving :
      (fence : SessionFence) (policy : SessionPolicy) (now : ℕ) (lease_token : Option ℕ)
      (expected_revision : ℕ) (dirty : List RawSegment) (operation_id : RawUuid) (request_hash : ℕ)
      {out : Response} {after : Store}
      → save_draft fence policy now lease_token expected_revision dirty operation_id request_hash
          w.store
        ≡ ok (out, after)
      → Step w (with_store w after)
  abandoning :
      (hash : ℕ → ℕ) (fence : SessionFence) (policy : SessionPolicy) (now lease_token : ℕ)
      (operation_id : RawUuid) (confirm : Bool) {out : Response} {after : Store}
      → abandon hash fence policy now lease_token operation_id confirm w.store ≡ ok (out, after)
      → Step w (with_store w after)
  completing :
      (fence : SessionFence) (policy : SessionPolicy) (now : ℕ) (lease_token : Option ℕ)
      (expected_revision : ℕ) (target_status : RawStatus) (skip_reasons : List SkipReason)
      (dirty : List RawSegment) (operation_id : RawUuid) (request_hash : ℕ) {out : Next}
      {after : Store}
      → complete fence policy now lease_token expected_revision target_status skip_reasons dirty
          operation_id request_hash w.store
        ≡ ok (out, after)
      → Step w (with_store w after)
  submitting :
      (digest : Payload → ℕ) (fence : SessionFence) (policy : SessionPolicy) (now : ℕ)
      (target_status : TargetStatus) (skip_reasons : List SkipReason)
      (operation_id request_hash : ℕ) (lease_token : Option ℕ) (expected_revision : ℕ)
      (dirty : List RawSegment) (snapshot : SubmitSnapshot) (comparison : ComparisonResult)
      {out : Response} {after : Store}
      → commit_cross_check_submit digest fence policy now target_status skip_reasons operation_id
          request_hash lease_token expected_revision dirty snapshot comparison w.store
        ≡ ok (out, after)
      → Step w (with_store w after)
  deciding :
      (draft_id action_id now : ℕ) (admin_session_id round_id : RawUuid) (request_hash : ℕ)
      (command : DecisionCommand) {out : Summary} {after : World}
      → decide_cross_check draft_id action_id now admin_session_id round_id request_hash command w
        ≡ ok (out, after)
      → Step w after
  cancelling :
      (action_id now : ℕ) (admin_session_id round_id : RawUuid) (request_hash : ℕ)
      (command : CancelCommand) {out : Summary} {after : World}
      → cancel_cross_check action_id now admin_session_id round_id request_hash command w
        ≡ ok (out, after)
      → Step w after
  invalidating :
      (task_id action_id : ℕ) (from_status : TaskStatus)
      → Step w (
          with_store w (
            invalidate_open_cross_check_for_task task_id action_id from_status w.round_ids w.store))
  claiming :
      (whitelist : ℕ → ℕ) (matches has_best : ℕ → Bool) (now user_id : ℕ) (can_claim : Bool)
      (settings : Settings) (tries : ℕ → Attempt) {task_id : ℕ} {fresh : Fresh} {after : World}
      → try_claim_cross_check whitelist matches has_best now user_id can_claim settings tries w
        ≡ claimed task_id fresh after
      → w.store.rounds fresh.round_id ≡ none
      → Step w after

-- Any number of them.
pub data Reach (w : World) : World → Type 0 where
  start : Reach w w
  further : {v u : World} → Reach w v → Step v u → Reach w u
