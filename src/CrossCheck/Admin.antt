-- ===== src/CrossCheck/Admin.antt =====
-- annotation_repository.py, `_begin_admin_action` and the two functions that end an action, and the
-- settings of the cross check. `action_id` stands for the UUID that an action gets, and a request's
-- hash for its SHA-256.
pub mod Begun
use egyptian_arabic_annotati.Base.{
  ℕ, ◌+◌, Bool, true, false, not, ◌&&◌, Option, none, some, List, ◌∷◌, ltb, ◌==◌, Result, ok, err,
  ◌>>=◌, ◌>>◌, raise_if, or_raise,
}
use egyptian_arabic_annotati.Sessions.State.{RawUuid, validate_uuid, Annotator, find_id}
use egyptian_arabic_annotati.Drafts.State.{
  Fault, session, annotator_gone, admin_session_invalid, admin_operation_reused, settings_missing,
  stale_revision, passing, Assignment, TargetStatus, Store, put, RoundState,
}

-- A row of `admin_sessions`.
pub record AdminSession : Type 0 where
  pub key_id : ℕ
  pub revoked_at : Option ℕ
  pub idle_expires_at : ℕ
  pub absolute_expires_at : ℕ

pub data ActionType : Type 0 where
  cross_check_decision cancel_cross_check_action update_settings_action : ActionType

-- The row of `cross_check_settings`.
pub record Settings : Type 0 where
  pub enabled : Bool
  pub sampling_rate_bps : ℕ
  pub revision : ℕ
  pub updated_by_admin_action_id : Option ℕ

-- `summary`, `{}` until the action is finished.
pub data Summary : Type 0 where
  unfinished : Summary
  round_summary :
      (round_id : ℕ)
      → RoundState
      → (final_version_id : Option ℕ) → (final_status : Option TargetStatus) → Summary
  settings_summary : Settings → Summary

-- A row of `admin_actions`; its key is the operation's id.
pub record AdminAction : Type 0 where
  pub id : ℕ
  pub operation_id : ℕ
  pub admin_session_id : ℕ
  pub admin_key_id : ℕ
  pub action_type : ActionType
  pub reason : ℕ
  pub request_hash : ℕ
  pub summary : Summary

pub record ActionItem : Type 0 where
  pub admin_action_id : ℕ
  pub task_id : ℕ
  pub annotator_id : ℕ
  pub expected_version_id : Option ℕ
  pub before_version_id : Option ℕ
  pub after_version_id : Option ℕ
  pub result : RoundState

pub data BaselineQuality : Type 0 where
  exact reconstructed reprocessed : BaselineQuality

-- The columns of `annotation_tasks` that a claim reads beside those of `Task`.
pub record PoolRow : Type 0 where
  pub eligible : Bool
  pub processing_token : Option ℕ
  pub processing_lease_until : Option ℕ
  pub baseline_version_id : Option ℕ
  pub baseline_quality : Option BaselineQuality

-- The tables of the claims and of the administration beside those of the work. `task_ids` are the
-- tasks in the order of their allocation, `version_ids` and `round_ids` the keys of the versions and
-- of the rounds; `participants` and `blocks` hold pairs of a task and a user.
pub record World : Type 0 where
  pub store : Store
  pub task_ids : List ℕ
  pub version_ids : List ℕ
  pub round_ids : List ℕ
  pub pool : ℕ → Option PoolRow
  pub participants : ℕ → ℕ → Bool
  pub blocks : ℕ → ℕ → Bool
  pub admin_sessions : ℕ → Option AdminSession
  pub admin_actions : ℕ → Option AdminAction
  pub action_items : List ActionItem
  pub settings : Option Settings

unfoldable pub action_type_eq : ActionType → ActionType → Bool
action_type_eq cross_check_decision cross_check_decision = true
action_type_eq cancel_cross_check_action cancel_cross_check_action = true
action_type_eq update_settings_action update_settings_action = true
action_type_eq _ _ = false

abbrev pub is_none : {A : Type 0} → Option A → Bool
is_none none = true
is_none (some a) = false

-- What `_begin_admin_action` returns: the summary of an action that was done, or a new row.
pub data Action : Type 0 where
  replay : (action_id : ℕ) → Summary → Action
  begun : AdminAction → Action

unfoldable pub begin_admin_action :
    (action_id now : ℕ)
    → (admin_session_id operation_id : RawUuid) → ActionType
    → (reason request_hash : ℕ) → World
    → Result Fault Action
unfolding passing validate_uuid action_type_eq
begin_admin_action action_id now admin_session_id operation_id action_type reason request_hash
      world =
    do
      session_id ← passing session (validate_uuid admin_session_id)
      op_id ← passing session (validate_uuid operation_id)
      elim (world.admin_actions op_id) [
        | some prior ↦ do
          raise_if
              (not (
                prior.admin_session_id == session_id
                && (action_type_eq prior.action_type action_type
                    && prior.request_hash == request_hash)))
              admin_operation_reused
          ok (replay prior.id prior.summary)
        | none ↦ do
          admin ← or_raise (world.admin_sessions session_id) admin_session_invalid
          raise_if
              (not (
                is_none admin.revoked_at
                && (ltb now admin.idle_expires_at && ltb now admin.absolute_expires_at)))
              admin_session_invalid
          ok (
              begun (record {
                id = action_id;
                operation_id = op_id;
                admin_session_id = session_id;
                admin_key_id = admin.key_id;
                action_type = action_type;
                reason = reason;
                request_hash = request_hash;
                summary = unfinished;
              }))
      ]

-- The row of the action, with the summary of `_finish_admin_action`.
unfoldable pub finish_admin_action : AdminAction → Summary → World → World
unfolding put
finish_admin_action action summary world = record world {
  admin_actions =
      put world.admin_actions action.operation_id (some (record action { summary = summary }));
}

-- `_insert_admin_action_item`
abbrev pub insert_admin_action_item : ActionItem → World → World
insert_admin_action_item item world = record world { action_items = item ∷ world.action_items }

-- What `update_cross_check_settings` is asked.
pub record SettingsCommand : Type 0 where
  pub operation_id : RawUuid
  pub expected_revision : ℕ
  pub enabled : Bool
  pub sampling_rate_bps : ℕ
  pub reason : ℕ

-- `update_settings`
unfoldable pub update_settings : SettingsCommand → (action_id : ℕ) → Settings → Settings
update_settings command action_id settings = record {
  enabled = command.enabled;
  sampling_rate_bps = command.sampling_rate_bps;
  revision = settings.revision + 1;
  updated_by_admin_action_id = some action_id;
}

abbrev pub no_settings : Settings
no_settings = record {
  enabled = false;
  sampling_rate_bps = 0;
  revision = 0;
  updated_by_admin_action_id = none;
}

-- `load_settings`
unfoldable pub load_settings : World → Settings
load_settings world = elim world.settings [ none ↦ no_settings | some settings ↦ settings ]

-- `cross_check_allowed`
unfoldable pub cross_check_allowed : Settings → Bool
cross_check_allowed settings = settings.enabled && ltb 0 settings.sampling_rate_bps

unfoldable pub change_settings :
    AdminAction → SettingsCommand → World → Result Fault (Settings × World)
unfolding update_settings finish_admin_action
change_settings action command world = do
  current ← or_raise world.settings settings_missing
  raise_if (not (current.revision == command.expected_revision)) stale_revision
  let updated = update_settings command action.id current
  ok (
    updated,
    finish_admin_action action (settings_summary updated)
        (record world { settings = some updated }),
  )

-- `update_cross_check_settings`; a replay answers with the summary of the action.
unfoldable pub update_cross_check_settings :
    (action_id now : ℕ)
    → (admin_session_id : RawUuid) → (request_hash : ℕ) → SettingsCommand
    → World
    → Result Fault (Summary × World)
unfolding begin_admin_action change_settings
update_cross_check_settings action_id now admin_session_id request_hash command world = do
  action ←
      begin_admin_action action_id now admin_session_id command.operation_id update_settings_action
        command.reason request_hash world
  elim action [
    | replay prior_id summary ↦ ok (summary, world)
    | begun row ↦ do
      (updated, after) ← change_settings row command world
      ok (settings_summary updated, after)
  ]
