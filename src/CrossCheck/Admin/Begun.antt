-- ===== src/CrossCheck/Admin/Begun.antt =====
-- What the beginning of an administrator's action establishes.
use egyptian_arabic_annotati.Base.{
  ℕ, ◌<◌, ◌≡◌, refl, sym, false, not, ◌&&◌, none, some, ltb, arith, ok, or_raise, bind-ok,
  raise_if-ok, or_raise-ok,
}
use egyptian_arabic_annotati.Sessions.State.{RawUuid, uuid, validate_uuid}
use egyptian_arabic_annotati.Drafts.State.{session, passing, admin_session_invalid}
use egyptian_arabic_annotati.Drafts.Once.{passing-ok}
use egyptian_arabic_annotati.CrossCheck.Admin.{
  World, Action, begun, AdminAction, ActionType, AdminSession, is_none, unfinished,
  begin_admin_action,
}
use egyptian_arabic_annotati.CrossCheck.Lifecycle.Open.{out_eq}

-- A session of the administration that is in force.
abbrev pub InForce : (now : ℕ) → AdminSession → Type 0
InForce now admin =
    (admin.revoked_at ≡ none) × (now < admin.idle_expires_at) × (now < admin.absolute_expires_at)

in_force :
    (now : ℕ) (admin : AdminSession)
    → not (
        is_none admin.revoked_at
        && (ltb now admin.idle_expires_at && ltb now admin.absolute_expires_at))
      ≡ false
    → InForce now admin
in_force now admin e = (ground arith, ground arith, ground arith)

module _ (action_id now : ℕ) (admin_session_id : RawUuid) (operation_id : ℕ)
    (action_type : ActionType) (reason request_hash : ℕ) (world : World) where
  -- A new action: its row, and the session of the administration that it is under.
  pub record Begins (action : Action) : Type 0 where
    pub row : AdminAction
    pub is_begun : action ≡ begun row
    pub same_id : row.id ≡ action_id
    pub same_operation : row.operation_id ≡ operation_id
    pub session_id : ℕ
    pub admin : AdminSession
    pub session_named : validate_uuid admin_session_id ≡ ok session_id
    pub session_row : world.admin_sessions session_id ≡ some admin
    pub session_in_force : InForce now admin

  pub begin-Begins :
      {action : Action}
      → world.admin_actions operation_id ≡ none
      → begin_admin_action action_id now admin_session_id
          (uuid operation_id)
          action_type
          reason
          request_hash
          world
        ≡ ok action
      → Begins action
  unfolding begin_admin_action validate_uuid passing
  begin-Begins new e =
      let (session_id, named, e1) = bind-ok (passing session (validate_uuid admin_session_id)) e in
      let (admin, there, e2) =
        bind-ok (or_raise (world.admin_sessions session_id) admin_session_invalid) (rw new at e1) in
      let (valid, e3) =
        raise_if-ok
          (not (
            is_none admin.revoked_at
            && (ltb now admin.idle_expires_at && ltb now admin.absolute_expires_at)))
          admin_session_invalid e2 in
      record {
        row = record {
          id = action_id;
          operation_id = operation_id;
          admin_session_id = session_id;
          admin_key_id = admin.key_id;
          action_type = action_type;
          reason = reason;
          request_hash = request_hash;
          summary = unfinished;
        };
        is_begun = sym (out_eq e3);
        same_id = refl;
        same_operation = refl;
        session_id = session_id;
        admin = admin;
        session_named = passing-ok session (validate_uuid admin_session_id) named;
        session_row = or_raise-ok (world.admin_sessions session_id) admin_session_invalid there;
        session_in_force = in_force now admin valid;
      }
